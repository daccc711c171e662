-- ===== src/Routing/Select/Weighted.antt =====
-- The weighted selection takes a candidate of least score, and one whenever a weight is positive.
use mathlib.Core.List.{Memᴰ}
use mathlib.Core.Option
use mathlib.Core.Option.{none-ne-some}
use pi_multi_orchestrator.Prelude.{
  ℕ, ◌≤◌, ◌≡◌, refl, ◌⊎◌, inl, inr, Option, none, some, List, [], ◌∷◌, ltb, String, arith, subst,
  ap, sym, ◌∙◌, Bool-cases, Option-cases,
}
use pi_multi_orchestrator.Routing.Select.{
  Host, Best, positive_weight, consider, weighted_from, select_weighted_route, ◌++ˢ◌,
}
use pi_multi_orchestrator.Routing.Request.{RoutingCandidate}

module _ (host : Host) (key : String) where
  -- The score of a candidate of positive weight.
  abbrev pub score_of : RoutingCandidate → ℕ → ℕ
  score_of c weight = host.score (key ++ˢ ":" ++ˢ c.route_id) weight

  -- `best` is a candidate of positive weight from the list, with its score.
  pub record IsScored (candidates : List RoutingCandidate) (c : RoutingCandidate) (least : ℕ)
      : Type 0 where
    pub listed : Memᴰ c candidates
    pub weight : ℕ
    pub positive : positive_weight host c.weight ≡ some weight
    pub scored : least ≡ score_of c weight

  abbrev considered : Best → RoutingCandidate → Best
  considered best x = consider host best x key (positive_weight host x.weight)

  -- One round: what the new best is, that it is not worse, and that nothing is forgotten.
  consider-origin :
      (best : Best) (x c : RoutingCandidate) (p : Option ℕ) (n : ℕ)
      → consider host best x key p ≡ some (c, n)
      → (best ≡ some (c, n)) ⊎ ((w : ℕ) × (p ≡ some w) × (c ≡ x) × (n ≡ score_of x w))
  consider-origin best x c none n h = inl h
  consider-origin none x c (some w) n h = inr (w, refl, ground arith, ground arith)
  consider-origin (some (b, m)) x c (some w) n h = elim (Bool-cases (ltb (score_of x w) m)) [
    | inl lt ↦ inr (w, refl, ground arith, ground arith)
    | inr ge ↦ inl (ground arith)
  ]

  AtMost : Best → ℕ → Type 0
  AtMost best m = (c : RoutingCandidate) × (n : ℕ) × (best ≡ some (c, n)) × (n ≤ m)

  consider-keeps :
      (best : Best) (x : RoutingCandidate) (p : Option ℕ) (m : ℕ)
      → AtMost best m
      → AtMost (consider host best x key p) m
  unfolding AtMost
  consider-keeps best x none m h = h
  consider-keeps none x (some w) m (c, n, e, le) = cc
  consider-keeps (some (b, k)) x (some w) m (c, n, e, le) =
      elim (Bool-cases (ltb (score_of x w) k)) [
        | inl lt ↦ (x, score_of x w, rw lt, ground arith)
        | inr ge ↦ (b, k, rw ge, ground arith)
      ]

  consider-takes :
      (best : Best) (x : RoutingCandidate) (w : ℕ)
      → AtMost (consider host best x key (some w)) (score_of x w)
  unfolding AtMost
  consider-takes none x w = (x, score_of x w, refl, omega arith)
  consider-takes (some (b, k)) x w = elim (Bool-cases (ltb (score_of x w) k)) [
    | inl lt ↦ (x, score_of x w, rw lt, omega arith)
    | inr ge ↦ (b, k, rw ge, ground arith)
  ]

  weighted_from-keeps :
      (best : Best) (xs : List RoutingCandidate) (m : ℕ)
      → AtMost best m
      → AtMost (weighted_from host best xs key) m
  unfolding weighted_from
  weighted_from-keeps best [] m h = h
  weighted_from-keeps best (x ∷ xs) m h =
      weighted_from-keeps (considered best x) xs m
        (consider-keeps best x (positive_weight host x.weight) m h)

  weighted_from-takes :
      (best : Best) {x : RoutingCandidate} (xs : List RoutingCandidate) (w : ℕ)
      → Memᴰ x xs
      → positive_weight host x.weight ≡ some w
      → AtMost (weighted_from host best xs key) (score_of x w)
  unfolding weighted_from
  weighted_from-takes best [] w m p = elim m [ ]
  weighted_from-takes best {x} (y ∷ ys) w (Memᴰ.head e) p =
      weighted_from-keeps (considered best y) ys (score_of x w)
        (subst (λ z. AtMost (considered best z) (score_of x w)) e (rw p (consider-takes best x w)))
  weighted_from-takes best (y ∷ ys) w (Memᴰ.tail m) p =
      weighted_from-takes (considered best y) ys w m p

  weighted_from-origin :
      (best : Best) (xs : List RoutingCandidate) (c : RoutingCandidate) (n : ℕ)
      → weighted_from host best xs key ≡ some (c, n)
      → (best ≡ some (c, n)) ⊎ IsScored xs c n
  unfolding weighted_from
  weighted_from-origin best [] c n h = inl h
  weighted_from-origin best (x ∷ xs) c n h =
      elim (weighted_from-origin (considered best x) xs c n h) [
        | inr s ↦ inr (record {
          listed = Memᴰ.tail s.listed;
          weight = s.weight;
          positive = s.positive;
          scored = s.scored;
        })
        | inl e ↦ elim (consider-origin best x c (positive_weight host x.weight) n e) [
          | inl b ↦ inl b
          | inr (w, p, same, score) ↦ inr (record {
            listed = Memᴰ.head same;
            weight = w;
            positive = rw same p;
            scored = rw same score;
          })
        ]
      ]

module _ (host : Host) (candidates : List RoutingCandidate) (key : String) where
  abbrev pub IsLeast : RoutingCandidate → ℕ → Type 0
  IsLeast c n =
      (x : RoutingCandidate) (v : ℕ)
      → Memᴰ x candidates
      → positive_weight host x.weight ≡ some v
      → n ≤ score_of host key x v

  some_weighted :
      (best : Best) (c : RoutingCandidate)
      → Option.map (λ b. b.0) best ≡ some c
      → (n : ℕ) × (best ≡ some (c, n))
  some_weighted none c h = cc
  some_weighted (some (b, n)) c h = (n, ground arith)

  IsLeast-of_result :
      (c : RoutingCandidate) (n : ℕ)
      → weighted_from host none candidates key ≡ some (c, n)
      → IsLeast c n
  unfolding AtMost
  IsLeast-of_result c n h x v m p =
      let (d, k, e, le) = weighted_from-takes host key none candidates v m p in ground arith

  -- The weighted selection returns a candidate of the list whose weight is a positive safe
  -- integer, and whose score is the least among those of all such candidates.
  pub select_weighted_route-IsLeast :
      (c : RoutingCandidate)
      → select_weighted_route host candidates key ≡ some c
      → (n : ℕ) × IsScored host key candidates c n × IsLeast c n
  unfolding select_weighted_route
  select_weighted_route-IsLeast c h =
      let (n, e) = some_weighted (weighted_from host none candidates key) c h in
      (n, scored n e (weighted_from-origin host key none candidates c n e), IsLeast-of_result c n e)
    where
      scored :
          (n : ℕ)
          → weighted_from host none candidates key ≡ some (c, n)
          → (◌≡◌ {A = Best} none (some (c, n))) ⊎ IsScored host key candidates c n
          → IsScored host key candidates c n
      scored n e (inl bad) = cc
      scored n e (inr s) = s

  -- It returns nothing exactly when no candidate has a positive safe weight.
  pub select_weighted_route-eq-none :
      select_weighted_route host candidates key ≡ none
      → (x : RoutingCandidate) → Memᴰ x candidates
      → positive_weight host x.weight ≡ none
  unfolding select_weighted_route AtMost
  select_weighted_route-eq-none h x m = elim (Option-cases (positive_weight host x.weight)) [
    | inl e ↦ e
    | inr (v, p) ↦
        let (d, k, e, le) = weighted_from-takes host key none candidates v m p in
        absurd (none-ne-some _ (sym h ∙ ap (Option.map (λ b. b.0)) e))
  ]
