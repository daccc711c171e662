-- ===== src/Routing/Select/Outcome.antt =====
-- Where the selected pair of a candidate and its evaluation comes from.
use mathlib.Core.List.{Memᴰ}
use mathlib.Core.List.Memᴰ
use mathlib.Core.Option.{none-ne-some}
use pi_multi_orchestrator.Prelude.{
  ℕ, ◌≡◌, refl, ◌⊎◌, inl, inr, true, not, Option, none, some, List, [], ◌∷◌, map, ◌===◌, or_else,
  nat, arith, sym, ◌∙◌, subst, Bool-cases, first, mem-filter, filter-mem, find?-eq-some,
  find?-eq-none, mem-sort, sort-mem, trunc, ===_refl, false≢true,
}
use pi_multi_orchestrator.Routing.Select.{
  Host, Evaluated, positive_weight, select_weighted_route, evaluate, evaluated, eligible_routes,
  preferred_routes, choose, chosen, by_position, mode_of, policy_of, prefers, weighted_selection,
  find_route, key_of,
}
use pi_multi_orchestrator.Routing.Eligibility.{
  evaluate_candidate, same_pool, has_diversity_conflict,
}
use pi_multi_orchestrator.Routing.Request.{
  RoutingCandidate, RoutingRequest, SchedulingPolicy, priority, weighted,
}
use pi_multi_orchestrator.Routing.Select.Eligible.{
  IsReady, IsRotatable, evaluate_candidate-eligible_iff,
}
use pi_multi_orchestrator.Routing.Select.Weighted.{
  select_weighted_route-IsLeast, select_weighted_route-eq-none,
}

-- A candidate that the request's filters let through.
abbrev pub IsReadyFor : RoutingRequest → RoutingCandidate → Type 0
IsReadyFor r c =
    IsReady c r.now r.attempted_route_ids r.excluded_route_ids r.diversity (mode_of r) (policy_of r)

pub evaluate-conflict :
    (r : RoutingRequest) (c : RoutingCandidate)
    → (evaluate r c).diversity_conflict ≡ has_diversity_conflict c r.diversity
unfolding evaluate_candidate
evaluate-conflict r c = refl

pub first-mem {ℓ} : {A : Type ℓ} {a : A} (xs : List A) → first xs ≡ some a → Memᴰ a xs
first-mem [] h = absurd (none-ne-some _ h)
first-mem {a} (x ∷ xs) h = let e : a ≡ x = cc in Memᴰ.head e

module _ (host : Host) (r : RoutingRequest) where
  pub record Stems (p : Evaluated) : Type 0 where
    pub listed : Memᴰ p.0 r.candidates
    pub in_pool : same_pool p.0.pool_id r.pool_id ≡ true
    pub evaluation : p.1 ≡ evaluate r p.0

  pub mem-evaluated : (p : Evaluated) → Memᴰ p (evaluated host r) → Stems p
  unfolding evaluated
  mem-evaluated p m =
      let (c, n, e) = Memᴰ.of_map (λ c. (c, evaluate r c)) _ m in
      let (listed, pool) =
        mem-filter (λ c. same_pool c.pool_id r.pool_id) r.candidates
          (mem-sort (by_position host) _ n) in
      subst Stems e (record { listed = listed; in_pool = pool; evaluation = refl })

  pub evaluated-mem :
      (c : RoutingCandidate)
      → Memᴰ c r.candidates
      → same_pool c.pool_id r.pool_id ≡ true
      → Memᴰ (c, evaluate r c) (evaluated host r)
  unfolding evaluated
  evaluated-mem c m e =
      Memᴰ.map (λ c. (c, evaluate r c))
        (sort-mem (by_position host) _
          (filter-mem (λ c. same_pool c.pool_id r.pool_id) r.candidates m e))

  find_route-mem :
      (o : Option RoutingCandidate) (p : Evaluated) (pairs : List Evaluated)
      → find_route host r o pairs ≡ some p
      → Memᴰ p pairs
  find_route-mem none p pairs h = absurd (none-ne-some _ h)
  find_route-mem (some c) p pairs h = (find?-eq-some (λ q. q.0.route_id === c.route_id) pairs h).0

  pub choose-mem :
      (policy : SchedulingPolicy) (p : Evaluated) (pairs : List Evaluated)
      → choose host r policy pairs ≡ some p
      → Memᴰ p pairs
  unfolding weighted_selection
  choose-mem priority p pairs h = first-mem pairs h
  choose-mem weighted p pairs h = find_route-mem _ p pairs h

  -- A pool's rotation finds a route whenever one has a positive weight.
  find_route-eq-none :
      (pairs : List Evaluated) (o : Option RoutingCandidate) (p : Evaluated) (v : ℕ)
      → select_weighted_route host (map (λ e. e.0) pairs) (key_of host r) ≡ o
      → find_route host r o pairs ≡ none
      → Memᴰ p pairs
      → ¬ (positive_weight host p.0.weight ≡ some v)
  find_route-eq-none pairs none p v e h m w = absurd (
      none-ne-some _
        (sym (select_weighted_route-eq-none host _ _ e p.0 (Memᴰ.map (λ e. e.0) m)) ∙ w))
  find_route-eq-none pairs (some c) p v e h m w =
      let (n, scored, least) = select_weighted_route-IsLeast host _ _ c e in
      let (q, listed, same) = Memᴰ.of_map (λ (e : Evaluated). e.0) pairs scored.listed in
      absurd (
        false≢true (
          sym (find?-eq-none (λ q. q.0.route_id === c.route_id) pairs h listed)
          ∙ rw same (===_refl c.route_id)))

  IsRotatable-positive :
      (c : RoutingCandidate)
      → IsRotatable c r.now
      → (v : ℕ) × (positive_weight host c.weight ≡ some v)
  IsRotatable-positive c h = (
    trunc (or_else c.weight (nat 1)),
    rw (h.weight_safe, h.weight_sign) (ground (arith, h.weight_pos)),
  )

  pub choose-eq-none :
      (policy : SchedulingPolicy) (p : Evaluated) (pairs : List Evaluated)
      → (policy ≡ weighted → IsRotatable p.0 r.now)
      → choose host r policy pairs ≡ none
      → ¬ Memᴰ p pairs
  unfolding weighted_selection
  choose-eq-none priority p [] h e m = elim m [ ]
  choose-eq-none priority p (x ∷ xs) h e m = none-ne-some _ (sym e)
  choose-eq-none weighted p pairs h e m =
      let (v, w) = IsRotatable-positive p.0 (h refl) in find_route-eq-none pairs _ p v refl e m w

  pub ready-eligible :
      (c : RoutingCandidate)
      → Memᴰ c r.candidates
      → same_pool c.pool_id r.pool_id ≡ true
      → IsReadyFor r c
      → Memᴰ (c, evaluate r c) (eligible_routes host r)
  unfolding eligible_routes
  ready-eligible c m e h =
      filter-mem (λ p. p.1.eligible) _ (evaluated-mem c m e)
        ((evaluate_candidate-eligible_iff c r.now r.attempted_route_ids r.excluded_route_ids
            r.diversity (mode_of r) (policy_of r)).1
          h)

  pub eligible-ready :
      (p : Evaluated) → Memᴰ p (eligible_routes host r) → Stems p × IsReadyFor r p.0
  unfolding eligible_routes
  eligible-ready p m =
      let (n, e) = mem-filter (λ p. p.1.eligible) _ m in
      let s = mem-evaluated p n in
      (
        s,
        (evaluate_candidate-eligible_iff p.0 r.now r.attempted_route_ids r.excluded_route_ids
              r.diversity (mode_of r) (policy_of r)).0
            (rw s.evaluation at e),
      )

  pub preferred-eligible :
      (p : Evaluated) → Memᴰ p (preferred_routes host r) → Memᴰ p (eligible_routes host r)
  unfolding preferred_routes
  preferred-eligible p m = elim (Bool-cases (prefers (mode_of r))) [
    | inl t ↦ (mem-filter (λ e. not e.1.diversity_conflict) _ (rw t at m)).0
    | inr f ↦ rw f at m
  ]

  -- The chosen pair comes from the preferred ones, or, when there are none, from all eligible.
  pub chosen-cases :
      (p : Evaluated)
      → chosen host r ≡ some p
      → (choose host r (policy_of r) (preferred_routes host r) ≡ some p)
        ⊎ ((choose host r (policy_of r) (preferred_routes host r) ≡ none)
            × (prefers (mode_of r) ≡ true)
            × (choose host r (policy_of r) (eligible_routes host r) ≡ some p))
  unfolding chosen
  chosen-cases p h = ground arith

  pub chosen-eligible : (p : Evaluated) → chosen host r ≡ some p → Memᴰ p (eligible_routes host r)
  chosen-eligible p h = elim (chosen-cases p h) [
    | inl e ↦ preferred-eligible p (choose-mem (policy_of r) p _ e)
    | inr (e, t, f) ↦ choose-mem (policy_of r) p _ f
  ]
