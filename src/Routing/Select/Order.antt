-- ===== src/Routing/Select/Order.antt =====
-- Which of the ready routes `selectRoute` takes, and when it says to come back.
use mathlib.Core.List.{Memᴰ}
use mathlib.Core.List.Memᴰ
use pi_multi_orchestrator.Prelude.{
  ℕ, ◌≤◌, ◌≡◌, refl, ◌⊎◌, inl, inr, true, false, not, ◌&&◌, Option, none, some, List, [], ◌∷◌, map,
  arith, sym, ◌∙◌, ap, Bool-cases, Option-cases, first, filter, mem-filter, filter-mem, sort,
  mem-sort, sort-mem, Ascending, sort-Ascending, Ascending-map, Ascending-filter, first-le,
  false≢true,
}
use pi_multi_orchestrator.Routing.Select.{
  Host, Evaluated, evaluate, evaluated, raw, eligible_routes, preferred_routes, choose, chosen,
  select_route, decision, by_position, mode_of, policy_of, prefers, stamp_le, retry_times,
}
use pi_multi_orchestrator.Routing.Eligibility.{
  evaluate_candidate, same_pool, has_diversity_conflict, blocking_cooldown, cooldown_of,
}
use pi_multi_orchestrator.Routing.Request.{
  RoutingCandidate, RoutingRequest, CandidateEvaluation, SchedulingPolicy, priority, weighted,
  SelectedRoute, NoEligibleRoute, selected, no_eligible_route,
}
use pi_multi_orchestrator.Routing.Failure.{Stamp}
use pi_multi_orchestrator.Routing.Select.Guarantees.{decision-selected}
use pi_multi_orchestrator.Routing.Select.Outcome.{
  IsReadyFor, evaluate-conflict, evaluated-mem, choose-eq-none, ready-eligible, chosen-cases,
  choose-mem, mem-evaluated, first-mem,
}

by_position-below :
    (host : Host) (x y : RoutingCandidate)
    → by_position host x y ≡ true
    → x.pool_position ≤ y.pool_position
by_position-below host x y h = ground arith

by_position-above :
    (host : Host) (x y : RoutingCandidate)
    → by_position host x y ≡ false
    → y.pool_position ≤ x.pool_position
by_position-above host x y h = ground arith

abbrev position : Evaluated → ℕ
position p = p.0.pool_position

module _ (host : Host) (r : RoutingRequest) where
  choose-priority :
      (policy : SchedulingPolicy) (pairs : List Evaluated) (p : Evaluated)
      → policy ≡ priority
      → choose host r policy pairs ≡ some p
      → first pairs ≡ some p
  choose-priority priority pairs p h e = e
  choose-priority weighted pairs p h e = cc

  eligible-Ascending : Ascending position (eligible_routes host r)
  unfolding eligible_routes evaluated
  eligible-Ascending =
      Ascending-filter position (λ e. e.1.eligible) (evaluated host r)
        (Ascending-map position (λ c. (c, evaluate r c)) (raw host r)
          (sort-Ascending (by_position host) (λ c. c.pool_position) (by_position-below host)
            (by_position-above host) (filter (λ c. same_pool c.pool_id r.pool_id) r.candidates)))

  preferred-Ascending : Ascending position (preferred_routes host r)
  unfolding preferred_routes
  preferred-Ascending = elim (Bool-cases (prefers (mode_of r))) [
    | inl t ↦ rw t (
        Ascending-filter position (λ e. not e.1.diversity_conflict) (eligible_routes host r)
          eligible-Ascending)
    | inr f ↦ rw f eligible-Ascending
  ]

  preferred-conflict :
      (p : Evaluated)
      → prefers (mode_of r) ≡ true
      → Memᴰ p (preferred_routes host r)
      → p.1.diversity_conflict ≡ false
  unfolding preferred_routes
  preferred-conflict p t m =
      let (n, e) =
        mem-filter (λ e. not e.1.diversity_conflict) (eligible_routes host r) (rw t at m) in
      ground arith

  eligible-preferred :
      (c : RoutingCandidate)
      → Memᴰ (c, evaluate r c) (eligible_routes host r)
      → (prefers (mode_of r) ≡ true → has_diversity_conflict c r.diversity ≡ false)
      → Memᴰ (c, evaluate r c) (preferred_routes host r)
  unfolding preferred_routes
  eligible-preferred c m h = elim (Bool-cases (prefers (mode_of r))) [
    | inl t ↦
        rw t (filter-mem (λ e. not e.1.diversity_conflict) _ m (rw (evaluate-conflict r c ∙ h t)))
    | inr f ↦ rw f m
  ]

  -- When diversity is preferred, a route with a conflict is selected only if every ready route of
  -- the pool has one, under both scheduling policies.
  pub select_route-conflict :
      (s : SelectedRoute) (c : RoutingCandidate)
      → prefers (mode_of r) ≡ true
      → select_route host r ≡ selected s
      → s.conflict ≡ true
      → Memᴰ c r.candidates
      → same_pool c.pool_id r.pool_id ≡ true
      → IsReadyFor r c
      → has_diversity_conflict c r.diversity ≡ true
  unfolding select_route
  select_route-conflict s c t h bad m e ready =
      let (p, found, route, position, conflict) = decision-selected host r (chosen host r) s h in
      elim (Bool-cases (has_diversity_conflict c r.diversity)) [
        | inl yes' ↦ yes'
        | inr clear ↦ elim (chosen-cases host r p found) [
          | inl e ↦ absurd (
              false≢true (
                sym (preferred-conflict p t (choose-mem host r (policy_of r) p _ e))
                ∙ sym conflict
                ∙ bad))
          | inr (none_preferred, _, _) ↦ absurd (
              choose-eq-none host r (policy_of r) (c, evaluate r c) _ ready.rotatable none_preferred
                (eligible-preferred c (ready-eligible host r c m e ready) (λ _. clear)))
        ]
      ]

  -- Under Priority the selected route is the first: no ready route of the pool stands before it,
  -- but for those with a conflict, when diversity is preferred and the selected one has none.
  pub select_route-first :
      (s : SelectedRoute) (c : RoutingCandidate)
      → policy_of r ≡ priority
      → select_route host r ≡ selected s
      → Memᴰ c r.candidates
      → same_pool c.pool_id r.pool_id ≡ true
      → IsReadyFor r c
      → (prefers (mode_of r) ≡ true
          → has_diversity_conflict c r.diversity ≡ true
          → s.conflict ≡ true)
      → s.pool_position ≤ c.pool_position
  unfolding select_route
  select_route-first s c by h m e ready k =
      let (p, found, route, place, conflict) = decision-selected host r (chosen host r) s h in
      let listed = ready-eligible host r c m e ready in
      rw place (elim (chosen-cases host r p found) [
        | inl e ↦ elim (Bool-cases (prefers (mode_of r) && has_diversity_conflict c r.diversity)) [
          | inl both ↦ absurd (
              false≢true (
                sym (preferred-conflict p (ground arith) (choose-mem host r (policy_of r) p _ e))
                ∙ sym conflict
                ∙ k (ground arith) (ground arith)))
          | inr either ↦
              first-le position {a = p} (preferred_routes host r) preferred-Ascending
                (choose-priority (policy_of r) _ p by e)
                (eligible-preferred c listed (λ t. ground arith))
        ]
        | inr (_, _, e) ↦
            first-le position {a = p} (eligible_routes host r) eligible-Ascending
              (choose-priority (policy_of r) _ p by e) listed
      ])

mem-retry_times :
    {t : Stamp} (es : List CandidateEvaluation)
    → Memᴰ t (retry_times es)
    → (e : CandidateEvaluation) × Memᴰ e es × (e.retry_at ≡ some t)
mem-retry_times [] m = elim m [ ]
mem-retry_times {t} (e ∷ es) m = from (Option-cases e.retry_at) (mem-retry_times es)
  where
    from :
        (e.retry_at ≡ none) ⊎ ((u : Stamp) × (e.retry_at ≡ some u))
        → (Memᴰ t (retry_times es) → (d : CandidateEvaluation) × Memᴰ d es × (d.retry_at ≡ some t))
        → (d : CandidateEvaluation) × Memᴰ d (e ∷ es) × (d.retry_at ≡ some t)
    from (inl n) rest = let (d, k, h) = rest (rw n at m) in (d, Memᴰ.tail k, h)
    from (inr (u, h)) rest = elim (Memᴰ.cases_cons (rw h at m)) [
      | inl same ↦ (e, Memᴰ.head refl, h ∙ ap some (sym same))
      | inr k ↦ let (d, l, g) = rest k in (d, Memᴰ.tail l, g)
    ]

retry_times-mem :
    {e : CandidateEvaluation} {t : Stamp} (es : List CandidateEvaluation)
    → Memᴰ e es
    → e.retry_at ≡ some t
    → Memᴰ t (retry_times es)
retry_times-mem [] m h = elim m [ ]
retry_times-mem (d ∷ es) (Memᴰ.head same) h =
    rw (sym (ap (λ x. x.retry_at) same) ∙ h) (Memᴰ.head refl)
retry_times-mem (d ∷ es) (Memᴰ.tail m) h = elim (Option-cases d.retry_at) [
  | inl n ↦ rw n (retry_times-mem es m h)
  | inr (u, g) ↦ rw g (Memᴰ.tail (retry_times-mem es m h))
]

evaluate-retry_at :
    (r : RoutingRequest) (c : RoutingCandidate)
    → (evaluate r c).retry_at ≡ blocking_cooldown (cooldown_of c.health) r.now
unfolding evaluate_candidate
evaluate-retry_at r c = refl

module _ (host : Host) (r : RoutingRequest) where
  abbrev pub CoolsUntil : Stamp → RoutingCandidate → Type 0
  CoolsUntil t c =
      Memᴰ c r.candidates
      × (same_pool c.pool_id r.pool_id ≡ true)
      × (blocking_cooldown (cooldown_of c.health) r.now ≡ some t)

  retry_of_evaluated :
      {t : Stamp}
      → Memᴰ t (retry_times (map (λ p. p.1) (evaluated host r)))
      → (c : RoutingCandidate) × CoolsUntil t c
  retry_of_evaluated m =
      let (e, n, at) = mem-retry_times _ m in
      let (p, k, same) = Memᴰ.of_map (λ (p : Evaluated). p.1) (evaluated host r) n in
      let stems = mem-evaluated host r p k in
      (
        p.0,
        (
          stems.listed,
          stems.in_pool,
          sym (evaluate-retry_at r p.0) ∙ ap (λ e. e.retry_at) (sym stems.evaluation ∙ same) ∙ at,
        ),
      )

  decision-earliest :
      (o : Option Evaluated) (n : NoEligibleRoute)
      → decision host r o ≡ no_eligible_route n
      → n.earliest_retry_at
        ≡ first (sort (stamp_le host) (retry_times (map (λ p. p.1) (evaluated host r))))
  decision-earliest none n h = ground arith
  decision-earliest (some (c, e)) n h = cc

  -- The time given for the next try, when no route is eligible, is the end of a cooldown that is still
  -- running of a route of the pool; and among the texts of all such times it stands first, in the order
  -- of texts, by which the source sorts them (in one format, as toISOString has, that is the order of
  -- time).
  pub select_route-earliest :
      (n : NoEligibleRoute) (t : Stamp)
      → select_route host r ≡ no_eligible_route n
      → n.earliest_retry_at ≡ some t
      → ((c : RoutingCandidate) × CoolsUntil t c)
        × ((c : RoutingCandidate) (u : Stamp)
            → CoolsUntil u c
            → host.text_rank t ≤ host.text_rank u)
  unfolding select_route
  select_route-earliest n t h e =
      let times = retry_times (map (λ p. p.1) (evaluated host r)) in
      let found = sym (decision-earliest (chosen host r) n h) ∙ e in
      (
        retry_of_evaluated (mem-sort (stamp_le host) times (first-mem _ found)),
        λ c u (m, p, cooling).
            first-le host.text_rank (sort (stamp_le host) times)
              (sort-Ascending (stamp_le host) host.text_rank (λ x y h. ground arith)
                (λ x y h. ground arith) times)
              found
              (sort-mem (stamp_le host) times (
                retry_times-mem _ (Memᴰ.map (λ p. p.1) (evaluated-mem host r c m p))
                  (evaluate-retry_at r c ∙ cooling))),
      )
