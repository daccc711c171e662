-- ===== src/Routing/Select/Guarantees.antt =====
-- What `selectRoute` guarantees, whichever the scheduling policy.
use mathlib.Core.List.{Memᴰ}
use pi_multi_orchestrator.Prelude.{
  ◌≡◌, refl, ◌↔◌, ◌⊎◌, inl, inr, true, Option, none, some, arith, ◌∙◌, ap, Bool-cases, Option-cases,
}
use pi_multi_orchestrator.Routing.Select.{
  Host, Evaluated, evaluate, eligible_routes, preferred_routes, choose, chosen, select_route,
  decision, mode_of, policy_of, prefers,
}
use pi_multi_orchestrator.Routing.Eligibility.{same_pool, has_diversity_conflict}
use pi_multi_orchestrator.Routing.Request.{
  RoutingCandidate, RoutingRequest, SchedulingPolicy, SelectedRoute, NoEligibleRoute, selected,
  no_eligible_route,
}
use pi_multi_orchestrator.Routing.Select.Outcome.{
  IsReadyFor, evaluate-conflict, choose-eq-none, ready-eligible, eligible-ready, chosen-eligible,
}

module _ (host : Host) (r : RoutingRequest) where
  pub decision-selected :
      (o : Option Evaluated) (s : SelectedRoute)
      → decision host r o ≡ selected s
      → (p : Evaluated) × (o ≡ some p)
        × (s.route_id ≡ p.0.route_id)
        × (s.pool_position ≡ p.0.pool_position)
        × (s.conflict ≡ p.1.diversity_conflict)
  decision-selected none s h = cc
  decision-selected (some (c, e)) s h = ((c, e), refl, ground arith, ground arith, ground arith)

  -- What a selection has found: a listed candidate of the pool that is ready.
  pub record IsSelection (s : SelectedRoute) : Type 0 where
    pub candidate : RoutingCandidate
    pub listed : Memᴰ candidate r.candidates
    pub in_pool : same_pool candidate.pool_id r.pool_id ≡ true
    pub route : s.route_id ≡ candidate.route_id
    pub position : s.pool_position ≡ candidate.pool_position
    pub conflict : s.conflict ≡ has_diversity_conflict candidate r.diversity
    pub ready : IsReadyFor r candidate

  -- A selected route is a candidate of the requested pool that is ready: enabled, present, not
  -- tried or excluded, not cooling down or being probed, free of a conflict with a required
  -- diversity, and under Weighted Rotation fresh, closed and of positive weight.
  pub select_route-IsSelection :
      (s : SelectedRoute) → select_route host r ≡ selected s → IsSelection s
  unfolding select_route
  select_route-IsSelection s h =
      let (p, e, route, position, conflict) = decision-selected (chosen host r) s h in
      let (stems, ready) = eligible-ready host r p (chosen-eligible host r p e) in
      record {
        candidate = p.0;
        listed = stems.listed;
        in_pool = stems.in_pool;
        route = route;
        position = position;
        conflict =
            conflict ∙ ap (λ e. e.diversity_conflict) stems.evaluation ∙ evaluate-conflict r p.0;
        ready = ready;
      }

  pub decision-none :
      (o : Option Evaluated) (n : NoEligibleRoute)
      → decision host r o ≡ no_eligible_route n
      → o ≡ none
  decision-none none n h = refl
  decision-none (some (c, e)) n h = cc

  chosen-eq-none :
      (policy : SchedulingPolicy)
      → chosen host r ≡ none
      → (choose host r (policy_of r) (preferred_routes host r) ≡ none)
        × ((prefers (mode_of r) ≡ true)
            → choose host r (policy_of r) (eligible_routes host r) ≡ none)
  unfolding chosen
  chosen-eq-none policy h = ground arith

  eligible-chosen :
      (c : RoutingCandidate)
      → Memᴰ (c, evaluate r c) (eligible_routes host r)
      → IsReadyFor r c
      → ¬ (chosen host r ≡ none)
  unfolding preferred_routes
  eligible-chosen c m ready e = elim (Bool-cases (prefers (mode_of r))) [
    | inl t ↦
        choose-eq-none host r (policy_of r) (c, evaluate r c) _ ready.rotatable
          ((chosen-eq-none (policy_of r) e).1 t) m
    | inr f ↦
        choose-eq-none host r (policy_of r) (c, evaluate r c) _ ready.rotatable
          (chosen-eq-none (policy_of r) e).0 (rw f m)
  ]

  -- A pool has no eligible route exactly when none of its candidates is ready: under both
  -- scheduling policies and every diversity mode a ready route is never passed over.
  pub select_route-no_eligible_iff :
      ((n : NoEligibleRoute) × (select_route host r ≡ no_eligible_route n)) ↔ (
        (c : RoutingCandidate)
        → Memᴰ c r.candidates
        → same_pool c.pool_id r.pool_id ≡ true
        → ¬ IsReadyFor r c)
  unfolding select_route
  select_route-no_eligible_iff = (
    λ (n, e) c m p ready.
        eligible-chosen c (ready-eligible host r c m p ready) ready
          (decision-none (chosen host r) n e),
    λ h. none_ready h (Option-cases (chosen host r)),
  )
    where
      none_ready :
          ((c : RoutingCandidate)
            → Memᴰ c r.candidates
            → same_pool c.pool_id r.pool_id ≡ true
            → ¬ IsReadyFor r c)
          → (chosen host r ≡ none) ⊎ ((p : Evaluated) × (chosen host r ≡ some p))
          → (n : NoEligibleRoute) × (decision host r (chosen host r) ≡ no_eligible_route n)
      none_ready h (inl e) = (_, ap (decision host r) e)
      none_ready h (inr (p, e)) =
          let (stems, ready) = eligible-ready host r p (chosen-eligible host r p e) in
          absurd (h p.0 stems.listed stems.in_pool ready)
