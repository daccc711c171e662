-- ===== src/Workers/Executor/Runs/Limits.antt =====
-- src/core/workers/executor.ts: how often a route is tried, and how long a run lasts.
use pi_multi_orchestrator.Prelude.{
  ℕ, suc, ◌+◌, ◌≤◌, ◌<◌, ◌≡◌, refl, sym, ◌∙◌, subst, inl, inr, false, some, List, [], ◌∷◌, ◌++◌,
  String, ◌===◌, eq_iff, ===_refl, if◌then◌else◌, includes, Bool-cases, arith, get,
}
use pi_multi_orchestrator.Routing.Chain.{RoutingPolicy, create_attempt_chain}
use pi_multi_orchestrator.Routing.Chain.Bounds.{
  failures, IsConsistent, failures-record_step, retry-lt-max_attempts, record_attempt-IsConsistent,
  create-IsConsistent,
}
use pi_multi_orchestrator.Routing.Request.{RoutingRequest}
use pi_multi_orchestrator.Routing.Select.Guarantees.{select_route-IsSelection}
use pi_multi_orchestrator.Workers.Executor.{
  SubagentAttempt, SubagentRunResult, HealthReport, World, ExecutionRequest, Progress, Step,
}
use pi_multi_orchestrator.Workers.Executor.Loop.{start, execute}
use pi_multi_orchestrator.Workers.Executor.Follows.{GoesOn, GoesOn-retry, over, onward}
use pi_multi_orchestrator.Workers.Executor.Rounds.{
  Starts, anew, retried, Supplies, RoundOf, idle, tries, round-RoundOf,
}
use pi_multi_orchestrator.Workers.Executor.Runs.{StepHolds, execute-rule}

-- How many attempts were made on a route.
abbrev pub attempts_on : String → List SubagentAttempt → ℕ
attempts_on id [] = 0
attempts_on id (a ∷ rest) =
    if a.route_id === id then suc (attempts_on id rest) else attempts_on id rest

attempts_on-snoc :
    (id : String) (xs : List SubagentAttempt) (a : SubagentAttempt)
    → attempts_on id (xs ++ a ∷ [])
      ≡ (if a.route_id === id then attempts_on id xs + 1 else attempts_on id xs)
attempts_on-snoc id [] a = ground arith
attempts_on-snoc id (x ∷ xs) a = ground (arith, attempts_on-snoc id xs a)

-- Every policy that the adapter supplies allows at most so many attempts on a route.
abbrev pub AllowsAtMost : ℕ → World → Type 0
AllowsAtMost limit world =
    (n : ℕ) (attempted : List String) (r : RoutingRequest) (policy : RoutingPolicy)
    → world.routing_request n attempted ≡ some (r, policy)
    → policy.max_attempts ≤ limit

pub record IsSound (limit : ℕ) (p : Progress) : Type 0 where
  pub consistent : IsConsistent p.chain
  pub counted : (id : String) → attempts_on id p.attempts ≡ failures id p.chain
  pub bounded : (id : String) → failures id p.chain ≤ limit
  pub retriable : (id : String) → p.current_route_id ≡ some id → failures id p.chain < limit

attempts_step :
    (p : Progress) (id other : String) (a : SubagentAttempt)
    → attempts_on other p.attempts ≡ failures other p.chain
    → a.route_id ≡ id
    → attempts_on other (p.attempts ++ a ∷ [])
      ≡ (if id === other then failures other p.chain + 1 else failures other p.chain)
attempts_step p id other a same on =
    let counted = attempts_on-snoc other p.attempts a in rw (counted, on, same) refl

module _ (limit : ℕ) (positive : 1 ≤ limit) (world : World) (request : ExecutionRequest)
    (allows : AllowsAtMost limit world) (p : Progress) where
  -- Before an attempt, the route has failed less often than the limit.
  pub failures-lt :
      (r : RoutingRequest) (policy : RoutingPolicy) (id : String)
      → IsSound limit p
      → Supplies world request p r policy
      → Starts world.host r p.current_route_id id
      → failures id p.chain < limit
  failures-lt r policy id sound s (retried e) = sound.retriable id e
  failures-lt r policy id sound s (anew selection e same) =
      let found = select_route-IsSelection world.host r selection e in
      let untried : includes p.chain.attempted_route_ids id ≡ false =
        subst (λ key. includes p.chain.attempted_route_ids key ≡ false) (sym found.route ∙ same)
          (subst
            (λ (r : RoutingRequest).
              includes r.attempted_route_ids found.candidate.route_id ≡ false)
            (sym s.completed_as) found.ready.untried) in
      ground (arith, sound.consistent.counted id)

  once_more :
      (id other : String)
      → failures id p.chain < limit
      → failures other p.chain ≤ limit
      → (if id === other then failures other p.chain + 1 else failures other p.chain) ≤ limit
  once_more id other below h = elim (Bool-cases (id === other)) [
    | inl here ↦
        let below' = subst (λ key. failures key p.chain < limit) ((eq_iff id other).0 here) below in
        rw here (omega arith)
    | inr apart ↦ rw apart h
  ]

  pub GoesOn-IsSound :
      (r : RoutingRequest) (policy : RoutingPolicy) (id : String) (q : Progress)
      → IsSound limit p
      → Supplies world request p r policy
      → failures id p.chain < limit
      → GoesOn p id policy q
      → IsSound limit q
  GoesOn-IsSound r policy id q sound s below g = record {
    consistent =
        rw g.chain (record_attempt-IsConsistent p.chain id (some g.failure) sound.consistent);
    counted = λ other.
        rw
          (
            g.attempts,
            g.chain,
            attempts_step p id other g.attempt (sound.counted other) g.on_route,
            failures-record_step p.chain other id g.failure,
          )
          refl;
    bounded = λ other.
        rw (g.chain, failures-record_step p.chain other id g.failure)
          (once_more id other below (sound.bounded other));
    retriable = λ other e.
        let (here, again_same) = GoesOn-retry g other e in
        subst (λ key. failures key q.chain < limit) here
          (rw (g.chain, failures-record_step p.chain id id g.failure, ===_refl id)
            (omega (
              arith,
              retry-lt-max_attempts p.chain id g.failure g.decided policy
                  (rw g.chain at again_same),
              allows p.round p.chain.attempted_route_ids s.supplied policy s.there,
            )));
  }

  IsSound-round :
      (step : Step)
      → IsSound limit p
      → RoundOf world request p step
      → StepHolds world request
          (IsSound limit)
          (λ result. (id : String) → attempts_on id result.attempts ≤ limit)
          step
  IsSound-round step h (idle result calls e same) =
      rw (e, same) λ id. rw (h.counted id) (h.bounded id)
  IsSound-round step h (tries r policy id s starts (over a result calls e more on)) =
      rw (e, more)
        λ other.
          rw (attempts_step p id other a (h.counted other) on)
            (once_more id other (failures-lt r policy id h s starts) (h.bounded other))
  IsSound-round step h (tries r policy id s starts (onward q e g)) =
      rw e (GoesOn-IsSound r policy id q h s (failures-lt r policy id h s starts) g)

pub start-IsSound :
    (limit : ℕ) (world : World) (request : ExecutionRequest) → IsSound limit (start world request)
unfolding create_attempt_chain get
start-IsSound limit world request = record {
  consistent = create-IsConsistent request.pool_id (world.clock 0);
  counted = λ id. refl;
  bounded = λ id. omega arith;
  retriable = λ id e. absurd (cc);
}

-- In a run, no route is tried more often than the largest number of attempts that a policy supplied to
-- it allows, or once if that is 0: retries, fallbacks and retries after a fallback taken together.
pub execute-attempts_le :
    (limit : ℕ)
    → 1 ≤ limit
    → (world : World) (request : ExecutionRequest) → AllowsAtMost limit world
    → (fuel : ℕ) (result : SubagentRunResult) (calls : List HealthReport)
    → execute world request fuel (start world request) ≡ some (result, calls)
    → (id : String) → attempts_on id result.attempts ≤ limit
execute-attempts_le limit positive world request allows fuel result calls e =
    execute-rule world request (IsSound limit)
      (λ result. (id : String) → attempts_on id result.attempts ≤ limit)
      (λ p h.
        IsSound-round limit positive world request allows p _ h (round-RoundOf world request p))
      fuel (start world request) result calls (start-IsSound limit world request) e
