-- ===== src/Workers/Executor/Follows.antt =====
-- src/core/workers/executor.ts: what follows an attempt.
use pi_multi_orchestrator.Prelude.{
  some-injective, ◌≡◌, refl, sym, ap, ◌∙◌, ◌⊎◌, inl, inr, true, false, Option, none, some, List, [],
  ◌∷◌, ◌++◌, String, is_some, arith,
}
use pi_multi_orchestrator.Routing.Failure.{
  FailureClassification, FailureAction, retry_same_route, fallback_next_route, stop,
}
use pi_multi_orchestrator.Routing.Chain.{RoutingPolicy, record_attempt, next_after_failure}
use pi_multi_orchestrator.Workers.Attempt.{
  SingleAttempt, AttemptOutcome, completed, invalid_child_result, protocol_violation, cancelled,
  timed_out, infrastructure_failure, child_runtime_error,
}
use pi_multi_orchestrator.Workers.Attempt.Timeout.{IsTimed}
use pi_multi_orchestrator.Workers.Executor.{
  TerminalStatus, SubagentAttempt, SubagentRunResult, HealthReport, World, Progress, Step, finished,
  again,
}
use pi_multi_orchestrator.Workers.Executor.Loop.{
  recorded_failure, decided_failure, ended_with, unless_mutated, attempt_of, health_calls_of,
  follow_action, settle, after_attempt,
}

-- What follows an attempt that the run goes on after.
pub record GoesOn (p : Progress) (id : String) (policy : RoutingPolicy) (q : Progress)
    : Type 0 where
  pub attempt : SubagentAttempt
  pub failure : FailureClassification
  pub decided : FailureClassification
  pub attempts : q.attempts ≡ p.attempts ++ attempt ∷ []
  pub on_route : attempt.route_id ≡ id
  pub unmutated : attempt.potential_mutation_observed ≡ false
  pub chain : q.chain ≡ record_attempt p.chain id (some failure)
  pub next :
      (q.current_route_id ≡ none)
      ⊎ ((q.current_route_id ≡ some id)
          × (next_after_failure q.chain decided policy ≡ retry_same_route))

-- After it, the current route is the one that is retried.
pub GoesOn-retry :
    {p q : Progress} {id : String} {policy : RoutingPolicy} (g : GoesOn p id policy q)
    (other : String)
    → q.current_route_id ≡ some other
    → (id ≡ other) × (next_after_failure q.chain g.decided policy ≡ retry_same_route)
GoesOn-retry g other e = elim g.next [
  | inl none_left ↦ absurd (nothing (sym none_left ∙ e))
  | inr (same, again_same) ↦ (some-injective (sym same ∙ e), again_same)
]
  where
    nothing : {a : String} → ◌≡◌ {A = Option String} none (some a) → ⊥
    nothing e = cc

pub data Follows (p : Progress) (id : String) (policy : RoutingPolicy) (step : Step) : Type 0 where
  over :
      (attempt : SubagentAttempt) (result : SubagentRunResult) (calls : List HealthReport)
      → step ≡ finished result calls
      → result.attempts ≡ p.attempts ++ attempt ∷ []
      → attempt.route_id ≡ id
      → Follows p id policy step
  onward : (q : Progress) → step ≡ again q → GoesOn p id policy q → Follows p id policy step

unless_mutated-none :
    (single : SingleAttempt) (status : Option TerminalStatus)
    → unless_mutated single status ≡ none
    → single.potential_mutation ≡ false
unless_mutated-none single status e = ground arith

ended_with-none :
    (single : SingleAttempt) (outcome : AttemptOutcome)
    → ended_with single outcome ≡ none
    → single.potential_mutation ≡ false
ended_with-none single completed e = ground arith
ended_with-none single invalid_child_result e = unless_mutated-none single _ e
ended_with-none single protocol_violation e = unless_mutated-none single _ e
ended_with-none single cancelled e = unless_mutated-none single _ e
ended_with-none single timed_out e = unless_mutated-none single _ e
ended_with-none single infrastructure_failure e = unless_mutated-none single _ e
ended_with-none single child_runtime_error e = unless_mutated-none single _ e

given : {A : Type 0} (o : Option A) → is_some o ≡ true → (a : A) × (o ≡ some a)
given none e = absurd (cc)
given (some a) e = (a, refl)

-- A failure that is decided on was recorded.
decided_recorded :
    (world : World) (single : SingleAttempt) (f : FailureClassification)
    → IsTimed single
    → decided_failure world single ≡ some f
    → (g : FailureClassification) × (recorded_failure single ≡ some g)
decided_recorded world single f timed e = given (recorded_failure single) (ground arith)

module _ (world : World) (policy : RoutingPolicy) (p : Progress) (id : String)
    (single : SingleAttempt) where
  follow_action-Follows :
      (q : Progress) (f g : FailureClassification) (action : FailureAction)
      → q.attempts ≡ p.attempts
      → q.chain ≡ record_attempt p.chain id (some g)
      → single.potential_mutation ≡ false
      → next_after_failure q.chain f policy ≡ action
      → Follows p id policy (follow_action world q id single f action)
  follow_action-Follows q f g stop same chain unmutated e =
      over _ _ _ refl (ap (λ xs. xs ++ attempt_of world q id single (some stop) ∷ []) same) refl
  follow_action-Follows q f g retry_same_route same chain unmutated e = onward _ refl (record {
    attempt = attempt_of world q id single (some retry_same_route);
    failure = g;
    decided = f;
    attempts = ap (λ xs. xs ++ attempt_of world q id single (some retry_same_route) ∷ []) same;
    on_route = refl;
    unmutated = unmutated;
    chain = chain;
    next = inr (refl, e);
  })
  follow_action-Follows q f g fallback_next_route same chain unmutated e = onward _ refl (record {
    attempt = attempt_of world q id single (some fallback_next_route);
    failure = g;
    decided = f;
    attempts = ap (λ xs. xs ++ attempt_of world q id single (some fallback_next_route) ∷ []) same;
    on_route = refl;
    unmutated = unmutated;
    chain = chain;
    next = inl refl;
  })

  settle-Follows :
      (q : Progress) (status : Option TerminalStatus) (failure : Option FailureClassification)
      → ended_with single single.outcome ≡ status
      → decided_failure world single ≡ failure
      → IsTimed single
      → q.attempts ≡ p.attempts
      → q.chain ≡ record_attempt p.chain id (recorded_failure single)
      → Follows p id policy (settle world policy q id single status failure)
  settle-Follows q (some status) failure e d timed same chain =
      over _ _ _ refl (ap (λ xs. xs ++ attempt_of world q id single none ∷ []) same) refl
  settle-Follows q none none e d timed same chain =
      over _ _ _ refl (ap (λ xs. xs ++ attempt_of world q id single none ∷ []) same) refl
  settle-Follows q none (some f) e d timed same chain =
      let (g, there) = decided_recorded world single f timed d in
      follow_action-Follows q f g (next_after_failure q.chain f policy) same
        (chain ∙ ap (record_attempt p.chain id) there) (ended_with-none single single.outcome e)
        refl

  pub after_attempt-Follows :
      (q : Progress)
      → q.attempts ≡ p.attempts
      → q.chain ≡ p.chain
      → IsTimed single
      → Follows p id policy (after_attempt world policy q id single)
  unfolding after_attempt
  after_attempt-Follows q same chain timed =
      settle-Follows
        (record q {
          chain = record_attempt q.chain id (recorded_failure single);
          health_calls = q.health_calls ++ health_calls_of world q id single;
        })
        (ended_with single single.outcome) (decided_failure world single) refl refl timed same
        (ap (λ c. record_attempt c id (recorded_failure single)) chain)
