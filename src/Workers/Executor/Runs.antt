-- ===== src/Workers/Executor/Runs.antt =====
-- src/core/workers/executor.ts: the attempts of a run of SubagentExecutor.execute.
pub mod Limits
pub mod Ends
use mathlib.Core.List.{Memᴰ}
use pi_multi_orchestrator.Prelude.{
  ℕ, zero, suc, ◌+◌, ◌≤◌, ◌<◌, ◌≡◌, refl, sym, ap, ◌∙◌, subst, ◌⊎◌, inl, inr, Bool, true, false,
  Option, none, some, List, [], ◌∷◌, ◌++◌, String, ◌===◌, eq_iff, if◌then◌else◌, includes, All,
  All-mem, Bool-cases, arith, get,
}
use pi_multi_orchestrator.Routing.Chain.{RoutingPolicy, record_attempt, create_attempt_chain}
use pi_multi_orchestrator.Routing.Chain.Bounds.{
  failures, IsConsistent, failures-record_step, retry-lt-max_attempts, record_attempt-IsConsistent,
  create-IsConsistent,
}
use pi_multi_orchestrator.Routing.Request.{RoutingRequest}
use pi_multi_orchestrator.Routing.Select.Guarantees.{select_route-IsSelection}
use pi_multi_orchestrator.Workers.Executor.{
  SubagentAttempt, SubagentRunResult, HealthReport, World, ExecutionRequest, Progress, Step,
  finished, again, supplied_request,
}
use pi_multi_orchestrator.Workers.Executor.Loop.{round, start, followed, execute}
use pi_multi_orchestrator.Workers.Executor.Follows.{GoesOn, Follows, over, onward}
use pi_multi_orchestrator.Workers.Executor.Rounds.{
  Starts, anew, retried, Supplies, RoundOf, idle, tries, round-RoundOf,
}

-- The invariant rule of the loop.
module _ (world : World) (request : ExecutionRequest) (Kept : Progress → Type 0)
    (Final : SubagentRunResult → Type 0) where
  abbrev pub StepHolds : Step → Type 0
  StepHolds (finished result calls) = Final result
  StepHolds (again q) = Kept q

  pub execute-rule :
      ((p : Progress) → Kept p → StepHolds (round world request p))
      → (fuel : ℕ) (p : Progress) (result : SubagentRunResult) (calls : List HealthReport) → Kept p
      → execute world request fuel p ≡ some (result, calls)
      → Final result
  unfolding execute
  execute-rule keep zero p result calls k e = absurd (cc)
  execute-rule keep (suc fuel) p result calls k e =
      by (round world request p) (keep p k) (λ q h e. execute-rule keep fuel q result calls h e) e
    where
      by :
          (step : Step)
          → StepHolds step
          → ((q : Progress)
              → Kept q
              → execute world request fuel q ≡ some (result, calls)
              → Final result)
          → followed step (execute world request fuel) ≡ some (result, calls)
          → Final result
      by (finished r c) holds next e = let same : r ≡ result = cc in subst Final same holds
      by (again q) holds next e = next q holds e

abbrev pub all_but_last : List SubagentAttempt → List SubagentAttempt
all_but_last [] = []
all_but_last (a ∷ []) = []
all_but_last (a ∷ b ∷ rest) = a ∷ all_but_last (b ∷ rest)

all_but_last-snoc :
    (xs : List SubagentAttempt) (a : SubagentAttempt) → all_but_last (xs ++ a ∷ []) ≡ xs
all_but_last-snoc [] a = refl
all_but_last-snoc (x ∷ []) a = refl
all_but_last-snoc (x ∷ y ∷ rest) a = ap (λ l. x ∷ l) (all_but_last-snoc (y ∷ rest) a)

abbrev Unmutated : List SubagentAttempt → Type 0
Unmutated = All (λ a. a.potential_mutation_observed ≡ false)

Unmutated-snoc :
    (xs : List SubagentAttempt) (a : SubagentAttempt)
    → Unmutated xs
    → a.potential_mutation_observed ≡ false
    → Unmutated (xs ++ a ∷ [])
Unmutated-snoc [] a h e = (e, tt)
Unmutated-snoc (x ∷ xs) a h e = (h.0, Unmutated-snoc xs a h.1 e)

Unmutated-all_but_last : (xs : List SubagentAttempt) → Unmutated xs → Unmutated (all_but_last xs)
Unmutated-all_but_last [] h = tt
Unmutated-all_but_last (a ∷ []) h = tt
Unmutated-all_but_last (a ∷ b ∷ rest) h = (h.0, Unmutated-all_but_last (b ∷ rest) h.1)

Unmutated-round :
    (world : World) (request : ExecutionRequest) (p : Progress) (step : Step)
    → Unmutated p.attempts
    → RoundOf world request p step
    → StepHolds world request
        (λ q. Unmutated q.attempts)
        (λ result. Unmutated (all_but_last result.attempts))
        step
Unmutated-round world request p step h (idle result calls e same) =
    rw (e, same) (Unmutated-all_but_last p.attempts h)
Unmutated-round world request p step h
      (tries r policy id s starts (over a result calls e more on)) =
    rw (e, more, all_but_last-snoc p.attempts a) h
Unmutated-round world request p step h (tries r policy id s starts (onward q e g)) =
    rw (e, g.attempts) (Unmutated-snoc p.attempts g.attempt h g.unmutated)

-- In whatever way the adapter, the router, the signal and the children behave: once an attempt may have
-- changed something, it is the last of its run. No attempt is made after it, on any route.
pub execute-no_replay :
    (world : World) (request : ExecutionRequest) (fuel : ℕ) (result : SubagentRunResult)
    (calls : List HealthReport)
    → execute world request fuel (start world request) ≡ some (result, calls)
    → (a : SubagentAttempt) → Memᴰ a (all_but_last result.attempts)
    → a.potential_mutation_observed ≡ false
execute-no_replay world request fuel result calls e a m =
    All-mem _ _
      (execute-rule world request (λ q. Unmutated q.attempts)
        (λ result. Unmutated (all_but_last result.attempts))
        (λ p h. Unmutated-round world request p _ h (round-RoundOf world request p)) fuel
        (start world request) result calls tt e)
      m
