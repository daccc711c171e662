-- ===== src/Workers/Attempt/Timeout.antt =====
-- src/core/workers/executor.ts: an attempt that timed out reports a failure.
use pi_multi_orchestrator.Prelude.{
  ◌≡◌, refl, inl, inr, Bool, true, false, Option, none, some, List, String, is_some, Bool-cases,
  Result, ok, err, ℕ, false≢true, sym, ◌∙◌, ◌||◌,
}
use pi_multi_orchestrator.Routing.Failure.{FailureClassification}
use pi_multi_orchestrator.Workers.{should_run_result_finalization}
use pi_multi_orchestrator.Workers.Attempt.{
  PromptOutcome, prompt_done, prompt_cancelled, prompt_timed_out, prompt_error, SessionError,
  worker_error, other_error, StopReason, ended, aborted, stop_error, Child, SingleAttempt,
  is_timed_out, after_result, caught, late_result, if_captured, timeout_finalized, work_finalized,
  stopped_with, after_prompt, new_attempt, execute_attempt, after_work, after_timeout,
}

abbrev pub IsTimed : SingleAttempt → Type 0
IsTimed single = is_timed_out single.outcome ≡ true → is_some single.failure ≡ true

after_result-timed :
    (result : Option String) (violated : Bool) → is_timed_out (after_result result violated) ≡ false
after_result-timed none true = refl
after_result-timed none false = refl
after_result-timed (some r) violated = refl

untimed :
    (result : Option String) (violated : Bool) (failure : Option FailureClassification)
    → is_timed_out (after_result result violated) ≡ true
    → is_some failure ≡ true
untimed result violated failure t =
    absurd (false≢true (sym (after_result-timed result violated) ∙ t))

module _ (to_lower : List ℕ → List ℕ) (child : Child) where
  caught-IsTimed :
      (signalled : Bool) (a : SingleAttempt) (thrown : SessionError)
      → IsTimed (caught to_lower child signalled a thrown)
  caught-IsTimed true a thrown t = absurd (cc)
  caught-IsTimed false a worker_error t = absurd (cc)
  caught-IsTimed false a (other_error input) t = refl

  if_captured-IsTimed :
      (result : Option String) (a : SingleAttempt)
      → IsTimed a
      → IsTimed (if_captured to_lower child result a)
  if_captured-IsTimed none a h = h
  if_captured-IsTimed (some r) a h = λ t. absurd (cc)

  timeout_finalized-IsTimed :
      (a : SingleAttempt) (turn : Result SessionError PromptOutcome)
      → IsTimed a
      → IsTimed (timeout_finalized to_lower child a turn)
  timeout_finalized-IsTimed a (err thrown) h = caught-IsTimed child.late_signal a thrown
  timeout_finalized-IsTimed a (ok prompt_cancelled) h = λ t. refl
  timeout_finalized-IsTimed a (ok prompt_done) h = elim (Bool-cases child.late_signal) [
    | inl late ↦ rw late (λ t. refl)
    | inr on ↦ rw on (if_captured-IsTimed child.finally_captured.result _ h)
  ]
  timeout_finalized-IsTimed a (ok prompt_timed_out) h = elim (Bool-cases child.late_signal) [
    | inl late ↦ rw late (λ t. refl)
    | inr on ↦ rw on h
  ]
  timeout_finalized-IsTimed a (ok (prompt_error input)) h = elim (Bool-cases child.late_signal) [
    | inl late ↦ rw late (λ t. refl)
    | inr on ↦ rw on h
  ]

  work_finalized-IsTimed :
      (a : SingleAttempt) (turn : Result SessionError PromptOutcome)
      → IsTimed (work_finalized to_lower child a turn)
  work_finalized-IsTimed a (err thrown) = caught-IsTimed child.late_signal a thrown
  work_finalized-IsTimed a (ok prompt_cancelled) = λ t. absurd (cc)
  work_finalized-IsTimed a (ok prompt_timed_out) = λ t. refl
  work_finalized-IsTimed a (ok (prompt_error input)) = λ t. refl
  work_finalized-IsTimed a (ok prompt_done) =
      let b = late_result to_lower child a in untimed b.result b.protocol_violation _

  stopped_with-IsTimed :
      (a : SingleAttempt) (stop : StopReason) → IsTimed (stopped_with to_lower child a stop)
  stopped_with-IsTimed a (stop_error input) = λ t. refl
  stopped_with-IsTimed a aborted = elim (Bool-cases child.signalled) [
    | inl s ↦ rw s (λ t. refl)
    | inr s ↦ rw s (λ t. refl)
  ]
  stopped_with-IsTimed a ended =
      let violated = child.violation || child.captured.violated in
      elim (Bool-cases child.safety_terminated) [
        | inl s ↦ rw s (untimed child.captured.result false _)
        | inr s ↦
            elim (Bool-cases
              (should_run_result_finalization (after_work to_lower child violated))) [
                | inl t ↦ rw (s, t) (work_finalized-IsTimed _ child.finalization)
                | inr f ↦ elim (Bool-cases violated) [
                  | inl v ↦ rw (s, f, v) (λ t. absurd (cc))
                  | inr v ↦ rw (s, f, v) (untimed child.captured.result false _)
                ]
              ]
      ]

  pub execute_attempt-IsTimed :
      (result_tool : String) → IsTimed (execute_attempt to_lower child result_tool)
  unfolding execute_attempt
  execute_attempt-IsTimed result_tool = by child.work
    where
      by :
          (work : Result SessionError PromptOutcome)
          → IsTimed (after_prompt to_lower child result_tool (new_attempt to_lower child) work)
      by (err thrown) = caught-IsTimed child.signalled _ thrown
      by (ok prompt_cancelled) = λ t. absurd (cc)
      by (ok prompt_timed_out) =
          elim (Bool-cases
            (should_run_result_finalization (after_timeout to_lower child result_tool))) [
              | inl t ↦ rw t (timeout_finalized-IsTimed _ child.finalization (λ t. refl))
              | inr f ↦ rw f (λ t. refl)
            ]
      by (ok (prompt_error input)) = λ t. refl
      by (ok prompt_done) = stopped_with-IsTimed _ child.stop
