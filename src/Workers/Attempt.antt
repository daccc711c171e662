-- ===== src/Workers/Attempt.antt =====
-- src/core/workers/executor.ts: one attempt on a route (executeAttempt), up to what it reports. The
-- child's session belongs to Pi: what it does is the argument `Child`. An error is given by the
-- FailureInput that failureInputFromError or failureInputFromProviderText reads from it.
pub mod Timeout
use pi_multi_orchestrator.Prelude.{
  ℕ, Bool, true, false, not, ◌&&◌, ◌||◌, Option, none, some, List, ◌++◌, String, if◌then◌else◌,
  ◌===◌, any, is_some, Result, ok, err,
}
use pi_multi_orchestrator.Routing.Failure.{
  FailureClass, timeout, FailureInput, FailureClassification, classify_failure,
}
use pi_multi_orchestrator.Workers.{
  is_potentially_mutating_tool, FinalizationInput, should_run_result_finalization,
}

pub data AttemptOutcome : Type 0 where
  completed invalid_child_result protocol_violation cancelled timed_out : AttemptOutcome
  infrastructure_failure child_runtime_error : AttemptOutcome

pub data PromptOutcome : Type 0 where
  prompt_done prompt_cancelled prompt_timed_out : PromptOutcome
  prompt_error : FailureInput → PromptOutcome

pub data SessionError : Type 0 where
  worker_error : SessionError
  other_error : FailureInput → SessionError

-- `stopReason` of the last message of the assistant.
pub data StopReason : Type 0 where
  ended aborted : StopReason
  stop_error : FailureInput → StopReason

-- What the result tool has taken (`readProtocolResult`, `protocolState`).
pub record Capture : Type 0 where
  pub result : Option String
  pub violated : Bool

-- What the child does: whether the session was created, and what its prompt came to; what was observed
-- by then; the same of the finalization turn, if there is one. `violation` and `late_violation` say
-- whether a tool call after a submission was seen before and after the work ended, `signalled` and
-- `late_signal` whether the signal was aborted.
pub record Child : Type 0 where
  pub work : Result SessionError PromptOutcome
  pub stop : StopReason
  pub captured : Capture
  pub tools : List String
  pub violation : Bool
  pub safety_terminated : Bool
  pub signalled : Bool
  pub finalization : Result SessionError PromptOutcome
  pub finally_captured : Capture
  pub late_tools : List String
  pub late_violation : Bool
  pub late_signal : Bool

-- `SingleAttempt`; `finalized` is `attempt.resultFinalization.attempted`.
pub record SingleAttempt : Type 0 where
  pub outcome : AttemptOutcome
  pub failure : Option FailureClassification
  pub result : Option String
  pub provider_succeeded : Bool
  pub potential_mutation : Bool
  pub protocol_violation : Bool
  pub finalized : Bool

abbrev pub outcome_of_class : FailureClass → AttemptOutcome
outcome_of_class FailureClass.cancelled = cancelled
outcome_of_class timeout = timed_out
outcome_of_class _ = infrastructure_failure

abbrev pub is_timed_out : AttemptOutcome → Bool
is_timed_out timed_out = true
is_timed_out _ = false

abbrev pub blank_input : FailureInput
blank_input = record {
  status = none;
  code = none;
  category = none;
  timed_out = false;
  was_cancelled = false;
  retry_after_ms = none;
  retry_after_at = none;
  message = none;
}

abbrev pub cancelled_input : FailureInput
cancelled_input = record blank_input { was_cancelled = true }

abbrev pub timeout_input : FailureInput
timeout_input = record blank_input { timed_out = true }

abbrev pub after_result : (result : Option String) → (violated : Bool) → AttemptOutcome
after_result none violated = if violated then protocol_violation else invalid_child_result
after_result (some result) violated = completed

module _ (to_lower : List ℕ → List ℕ) (child : Child) where
  abbrev pub failed : SingleAttempt → FailureInput → SingleAttempt
  failed a input =
      let f = classify_failure to_lower input in
      record a { outcome = outcome_of_class f.failure_class; failure = some f }

  abbrev pub timed_out_as : SingleAttempt → SingleAttempt
  timed_out_as a = record a {
    outcome = timed_out;
    failure = some (classify_failure to_lower timeout_input);
  }

  -- The `catch`.
  abbrev pub caught : (signalled : Bool) → SingleAttempt → SessionError → SingleAttempt
  caught true a thrown = record a { outcome = cancelled }
  caught false a worker_error = record a { outcome = child_runtime_error }
  caught false a (other_error input) = failed a input

  abbrev pub late_result : SingleAttempt → SingleAttempt
  late_result a = record a {
    result = child.finally_captured.result;
    protocol_violation =
        child.finally_captured.violated && not (is_some child.finally_captured.result);
    finalized = true;
  }

  abbrev pub if_captured : Option String → SingleAttempt → SingleAttempt
  if_captured none a = a
  if_captured (some result) a = record a {
    outcome = completed;
    failure = none;
    provider_succeeded = true;
  }

  abbrev pub cancelled_late : SingleAttempt → SingleAttempt
  cancelled_late a = record a {
    outcome = cancelled;
    failure = some (classify_failure to_lower cancelled_input);
    finalized = true;
  }

  -- The finalization turn after a timeout.
  abbrev pub timeout_finalized : SingleAttempt → Result SessionError PromptOutcome → SingleAttempt
  timeout_finalized a (err thrown) = caught child.late_signal a thrown
  timeout_finalized a (ok prompt_cancelled) = cancelled_late a
  timeout_finalized a (ok prompt_done) =
      if child.late_signal
      then cancelled_late a
      else if_captured child.finally_captured.result (late_result a)
  timeout_finalized a (ok prompt) =
      if child.late_signal then cancelled_late a else (record a { finalized = true })

  -- The finalization turn after the work.
  abbrev pub work_finalized : SingleAttempt → Result SessionError PromptOutcome → SingleAttempt
  work_finalized a (err thrown) = caught child.late_signal a thrown
  work_finalized a (ok prompt_cancelled) = record a { outcome = cancelled; finalized = true }
  work_finalized a (ok prompt_timed_out) = record (timed_out_as a) { finalized = true }
  work_finalized a (ok (prompt_error input)) = record (failed a input) { finalized = true }
  work_finalized a (ok prompt_done) =
      let b = late_result a in record b { outcome = after_result b.result b.protocol_violation }

  abbrev pub after_work : (violated : Bool) → FinalizationInput
  after_work violated = record {
    captured = is_some child.captured.result;
    cancelled = child.signalled;
    safety_terminated = false;
    provider_succeeded = true;
    protocol_violation = violated;
    timed_out = false;
    mutation_observed = false;
    has_useful_work = false;
  }

  abbrev pub after_timeout : (result_tool : String) → FinalizationInput
  after_timeout result_tool = record {
    captured = is_some child.captured.result;
    cancelled = child.signalled;
    safety_terminated = child.safety_terminated;
    provider_succeeded = false;
    protocol_violation = false;
    timed_out = true;
    mutation_observed = any is_potentially_mutating_tool child.tools;
    has_useful_work = any (λ name. not (name === result_tool)) child.tools;
  }

  abbrev pub stopped_with : SingleAttempt → StopReason → SingleAttempt
  stopped_with a (stop_error input) =
      let f = classify_failure to_lower input in
      record a { outcome = stop_outcome f.failure_class; failure = some f }
    where
      stop_outcome : FailureClass → AttemptOutcome
      stop_outcome timeout = timed_out
      stop_outcome _ = infrastructure_failure
  stopped_with a aborted =
      if child.signalled
      then (record a {
        outcome = cancelled;
        failure = some (classify_failure to_lower cancelled_input);
      })
      else timed_out_as a
  stopped_with a ended =
      let violated = child.violation || child.captured.violated in
      let b : SingleAttempt = record a {
        result = child.captured.result;
        provider_succeeded = true;
        protocol_violation = violated;
      } in
      if child.safety_terminated
      then (record b { outcome = after_result child.captured.result false })
      else if should_run_result_finalization (after_work violated)
      then work_finalized b child.finalization
      else (record b {
        outcome = if violated then protocol_violation else after_result child.captured.result false;
      })

  abbrev pub prompted : (result_tool : String) → SingleAttempt → PromptOutcome → SingleAttempt
  prompted result_tool a prompt_cancelled = record a { outcome = cancelled }
  prompted result_tool a prompt_timed_out =
      if should_run_result_finalization (after_timeout result_tool)
      then timeout_finalized (timed_out_as a) child.finalization
      else timed_out_as a
  prompted result_tool a (prompt_error input) = failed a input
  prompted result_tool a prompt_done = stopped_with a child.stop

  abbrev pub after_prompt :
      String → SingleAttempt → Result SessionError PromptOutcome → SingleAttempt
  after_prompt result_tool a (err thrown) = caught child.signalled a thrown
  after_prompt result_tool a (ok prompt) = prompted result_tool a prompt

  abbrev pub new_attempt : SingleAttempt
  new_attempt = record {
    outcome = child_runtime_error;
    failure = none;
    result = none;
    provider_succeeded = false;
    potential_mutation =
        any is_potentially_mutating_tool child.tools
        || any is_potentially_mutating_tool child.late_tools;
    protocol_violation = child.violation;
    finalized = false;
  }

  unfoldable pub execute_attempt : (result_tool : String) → SingleAttempt
  unfolding should_run_result_finalization
  execute_attempt result_tool =
      let a = after_prompt result_tool new_attempt child.work in
      record a { protocol_violation = a.protocol_violation || child.late_violation }
