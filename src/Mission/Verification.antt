-- ===== src/Mission/Verification.antt =====
-- src/core/mission/index.ts: the quality status of a task, and the end of a verification: the run, its
-- decision and the status of its task are written together.
use pi_multi_orchestrator.Prelude.{
  ℕ, Bool, true, false, ◌&&◌, ◌||◌, Option, none, some, String, if◌then◌else◌, ◌==◌, ◌===◌, Number,
  nat, Dict, get, put, Result, ok, err, ◌>>=◌, ◌>>◌, check,
}
use pi_multi_orchestrator.Quality.{QualityVerdict, pass, reject, blocked}
use pi_multi_orchestrator.Mission.{
  QualityStatus, unverified, review_required, verification_running, passed, rejected,
  quality_blocked, VerificationStatus, run_running, run_completed, run_interrupted, run_blocked,
  VerificationRun, QualityDecision, Store, Host, MissionError, not_found, validation, mission_row,
}
use pi_multi_orchestrator.Mission.Attempt.{task_row}
use pi_multi_orchestrator.Mission.Review.{
  DecisionInput, VerificationPatch, is_verifying, record_quality_decision, round_of, run_code,
  update_verification_run, verification_row,
}

pub record StatusInput : Type 0 where
  pub task_id : String
  pub mission_id : String
  pub status : QualityStatus
  pub round : Number
  pub verification_id : Option String
  pub decision_id : Option String

abbrev pub belonging {ℓ} : {A : Type ℓ} → (A → Bool) → Option A → Result MissionError (Option A)
belonging belongs none = err validation
belonging belongs (some row) = check (belongs row) validation >> ok (some row)

-- The row that an id of the input names; none if the input gives no id.
abbrev pub named_row {ℓ} :
    {A : Type ℓ} → Dict A → (A → Bool) → Option String → Result MissionError (Option A)
named_row rows belongs none = ok none
named_row rows belongs (some id) = belonging belongs (get rows id)

abbrev pub run_of_task : StatusInput → VerificationRun → Bool
run_of_task input run = (run.mission_id === input.mission_id) && (run.task_id === input.task_id)

abbrev pub decision_of_task : StatusInput → QualityDecision → Bool
decision_of_task input made =
    (made.mission_id === input.mission_id) && (made.task_id === input.task_id)

abbrev pub run_has : VerificationStatus → Option VerificationRun → Bool
run_has status none = false
run_has status (some run) = run_code run.status == run_code status

abbrev pub verdict_code : QualityVerdict → ℕ
verdict_code pass = 0
verdict_code reject = 1
verdict_code blocked = 2

abbrev pub has_verdict : QualityVerdict → Option QualityDecision → Bool
has_verdict verdict none = false
has_verdict verdict (some decision) = verdict_code decision.verdict == verdict_code verdict

abbrev pub same_verification : Option QualityDecision → Option String → Bool
same_verification none verification = true
same_verification (some decision) none = true
same_verification (some decision) (some verification) = decision.verification_id === verification

abbrev pub blocked_evidence : Option VerificationRun → Option QualityDecision → Bool
blocked_evidence run none = run_has run_blocked run || run_has run_interrupted run
blocked_evidence run (some decision) =
    has_verdict blocked (some decision) && run_has run_completed run

-- What a quality status has to show.
abbrev pub evidenced : QualityStatus → Option VerificationRun → Option QualityDecision → Bool
evidenced verification_running run decision = run_has run_running run
evidenced passed run decision = has_verdict pass decision && run_has run_completed run
evidenced rejected run decision = has_verdict reject decision && run_has run_completed run
evidenced quality_blocked run decision = blocked_evidence run decision
evidenced unverified run decision = true
evidenced review_required run decision = true

abbrev pub with_quality : Store → StatusInput → ℕ → Store
with_quality store input round = record store {
  quality = put store.quality input.task_id (record {
    mission_id = input.mission_id;
    status = input.status;
    round = round;
    latest_verification_id = input.verification_id;
    latest_decision_id = input.decision_id;
  });
}

unfoldable pub set_task_quality_status : Store → StatusInput → Result MissionError Store
set_task_quality_status store input = do
  mission ← mission_row store input.mission_id
  task ← task_row store input.task_id
  check (task.mission_id === input.mission_id) not_found
  round ← round_of input.round
  run ← named_row store.verifications (run_of_task input) input.verification_id
  decision ← named_row store.decisions (decision_of_task input) input.decision_id
  check (same_verification decision input.verification_id) validation
  check (evidenced input.status run decision) validation
  ok (with_quality store input round)

abbrev pub status_after : QualityVerdict → QualityStatus
status_after pass = passed
status_after reject = rejected
status_after blocked = quality_blocked

abbrev pub completing : (decision_id : String) → VerificationPatch
completing decision_id = record {
  mission_id = none;
  task_id = none;
  target_run_id = none;
  round = none;
  status = some run_completed;
  decision_id = some decision_id;
  failure_summary = none;
}

abbrev pub quality_of : String → VerificationRun → QualityStatus → Option String → StatusInput
quality_of verification run status decision = record {
  task_id = run.task_id;
  mission_id = run.mission_id;
  status = status;
  round = nat run.round;
  verification_id = some verification;
  decision_id = decision;
}

-- The verification that is completed is the argument `id`; the decision names its own.
unfoldable pub finalize_quality_verification :
    Host → Store → (id : String) → DecisionInput → Result MissionError Store
unfolding record_quality_decision update_verification_run set_task_quality_status
finalize_quality_verification host store id input = do
  recorded ← record_quality_decision host store input
  updated ← update_verification_run host recorded id (completing input.decision_id)
  run ← verification_row updated id
  set_task_quality_status updated
      (quality_of id run (status_after input.verdict) (some input.decision_id))

-- The two ends of a verification that fails: `review_required` and `blocked`.
pub data Failed : Type 0 where
  failed_open failed_blocked : Failed

abbrev pub run_after : Failed → VerificationStatus
run_after failed_open = run_interrupted
run_after failed_blocked = run_blocked

abbrev pub quality_after_failure : Failed → QualityStatus
quality_after_failure failed_open = review_required
quality_after_failure failed_blocked = quality_blocked

abbrev pub failing : Failed → String → VerificationPatch
failing status summary = record {
  mission_id = none;
  task_id = none;
  target_run_id = none;
  round = none;
  status = some (run_after status);
  decision_id = none;
  failure_summary = some summary;
}

unfoldable pub fail_verification :
    Host → Store → (id : String) → Failed → (summary : String) → Result MissionError Store
unfolding update_verification_run set_task_quality_status
fail_verification host store id status summary = do
  updated ← update_verification_run host store id (failing status summary)
  run ← verification_row updated id
  set_task_quality_status updated (quality_of id run (quality_after_failure status) none)

-- A verification that has ended is left as it is.
unfoldable pub finalize_quality_failure :
    Host → Store → (id : String) → Failed → (summary : String) → Result MissionError Store
unfolding fail_verification
finalize_quality_failure host store id status summary = do
  current ← verification_row store id
  if is_verifying current.status then fail_verification host store id status summary else ok store
