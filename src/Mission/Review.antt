-- ===== src/Mission/Review.antt =====
-- src/core/mission/index.ts: the verification runs and the quality decisions of the tasks. The
-- reviewer's report (its texts, lists and criterion results) is reduced to whether it passes the tests of
-- its form; the times of the rows are left out.
pub mod Extends
pub mod Steps
pub mod Decide
use pi_multi_orchestrator.Prelude.{
  ℕ, zero, suc, ◌+◌, Bool, true, false, not, ◌&&◌, ◌||◌, Option, none, some, List, [], ◌∷◌, ◌++◌,
  String, if◌then◌else◌, ◌==◌, ◌===◌, length, or_else, is_some, any, filter, Number, nat, Dict, get,
  put, Result, ok, err, ◌>>=◌, ◌>>◌, check, safe_nat?,
}
use pi_multi_orchestrator.Quality.{QualityVerdict, pass, reject, blocked}
use pi_multi_orchestrator.Mission.{
  text, found, AttemptStatus, succeeded, attempt_failed, TaskRecord, AttemptRecord, TaskQuality,
  QualityStatus, unverified, review_required, verification_running, passed, rejected,
  quality_blocked, VerificationStatus, run_running, run_completed, run_interrupted, run_blocked,
  VerificationRun, QualityDecision, Store, Host, MissionError, not_found, validation, mission_row,
}
use pi_multi_orchestrator.Mission.Attempt.{task_row, attempt_row}

abbrev pub verification_row : Store → String → Result MissionError VerificationRun
verification_row store id = found (get store.verifications id)

abbrev pub is_succeeded : AttemptStatus → Bool
is_succeeded succeeded = true
is_succeeded _ = false

abbrev pub is_verifying : VerificationStatus → Bool
is_verifying run_running = true
is_verifying _ = false

abbrev pub is_verified : VerificationStatus → Bool
is_verified run_completed = true
is_verified _ = false

abbrev pub round_of : Number → Result MissionError ℕ
round_of round = given (safe_nat? round)
  where
    given : Option ℕ → Result MissionError ℕ
    given none = err validation
    given (some n) = ok n

abbrev pub text_of : Host → String → Result MissionError String
text_of host value = given (text host value)
  where
    given : Option String → Result MissionError String
    given none = err validation
    given (some normal) = ok normal

abbrev pub optional_text : Host → Option String → Result MissionError (Option String)
optional_text host none = ok none
optional_text host (some value) = text_of host value >>= λ normal. ok (some normal)

-- A run of the task that has not ended.
abbrev pub verifies : (mission task : String) → String × VerificationRun → Bool
verifies mission task entry =
    (entry.1.mission_id === mission) && (entry.1.task_id === task) && is_verifying entry.1.status

pub record VerificationInput : Type 0 where
  pub verification_id : String
  pub mission_id : String
  pub task_id : String
  pub target_run_id : String
  pub round : Option Number

abbrev pub begun : VerificationInput → ℕ → (target : String) → VerificationRun
begun input round target = record {
  mission_id = input.mission_id;
  task_id = input.task_id;
  target_run_id = target;
  round = round;
  status = run_running;
  decision_id = none;
  failure_summary = none;
}

abbrev pub with_verification : Store → String → VerificationRun → Store
with_verification store id run = record store { verifications = put store.verifications id run }

unfoldable pub create_verification_run :
    Host → Store → VerificationInput → Result MissionError Store
create_verification_run host store input = do
  mission ← mission_row store input.mission_id
  task ← task_row store input.task_id
  check (task.mission_id === input.mission_id) validation
  target ← attempt_row store input.target_run_id
  check ((target.mission_id === input.mission_id) && (target.task_id === input.task_id)) validation
  check (is_succeeded target.status) validation
  round ← round_of (or_else input.round (nat 0))
  check (not (is_some (get store.verifications input.verification_id))) validation
  check (not (any (verifies input.mission_id input.task_id) store.verifications)) validation
  target_id ← text_of host input.target_run_id
  ok (with_verification store input.verification_id (begun input round target_id))

-- `Partial<VerificationRunRecord>`: the fields that the model keeps of a run.
pub record VerificationPatch : Type 0 where
  pub mission_id : Option String
  pub task_id : Option String
  pub target_run_id : Option String
  pub round : Option Number
  pub status : Option VerificationStatus
  pub decision_id : Option String
  pub failure_summary : Option String

abbrev pub keeps_text : Option String → String → Bool
keeps_text none current = true
keeps_text (some text) current = text === current

abbrev pub run_code : VerificationStatus → ℕ
run_code run_running = 0
run_code run_completed = 1
run_code run_interrupted = 2
run_code run_blocked = 3

-- A run that has ended keeps its status.
abbrev pub may_become : VerificationStatus → Option VerificationStatus → Bool
may_become current none = true
may_become current (some status) = is_verifying current || (run_code status == run_code current)

abbrev pub or_other {ℓ} : {A : Type ℓ} → Option A → Option A → Option A
or_other none other = other
or_other (some a) other = some a

-- `{ ...current, ...patch }`, once the tests of the identity have passed.
abbrev pub patched :
    VerificationRun
    → VerificationPatch
    → ℕ
    → (failure : Option String) → (target : String) → VerificationRun
patched current patch round failure target = record current {
  target_run_id = target;
  round = round;
  status = or_else patch.status current.status;
  decision_id = or_other patch.decision_id current.decision_id;
  failure_summary = failure;
}

unfoldable pub update_verification_run :
    Host → Store → String → VerificationPatch → Result MissionError Store
update_verification_run host store id patch = do
  current ← verification_row store id
  check (keeps_text patch.mission_id current.mission_id) validation
  check (keeps_text patch.task_id current.task_id) validation
  check (keeps_text patch.target_run_id current.target_run_id) validation
  check (may_become current.status patch.status) validation
  check
      (not (is_verified (or_else patch.status current.status))
        || is_some (or_other patch.decision_id current.decision_id))
      validation
  round ← round_of (or_else patch.round (nat current.round))
  failure ← optional_text host (or_other patch.failure_summary current.failure_summary)
  target ← text_of host current.target_run_id
  mission ← mission_row store current.mission_id
  ok (with_verification store id (patched current patch round failure target))

-- `report` says whether the reviewer's summary, findings, fixes, risks and results have the form and
-- the size that the store accepts.
pub record DecisionInput : Type 0 where
  pub decision_id : String
  pub mission_id : String
  pub task_id : String
  pub verification_id : String
  pub target_run_id : String
  pub round : Number
  pub verdict : QualityVerdict
  pub report : Bool

abbrev pub decides : String → String × QualityDecision → Bool
decides verification entry = entry.1.verification_id === verification

abbrev pub decision_row : DecisionInput → ℕ → (target : String) → QualityDecision
decision_row input round target = record {
  mission_id = input.mission_id;
  task_id = input.task_id;
  verification_id = input.verification_id;
  target_run_id = target;
  round = round;
  verdict = input.verdict;
}

abbrev pub with_decision : Store → DecisionInput → VerificationRun → ℕ → (target : String) → Store
with_decision store input run round target = record store {
  decisions = put store.decisions input.decision_id (decision_row input round target);
  verifications =
      put store.verifications input.verification_id
        (record run { decision_id = some input.decision_id });
}

unfoldable pub record_quality_decision : Host → Store → DecisionInput → Result MissionError Store
record_quality_decision host store input = do
  mission ← mission_row store input.mission_id
  task ← task_row store input.task_id
  check (task.mission_id === input.mission_id) validation
  run ← verification_row store input.verification_id
  check ((run.mission_id === input.mission_id) && (run.task_id === input.task_id)) validation
  check (input.target_run_id === run.target_run_id) validation
  check (is_verifying run.status) validation
  check (not (any (decides input.verification_id) store.decisions)) validation
  round ← round_of input.round
  check (round == run.round) validation
  check (not (is_some (get store.decisions input.decision_id))) validation
  check input.report validation
  target ← text_of host input.target_run_id
  ok (with_decision store input run round target)
