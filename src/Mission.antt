-- ===== src/Mission.antt =====
-- src/core/mission/index.ts: the missions, tasks, attempts, leases, verification runs and quality
-- decisions of the mission store. An operation runs in a transaction: it returns the new store, or
-- throws and leaves the old one. Ids and the clock are arguments. The event log, the snapshots and the JSON columns are left out.
pub mod Completion
pub mod Lease
pub mod Attempt
pub mod Review
pub mod Verification
pub mod Interruption
pub mod Creation
pub mod Calls
pub mod Cancellation
mod Tests
use pi_multi_orchestrator.Prelude.{
  trim_text, units, without_codes, ◌≡◌, ℕ, zero, suc, ◌+◌, Bool, true, false, not, ◌&&◌, ◌||◌,
  Option, none, some, List, [], ◌∷◌, ◌++◌, map, String, if◌then◌else◌, ltb, leb, ◌==◌, ◌===◌,
  length, or_else, is_some, any, all, filter, find?, includes, codes, trim, sort, Number, safe_nat?,
  Dict, get, put, Result, ok, err, ◌>>=◌, ◌>>◌, check,
}
use pi_multi_orchestrator.Routing.Failure.{Stamp, instant, unreadable}
use pi_multi_orchestrator.Quality.{QualityVerdict}

pub data MissionStatus : Type 0 where
  draft planned active paused running awaiting_review blocked failed cancelled completed :
      MissionStatus

pub data TaskStatus : Type 0 where
  task_pending task_planned task_ready task_running task_interrupted task_succeeded : TaskStatus
  execution_completed task_failed task_blocked task_cancelled : TaskStatus

pub data AttemptStatus : Type 0 where
  attempt_running succeeded attempt_failed interrupted attempt_cancelled timed_out attempt_unknown :
      AttemptStatus

pub data Actor : Type 0 where
  boss worker reviewer system user : Actor

pub data QualityStatus : Type 0 where
  unverified review_required verification_running passed rejected quality_blocked : QualityStatus

pub record MissionRecord : Type 0 where
  pub status : MissionStatus
  pub revision : ℕ

pub record TaskRecord : Type 0 where
  pub task_id : String
  pub mission_id : String
  pub revision : ℕ
  pub execution_class : String
  pub objective : String
  pub packet_revision : ℕ
  pub last_run_id : Option String
  pub status : TaskStatus
  pub created_at : ℕ

pub record AttemptRecord : Type 0 where
  pub task_id : String
  pub mission_id : String
  pub revision : ℕ
  pub status : AttemptStatus
  pub lease_owner : Option String
  pub lease_expires_at : Option Stamp
  pub mutation_observed : Bool
  pub packet_revision : ℕ

pub record LeaseRecord : Type 0 where
  pub owner : String
  pub acquired_at : ℕ
  pub heartbeat_at : ℕ
  pub expires_at : Stamp
  pub recovered_from : Option String

pub record TaskQuality : Type 0 where
  pub mission_id : String
  pub status : QualityStatus
  pub round : ℕ
  pub latest_verification_id : Option String
  pub latest_decision_id : Option String

pub data VerificationStatus : Type 0 where
  run_running run_completed run_interrupted run_blocked : VerificationStatus

pub record VerificationRun : Type 0 where
  pub mission_id : String
  pub task_id : String
  pub target_run_id : String
  pub round : ℕ
  pub status : VerificationStatus
  pub decision_id : Option String
  pub failure_summary : Option String

pub record QualityDecision : Type 0 where
  pub mission_id : String
  pub task_id : String
  pub verification_id : String
  pub target_run_id : String
  pub round : ℕ
  pub verdict : QualityVerdict

pub record Store : Type 0 where
  pub missions : Dict MissionRecord
  pub tasks : Dict TaskRecord
  pub attempts : Dict AttemptRecord
  pub leases : Dict LeaseRecord
  pub quality : Dict TaskQuality
  pub verifications : Dict VerificationRun
  pub decisions : Dict QualityDecision

pub data MissionError : Type 0 where
  not_found validation conflict unauthorized lease_error range_error : MissionError

abbrev pub status_code : MissionStatus → ℕ
status_code draft = 0
status_code planned = 1
status_code active = 2
status_code paused = 3
status_code running = 4
status_code awaiting_review = 5
status_code blocked = 6
status_code failed = 7
status_code cancelled = 8
status_code completed = 9

abbrev pub same_status : MissionStatus → MissionStatus → Bool
same_status a b = status_code a == status_code b

abbrev pub allowed : MissionStatus → List MissionStatus
allowed draft = planned ∷ active ∷ running ∷ blocked ∷ cancelled ∷ []
allowed planned = active ∷ running ∷ blocked ∷ cancelled ∷ []
allowed active = paused ∷ running ∷ awaiting_review ∷ blocked ∷ failed ∷ cancelled ∷ []
allowed paused = running ∷ blocked ∷ cancelled ∷ []
allowed running = paused ∷ awaiting_review ∷ blocked ∷ failed ∷ cancelled ∷ []
allowed awaiting_review = running ∷ completed ∷ blocked ∷ failed ∷ cancelled ∷ []
allowed blocked = running ∷ failed ∷ cancelled ∷ []
allowed failed = cancelled ∷ []
allowed cancelled = []
allowed completed = []

unfoldable pub can_transition : MissionStatus → MissionStatus → Bool
can_transition from to = any (λ status. same_status status to) (allowed from)

-- A row that is read, or the error that there is none.
abbrev pub found {ℓ} : {A : Type ℓ} → Option A → Result MissionError A
found none = err not_found
found (some row) = ok row

pub found-eq-ok {ℓ} : {A : Type ℓ} (row : Option A) {a : A} → found row ≡ ok a → row ≡ some a
found-eq-ok none e = absurd (cc)
found-eq-ok (some row) e = cc

abbrev pub mission_row : Store → String → Result MissionError MissionRecord
mission_row store id = found (get store.missions id)

-- What the host supplies: the key that identifies a task (`taskIdentityKey`, by its class and its
-- normalised objective), the order of ids, the NFKC form of a text, the limit of a text's length, and how
-- a text that is no date compares with that of an instant.
pub record Host : Type 0 where
  pub identity : (execution_class objective : String) → String
  pub id_le : String → String → Bool
  pub nfkc : String → String
  pub max_text_length : ℕ
  pub unreadable_le : ℕ → Bool

-- The zero-width space, the byte order mark and the word joiner.
abbrev pub is_invisible : ℕ → Bool
is_invisible c = c == 8203 || c == 65279 || c == 8288

unfoldable pub normalize_mission_text : Host → String → String
normalize_mission_text host value = trim_text (without_codes is_invisible (host.nfkc value))

abbrev pub within_length : Host → String → Option String
within_length host normalized =
    if (units normalized == 0) || ltb host.max_text_length (units normalized)
    then none
    else some normalized

-- `text`: none where it throws.
unfoldable pub text : Host → String → Option String
unfolding normalize_mission_text
text host value = within_length host (normalize_mission_text host value)

abbrev pub task_order : Host → TaskRecord → TaskRecord → Bool
task_order host a b =
    ltb a.created_at b.created_at
    || ((a.created_at == b.created_at) && host.id_le a.task_id b.task_id)

abbrev pub values {ℓ} : {V : Type ℓ} → Dict V → List V
values dict = map (λ entry. entry.1) dict

unfoldable pub list_tasks : Host → Store → String → List TaskRecord
list_tasks host store mission =
    sort (task_order host) (filter (λ task. task.mission_id === mission) (values store.tasks))

abbrev pub is_cancelled : TaskStatus → Bool
is_cancelled task_cancelled = true
is_cancelled _ = false

abbrev pub latest_by_key : Host → List TaskRecord → Dict TaskRecord → Dict TaskRecord
latest_by_key host [] latest = latest
latest_by_key host (task ∷ tasks) latest = latest_by_key host tasks (
    if is_cancelled task.status
    then latest
    else put latest (host.identity task.execution_class task.objective) task)

-- task-identity.ts, `activeMissionTasks`.
unfoldable pub active_mission_tasks : Host → Store → String → List TaskRecord
unfolding list_tasks
active_mission_tasks host store mission =
    values (latest_by_key host (list_tasks host store mission) [])

abbrev pub is_execution_completed : TaskStatus → Bool
is_execution_completed execution_completed = true
is_execution_completed _ = false

abbrev pub is_passed : QualityStatus → Bool
is_passed passed = true
is_passed _ = false

abbrev pub is_named : Option String → Bool
is_named none = false
is_named (some id) = not (id === "")

abbrev pub quality_passed : String → Option TaskQuality → Bool
quality_passed mission none = false
quality_passed mission (some quality) =
    (quality.mission_id === mission)
    && is_passed quality.status
    && is_named quality.latest_decision_id

abbrev pub task_done : Store → String → TaskRecord → Bool
task_done store mission task =
    is_execution_completed task.status && quality_passed mission (get store.quality task.task_id)

unfoldable pub is_completable : Host → Store → String → Bool
unfolding active_mission_tasks
is_completable host store mission =
    not (length (active_mission_tasks host store mission) == 0)
    && all (task_done store mission) (active_mission_tasks host store mission)

abbrev pub is_boss : Actor → Bool
is_boss boss = true
is_boss _ = false

abbrev pub revision_matches : Option ℕ → ℕ → Bool
revision_matches none revision = true
revision_matches (some expected) revision = expected == revision

abbrev pub is_completed : MissionStatus → Bool
is_completed completed = true
is_completed _ = false

abbrev pub with_mission : Store → String → MissionRecord → Store
with_mission store id mission = record store { missions = put store.missions id mission }

unfoldable pub transition_mission :
    Host
    → Store
    → String
    → MissionStatus
    → Actor
    → (expected : Option ℕ) → Result MissionError Store
unfolding is_completable can_transition
transition_mission host store id status actor expected = mission_row store id >>= λ current.
    check (revision_matches expected current.revision) conflict
    >> check (not (is_completed status) || is_boss actor) unauthorized
    >> check (not (is_completed status) || is_completable host store id) validation
    >> check (not (same_status current.status status)) validation
    >> check (can_transition current.status status) validation
    >> ok (with_mission store id (record { status = status; revision = current.revision + 1 }))
