-- ===== src/Mission/Interruption.antt =====
-- src/core/mission/index.ts: what a shutdown interrupts (interruptOwnedExecution), and what is recovered
-- of a runtime that died (recoverInterrupted).
pub mod RowsKeep
pub mod Keeps
pub mod Stops
pub mod Stopped
pub mod Shutdown
pub mod Reviews
pub mod Recovered
use pi_multi_orchestrator.Prelude.{
  ℕ, zero, suc, ◌+◌, Bool, true, false, not, ◌&&◌, ◌||◌, Option, none, some, List, [], ◌∷◌, ◌++◌,
  map, String, if◌then◌else◌, ltb, leb, ◌==◌, ◌===◌, length, or_else, is_some, any, filter,
  includes, Dict, get, put, Result, ok, err, ◌>>=◌, ◌>>◌, check,
}
use pi_multi_orchestrator.Routing.Failure.{Stamp, instant, unreadable}
use pi_multi_orchestrator.Mission.{
  MissionStatus, draft, planned, active, paused, running, awaiting_review, blocked, failed,
  cancelled, completed, TaskStatus, task_running, task_interrupted, interrupted, TaskRecord,
  AttemptRecord, LeaseRecord, TaskQuality, review_required, run_interrupted, VerificationRun, Store,
  MissionError, lease_error, not_found, mission_row, Host, MissionRecord, system,
  transition_mission, with_mission,
}
use pi_multi_orchestrator.Mission.Lease.{iso_le, runs_at, delete}
use pi_multi_orchestrator.Mission.Attempt.{is_running, update, with_status}
use pi_multi_orchestrator.Mission.Review.{is_verifying}

abbrev pub stopped_attempt : AttemptRecord → AttemptRecord
stopped_attempt attempt =
    if is_running attempt.status then (record attempt { status = interrupted }) else attempt

abbrev pub is_task_running : TaskStatus → Bool
is_task_running task_running = true
is_task_running _ = false

abbrev pub stopped_task : TaskRecord → TaskRecord
stopped_task task = if is_task_running task.status then with_status task task_interrupted else task

abbrev pub interrupted_attempt : Store → String → Option AttemptRecord → Store
interrupted_attempt store id none = store
interrupted_attempt store id (some current) = record store {
  attempts = update store.attempts id stopped_attempt;
  tasks = update store.tasks current.task_id stopped_task;
}

-- The loop over the attempts that a query has found.
unfoldable pub interrupt_attempts : Store → (ids : List String) → Store
interrupt_attempts store [] = store
interrupt_attempts store (id ∷ ids) =
    interrupt_attempts (interrupted_attempt store id (get store.attempts id)) ids

abbrev pub stopped_run : (reason : String) → VerificationRun → VerificationRun
stopped_run reason run =
    if is_verifying run.status
    then (record run { status = run_interrupted; failure_summary = some reason })
    else run

abbrev pub reopened : String × VerificationRun → TaskQuality → TaskQuality
reopened row quality = record quality {
  status = review_required;
  round = row.1.round;
  latest_verification_id = some row.0;
}

abbrev pub interrupted_run : Store → (reason : String) → String × VerificationRun → Store
interrupted_run store reason row = record store {
  verifications = update store.verifications row.0 (stopped_run reason);
  quality = update store.quality row.1.task_id (reopened row);
}

-- The loop over the verification runs that a query has found.
unfoldable pub interrupt_runs : Store → (reason : String) → Dict VerificationRun → Store
interrupt_runs store reason [] = store
interrupt_runs store reason (row ∷ rows) =
    interrupt_runs (interrupted_run store reason row) reason rows

abbrev pub keys {ℓ} : {V : Type ℓ} → Dict V → List String
keys dict = map (λ entry. entry.0) dict

abbrev pub is_text_of : String → Option String → Bool
is_text_of text none = false
is_text_of text (some other) = other === text

-- `mission_id=? AND status='running' AND lease_owner=?`.
abbrev pub owned_by : (mission owner : String) → String × AttemptRecord → Bool
owned_by mission owner entry =
    (entry.1.mission_id === mission)
    && is_running entry.1.status
    && is_text_of owner entry.1.lease_owner

-- `mission_id=? AND status='running'`.
abbrev pub verified_in : (mission : String) → String × VerificationRun → Bool
verified_in mission entry = (entry.1.mission_id === mission) && is_verifying entry.1.status

abbrev pub is_interruptible : MissionStatus → Bool
is_interruptible running = true
is_interruptible active = true
is_interruptible planned = true
is_interruptible paused = true
is_interruptible blocked = true
is_interruptible _ = false

abbrev pub is_held : Option LeaseRecord → (owner : String) → (now : ℕ) → Bool
is_held none owner now = false
is_held (some lease) owner now = (lease.owner === owner) && runs_at lease.expires_at now

abbrev pub stopped_in : Store → (mission owner reason : String) → Store
stopped_in store mission owner reason =
    interrupt_runs
      (interrupt_attempts store (keys (filter (owned_by mission owner) store.attempts))) reason
      (filter (verified_in mission) store.verifications)

-- To the review, from a status that is on the list.
unfoldable pub to_review : Host → Store → String → MissionStatus → Result MissionError Store
unfolding transition_mission
to_review host store mission status =
    if is_interruptible status
    then transition_mission host store mission awaiting_review system none
    else ok store

unfoldable pub interrupt_owned_execution :
    Host → Store → (mission owner reason : String) → (now : ℕ) → Result MissionError Store
unfolding interrupt_attempts interrupt_runs to_review
interrupt_owned_execution host store mission owner reason now = do
  check (is_held (get store.leases mission) owner now) lease_error
  current ← mission_row store mission
  after ← to_review host (stopped_in store mission owner reason) mission current.status
  ok (record after { leases = delete after.leases mission })

abbrev pub stamp_le : Host → Stamp → ℕ → Bool
stamp_le host (instant t) now = iso_le t now
stamp_le host unreadable now = host.unreadable_le now

abbrev pub lapsed : Host → Option Stamp → ℕ → Bool
lapsed host none now = true
lapsed host (some stamp) now = stamp_le host stamp now

abbrev pub expiry : Option LeaseRecord → Option Stamp
expiry none = none
expiry (some lease) = some lease.expires_at

abbrev pub lease_owner : Option LeaseRecord → Option String
lease_owner none = none
lease_owner (some lease) = some lease.owner

-- The query for the attempts, with and without an owner.
abbrev pub is_lost : Host → Store → (owner : Option String) → ℕ → String × AttemptRecord → Bool
is_lost host store none now entry =
    is_running entry.1.status
    && lapsed host entry.1.lease_expires_at now
    && lapsed host (expiry (get store.leases entry.1.mission_id)) now
is_lost host store (some owner) now entry =
    is_running entry.1.status
    && is_text_of owner entry.1.lease_owner
    && lapsed host entry.1.lease_expires_at now

-- The query for the verification runs.
abbrev pub is_lost_run :
    Host → Store → (owner : Option String) → ℕ → String × VerificationRun → Bool
is_lost_run host store none now entry =
    is_verifying entry.1.status && lapsed host (expiry (get store.leases entry.1.mission_id)) now
is_lost_run host store (some owner) now entry =
    is_verifying entry.1.status
    && is_text_of owner (lease_owner (get store.leases entry.1.mission_id))
    && lapsed host (expiry (get store.leases entry.1.mission_id)) now

-- A `Set` keeps the first of equal texts.
abbrev pub distinct : List String → List String → List String
distinct seen [] = []
distinct seen (text ∷ texts) =
    let rest = distinct (text ∷ seen) texts in
    let skipped = distinct seen texts in if includes seen text then skipped else text ∷ rest

abbrev pub missions_of : Dict AttemptRecord → Dict VerificationRun → List String
missions_of attempts runs =
    distinct []
      (map (λ entry. entry.1.mission_id) attempts ++ map (λ entry. entry.1.mission_id) runs)

abbrev pub recovery_reason : String
recovery_reason = "verification interrupted during runtime recovery"

-- The plan of the mission is updated, which counts a revision, before the mission goes to the review.
abbrev pub brought_to_review :
    Host → Store → String → Option MissionRecord → Result MissionError Store
brought_to_review host store id none = ok store
brought_to_review host store id (some mission) =
    if is_interruptible mission.status
    then transition_mission host
        (with_mission store id (record mission { revision = mission.revision + 1 })) id
        awaiting_review system none
    else ok store

unfoldable pub review_missions : Host → Store → List String → Result MissionError Store
unfolding transition_mission
review_missions host store [] = ok store
review_missions host store (id ∷ ids) =
    brought_to_review host store id (get store.missions id) >>= λ next.
    review_missions host next ids

abbrev pub recovered : Host → Store → (owner : Option String) → ℕ → Store
recovered host store owner now =
    interrupt_runs
      (interrupt_attempts store (keys (filter (is_lost host store owner now) store.attempts)))
      recovery_reason (filter (is_lost_run host store owner now) store.verifications)

unfoldable pub recover_interrupted :
    Host → Store → (owner : Option String) → (now : ℕ) → Result MissionError Store
unfolding interrupt_attempts interrupt_runs review_missions
recover_interrupted host store owner now = review_missions host (recovered host store owner now) (
    missions_of (filter (is_lost host store owner now) store.attempts)
      (filter (is_lost_run host store owner now) store.verifications))
