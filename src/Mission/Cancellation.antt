-- ===== src/Mission/Cancellation.antt =====
-- src/core/mission/mission-cancel.ts: the cancellation of a mission by the operator. Each call of the
-- store is a transaction of its own: a call that throws leaves what the calls before it have written.
-- The verification runs are taken in the order in which they were made.
pub mod Cancels
pub mod Runs
pub mod Ended
use pi_multi_orchestrator.Prelude.{
  ℕ, Bool, true, false, not, ◌&&◌, ◌||◌, Option, none, some, List, [], ◌∷◌, String, if◌then◌else◌,
  ◌===◌, length, filter, Dict, get, Result, ok, err, same,
}
use pi_multi_orchestrator.Mission.{
  MissionStatus, draft, planned, active, running, awaiting_review, blocked, failed, completed,
  MissionRecord, TaskStatus, task_pending, task_running, task_cancelled, TaskRecord,
  VerificationRun, Store, MissionError, Host, user, transition_mission, list_tasks,
}
use pi_multi_orchestrator.Mission.Review.{is_verifying}
use pi_multi_orchestrator.Mission.Verification.{finalize_quality_failure, failed_blocked}
use pi_multi_orchestrator.Mission.Creation.{finish_task}

-- handleTerminalInputForMission, on the units of the input: Escape and Ctrl+C are consumed, and abort
-- the mission, while one is active.
abbrev pub is_abort : List ℕ → Bool
is_abort input = same input (27 ∷ []) || same input (3 ∷ [])

unfoldable pub handle_terminal_input : (has_active_mission : Bool) → List ℕ → Bool
handle_terminal_input has_active_mission input = is_abort input && has_active_mission

pub data CancelStatus : Type 0 where
  cancelled already_terminal not_found no_active_mission ambiguous : CancelStatus

pub record CancelRequest : Type 0 where
  pub mission_id : Option String
  pub active_owned_mission_id : Option String

abbrev pub is_active : MissionStatus → Bool
is_active running = true
is_active active = true
is_active planned = true
is_active draft = true
is_active _ = false

abbrev pub is_terminal : MissionStatus → Bool
is_terminal completed = true
is_terminal MissionStatus.cancelled = true
is_terminal awaiting_review = true
is_terminal blocked = true
is_terminal failed = true
is_terminal _ = false

-- The store, and what the call returned or threw.
abbrev pub Outcome : Type 0 → Type 0
Outcome A = Store × Result MissionError A

-- A transaction, and what follows it if it does not throw.
abbrev pub proceed :
    {A : Type 0} → Store → Result MissionError Store → (Store → Outcome A) → Outcome A
proceed store (ok after) next = next after
proceed store (err why) next = (store, err why)

abbrev pub and_then : {A : Type 0} → Outcome (Unit {0}) → (Store → Outcome A) → Outcome A
and_then (store, ok u) next = next store
and_then (store, err why) next = (store, err why)

abbrev pub is_open : TaskStatus → Bool
is_open task_running = true
is_open task_pending = true
is_open _ = false

abbrev pub ended_task : Store → TaskRecord → Result MissionError Store
ended_task store task =
    if is_open task.status
    then finish_task store task.task_id (some task_cancelled) none
    else ok store

unfoldable pub cancel_tasks : Store → List TaskRecord → Outcome (Unit {0})
unfolding finish_task
cancel_tasks store [] = (store, ok tt)
cancel_tasks store (task ∷ tasks) =
    proceed store (ended_task store task) (λ next. cancel_tasks next tasks)

abbrev pub ended_run : Host → Store → String × VerificationRun → Result MissionError Store
ended_run host store row =
    if is_verifying row.1.status
    then finalize_quality_failure host store row.0 failed_blocked "Mission cancelled"
    else ok store

unfoldable pub cancel_runs : Host → Store → Dict VerificationRun → Outcome (Unit {0})
unfolding finalize_quality_failure
cancel_runs host store [] = (store, ok tt)
cancel_runs host store (row ∷ rows) =
    proceed store (ended_run host store row) (λ next. cancel_runs host next rows)

abbrev pub runs_of : String → Store → Dict VerificationRun
runs_of mission store = filter (λ row. row.1.mission_id === mission) store.verifications

-- The cancellation of a mission that is there and not terminal.
unfoldable pub cancel_mission : Host → Store → String → Outcome CancelStatus
unfolding transition_mission cancel_tasks cancel_runs list_tasks
cancel_mission host store id =
    proceed store (transition_mission host store id MissionStatus.cancelled user none) λ next.
      and_then (cancel_tasks next (list_tasks host next id))
        λ ended. and_then (cancel_runs host ended (runs_of id ended)) λ last. (last, ok cancelled)

abbrev pub cancelled_target : Host → Store → String → Option MissionRecord → Outcome CancelStatus
cancelled_target host store id none = (store, ok not_found)
cancelled_target host store id (some mission) =
    if is_terminal mission.status
    then (store, ok already_terminal)
    else cancel_mission host store id

-- An empty id is none.
abbrev pub given_id : Option String → Option String
given_id none = none
given_id (some id) = if id === "" then none else some id

abbrev pub or_next : Option String → Option String → Option String
or_next none other = other
or_next (some id) other = some id

abbrev pub active_missions : Store → Dict MissionRecord
active_missions store = filter (λ row. is_active row.1.status) store.missions

abbrev pub cancelled_single : Host → Store → Dict MissionRecord → Outcome CancelStatus
cancelled_single host store [] = (store, ok no_active_mission)
cancelled_single host store (row ∷ []) =
    cancelled_target host store row.0 (get store.missions row.0)
cancelled_single host store (row ∷ other ∷ rows) = (store, ok ambiguous)

abbrev pub cancelled_chosen : Host → Store → Option String → Outcome CancelStatus
cancelled_chosen host store none = cancelled_single host store (active_missions store)
cancelled_chosen host store (some id) = cancelled_target host store id (get store.missions id)

unfoldable pub cancel_active_mission : Host → Store → CancelRequest → Outcome CancelStatus
unfolding cancel_mission
cancel_active_mission host store request =
    cancelled_chosen host store
      (or_next (given_id request.mission_id) (given_id request.active_owned_mission_id))
