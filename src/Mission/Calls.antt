-- ===== src/Mission/Calls.antt =====
-- src/core/mission/index.ts: the calls of the mission store, in whatever order.
pub mod LeasesKeep
pub mod Keeps
pub mod Reviewed
mod Tests
use pi_multi_orchestrator.Prelude.{ℕ, Option, List, [], ◌∷◌, String, Number, Bool, Result, ok, err}
use pi_multi_orchestrator.Mission.{
  MissionStatus, TaskStatus, Actor, Store, MissionError, Host, transition_mission,
}
use pi_multi_orchestrator.Mission.Lease.{
  acquire_lease, heartbeat_lease, release_lease, claim_mission_execution,
}
use pi_multi_orchestrator.Mission.Attempt.{AttemptEnd, create_attempt, finish_attempt, start_task}
use pi_multi_orchestrator.Mission.Review.{
  VerificationInput, VerificationPatch, DecisionInput, create_verification_run,
  update_verification_run, record_quality_decision,
}
use pi_multi_orchestrator.Mission.Verification.{
  StatusInput, Failed, set_task_quality_status, finalize_quality_verification,
  finalize_quality_failure,
}
use pi_multi_orchestrator.Mission.Interruption.{interrupt_owned_execution, recover_interrupted}
use pi_multi_orchestrator.Mission.Creation.{
  MissionInput, TaskInput, create_mission, update_mission, create_task, finish_task,
}

pub data StoreCall : Type 0 where
  create_mission_call : MissionInput → StoreCall
  update_mission_call : (mission : String) → (expected : Option ℕ) → StoreCall
  transition_mission_call :
      (mission : String) → MissionStatus → Actor → (expected : Option ℕ) → StoreCall
  create_task_call : TaskInput → StoreCall
  start_task_call : (task : String) → (expected : Option ℕ) → StoreCall
  finish_task_call : (task : String) → Option TaskStatus → (expected : Option ℕ) → StoreCall
  create_attempt_call :
      (task id : String)
      → (owner : Option String) → (ttl : Number) → (packet : Option ℕ) → (now : ℕ) → StoreCall
  finish_attempt_call : String → AttemptEnd → (mutation : Option Bool) → StoreCall
  acquire_lease_call claim_mission_execution_call heartbeat_lease_call :
      (mission owner : String) → (ttl : Number) → (now : ℕ) → StoreCall
  release_lease_call : (mission owner : String) → StoreCall
  create_verification_run_call : VerificationInput → StoreCall
  update_verification_run_call : String → VerificationPatch → StoreCall
  record_quality_decision_call : DecisionInput → StoreCall
  set_task_quality_status_call : StatusInput → StoreCall
  finalize_quality_verification_call : String → DecisionInput → StoreCall
  finalize_quality_failure_call : String → Failed → (summary : String) → StoreCall
  interrupt_owned_execution_call : (mission owner reason : String) → (now : ℕ) → StoreCall
  recover_interrupted_call : (owner : Option String) → (now : ℕ) → StoreCall

abbrev pub result_of : Host → Store → StoreCall → Result MissionError Store
result_of host store (create_mission_call input) = create_mission host store input
result_of host store (update_mission_call mission expected) = update_mission store mission expected
result_of host store (transition_mission_call mission status actor expected) =
    transition_mission host store mission status actor expected
result_of host store (create_task_call input) = create_task host store input
result_of host store (start_task_call task expected) = start_task store task expected
result_of host store (finish_task_call task status expected) =
    finish_task store task status expected
result_of host store (create_attempt_call task id owner ttl packet now) =
    create_attempt store task id owner ttl packet now
result_of host store (finish_attempt_call id end mutation) = finish_attempt store id end mutation
result_of host store (acquire_lease_call mission owner ttl now) =
    acquire_lease store mission owner ttl now
result_of host store (claim_mission_execution_call mission owner ttl now) =
    claim_mission_execution host store mission owner ttl now
result_of host store (heartbeat_lease_call mission owner ttl now) =
    heartbeat_lease store mission owner ttl now
result_of host store (release_lease_call mission owner) = release_lease store mission owner
result_of host store (create_verification_run_call input) = create_verification_run host store input
result_of host store (update_verification_run_call id patch) =
    update_verification_run host store id patch
result_of host store (record_quality_decision_call input) = record_quality_decision host store input
result_of host store (set_task_quality_status_call input) = set_task_quality_status store input
result_of host store (finalize_quality_verification_call id input) =
    finalize_quality_verification host store id input
result_of host store (finalize_quality_failure_call id status summary) =
    finalize_quality_failure host store id status summary
result_of host store (interrupt_owned_execution_call mission owner reason now) =
    interrupt_owned_execution host store mission owner reason now
result_of host store (recover_interrupted_call owner now) = recover_interrupted host store owner now

-- A call that throws leaves the store.
abbrev pub committed : Store → Result MissionError Store → Store
committed store (ok after) = after
committed store (err why) = store

abbrev pub after_calls : Host → Store → List StoreCall → Store
after_calls host store [] = store
after_calls host store (call ∷ calls) =
    after_calls host (committed store (result_of host store call)) calls
