-- ===== src/Mission/Calls/Keeps.antt =====
-- src/core/mission/index.ts: each call of the store keeps what the reviews rest on.
use pi_multi_orchestrator.Prelude.{
  some-injective, ℕ, ◌≡◌, refl, sym, ap, ◌∙◌, subst, inl, inr, Bool, true, Option, [], ◌∷◌, ◌++◌,
  String, get, ◌===◌, ok, bind-eq-ok, check-then-eq-ok, seq-eq-ok, ok-injective, Bool-cases, Number,
  check, or_else, is_some, not,
}
use pi_multi_orchestrator.Mission.{
  found-eq-ok, TaskStatus, execution_completed, succeeded, AttemptRecord, passed, unverified,
  TaskRecord, Store, Host, validation, conflict, mission_row, revision_matches,
}
use pi_multi_orchestrator.Mission.Attempt.{
  started, create_attempt, finish_attempt, start_task, set_task, task_row, attempt_row, is_running,
  is_runnable, AttemptEnd, quality_after,
}
use pi_multi_orchestrator.Mission.Attempt.Rows.{append-kept}
use pi_multi_orchestrator.Mission.Attempt.Single.{create_attempt-Starts, ended_as}
use pi_multi_orchestrator.Mission.Attempt.Keyed.{put-IsKeyed, task_row-IsKeyed, update-IsKeyed}
use pi_multi_orchestrator.Mission.Review.{text_of}
use pi_multi_orchestrator.Mission.Review.Extends.{Extends, Follows-refl, Extends-trans}
use pi_multi_orchestrator.Mission.Review.Steps.{
  create_verification_run-Extends, update_verification_run-Extends,
}
use pi_multi_orchestrator.Mission.Review.Decide.{
  record_quality_decision-Extends, set_task_quality_status-Extends,
  finalize_quality_verification-Extends, finalize_quality_failure-Extends, quality_set-Extends,
}
use pi_multi_orchestrator.Mission.Interruption.Keeps.{
  transition_mission-Extends, interrupt_owned_execution-Extends, recover_interrupted-Extends,
}
use pi_multi_orchestrator.Mission.Interruption.RowsKeep.{others-Extends, attempts_updated-Extends}
use pi_multi_orchestrator.Mission.Creation.{
  MissionInput, TaskInput, create_mission, update_mission, create_task, finish_task, created,
  is_budget, is_pool,
}
use pi_multi_orchestrator.Mission.Calls.{
  StoreCall, create_mission_call, update_mission_call, transition_mission_call, create_task_call,
  start_task_call, finish_task_call, create_attempt_call, finish_attempt_call, acquire_lease_call,
  claim_mission_execution_call, heartbeat_lease_call, release_lease_call,
  create_verification_run_call, update_verification_run_call, record_quality_decision_call,
  set_task_quality_status_call, finalize_quality_verification_call, finalize_quality_failure_call,
  interrupt_owned_execution_call, recover_interrupted_call, result_of,
}
use pi_multi_orchestrator.Mission.Calls.LeasesKeep.{
  acquire_lease-Extends, claim_mission_execution-Extends, heartbeat_lease-Extends,
  release_lease-Extends,
}

create_mission-Extends :
    (host : Host) (store after : Store) (input : MissionInput)
    → create_mission host store input ≡ ok after
    → Extends host store after
unfolding create_mission
create_mission-Extends host store after input e =
    let (goal, g, e1) = bind-eq-ok (text_of host input.goal) _ e in
    let (title, t, e2) = bind-eq-ok (text_of host (or_else input.title goal)) _ e1 in
    let (objective, o, e3) = bind-eq-ok (text_of host (or_else input.objective goal)) _ e2 in
    let (fresh, made) =
      check-then-eq-ok (not (is_some (get store.missions input.mission_id))) validation _ e3 in
    subst (Extends host store) (ok-injective made)
      (others-Extends host store _ refl refl refl refl (λ h. h))

update_mission-Extends :
    (host : Host) (store after : Store) (id : String) (expected : Option ℕ)
    → update_mission store id expected ≡ ok after
    → Extends host store after
unfolding update_mission
update_mission-Extends host store after id expected e =
    let (current, row, e1) = bind-eq-ok (mission_row store id) _ e in
    let (t, made) = check-then-eq-ok (revision_matches expected current.revision) conflict _ e1 in
    subst (Extends host store) (ok-injective made)
      (others-Extends host store _ refl refl refl refl (λ h. h))

not_passed : unverified ≡ passed → ⊥
not_passed h = cc

create_task-Extends :
    (host : Host) (store after : Store) (input : TaskInput)
    → create_task host store input ≡ ok after
    → Extends host store after
unfolding create_task
create_task-Extends host store after input e =
    let (mission, row, e1) = bind-eq-ok (mission_row store input.mission_id) _ e in
    let (fresh, e2) =
      check-then-eq-ok (not (is_some (get store.tasks input.task_id))) validation _ e1 in
    let (b, e3) = check-then-eq-ok (is_budget input.context_budget) validation _ e2 in
    let (p, e4) = check-then-eq-ok (is_pool input.pool_id) validation _ e3 in
    let (role, r, e5) = bind-eq-ok (text_of host input.role_id) _ e4 in
    let (objective, o, e6) = bind-eq-ok (text_of host input.objective) _ e5 in
    let (fits, made) = check-then-eq-ok input.packet_fits validation _ e6 in
    subst (Extends host store) (ok-injective made) (
      Extends-trans
        (quality_set-Extends host store input.task_id _ (λ done. absurd (not_passed done)))
        (others-Extends host _ (created store input mission.revision objective) refl refl refl refl
          (put-IsKeyed store.tasks input.task_id _ refl)))

set_task-Extends :
    (host : Host) (store after : Store) (id : String) (status : TaskStatus) (expected : Option ℕ)
    → set_task store id status expected ≡ ok after
    → Extends host store after
unfolding set_task
set_task-Extends host store after id status expected e =
    let (task, row_of, e1) = bind-eq-ok (task_row store id) _ e in
    let (t, made) = seq-eq-ok (check (revision_matches expected task.revision) conflict) _ e1 in
    subst (Extends host store) (ok-injective made) (
      others-Extends host store _ refl refl refl refl (λ h.
        update-IsKeyed store.tasks id _ (λ row named. task_row-IsKeyed store id task row_of h) h))

start_task-Extends :
    (host : Host) (store after : Store) (id : String) (expected : Option ℕ)
    → start_task store id expected ≡ ok after
    → Extends host store after
unfolding start_task
start_task-Extends host store after id expected e =
    let (task, row, e1) = bind-eq-ok (task_row store id) _ e in
    let (t, made) = seq-eq-ok (check (is_runnable task.status) validation) _ e1 in
    set_task-Extends host store after id TaskStatus.task_running expected made

finish_task-Extends :
    (host : Host) (store after : Store) (id : String) (status : Option TaskStatus)
    (expected : Option ℕ)
    → finish_task store id status expected ≡ ok after
    → Extends host store after
unfolding finish_task
finish_task-Extends host store after id status expected e =
    set_task-Extends host store after id (or_else status execution_completed) expected e

quality_after-Extends :
    (host : Host) (store : Store) (id : String) (task : TaskRecord)
    → Extends host store (record store { quality = quality_after id task store.quality })
quality_after-Extends host store id task =
    elim (Bool-cases (task.execution_class === "implementation")) [
      | inl t ↦ rw t (quality_set-Extends host store id _ (λ done. absurd (not_passed done)))
      | inr f ↦ rw f (others-Extends host store _ refl refl refl refl (λ h. h))
    ]

attempt_added-Extends :
    (host : Host) (store : Store) (entry : String × AttemptRecord)
    → Extends host store (record store { attempts = store.attempts ++ (entry ∷ []) })
attempt_added-Extends host store entry = record {
  decisions_kept = λ id decision e. e;
  runs_kept = λ id old e. (old, e, Follows-refl old);
  attempts_kept = λ id attempt e done. append-kept store.attempts entry id attempt e;
  rows = λ task row e done. inl e;
  runs = λ id run e. inl (run, e, λ attempts t. t);
  keyed = λ h. h;
}

create_attempt-Extends :
    (host : Host) (store after : Store) (task_id id : String) (owner : Option String) (ttl : Number)
    (packet : Option ℕ) (now : ℕ)
    → create_attempt store task_id id owner ttl packet now ≡ ok after
    → Extends host store after
create_attempt-Extends host store after task_id id owner ttl packet now e =
    let s = create_attempt-Starts store after task_id id owner ttl packet now e in
    subst (Extends host store) s.written (
      Extends-trans (quality_after-Extends host store task_id s.task) (
        Extends-trans (attempt_added-Extends host _ _) (
          others-Extends host _ (started store task_id s.task id owner s.expires packet) refl refl
            refl refl
            (λ h.
              put-IsKeyed store.tasks task_id _ (task_row-IsKeyed store task_id s.task s.row h)
                h))))

not_running :
    (attempt : AttemptRecord) → is_running attempt.status ≡ true → attempt.status ≡ succeeded → ⊥
not_running attempt runs done = let ended = rw done at runs in cc

finish_attempt-Extends :
    (host : Host) (store after : Store) (id : String) (end : AttemptEnd) (mutation : Option Bool)
    → finish_attempt store id end mutation ≡ ok after
    → Extends host store after
unfolding finish_attempt
finish_attempt-Extends host store after id end mutation e =
    let (current, row, rest) = bind-eq-ok (attempt_row store id) _ e in
    let (checked, made) = check-then-eq-ok (is_running current.status) validation _ rest in
    subst (Extends host store) (ok-injective made) (
      attempts_updated-Extends host store _ id
        (ended_as end (or_else mutation current.mutation_observed))
        (λ attempt there done.
          let same : current ≡ attempt =
            some-injective (sym (found-eq-ok (get store.attempts id) row) ∙ there) in
          absurd (not_running current checked (ap AttemptRecord.status same ∙ done)))
        refl refl refl refl (update-IsKeyed store.tasks current.task_id _ (λ row named. named)))

pub result_of-Extends :
    (host : Host) (store after : Store) (call : StoreCall)
    → result_of host store call ≡ ok after
    → Extends host store after
result_of-Extends host store after (create_mission_call input) e =
    create_mission-Extends host store after input e
result_of-Extends host store after (update_mission_call mission expected) e =
    update_mission-Extends host store after mission expected e
result_of-Extends host store after (transition_mission_call mission status actor expected) e =
    transition_mission-Extends host store after mission status actor expected e
result_of-Extends host store after (create_task_call input) e =
    create_task-Extends host store after input e
result_of-Extends host store after (start_task_call task expected) e =
    start_task-Extends host store after task expected e
result_of-Extends host store after (finish_task_call task status expected) e =
    finish_task-Extends host store after task status expected e
result_of-Extends host store after (create_attempt_call task id owner ttl packet now) e =
    create_attempt-Extends host store after task id owner ttl packet now e
result_of-Extends host store after (finish_attempt_call id end mutation) e =
    finish_attempt-Extends host store after id end mutation e
result_of-Extends host store after (acquire_lease_call mission owner ttl now) e =
    acquire_lease-Extends host store after mission owner ttl now e
result_of-Extends host store after (claim_mission_execution_call mission owner ttl now) e =
    claim_mission_execution-Extends host store after mission owner ttl now e
result_of-Extends host store after (heartbeat_lease_call mission owner ttl now) e =
    heartbeat_lease-Extends host store after mission owner ttl now e
result_of-Extends host store after (release_lease_call mission owner) e =
    release_lease-Extends host store after mission owner e
result_of-Extends host store after (create_verification_run_call input) e =
    create_verification_run-Extends host store after input e
result_of-Extends host store after (update_verification_run_call id patch) e =
    update_verification_run-Extends host store after id patch e
result_of-Extends host store after (record_quality_decision_call input) e =
    record_quality_decision-Extends host store after input e
result_of-Extends host store after (set_task_quality_status_call input) e =
    set_task_quality_status-Extends host store after input e
result_of-Extends host store after (finalize_quality_verification_call id input) e =
    finalize_quality_verification-Extends host store after id input e
result_of-Extends host store after (finalize_quality_failure_call id status summary) e =
    finalize_quality_failure-Extends host store after id status summary e
result_of-Extends host store after (interrupt_owned_execution_call mission owner reason now) e =
    interrupt_owned_execution-Extends host store after mission owner reason now e
result_of-Extends host store after (recover_interrupted_call owner now) e =
    recover_interrupted-Extends host store after owner now e
