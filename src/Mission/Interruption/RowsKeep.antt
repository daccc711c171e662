-- ===== src/Mission/Interruption/RowsKeep.antt =====
-- src/core/mission/index.ts: the interruption of attempts and of verification runs keeps what the reviews
-- rest on.
use pi_multi_orchestrator.Prelude.{
  ◌≡◌, refl, sym, ap, ◌∙◌, subst, ◌⊎◌, inl, inr, Bool, true, false, Option, none, some, List, [],
  ◌∷◌, String, get, Dict, if◌then◌else◌, eq_iff, ◌===◌, Bool-cases,
}
use pi_multi_orchestrator.Mission.{
  succeeded, AttemptRecord, TaskQuality, passed, review_required, VerificationRun, run_completed,
  Store, Host, TaskRecord,
}
use pi_multi_orchestrator.Mission.Attempt.{is_running, update}
use pi_multi_orchestrator.Mission.Attempt.Rows.{update-kept, update-cases}
use pi_multi_orchestrator.Mission.Attempt.Keyed.{IsKeyed, update-IsKeyed}
use pi_multi_orchestrator.Mission.Review.{is_verifying}
use pi_multi_orchestrator.Mission.Review.Extends.{
  NormalForm, Targets, Extends, Follows, Follows-refl, Extends-refl, Extends-trans,
}
use pi_multi_orchestrator.Mission.Interruption.{
  stopped_attempt, interrupted_attempt, interrupt_attempts, stopped_run, reopened, interrupted_run,
  interrupt_runs, stopped_task, is_task_running,
}

-- A change of other tables only.
pub others-Extends :
    (host : Host) (store after : Store)
    → store.quality ≡ after.quality
    → store.verifications ≡ after.verifications
    → store.decisions ≡ after.decisions
    → store.attempts ≡ after.attempts
    → (IsKeyed store.tasks → IsKeyed after.tasks)
    → Extends host store after
others-Extends host store after q v d a tasks = record {
  decisions_kept = λ id decision e. rw (← d) e;
  runs_kept = λ id old e. (old, rw (← v) e, Follows-refl old);
  attempts_kept = λ id attempt e done. rw (← a) e;
  rows = λ task row e done. inl (rw q e);
  runs = λ id run e. inl (run, rw v e, λ attempts t. t);
  keyed = tasks;
}

stopped_attempt-succeeded :
    (attempt : AttemptRecord) → attempt.status ≡ succeeded → stopped_attempt attempt ≡ attempt
stopped_attempt-succeeded attempt done =
    let idle : is_running attempt.status ≡ false = rw done refl in rw idle refl

-- The attempts that run may end; those that succeeded stay.
pub attempts_updated-Extends :
    (host : Host) (store after : Store) (id : String) (change : AttemptRecord → AttemptRecord)
    → ((attempt : AttemptRecord)
        → get store.attempts id ≡ some attempt
        → attempt.status ≡ succeeded
        → change attempt ≡ attempt)
    → store.quality ≡ after.quality
    → store.verifications ≡ after.verifications
    → store.decisions ≡ after.decisions
    → update store.attempts id change ≡ after.attempts
    → (IsKeyed store.tasks → IsKeyed after.tasks)
    → Extends host store after
attempts_updated-Extends host store after id change same q v d a tasks = record {
  decisions_kept = λ other decision e. rw (← d) e;
  runs_kept = λ other old e. (old, rw (← v) e, Follows-refl old);
  attempts_kept = λ other attempt e done. rw (← a) (
      update-kept store.attempts id other change attempt e
      ∙ ap some (unchanged other attempt e done (id === other) refl));
  rows = λ task row e done. inl (rw q e);
  runs = λ other run e. inl (run, rw v e, λ attempts t. t);
  keyed = tasks;
}
  where
    unchanged :
        (other : String) (attempt : AttemptRecord)
        → get store.attempts other ≡ some attempt
        → attempt.status ≡ succeeded
        → (b : Bool) → (id === other) ≡ b
        → (if b then change attempt else attempt) ≡ attempt
    unchanged other attempt e done true here =
        same attempt
          (subst (λ key. get store.attempts key ≡ some attempt) (sym ((eq_iff id other).0 here)) e)
          done
    unchanged other attempt e done false apart = refl

stopped_task-id : (task : TaskRecord) → (stopped_task task).task_id ≡ task.task_id
stopped_task-id task = elim (Bool-cases (is_task_running task.status)) [
  | inl t ↦ rw t refl
  | inr f ↦ rw f refl
]

interrupted_attempt-Extends :
    (host : Host) (store : Store) (id : String) (found : Option AttemptRecord)
    → Extends host store (interrupted_attempt store id found)
interrupted_attempt-Extends host store id none = Extends-refl host store
interrupted_attempt-Extends host store id (some current) =
    attempts_updated-Extends host store _ id stopped_attempt
      (λ attempt e done. stopped_attempt-succeeded attempt done) refl refl refl refl
      (update-IsKeyed store.tasks current.task_id stopped_task
        (λ task named. stopped_task-id task ∙ named))

pub interrupt_attempts-Extends :
    (host : Host) (store : Store) (ids : List String)
    → Extends host store (interrupt_attempts store ids)
unfolding interrupt_attempts
interrupt_attempts-Extends host store [] = Extends-refl host store
interrupt_attempts-Extends host store (id ∷ ids) =
    let found = get store.attempts id in
    Extends-trans (interrupted_attempt-Extends host store id found)
      (interrupt_attempts-Extends host (interrupted_attempt store id found) ids)

stopped_run-completed :
    (reason : String) (run : VerificationRun)
    → run.status ≡ run_completed
    → (stopped_run reason run).status ≡ run_completed
stopped_run-completed reason run done =
    let idle : is_verifying run.status ≡ false = rw done refl in rw idle done

stopped_run-same :
    (reason : String) (run : VerificationRun)
    → ((stopped_run reason run).task_id ≡ run.task_id)
      × ((stopped_run reason run).mission_id ≡ run.mission_id)
      × ((stopped_run reason run).target_run_id ≡ run.target_run_id)
stopped_run-same reason run = elim (Bool-cases (is_verifying run.status)) [
  | inl t ↦ rw t (refl, refl, refl)
  | inr f ↦ rw f (refl, refl, refl)
]

Targets-same :
    (host : Host) (attempts : Dict AttemptRecord) (old run : VerificationRun)
    → run.task_id ≡ old.task_id
    → run.mission_id ≡ old.mission_id
    → run.target_run_id ≡ old.target_run_id
    → Targets host attempts old
    → Targets host attempts run
Targets-same host attempts old run task mission target t = record {
  attempt_id = t.attempt_id;
  attempt = t.attempt;
  there = t.there;
  did = t.did;
  of_task = t.of_task ∙ sym task;
  of_mission = t.of_mission ∙ sym mission;
  named = subst (NormalForm host t.attempt_id) (sym target) t.named;
}

interrupted_run-Extends :
    (host : Host) (store : Store) (reason : String) (row : String × VerificationRun)
    → Extends host store (interrupted_run store reason row)
interrupted_run-Extends host store reason row = record {
  decisions_kept = λ id decision e. e;
  runs_kept = λ id old e. (
    _,
    update-kept store.verifications row.0 id (stopped_run reason) old e,
    follows old (row.0 === id),
  );
  attempts_kept = λ id attempt e done. e;
  rows = λ task found e done.
      let (old, there, how) =
        update-cases store.quality row.1.task_id task (reopened row) found e in
      elim how [
        | inl changed ↦ absurd (not_open (sym (ap TaskQuality.status changed) ∙ done))
        | inr same ↦ inl (there ∙ ap some (sym same))
      ];
  runs = λ id run e.
      let (old, there, how) =
        update-cases store.verifications row.0 id (stopped_run reason) run e in
      inl (old, there, carried old run how);
  keyed = λ h. h;
}
  where
    not_open : review_required ≡ passed → ⊥
    not_open h = cc

    follows :
        (old : VerificationRun) (b : Bool) → Follows old (if b then stopped_run reason old else old)
    follows old true =
        let (task, mission, target) = stopped_run-same reason old in
        (task, mission, stopped_run-completed reason old)
    follows old false = Follows-refl old

    carried :
        (old run : VerificationRun)
        → (run ≡ stopped_run reason old) ⊎ (run ≡ old)
        → (attempts : Dict AttemptRecord) → Targets host attempts old
        → Targets host attempts run
    carried old run (inl changed) attempts t =
        let (task, mission, target) = stopped_run-same reason old in
        subst (Targets host attempts) (sym changed)
          (Targets-same host attempts old (stopped_run reason old) task mission target t)
    carried old run (inr same) attempts t = subst (Targets host attempts) (sym same) t

pub interrupt_runs-Extends :
    (host : Host) (store : Store) (reason : String) (rows : Dict VerificationRun)
    → Extends host store (interrupt_runs store reason rows)
unfolding interrupt_runs
interrupt_runs-Extends host store reason [] = Extends-refl host store
interrupt_runs-Extends host store reason (row ∷ rows) =
    Extends-trans (interrupted_run-Extends host store reason row)
      (interrupt_runs-Extends host (interrupted_run store reason row) reason rows)
