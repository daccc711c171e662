-- ===== src/Mission/Attempt.antt =====
-- src/core/mission/index.ts: the attempts of the tasks. An attempt starts and ends once.
pub mod Rows
pub mod Keyed
pub mod Single
use pi_multi_orchestrator.Prelude.{
  ℕ, zero, suc, ◌+◌, Bool, true, false, not, ◌&&◌, ◌||◌, Option, none, some, List, [], ◌∷◌, ◌++◌,
  String, if◌then◌else◌, ◌===◌, length, or_else, is_some, any, filter, Number, Dict, get, put,
  Result, ok, err, ◌>>=◌, ◌>>◌, check,
}
use pi_multi_orchestrator.Routing.Failure.{Stamp}
use pi_multi_orchestrator.Mission.{
  found, TaskStatus, task_pending, task_planned, task_ready, task_running, task_interrupted,
  task_blocked, task_cancelled, execution_completed, AttemptStatus, attempt_running, succeeded,
  attempt_failed, interrupted, attempt_cancelled, timed_out, TaskRecord, AttemptRecord, LeaseRecord,
  TaskQuality, unverified, Store, MissionError, found, validation, lease_error, conflict,
  revision_matches,
}
use pi_multi_orchestrator.Mission.Lease.{ttl_of, iso, runs_at}

abbrev pub task_row : Store → String → Result MissionError TaskRecord
task_row store id = found (get store.tasks id)

abbrev pub attempt_row : Store → String → Result MissionError AttemptRecord
attempt_row store id = found (get store.attempts id)

abbrev pub is_running : AttemptStatus → Bool
is_running attempt_running = true
is_running _ = false

abbrev pub runs_for : String → String × AttemptRecord → Bool
runs_for task entry = (entry.1.task_id === task) && is_running entry.1.status

unfoldable pub running_attempts : Dict AttemptRecord → String → Dict AttemptRecord
running_attempts attempts task = filter (runs_for task) attempts

-- The mission has a lease that runs, and the attempt's owner does not hold it.
abbrev pub excluded : Option LeaseRecord → (owner : Option String) → ℕ → Bool
excluded none owner now = false
excluded (some lease) none now = runs_at lease.expires_at now
excluded (some lease) (some owner) now =
    runs_at lease.expires_at now && ((owner === "") || not (lease.owner === owner))

abbrev pub with_status : TaskRecord → TaskStatus → TaskRecord
with_status task status = record task { status = status; revision = task.revision + 1 }

-- An implementation task has to be verified anew.
abbrev pub quality_after : String → TaskRecord → Dict TaskQuality → Dict TaskQuality
quality_after task_id task quality =
    if task.execution_class === "implementation"
    then put quality task_id (record {
      mission_id = mission_kept (get quality task_id);
      status = unverified;
      round = 0;
      latest_verification_id = none;
      latest_decision_id = none;
    })
    else quality
  where
    mission_kept : Option TaskQuality → String
    mission_kept none = task.mission_id
    mission_kept (some row) = row.mission_id

abbrev pub expiry_of : Option String → Stamp → Option Stamp
expiry_of none expires = none
expiry_of (some owner) expires = if owner === "" then none else some expires

abbrev pub started : Store → String → TaskRecord → String → Option String → Stamp → Option ℕ → Store
started store task_id task id owner expires packet = record store {
  tasks =
      put store.tasks task_id (record (with_status task task_running) { last_run_id = some id });
  attempts =
      store.attempts
      ++ ((
        id,
        record {
          task_id = task_id;
          mission_id = task.mission_id;
          revision = task.revision + 1;
          status = attempt_running;
          lease_owner = owner;
          lease_expires_at = expiry_of owner expires;
          mutation_observed = false;
          packet_revision = or_else packet task.packet_revision;
        },
      )
          ∷ []);
  quality = quality_after task_id task store.quality;
}

unfoldable pub create_attempt :
    Store
    → (task id : String) → (owner : Option String) → (ttl : Number) → (packet : Option ℕ)
    → (now : ℕ) → Result MissionError Store
unfolding running_attempts
create_attempt store task_id id owner ttl packet now = task_row store task_id >>= λ task.
    check (not (excluded (get store.leases task.mission_id) owner now)) lease_error
    >> check (not (any (runs_for task_id) store.attempts)) lease_error
    >> ttl_of ttl
    >>= λ ms.
        check (not (is_some (get store.attempts id))) validation >> iso (now + ms) >>= λ expires.
        ok (started store task_id task id owner expires packet)

-- The end of an attempt: every status but `running`.
pub data AttemptEnd : Type 0 where
  end_succeeded end_failed end_interrupted end_cancelled end_timed_out end_unknown : AttemptEnd

abbrev pub status_of_end : AttemptEnd → AttemptStatus
status_of_end end_succeeded = succeeded
status_of_end end_failed = attempt_failed
status_of_end end_interrupted = interrupted
status_of_end end_cancelled = attempt_cancelled
status_of_end end_timed_out = timed_out
status_of_end end_unknown = AttemptStatus.attempt_unknown

unfoldable pub task_status_after : AttemptEnd → TaskStatus
task_status_after end_succeeded = execution_completed
task_status_after end_interrupted = task_interrupted
task_status_after end_cancelled = task_cancelled
task_status_after end_timed_out = task_interrupted
task_status_after _ = task_blocked

-- `UPDATE`: every row of the key, of which there is at most one.
abbrev pub update {ℓ} : {V : Type ℓ} → Dict V → String → (V → V) → Dict V
update [] key change = []
update ((name, value) ∷ rest) key change =
    (name, if name === key then change value else value) ∷ update rest key change

unfoldable pub finish_attempt :
    Store → String → AttemptEnd → (mutation : Option Bool) → Result MissionError Store
unfolding task_status_after
finish_attempt store id end mutation = attempt_row store id >>= λ current.
    check (is_running current.status) validation
    >> ok (record store {
      attempts = update store.attempts id (λ attempt. record attempt {
        status = status_of_end end;
        mutation_observed = or_else mutation current.mutation_observed;
      });
      tasks = update store.tasks current.task_id (λ task. with_status task (task_status_after end));
    })

unfoldable pub set_task :
    Store → String → TaskStatus → (expected : Option ℕ) → Result MissionError Store
set_task store id status expected = task_row store id >>= λ task.
    check (revision_matches expected task.revision) conflict
    >> ok (record store { tasks = update store.tasks id (λ row. with_status task status) })

abbrev pub is_runnable : TaskStatus → Bool
is_runnable task_pending = true
is_runnable task_planned = true
is_runnable task_ready = true
is_runnable task_interrupted = true
is_runnable _ = false

unfoldable pub start_task : Store → String → (expected : Option ℕ) → Result MissionError Store
unfolding set_task
start_task store id expected = task_row store id >>= λ task.
    check (is_runnable task.status) validation >> set_task store id task_running expected
