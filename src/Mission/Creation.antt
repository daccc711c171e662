-- ===== src/Mission/Creation.antt =====
-- src/core/mission/index.ts: createMission, createTask, updateMission and finishTask.
use pi_multi_orchestrator.Prelude.{
  ℕ, ◌+◌, Bool, true, not, Option, none, some, [], ◌∷◌, String, or_else, is_some, includes, Number,
  safe_nat?, get, put, Result, ok, ◌>>=◌, ◌>>◌, check,
}
use pi_multi_orchestrator.Mission.{
  MissionStatus, draft, TaskStatus, task_pending, execution_completed, unverified, Store,
  MissionError, validation, conflict, mission_row, revision_matches, with_mission, Host,
}
use pi_multi_orchestrator.Mission.Attempt.{set_task}
use pi_multi_orchestrator.Mission.Lease.{positive}
use pi_multi_orchestrator.Mission.Review.{text_of}

pub record MissionInput : Type 0 where
  pub mission_id : String
  pub goal : String
  pub title : Option String
  pub objective : Option String
  pub status : Option MissionStatus

unfoldable pub create_mission : Host → Store → MissionInput → Result MissionError Store
create_mission host store input = do
  goal ← text_of host input.goal
  title ← text_of host (or_else input.title goal)
  objective ← text_of host (or_else input.objective goal)
  check (not (is_some (get store.missions input.mission_id))) validation
  ok (
      with_mission store input.mission_id
        (record { status = or_else input.status draft; revision = 1 }))

-- `updateMission`: the patch touches columns that the model leaves out.
unfoldable pub update_mission : Store → String → (expected : Option ℕ) → Result MissionError Store
update_mission store id expected = do
  current ← mission_row store id
  check (revision_matches expected current.revision) conflict
  ok (with_mission store id (record current { revision = current.revision + 1 }))

-- `packet_fits` says that the packet, if there is one, is within the store's bound.
pub record TaskInput : Type 0 where
  pub task_id : String
  pub mission_id : String
  pub role_id : String
  pub execution_class : String
  pub objective : String
  pub pool_id : Option String
  pub context_budget : Option Number
  pub packet_fits : Bool
  pub status : Option TaskStatus
  pub now : ℕ

abbrev pub is_budget : Option Number → Bool
is_budget none = true
is_budget (some budget) = is_some (positive (safe_nat? budget))

abbrev pub is_pool : Option String → Bool
is_pool none = true
is_pool (some id) = includes ("investigation" ∷ "implementation" ∷ "verification" ∷ []) id

abbrev pub created : Store → TaskInput → (revision : ℕ) → (objective : String) → Store
created store input revision objective = record store {
  tasks = put store.tasks input.task_id (record {
    task_id = input.task_id;
    mission_id = input.mission_id;
    revision = revision;
    execution_class = input.execution_class;
    objective = objective;
    packet_revision = 0;
    last_run_id = none;
    status = or_else input.status task_pending;
    created_at = input.now;
  });
  quality = put store.quality input.task_id (record {
    mission_id = input.mission_id;
    status = unverified;
    round = 0;
    latest_verification_id = none;
    latest_decision_id = none;
  });
}

unfoldable pub create_task : Host → Store → TaskInput → Result MissionError Store
create_task host store input = do
  mission ← mission_row store input.mission_id
  check (not (is_some (get store.tasks input.task_id))) validation
  check (is_budget input.context_budget) validation
  check (is_pool input.pool_id) validation
  role ← text_of host input.role_id
  objective ← text_of host input.objective
  check input.packet_fits validation
  ok (created store input mission.revision objective)

-- `finishTask`, with the status that it takes by default.
unfoldable pub finish_task :
    Store
    → String
    → (status : Option TaskStatus) → (expected : Option ℕ) → Result MissionError Store
unfolding set_task
finish_task store id status expected =
    set_task store id (or_else status execution_completed) expected
