-- ===== src/Mission/Tests.antt =====
-- src/core/mission/index.ts: a mission that is claimed, worked on and completed.
use mathlib.Core.List.{Memᴰ}
use pi_multi_orchestrator.Prelude.{
  safe_nat?, ◌+◌, ℕ, ◌<◌, ◌≡◌, ◌≢◌, refl, true, false, none, some, List, [], ◌∷◌, String, ◌===◌,
  get, put, Number, nat, ok, err, arith,
}
use pi_multi_orchestrator.Routing.Failure.{instant}
use pi_multi_orchestrator.Mission.{
  draft, running, awaiting_review, completed, boss, system, MissionRecord, TaskRecord, task_planned,
  execution_completed, LeaseRecord, passed, Store, unauthorized, validation, lease_error,
  mission_row, Host, transition_mission, active_mission_tasks, task_done,
}
use pi_multi_orchestrator.Mission.Completion.{transition_mission-completed}
use pi_multi_orchestrator.Mission.Lease.{
  acquire_lease, heartbeat_lease, release_lease, claim_mission_execution, is_closed,
}
use pi_multi_orchestrator.Mission.Lease.Exclusive.{acquire_lease-excludes}
use pi_multi_orchestrator.Mission.Lease.Refines.{
  LeaseCall, acquire_call, beat_call, LockRun, lock_of, outcomes, after_lease_calls,
  lease_calls-LockRun,
}
use pi_multi_orchestrator.Mission.Lease.Claim.{claim_mission_execution-running}
use pi_multi_orchestrator.Mission.Attempt.{
  create_attempt, running_attempts, finish_attempt, end_succeeded,
}
use pi_multi_orchestrator.Mission.Attempt.Single.{
  IsSingle, AttemptCall, create_call, finish_call, after_attempts, after_attempts-IsSingle,
}

abbrev host : Host
host = record {
  identity = λ execution_class objective. objective;
  id_le = λ a b. true;
  nfkc = λ text. text;
  max_text_length = 100;
  unreadable_le = λ now. false;
}

abbrev task : TaskRecord
task = record {
  task_id = "t";
  mission_id = "m";
  revision = 1;
  execution_class = "implementation";
  objective = "build";
  packet_revision = 0;
  last_run_id = none;
  status = task_planned;
  created_at = 5;
}

abbrev store : Store
store = record {
  missions = ("m", record { status = draft; revision = 1 }) ∷ [];
  tasks = ("t", task) ∷ [];
  attempts = [];
  leases = [];
  quality = [];
  verifications = [];
  decisions = [];
}

abbrev lease : LeaseRecord
lease = record {
  owner = "one";
  acquired_at = 10;
  heartbeat_at = 10;
  expires_at = instant 40;
  recovered_from = none;
}

abbrev leased : Store
leased = record store { leases = ("m", lease) ∷ [] }

abbrev claimed : Store
claimed = record leased { missions = ("m", record { status = running; revision = 4 }) ∷ [] }

acquires : acquire_lease store "m" "one" (nat 30) 10 ≡ ok leased
unfolding acquire_lease get put
acquires = refl

claims : claim_mission_execution host store "m" "one" (nat 30) 10 ≡ ok claimed
unfolding claim_mission_execution get put
claims = refl

refuses_other : acquire_lease leased "m" "two" (nat 30) 39 ≡ err lease_error
unfolding acquire_lease get put
refuses_other = refl

acquire_lease-excludes_example :
    (ms : ℕ) × (lease : LeaseRecord) × (safe_nat? (nat 30) ≡ some ms)
    × (0 < ms)
    × (get leased.leases "m" ≡ some lease)
    × (lease.owner ≡ "one")
    × (lease.expires_at ≡ instant (10 + ms))
    × ((other : String)
        → ("one" === other) ≡ false
        → (other_ttl : Number) (time : ℕ) (next : Store)
        → (time < 10 + ms → acquire_lease leased "m" other other_ttl time ≢ ok next)
          × (heartbeat_lease leased "m" other other_ttl time ≢ ok next)
          × (release_lease leased "m" other ≢ ok next))
acquire_lease-excludes_example = acquire_lease-excludes store leased "m" "one" (nat 30) 10 acquires

claim_mission_execution-running_example :
    ((before : MissionRecord) × (get store.missions "m" ≡ some before)
      × (is_closed before.status ≡ false))
    × ((mission : MissionRecord) × (get claimed.missions "m" ≡ some mission)
        × (mission.status ≡ running))
    × ((held : LeaseRecord) × (until : ℕ) × (get claimed.leases "m" ≡ some held)
        × (held.owner ≡ "one")
        × (held.expires_at ≡ instant until)
        × (10 < until))
claim_mission_execution-running_example =
    claim_mission_execution-running host store claimed "m" "one" (nat 30) 10 claims

abbrev reviewed : Store
reviewed = record store {
  missions = ("m", record { status = awaiting_review; revision = 5 }) ∷ [];
  tasks = ("t", record task { status = execution_completed }) ∷ [];
  quality =
      (
        "t",
        record {
          mission_id = "m";
          status = passed;
          round = 1;
          latest_verification_id = some "v";
          latest_decision_id = some "d";
        },
      )
      ∷ [];
}

abbrev finished : Store
finished = record reviewed { missions = ("m", record { status = completed; revision = 6 }) ∷ [] }

completes : transition_mission host reviewed "m" completed boss none ≡ ok finished
unfolding transition_mission get put
completes = refl

not_by_system : transition_mission host reviewed "m" completed system none ≡ err unauthorized
unfolding transition_mission get put
not_by_system = refl

not_without_review :
    transition_mission host (record reviewed { quality = [] }) "m" completed boss none
    ≡ err validation
unfolding transition_mission get put
not_without_review = refl

transition_mission-completed_example :
    (boss ≡ boss)
    × ((revision : ℕ) × (mission_row reviewed "m"
          ≡ ok (record { status = awaiting_review; revision = revision })))
    × (active_mission_tasks host reviewed "m" ≢ [])
    × ((done : TaskRecord)
        → Memᴰ done (active_mission_tasks host reviewed "m")
        → task_done reviewed "m" done ≡ true)
transition_mission-completed_example =
    transition_mission-completed host reviewed finished "m" boss none completes

abbrev attempts : List AttemptCall
attempts =
    create_call "t" "a" (some "one") (nat 30) none 10
    ∷ create_call "t" "b" (some "one") (nat 30) none 11
    ∷ finish_call "a" end_succeeded none
    ∷ []

none-IsSingle : IsSingle []
unfolding running_attempts
none-IsSingle task = omega arith

after_attempts-IsSingle_example : IsSingle (after_attempts leased attempts).attempts
after_attempts-IsSingle_example = after_attempts-IsSingle leased attempts none-IsSingle

abbrev working : Store
working = after_attempts leased (create_call "t" "a" (some "one") (nat 30) none 10 ∷ [])

abbrev worked : Store
worked = after_attempts working (finish_call "a" end_succeeded none ∷ [])

begins : create_attempt leased "t" "a" (some "one") (nat 30) none 10 ≡ ok working
unfolding create_attempt get put
begins = refl

ends : finish_attempt working "a" end_succeeded none ≡ ok worked
unfolding create_attempt finish_attempt get put
ends = refl

not_by_other : create_attempt leased "t" "a" (some "two") (nat 30) none 10 ≡ err lease_error
unfolding create_attempt get put
not_by_other = refl

abbrev lease_calls : List (ℕ × LeaseCall)
lease_calls =
    (10, acquire_call "m" "one" (nat 30))
    ∷ (20, acquire_call "m" "two" (nat 30))
    ∷ (39, beat_call "m" "one" (nat 30))
    ∷ (70, acquire_call "m" "two" (nat 30))
    ∷ []

lease_calls-LockRun_example :
    LockRun "m"
      (lock_of store "m")
      (outcomes store lease_calls)
      (lock_of (after_lease_calls store lease_calls) "m")
lease_calls-LockRun_example = lease_calls-LockRun store lease_calls "m"

taken_over :
    lock_of (after_lease_calls store lease_calls) "m"
    ≡ some (record { holder = "two"; until = 100 })
unfolding acquire_lease heartbeat_lease get put
taken_over = refl
