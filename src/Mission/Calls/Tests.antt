-- ===== src/Mission/Calls/Tests.antt =====
-- src/core/mission: a mission that is worked on, reviewed and completed, and one that breaks off.
use mathlib.Core.List.{Memᴰ}
use pi_multi_orchestrator.Prelude.{
  ◌≡◌, ◌≢◌, ◌⊎◌, refl, true, false, none, some, List, [], ◌∷◌, String, get, put, any, nat, ok, err,
}
use pi_multi_orchestrator.Quality.{pass}
use pi_multi_orchestrator.Mission.{
  text, awaiting_review, paused, completed, boss, system, MissionRecord, TaskRecord, task_planned,
  execution_completed, Store, validation, Host, transition_mission, active_mission_tasks,
}
use pi_multi_orchestrator.Mission.Attempt.{create_attempt, finish_attempt, end_succeeded}
use pi_multi_orchestrator.Mission.Lease.{acquire_lease, claim_mission_execution}
use pi_multi_orchestrator.Mission.Review.{create_verification_run}
use pi_multi_orchestrator.Mission.Verification.{finalize_quality_verification}
use pi_multi_orchestrator.Mission.Review.Extends.{IsReviewed}
use pi_multi_orchestrator.Mission.Creation.{create_mission, create_task}
use pi_multi_orchestrator.Mission.Interruption.{
  is_held, owned_by, verified_in, is_interruptible, interrupt_owned_execution, recover_interrupted,
  is_lost, is_lost_run,
}
use pi_multi_orchestrator.Mission.Interruption.Shutdown.{interrupt_owned_execution-stops}
use pi_multi_orchestrator.Mission.Interruption.Recovered.{recover_interrupted-recovers}
use pi_multi_orchestrator.Mission.Cancellation.{CancelRequest, cancelled, cancel_active_mission}
use pi_multi_orchestrator.Mission.Attempt.Keyed.{IsKeyed}
use pi_multi_orchestrator.Mission.Cancellation.Ended.{
  IsTarget, IsCancelled, cancel_active_mission-IsCancelled,
}
use pi_multi_orchestrator.Mission.Calls.{
  StoreCall, create_mission_call, create_task_call, create_attempt_call, finish_attempt_call,
  claim_mission_execution_call, create_verification_run_call, finalize_quality_verification_call,
  transition_mission_call, after_calls, result_of, committed, interrupt_owned_execution_call,
  recover_interrupted_call,
}
use pi_multi_orchestrator.Mission.Calls.Reviewed.{
  HasReview, after_calls-IsReviewed, after_calls-IsKeyed, completed-HasReview,
}

abbrev host : Host
host = record {
  identity = λ execution_class objective. objective;
  id_le = λ a b. true;
  nfkc = λ text. text;
  max_text_length = 100;
  unreadable_le = λ now. false;
}

normalizes : (text host " a b " ≡ some "a b") × (text host "   " ≡ none)
unfolding text
normalizes = (refl, refl)

abbrev empty : Store
empty = record {
  missions = [];
  tasks = [];
  attempts = [];
  leases = [];
  quality = [];
  verifications = [];
  decisions = [];
}

empty-IsReviewed : IsReviewed host empty
unfolding get
empty-IsReviewed = record { backed = λ task row e. absurd (cc); targeted = λ id run e. absurd (cc) }

abbrev begins : List StoreCall
begins =
    create_mission_call
      (record { mission_id = "m"; goal = "build"; title = none; objective = none; status = none })
    ∷ create_task_call (record {
      task_id = "t";
      mission_id = "m";
      role_id = "worker";
      execution_class = "implementation";
      objective = "build";
      pool_id = some "implementation";
      context_budget = none;
      packet_fits = true;
      status = some task_planned;
      now = 5;
    })
    ∷ claim_mission_execution_call "m" "one" (nat 30) 10
    ∷ create_attempt_call "t" "a" (some "one") (nat 30) none 11
    ∷ []

abbrev verification : StoreCall
verification = create_verification_run_call (record {
  verification_id = "v";
  mission_id = "m";
  task_id = "t";
  target_run_id = "a";
  round = some (nat 1);
})

abbrev ends : List StoreCall
ends =
    finish_attempt_call "a" end_succeeded none
    ∷ verification
    ∷ finalize_quality_verification_call "v" (record {
      decision_id = "d";
      mission_id = "m";
      task_id = "t";
      verification_id = "v";
      target_run_id = "a";
      round = nat 1;
      verdict = pass;
      report = true;
    })
    ∷ transition_mission_call "m" awaiting_review system none
    ∷ []

abbrev working : Store
working = after_calls host empty begins

abbrev ready : Store
ready = after_calls host working ends

working-IsReviewed : IsReviewed host working
working-IsReviewed = after_calls-IsReviewed host empty begins empty-IsReviewed

after_calls-IsReviewed_example : IsReviewed host ready
after_calls-IsReviewed_example = after_calls-IsReviewed host working ends working-IsReviewed

abbrev completes : StoreCall
completes = transition_mission_call "m" completed boss none

abbrev finished : Store
finished = record ready { missions = ("m", record { status = completed; revision = 6 }) ∷ [] }

abbrev done : TaskRecord
done = record {
  task_id = "t";
  mission_id = "m";
  revision = 3;
  execution_class = "implementation";
  objective = "build";
  packet_revision = 0;
  last_run_id = some "a";
  status = execution_completed;
  created_at = 5;
}

is_ready : result_of host ready completes ≡ ok finished
unfolding text create_mission create_task claim_mission_execution acquire_lease create_attempt
    finish_attempt create_verification_run finalize_quality_verification transition_mission get put
is_ready = refl

done_listed : Memᴰ done (active_mission_tasks host ready "m")
unfolding text active_mission_tasks create_mission create_task claim_mission_execution acquire_lease
    create_attempt finish_attempt create_verification_run finalize_quality_verification
    transition_mission get put
done_listed = Memᴰ.head refl

completed-HasReview_example : HasReview host ready "m" done.task_id
completed-HasReview_example =
    completed-HasReview host working ends finished "m" boss none working-IsReviewed is_ready done
      done_listed

abbrev interruption : StoreCall
interruption = interrupt_owned_execution_call "m" "one" "shutdown" 12

abbrev interrupted : Store
interrupted = committed working (result_of host working interruption)

interrupts : interrupt_owned_execution host working "m" "one" "shutdown" 12 ≡ ok interrupted
unfolding text interrupt_owned_execution create_mission create_task claim_mission_execution
    acquire_lease create_attempt transition_mission get put
interrupts = refl

interrupt_owned_execution-stops_example :
    (is_held (get working.leases "m") "one" 12 ≡ true)
    × (any (owned_by "m" "one") interrupted.attempts ≡ false)
    × (any (verified_in "m") interrupted.verifications ≡ false)
    × ((next : MissionRecord) × (get interrupted.missions "m" ≡ some next)
        × (is_interruptible next.status ≡ false))
    × (get interrupted.leases "m" ≡ none)
interrupt_owned_execution-stops_example =
    interrupt_owned_execution-stops host working interrupted "m" "one" "shutdown" 12 interrupts

-- A paused mission cannot be interrupted.
abbrev on_hold : Store
on_hold = record working { missions = ("m", record { status = paused; revision = 5 }) ∷ [] }

not_paused : interrupt_owned_execution host on_hold "m" "one" "shutdown" 12 ≡ err validation
unfolding text interrupt_owned_execution create_mission create_task claim_mission_execution
    acquire_lease create_attempt transition_mission get put
not_paused = refl

not_recovered : recover_interrupted host on_hold none 100 ≡ err validation
unfolding text recover_interrupted create_mission create_task claim_mission_execution acquire_lease
    create_attempt transition_mission get put
not_recovered = refl

abbrev recovery : StoreCall
recovery = recover_interrupted_call none 100

abbrev rescued : Store
rescued = committed working (result_of host working recovery)

rescues : recover_interrupted host working none 100 ≡ ok rescued
unfolding text recover_interrupted create_mission create_task claim_mission_execution acquire_lease
    create_attempt transition_mission get put
rescues = refl

recover_interrupted-recovers_example :
    (any (is_lost host rescued none 100) rescued.attempts ≡ false)
    × (any (is_lost_run host rescued none 100) rescued.verifications ≡ false)
recover_interrupted-recovers_example =
    recover_interrupted-recovers host working rescued none 100 rescues

abbrev request : CancelRequest
request = record { mission_id = none; active_owned_mission_id = some "" }

abbrev withdrawn : Store
withdrawn = (cancel_active_mission host working request).0

withdraws : cancel_active_mission host working request ≡ (withdrawn, ok cancelled)
unfolding text cancel_active_mission create_mission create_task claim_mission_execution
    acquire_lease create_attempt transition_mission get put
withdraws = refl

empty-IsKeyed : IsKeyed empty.tasks
unfolding get
empty-IsKeyed id task e = absurd (cc)

working-IsKeyed : IsKeyed working.tasks
working-IsKeyed = after_calls-IsKeyed host empty begins empty-IsKeyed

cancel_active_mission-IsCancelled_example :
    ((id : String) × IsTarget working request id
      × (cancelled ≡ cancelled)
      × IsCancelled withdrawn id)
    ⊎ ((cancelled ≢ cancelled) × (working ≡ withdrawn))
cancel_active_mission-IsCancelled_example =
    cancel_active_mission-IsCancelled host working withdrawn request cancelled working-IsKeyed
      withdraws
