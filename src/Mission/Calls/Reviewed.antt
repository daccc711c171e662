-- ===== src/Mission/Calls/Reviewed.antt =====
-- src/core/mission/index.ts: what any calls of the store keep, and what stands behind a mission that is
-- completed.
use mathlib.Core.List.{Memᴰ}
use pi_multi_orchestrator.Prelude.{
  ℕ, ◌≡◌, refl, ap, ◌∙◌, true, Option, none, some, List, [], ◌∷◌, String, get, eq_iff, ok, err,
  Result, arith,
}
use pi_multi_orchestrator.Quality.{pass}
use pi_multi_orchestrator.Mission.{
  completed, Actor, succeeded, AttemptRecord, TaskQuality, QualityStatus, passed, is_passed,
  TaskRecord, run_completed, VerificationRun, QualityDecision, Store, Host, MissionError,
  transition_mission, active_mission_tasks, task_done, quality_passed,
}
use pi_multi_orchestrator.Mission.Completion.{transition_mission-completed}
use pi_multi_orchestrator.Mission.Attempt.Keyed.{IsKeyed}
use pi_multi_orchestrator.Mission.Review.Extends.{
  NormalForm, IsReviewed, Extends, Extends-IsReviewed,
}
use pi_multi_orchestrator.Mission.Calls.{StoreCall, result_of, committed, after_calls}
use pi_multi_orchestrator.Mission.Calls.Keeps.{result_of-Extends}

committed-IsReviewed :
    (host : Host) (store : Store) (result : Result MissionError Store)
    → ((after : Store) → result ≡ ok after → Extends host store after)
    → IsReviewed host store
    → IsReviewed host (committed store result)
committed-IsReviewed host store (ok after) extends h = Extends-IsReviewed (extends after refl) h
committed-IsReviewed host store (err why) extends h = h

-- Whatever calls the store gets, in whatever order and whether or not they throw, these stay true: a task that has passed names a recorded
-- decision, which passes a completed verification of the task, and each verification is of an attempt
-- of its task that succeeded.
pub after_calls-IsReviewed :
    (host : Host) (store : Store) (calls : List StoreCall)
    → IsReviewed host store
    → IsReviewed host (after_calls host store calls)
after_calls-IsReviewed host store [] h = h
after_calls-IsReviewed host store (call ∷ calls) h =
    after_calls-IsReviewed host (committed store (result_of host store call)) calls (
      committed-IsReviewed host store (result_of host store call)
        (λ after e. result_of-Extends host store after call e) h)

committed-IsKeyed :
    (host : Host) (store : Store) (result : Result MissionError Store)
    → ((after : Store) → result ≡ ok after → Extends host store after)
    → IsKeyed store.tasks
    → IsKeyed (committed store result).tasks
committed-IsKeyed host store (ok after) extends h = (extends after refl).keyed h
committed-IsKeyed host store (err why) extends h = h

-- If each task stands under its own id, then each task still does after whatever calls, in whatever order and whether or not they throw.
pub after_calls-IsKeyed :
    (host : Host) (store : Store) (calls : List StoreCall)
    → IsKeyed store.tasks
    → IsKeyed (after_calls host store calls).tasks
after_calls-IsKeyed host store [] h = h
after_calls-IsKeyed host store (call ∷ calls) h =
    after_calls-IsKeyed host (committed store (result_of host store call)) calls (
      committed-IsKeyed host store (result_of host store call)
        (λ after e. result_of-Extends host store after call e) h)

-- The task has an attempt that succeeded, a completed verification of it and a decision that passes it.
pub record HasReview (host : Host) (store : Store) (mission task : String) : Type 0 where
  pub decision_id : String
  pub decision : QualityDecision
  pub decided : get store.decisions decision_id ≡ some decision
  pub passes : decision.verdict ≡ pass
  pub run : VerificationRun
  pub verified : get store.verifications decision.verification_id ≡ some run
  pub run_is_complete : run.status ≡ run_completed
  pub run_of_task : (run.task_id ≡ task) × (run.mission_id ≡ mission)
  pub attempt_id : String
  pub attempt : AttemptRecord
  pub tried : get store.attempts attempt_id ≡ some attempt
  pub did : attempt.status ≡ succeeded
  pub named : NormalForm host attempt_id run.target_run_id
  pub attempt_of_task : (attempt.task_id ≡ task) × (attempt.mission_id ≡ mission)

quality_passed-some :
    (mission : String) (found : Option TaskQuality)
    → quality_passed mission found ≡ true
    → (row : TaskQuality) × (found ≡ some row) × (row.mission_id ≡ mission) × (row.status ≡ passed)
quality_passed-some mission none h = absurd (cc)
quality_passed-some mission (some row) h =
    (row, refl, (eq_iff row.mission_id mission).0 (ground arith), read row.status (ground arith))
  where
    read : (status : QualityStatus) → is_passed status ≡ true → status ≡ passed
    read passed t = refl
    read _ t = cc

IsReviewed-HasReview :
    (host : Host) (store : Store) (mission : String) (task : TaskRecord)
    → IsReviewed host store
    → task_done store mission task ≡ true
    → HasReview host store mission task.task_id
IsReviewed-HasReview host store mission task h done =
    let (row, there, of_mission, status) =
      quality_passed-some mission (get store.quality task.task_id) (ground arith) in
    let b = h.backed task.task_id row there status in
    let t = h.targeted b.verification_id b.run b.run_there in
    record {
      decision_id = b.decision_id;
      decision = b.decision;
      decided = b.decision_there;
      passes = b.passes;
      run = b.run;
      verified = ap (get store.verifications) b.of_run ∙ b.run_there;
      run_is_complete = b.is_complete;
      run_of_task = (b.of_task, b.of_mission ∙ of_mission);
      attempt_id = t.attempt_id;
      attempt = t.attempt;
      tried = t.there;
      did = t.did;
      named = t.named;
      attempt_of_task = (t.of_task ∙ b.of_task, t.of_mission ∙ b.of_mission ∙ of_mission);
    }

-- When a mission is completed in a store that some calls have made out of one in which the reviews are
-- sound, then each active task of the mission has
-- an attempt that succeeded, a completed verification of it, and a recorded decision that passes that.
pub completed-HasReview :
    (host : Host) (store : Store) (calls : List StoreCall) (after : Store) (id : String)
    (actor : Actor) (expected : Option ℕ)
    → IsReviewed host store
    → transition_mission host (after_calls host store calls) id completed actor expected ≡ ok after
    → (task : TaskRecord) → Memᴰ task (active_mission_tasks host (after_calls host store calls) id)
    → HasReview host (after_calls host store calls) id task.task_id
completed-HasReview host store calls after id actor expected h e task m =
    let reached = after_calls host store calls in
    let (by_boss, from_review, some_active, all_done) =
      transition_mission-completed host reached after id actor expected e in
    IsReviewed-HasReview host reached id task (after_calls-IsReviewed host store calls h)
      (all_done task m)
