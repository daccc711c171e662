-- ===== src/Mission/Review/Extends.antt =====
-- src/core/mission/index.ts: what a review that passed rests on, and the changes of the store that keep
-- it.
use pi_multi_orchestrator.Prelude.{◌≡◌, refl, ◌∙◌, ◌⊎◌, inl, inr, some, String, get, Dict}
use pi_multi_orchestrator.Quality.{pass}
use pi_multi_orchestrator.Mission.{
  succeeded, AttemptRecord, TaskQuality, passed, run_completed, VerificationRun, QualityDecision,
  Store, Host, text,
}
use pi_multi_orchestrator.Mission.Attempt.Keyed.{IsKeyed}

-- The row names a decision that passes the verification that it names, which is completed.
pub record Backed (decisions : Dict QualityDecision) (runs : Dict VerificationRun) (task : String)
    (row : TaskQuality) : Type 0 where
  pub decision_id : String
  pub decision : QualityDecision
  pub verification_id : String
  pub run : VerificationRun
  pub decision_named : row.latest_decision_id ≡ some decision_id
  pub decision_there : get decisions decision_id ≡ some decision
  pub passes : decision.verdict ≡ pass
  pub of_run : decision.verification_id ≡ verification_id
  pub run_there : get runs verification_id ≡ some run
  pub is_complete : run.status ≡ run_completed
  pub of_task : run.task_id ≡ task
  pub of_mission : run.mission_id ≡ row.mission_id

-- `normal` is what is left of a text after the store has normalized it, once or more often.
pub data NormalForm (host : Host) (value : String) : String → Type 0 where
  once : {normal : String} → text host value ≡ some normal → NormalForm host value normal
  again :
      {middle normal : String}
      → NormalForm host value middle
      → text host middle ≡ some normal
      → NormalForm host value normal

-- The run verifies an attempt of its task that succeeded; its text for the attempt's id is normalized
-- again by each of its updates.
pub record Targets (host : Host) (attempts : Dict AttemptRecord) (run : VerificationRun)
    : Type 0 where
  pub attempt_id : String
  pub attempt : AttemptRecord
  pub there : get attempts attempt_id ≡ some attempt
  pub did : attempt.status ≡ succeeded
  pub of_task : attempt.task_id ≡ run.task_id
  pub of_mission : attempt.mission_id ≡ run.mission_id
  pub named : NormalForm host attempt_id run.target_run_id

pub record IsReviewed (host : Host) (store : Store) : Type 0 where
  pub backed :
      (task : String) (row : TaskQuality)
      → get store.quality task ≡ some row
      → row.status ≡ passed
      → Backed store.decisions store.verifications task row
  pub targeted :
      (id : String) (run : VerificationRun)
      → get store.verifications id ≡ some run
      → Targets host store.attempts run

abbrev pub Follows : VerificationRun → VerificationRun → Type 0
Follows old run =
    (run.task_id ≡ old.task_id)
    × (run.mission_id ≡ old.mission_id)
    × (old.status ≡ run_completed → run.status ≡ run_completed)

-- The change keeps decisions, verifications that are completed and attempts that succeeded, and a row
-- that passes is an old one or backed, a run an old one or on an attempt that succeeded. Tasks stay
-- under their ids.
pub record Extends (host : Host) (store after : Store) : Type 0 where
  pub decisions_kept :
      (id : String) (decision : QualityDecision)
      → get store.decisions id ≡ some decision
      → get after.decisions id ≡ some decision
  pub runs_kept :
      (id : String) (old : VerificationRun)
      → get store.verifications id ≡ some old
      → (run : VerificationRun) × (get after.verifications id ≡ some run) × Follows old run
  pub attempts_kept :
      (id : String) (attempt : AttemptRecord)
      → get store.attempts id ≡ some attempt
      → attempt.status ≡ succeeded
      → get after.attempts id ≡ some attempt
  pub rows :
      (task : String) (row : TaskQuality)
      → get after.quality task ≡ some row
      → row.status ≡ passed
      → (get store.quality task ≡ some row) ⊎ Backed after.decisions after.verifications task row
  pub runs :
      (id : String) (run : VerificationRun)
      → get after.verifications id ≡ some run
      → ((old : VerificationRun) × (get store.verifications id ≡ some old)
          × ((attempts : Dict AttemptRecord)
              → Targets host attempts old
              → Targets host attempts run))
        ⊎ Targets host after.attempts run
  pub keyed : IsKeyed store.tasks → IsKeyed after.tasks

pub Follows-refl : (run : VerificationRun) → Follows run run
Follows-refl run = (refl, refl, λ done. done)

Follows-trans : (a b c : VerificationRun) → Follows a b → Follows b c → Follows a c
Follows-trans a b c f g = (g.0 ∙ f.0, g.1 ∙ f.1, λ done. g.2 (f.2 done))

module _ {host : Host} {store after : Store} (x : Extends host store after) where
  Backed-kept :
      (task : String) (row : TaskQuality)
      → Backed store.decisions store.verifications task row
      → Backed after.decisions after.verifications task row
  Backed-kept task row b =
      let (run, there, (same_task, same_mission, done)) =
        x.runs_kept b.verification_id b.run b.run_there in
      record {
        decision_id = b.decision_id;
        decision = b.decision;
        verification_id = b.verification_id;
        run = run;
        decision_named = b.decision_named;
        decision_there = x.decisions_kept b.decision_id b.decision b.decision_there;
        passes = b.passes;
        of_run = b.of_run;
        run_there = there;
        is_complete = done b.is_complete;
        of_task = same_task ∙ b.of_task;
        of_mission = same_mission ∙ b.of_mission;
      }

  Targets-kept :
      (run : VerificationRun) → Targets host store.attempts run → Targets host after.attempts run
  Targets-kept run t = record {
    attempt_id = t.attempt_id;
    attempt = t.attempt;
    there = x.attempts_kept t.attempt_id t.attempt t.there t.did;
    did = t.did;
    of_task = t.of_task;
    of_mission = t.of_mission;
    named = t.named;
  }

  pub Extends-IsReviewed : IsReviewed host store → IsReviewed host after
  Extends-IsReviewed h = record {
    backed = λ task row there done. elim (x.rows task row there done) [
      | inl before ↦ Backed-kept task row (h.backed task row before done)
      | inr b ↦ b
    ];
    targeted = λ id run there. elim (x.runs id run there) [
      | inl (old, before, carry) ↦
          carry after.attempts (Targets-kept old (h.targeted id old before))
      | inr t ↦ t
    ];
  }

pub Extends-refl : (host : Host) (store : Store) → Extends host store store
Extends-refl host store = record {
  decisions_kept = λ id decision e. e;
  runs_kept = λ id old e. (old, e, Follows-refl old);
  attempts_kept = λ id attempt e done. e;
  rows = λ task row e done. inl e;
  runs = λ id run e. inl (run, e, λ attempts t. t);
  keyed = λ h. h;
}

pub Extends-trans :
    {host : Host} {a b c : Store} → Extends host a b → Extends host b c → Extends host a c
Extends-trans {host} {a} {b} {c} x y = record {
  decisions_kept = λ id decision e. y.decisions_kept id decision (x.decisions_kept id decision e);
  runs_kept = λ id old e.
      let (run, there, f) = x.runs_kept id old e in
      let (last, there', g) = y.runs_kept id run there in
      (last, there', Follows-trans old run last f g);
  attempts_kept =
      λ id attempt e done. y.attempts_kept id attempt (x.attempts_kept id attempt e done) done;
  rows = λ task row e done. elim (y.rows task row e done) [
    | inl before ↦ elim (x.rows task row before done) [
      | inl first ↦ inl first
      | inr backed ↦ inr (Backed-kept y task row backed)
    ]
    | inr backed ↦ inr backed
  ];
  runs = λ id run e. elim (y.runs id run e) [
    | inl (middle, before, carry) ↦ elim (x.runs id middle before) [
      | inl (old, first, carry') ↦
          inl (old, first, λ attempts t. carry attempts (carry' attempts t))
      | inr t ↦ inr (carry c.attempts (Targets-kept y middle t))
    ]
    | inr t ↦ inr t
  ];
  keyed = λ h. y.keyed (x.keyed h);
}
