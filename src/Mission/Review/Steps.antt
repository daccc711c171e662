-- ===== src/Mission/Review/Steps.antt =====
-- src/core/mission/index.ts: each operation on the verifications keeps what the reviews rest on.
use pi_multi_orchestrator.Prelude.{
  some-injective, ℕ, ◌≡◌, refl, sym, ap, ◌∙◌, inl, inr, true, not, ◌&&◌, ◌||◌, Option, none, some,
  String, get, put, Dict, put-cases, put-kept, get-put_self, get-put_other, arith, ok, bind-eq-ok,
  check-then-eq-ok, ok-injective, is_some, any, ◌===◌, eq_iff, or_else, nat, subst, Bool-cases,
}
use pi_multi_orchestrator.Mission.{
  text, found-eq-ok, succeeded, AttemptStatus, AttemptRecord, VerificationStatus, run_completed,
  VerificationRun, Store, Host, validation, mission_row,
}
use pi_multi_orchestrator.Mission.Attempt.{task_row, attempt_row}
use pi_multi_orchestrator.Mission.Review.Extends.{
  once, again, Targets, Extends, Follows, Follows-refl,
}
use pi_multi_orchestrator.Mission.Review.{
  verification_row, round_of, text_of, create_verification_run, VerificationInput, begun,
  with_verification, is_succeeded, verifies, update_verification_run, VerificationPatch, patched,
  keeps_text, may_become, is_verified, or_other, optional_text,
}

pub absent {ℓ} : {V : Type ℓ} (found : Option V) → not (is_some found) ≡ true → found ≡ none
absent none h = refl
absent (some v) h = cc

pub text_of-some :
    (host : Host) (value normal : String)
    → text_of host value ≡ ok normal
    → text host value ≡ some normal
text_of-some host value normal e = read (text host value) refl
  where
    read : (found : Option String) → text host value ≡ found → found ≡ some normal
    read none f = let missing = rw f at e in cc
    read (some other) f = let there = rw f at e in cc

did_succeed : (status : AttemptStatus) → is_succeeded status ≡ true → status ≡ succeeded
did_succeed succeeded h = refl
did_succeed _ h = cc

-- A new run on an attempt that succeeded.
verification_added-Extends :
    (host : Host) (store : Store) (id : String) (run : VerificationRun)
    → get store.verifications id ≡ none
    → Targets host store.attempts run
    → Extends host store (with_verification store id run)
verification_added-Extends host store id run fresh t = record {
  decisions_kept = λ other decision e. e;
  runs_kept =
      λ other old e. (old, put-kept store.verifications id other run old fresh e, Follows-refl old);
  attempts_kept = λ other attempt e done. e;
  rows = λ task row e done. inl e;
  runs = λ other found e. elim (put-cases store.verifications id other run found e) [
    | inl (here, same) ↦ inr (subst (Targets host store.attempts) same t)
    | inr (apart, there) ↦ inl (found, there, λ attempts held. held)
  ];
  keyed = λ h. h;
}

pub create_verification_run-Extends :
    (host : Host) (store after : Store) (input : VerificationInput)
    → create_verification_run host store input ≡ ok after
    → Extends host store after
unfolding create_verification_run
create_verification_run-Extends host store after input e =
    let (mission, row, e1) = bind-eq-ok (mission_row store input.mission_id) _ e in
    let (task, task_there, e2) = bind-eq-ok (task_row store input.task_id) _ e1 in
    let (t3, e3) = check-then-eq-ok (task.mission_id === input.mission_id) validation _ e2 in
    let (target, target_there, e4) = bind-eq-ok (attempt_row store input.target_run_id) _ e3 in
    let (t5, e5) =
      check-then-eq-ok
        ((target.mission_id === input.mission_id) && (target.task_id === input.task_id)) validation
        _ e4 in
    let (t6, e6) = check-then-eq-ok (is_succeeded target.status) validation _ e5 in
    let (round, r, e7) = bind-eq-ok (round_of (or_else input.round (nat 0))) _ e6 in
    let (t8, e8) =
      check-then-eq-ok (not (is_some (get store.verifications input.verification_id))) validation _
        e7 in
    let (t9, e9) =
      check-then-eq-ok (not (any (verifies input.mission_id input.task_id) store.verifications))
        validation _ e8 in
    let (name, normal, made) = bind-eq-ok (text_of host input.target_run_id) _ e9 in
    let written = ok-injective made in
    subst (Extends host store) written (
      verification_added-Extends host store input.verification_id (begun input round name)
        (absent _ t8)
        (record {
          attempt_id = input.target_run_id;
          attempt = target;
          there = found-eq-ok (get store.attempts input.target_run_id) target_there;
          did = did_succeed target.status t6;
          of_task = (eq_iff target.task_id input.task_id).0 (ground arith);
          of_mission = (eq_iff target.mission_id input.mission_id).0 (ground arith);
          named = once (text_of-some host input.target_run_id name normal);
        }))

pub verification_changed-Extends :
    (host : Host) (store : Store) (id : String) (old run : VerificationRun)
    → get store.verifications id ≡ some old
    → Follows old run
    → ((attempts : Dict AttemptRecord) → Targets host attempts old → Targets host attempts run)
    → Extends host store (with_verification store id run)
verification_changed-Extends host store id old run there follows carry = record {
  decisions_kept = λ other decision e. e;
  runs_kept = λ other found e. elim (Bool-cases (id === other)) [
    | inl here ↦
        let same : id ≡ other = (eq_iff id other).0 here in
        let found_old : old ≡ found =
          some-injective (sym there ∙ ap (get store.verifications) same ∙ e) in
        (
          run,
          subst (λ key. get (put store.verifications id run) key ≡ some run) same
              (get-put_self store.verifications id run),
          subst (λ r. Follows r run) found_old follows,
        )
    | inr apart ↦
        (found, get-put_other store.verifications id other run apart ∙ e, Follows-refl found)
  ];
  attempts_kept = λ other attempt e done. e;
  rows = λ task row e done. inl e;
  runs = λ other found e. elim (put-cases store.verifications id other run found e) [
    | inl (here, same) ↦ inl (
      old,
      subst (λ key. get store.verifications key ≡ some old) here there,
      λ attempts t. subst (Targets host attempts) same (carry attempts t),
    )
    | inr (apart, before) ↦ inl (found, before, λ attempts held. held)
  ];
  keyed = λ h. h;
}

kept_complete :
    (old : VerificationStatus) (change : Option VerificationStatus)
    → may_become old change ≡ true
    → old ≡ run_completed
    → or_else change old ≡ run_completed
kept_complete old none h done = done
kept_complete VerificationStatus.run_completed (some VerificationStatus.run_completed) h done = refl
kept_complete _ (some _) h done = cc

-- The target that an update writes is the normal form of the old one.
carried :
    (host : Host) (old : VerificationRun) (patch : VerificationPatch) (round : ℕ)
    (failure : Option String) (target : String)
    → text host old.target_run_id ≡ some target
    → (attempts : Dict AttemptRecord) → Targets host attempts old
    → Targets host attempts (patched old patch round failure target)
carried host old patch round failure target normal attempts t = record {
  attempt_id = t.attempt_id;
  attempt = t.attempt;
  there = t.there;
  did = t.did;
  of_task = t.of_task;
  of_mission = t.of_mission;
  named = again t.named normal;
}

pub record Updates (host : Host) (store : Store) (id : String) (patch : VerificationPatch)
    (after : Store) : Type 0 where
  pub old : VerificationRun
  pub there : get store.verifications id ≡ some old
  pub allowed : may_become old.status patch.status ≡ true
  pub with_decision :
      (not (is_verified (or_else patch.status old.status))
        || is_some (or_other patch.decision_id old.decision_id))
      ≡ true
  pub round : ℕ
  pub failure : Option String
  pub target : String
  pub normal : text host old.target_run_id ≡ some target
  pub written : with_verification store id (patched old patch round failure target) ≡ after

pub update_verification_run-Updates :
    (host : Host) (store after : Store) (id : String) (patch : VerificationPatch)
    → update_verification_run host store id patch ≡ ok after
    → Updates host store id patch after
unfolding update_verification_run
update_verification_run-Updates host store after id patch e =
    let (old, row, e1) = bind-eq-ok (verification_row store id) _ e in
    let (t2, e2) = check-then-eq-ok (keeps_text patch.mission_id old.mission_id) validation _ e1 in
    let (t3, e3) = check-then-eq-ok (keeps_text patch.task_id old.task_id) validation _ e2 in
    let (t4, e4) =
      check-then-eq-ok (keeps_text patch.target_run_id old.target_run_id) validation _ e3 in
    let (t5, e5) = check-then-eq-ok (may_become old.status patch.status) validation _ e4 in
    let (t6, e6) =
      check-then-eq-ok
        (not (is_verified (or_else patch.status old.status))
          || is_some (or_other patch.decision_id old.decision_id))
        validation _ e5 in
    let (round, r, e7) = bind-eq-ok (round_of (or_else patch.round (nat old.round))) _ e6 in
    let (failure, f, e8) =
      bind-eq-ok (optional_text host (or_other patch.failure_summary old.failure_summary)) _ e7 in
    let (target, t, e9) = bind-eq-ok (text_of host old.target_run_id) _ e8 in
    let (mission, m, made) = bind-eq-ok (mission_row store old.mission_id) _ e9 in
    record {
      old = old;
      there = found-eq-ok (get store.verifications id) row;
      allowed = t5;
      with_decision = t6;
      round = round;
      failure = failure;
      target = target;
      normal = text_of-some host old.target_run_id target t;
      written = ok-injective made;
    }

pub update_verification_run-Extends :
    (host : Host) (store after : Store) (id : String) (patch : VerificationPatch)
    → update_verification_run host store id patch ≡ ok after
    → Extends host store after
update_verification_run-Extends host store after id patch e =
    let u = update_verification_run-Updates host store after id patch e in
    subst (Extends host store) u.written (
      verification_changed-Extends host store id u.old
        (patched u.old patch u.round u.failure u.target) u.there
        (refl, refl, kept_complete u.old.status patch.status u.allowed)
        (carried host u.old patch u.round u.failure u.target u.normal))
