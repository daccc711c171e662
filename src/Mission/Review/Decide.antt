-- ===== src/Mission/Review/Decide.antt =====
-- src/core/mission/index.ts: the decisions, the quality status and the ends of a verification keep what
-- the reviews rest on.
use pi_multi_orchestrator.Prelude.{
  some-injective, ℕ, ◌≡◌, refl, sym, ap, ◌∙◌, inl, inr, true, not, ◌&&◌, Bool, Option, none, some,
  String, get, put, Dict, put-cases, put-kept, arith, ok, bind-eq-ok, check-then-eq-ok,
  ok-injective, is_some, any, ◌===◌, ◌==◌, eq_iff, subst, Bool-cases,
}
use pi_multi_orchestrator.Quality.{QualityVerdict, pass}
use pi_multi_orchestrator.Mission.{
  found-eq-ok, AttemptRecord, TaskQuality, passed, VerificationStatus, run_completed,
  VerificationRun, QualityDecision, Store, Host, validation, not_found, mission_row,
}
use pi_multi_orchestrator.Mission.Attempt.{task_row}
use pi_multi_orchestrator.Mission.Review.Extends.{
  Backed, Targets, Extends, Follows-refl, Extends-refl, Extends-trans,
}
use pi_multi_orchestrator.Mission.Review.Steps.{
  absent, verification_changed-Extends, update_verification_run-Extends,
}
use pi_multi_orchestrator.Mission.Review.{
  verification_row, round_of, text_of, record_quality_decision, DecisionInput, decision_row,
  decides, is_verifying, run_code, update_verification_run,
}
use pi_multi_orchestrator.Mission.Verification.{
  with_quality, set_task_quality_status, StatusInput, named_row, run_of_task, decision_of_task,
  same_verification, evidenced, verdict_code, has_verdict, run_has, completing, quality_of,
  status_after, finalize_quality_verification, fail_verification, Failed, failing,
  quality_after_failure, finalize_quality_failure,
}

decision_added-Extends :
    (host : Host) (store : Store) (id : String) (decision : QualityDecision)
    → get store.decisions id ≡ none
    → Extends host store (record store { decisions = put store.decisions id decision })
decision_added-Extends host store id decision fresh = record {
  decisions_kept = λ other found e. put-kept store.decisions id other decision found fresh e;
  runs_kept = λ other old e. (old, e, Follows-refl old);
  attempts_kept = λ other attempt e done. e;
  rows = λ task row e done. inl e;
  runs = λ other run e. inl (run, e, λ attempts t. t);
  keyed = λ h. h;
}

decision_named :
    (old : VerificationRun) (decision : String) (host : Host) (attempts : Dict AttemptRecord)
    → Targets host attempts old
    → Targets host attempts (record old { decision_id = some decision })
decision_named old decision host attempts t = record {
  attempt_id = t.attempt_id;
  attempt = t.attempt;
  there = t.there;
  did = t.did;
  of_task = t.of_task;
  of_mission = t.of_mission;
  named = t.named;
}

pub record_quality_decision-Extends :
    (host : Host) (store after : Store) (input : DecisionInput)
    → record_quality_decision host store input ≡ ok after
    → Extends host store after
unfolding record_quality_decision
record_quality_decision-Extends host store after input e =
    let (mission, row, e1) = bind-eq-ok (mission_row store input.mission_id) _ e in
    let (task, task_there, e2) = bind-eq-ok (task_row store input.task_id) _ e1 in
    let (t3, e3) = check-then-eq-ok (task.mission_id === input.mission_id) validation _ e2 in
    let (run, run_there, e4) = bind-eq-ok (verification_row store input.verification_id) _ e3 in
    let (t5, e5) =
      check-then-eq-ok ((run.mission_id === input.mission_id) && (run.task_id === input.task_id))
        validation _ e4 in
    let (t6, e6) = check-then-eq-ok (input.target_run_id === run.target_run_id) validation _ e5 in
    let (t7, e7) = check-then-eq-ok (is_verifying run.status) validation _ e6 in
    let (t8, e8) =
      check-then-eq-ok (not (any (decides input.verification_id) store.decisions)) validation _
        e7 in
    let (round, r, e9) = bind-eq-ok (round_of input.round) _ e8 in
    let (t10, e10) = check-then-eq-ok (round == run.round) validation _ e9 in
    let (t11, e11) =
      check-then-eq-ok (not (is_some (get store.decisions input.decision_id))) validation _ e10 in
    let (t12, e12) = check-then-eq-ok input.report validation _ e11 in
    let (target, t, made) = bind-eq-ok (text_of host input.target_run_id) _ e12 in
    subst (Extends host store) (ok-injective made) (
      Extends-trans
        (decision_added-Extends host store input.decision_id (decision_row input round target)
          (absent _ t11))
        (verification_changed-Extends host _ input.verification_id run
          (record run { decision_id = some input.decision_id })
          (found-eq-ok (get store.verifications input.verification_id) run_there)
          (refl, refl, λ done. done) (decision_named run input.decision_id host)))

pub quality_set-Extends :
    (host : Host) (store : Store) (task : String) (row : TaskQuality)
    → (row.status ≡ passed → Backed store.decisions store.verifications task row)
    → Extends host store (record store { quality = put store.quality task row })
quality_set-Extends host store task row backed = record {
  decisions_kept = λ other found e. e;
  runs_kept = λ other old e. (old, e, Follows-refl old);
  attempts_kept = λ other attempt e done. e;
  rows = λ other found e done. elim (put-cases store.quality task other row found e) [
    | inl (here, same) ↦ inr (
        subst (λ key. Backed store.decisions store.verifications key found) here
          (subst (Backed store.decisions store.verifications task) same
            (backed (ap TaskQuality.status same ∙ done))))
    | inr (apart, before) ↦ inl before
  ];
  runs = λ other run e. inl (run, e, λ attempts t. t);
  keyed = λ h. h;
}

named_row-some {ℓ} :
    {A : Type ℓ} (rows : Dict A) (belongs : A → Bool) (id : Option String) (row : A)
    → named_row rows belongs id ≡ ok (some row)
    → (name : String) × (id ≡ some name) × (get rows name ≡ some row) × (belongs row ≡ true)
named_row-some rows belongs none row e = cc
named_row-some {A = A} rows belongs (some name) row e = read (get rows name) refl
  where
    read :
        (found : Option A)
        → get rows name ≡ found
        → (key : String) × (some name ≡ some key) × (get rows key ≡ some row) × (belongs row ≡ true)
    read none f = let missing = rw f at e in absurd (cc)
    read (some other) f =
        let e' = rw f at e in
        let (b, made) = check-then-eq-ok (belongs other) validation _ e' in
        let same : other ≡ row = some-injective (ok-injective made) in
        (name, refl, f ∙ ap some same, ap belongs (sym same) ∙ b)

complete_of :
    (run : VerificationRun) → run_has run_completed (some run) ≡ true → run.status ≡ run_completed
complete_of run h = read run.status h
  where
    read : (status : VerificationStatus) → (run_code status == 1) ≡ true → status ≡ run_completed
    read VerificationStatus.run_completed h = refl
    read _ h = cc

pass_of : (made : QualityDecision) → has_verdict pass (some made) ≡ true → made.verdict ≡ pass
pass_of made h = read made.verdict h
  where
    read : (verdict : QualityVerdict) → (verdict_code verdict == 0) ≡ true → verdict ≡ pass
    read pass h = refl
    read _ h = cc

evidenced-Backed :
    (store : Store) (input : StatusInput) (round : ℕ) (run : Option VerificationRun)
    (decision : Option QualityDecision)
    → named_row store.verifications (run_of_task input) input.verification_id ≡ ok run
    → named_row store.decisions (decision_of_task input) input.decision_id ≡ ok decision
    → same_verification decision input.verification_id ≡ true
    → evidenced passed run decision ≡ true
    → Backed store.decisions store.verifications input.task_id (record {
      mission_id = input.mission_id;
      status = input.status;
      round = round;
      latest_verification_id = input.verification_id;
      latest_decision_id = input.decision_id;
    })
evidenced-Backed store input round none decision r d same shown = absurd (ground arith)
evidenced-Backed store input round (some run) none r d same shown = absurd (ground arith)
evidenced-Backed store input round (some run) (some made) r d same shown =
    let (run_id, run_named, run_there, run_belongs) =
      named_row-some store.verifications (run_of_task input) input.verification_id run r in
    let (decision_id, named, there, belongs) =
      named_row-some store.decisions (decision_of_task input) input.decision_id made d in
    let same' = rw run_named at same in
    record {
      decision_id = decision_id;
      decision = made;
      verification_id = run_id;
      run = run;
      decision_named = named;
      decision_there = there;
      passes = pass_of made (ground arith);
      of_run = (eq_iff made.verification_id run_id).0 same';
      run_there = run_there;
      is_complete = complete_of run (ground arith);
      of_task = (eq_iff run.task_id input.task_id).0 (ground arith);
      of_mission = (eq_iff run.mission_id input.mission_id).0 (ground arith);
    }

-- What a quality status that is set has found, and what it leaves.
pub record SetsQuality (store : Store) (input : StatusInput) (after : Store) : Type 0 where
  pub round : ℕ
  pub run : Option VerificationRun
  pub decision : Option QualityDecision
  pub run_there : named_row store.verifications (run_of_task input) input.verification_id ≡ ok run
  pub decision_there :
      named_row store.decisions (decision_of_task input) input.decision_id ≡ ok decision
  pub same : same_verification decision input.verification_id ≡ true
  pub shown : evidenced input.status run decision ≡ true
  pub written : with_quality store input round ≡ after

pub set_task_quality_status-SetsQuality :
    (store after : Store) (input : StatusInput)
    → set_task_quality_status store input ≡ ok after
    → SetsQuality store input after
unfolding set_task_quality_status
set_task_quality_status-SetsQuality store after input e =
    let (mission, row, e1) = bind-eq-ok (mission_row store input.mission_id) _ e in
    let (task, task_there, e2) = bind-eq-ok (task_row store input.task_id) _ e1 in
    let (t3, e3) = check-then-eq-ok (task.mission_id === input.mission_id) not_found _ e2 in
    let (round, r, e4) = bind-eq-ok (round_of input.round) _ e3 in
    let (run, run_there, e5) =
      bind-eq-ok (named_row store.verifications (run_of_task input) input.verification_id) _ e4 in
    let (decision, there, e6) =
      bind-eq-ok (named_row store.decisions (decision_of_task input) input.decision_id) _ e5 in
    let (t7, e7) =
      check-then-eq-ok (same_verification decision input.verification_id) validation _ e6 in
    let (t8, made) = check-then-eq-ok (evidenced input.status run decision) validation _ e7 in
    record {
      round = round;
      run = run;
      decision = decision;
      run_there = run_there;
      decision_there = there;
      same = t7;
      shown = t8;
      written = ok-injective made;
    }

pub set_task_quality_status-Extends :
    (host : Host) (store after : Store) (input : StatusInput)
    → set_task_quality_status store input ≡ ok after
    → Extends host store after
set_task_quality_status-Extends host store after input e =
    let s = set_task_quality_status-SetsQuality store after input e in
    subst (Extends host store) s.written (
      quality_set-Extends host store input.task_id _ (λ done.
        evidenced-Backed store input s.round s.run s.decision s.run_there s.decision_there s.same
          (subst (λ status. evidenced status s.run s.decision ≡ true) done s.shown)))

pub finalize_quality_verification-Extends :
    (host : Host) (store after : Store) (id : String) (input : DecisionInput)
    → finalize_quality_verification host store id input ≡ ok after
    → Extends host store after
unfolding finalize_quality_verification
finalize_quality_verification-Extends host store after id input e =
    let (recorded, r, e1) = bind-eq-ok (record_quality_decision host store input) _ e in
    let (updated, u, e2) =
      bind-eq-ok (update_verification_run host recorded id (completing input.decision_id)) _ e1 in
    let (run, there, set) = bind-eq-ok (verification_row updated id) _ e2 in
    Extends-trans (record_quality_decision-Extends host store recorded input r) (
      Extends-trans
        (update_verification_run-Extends host recorded updated id (completing input.decision_id) u)
        (set_task_quality_status-Extends host updated after
          (quality_of id run (status_after input.verdict) (some input.decision_id)) set))

fail_verification-Extends :
    (host : Host) (store after : Store) (id : String) (status : Failed) (summary : String)
    → fail_verification host store id status summary ≡ ok after
    → Extends host store after
unfolding fail_verification
fail_verification-Extends host store after id status summary e =
    let (updated, u, e1) =
      bind-eq-ok (update_verification_run host store id (failing status summary)) _ e in
    let (run, there, set) = bind-eq-ok (verification_row updated id) _ e1 in
    Extends-trans (update_verification_run-Extends host store updated id (failing status summary) u)
      (set_task_quality_status-Extends host updated after
        (quality_of id run (quality_after_failure status) none) set)

pub finalize_quality_failure-Extends :
    (host : Host) (store after : Store) (id : String) (status : Failed) (summary : String)
    → finalize_quality_failure host store id status summary ≡ ok after
    → Extends host store after
unfolding finalize_quality_failure
finalize_quality_failure-Extends host store after id status summary e =
    let (run, there, e1) = bind-eq-ok (verification_row store id) _ e in
    elim (Bool-cases (is_verifying run.status)) [
      | inl t ↦ fail_verification-Extends host store after id status summary (rw t at e1)
      | inr f ↦
          let left = rw f at e1 in
          subst (Extends host store) (ok-injective left) (Extends-refl host store)
    ]
