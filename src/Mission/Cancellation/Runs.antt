-- ===== src/Mission/Cancellation/Runs.antt =====
-- src/core/mission/mission-cancel.ts: the verifications of a cancelled mission.
use mathlib.Core.List.{Memᴰ}
use pi_multi_orchestrator.Prelude.{
  some-injective, ◌≡◌, refl, sym, ap, ◌∙◌, subst, ◌⊎◌, inl, inr, true, false, none, some, List, [],
  ◌∷◌, String, get, Dict, put, eq_iff, ===_refl, ◌===◌, ok, bind-eq-ok, ok-injective, arith,
  Bool-cases, filter, includes, false≢true, map, filter-mem, put-cases,
}
use pi_multi_orchestrator.Mission.{found-eq-ok, VerificationRun, TaskQuality, Store, Host}
use pi_multi_orchestrator.Mission.Review.{
  verification_row, is_verifying, update_verification_run, patched,
}
use pi_multi_orchestrator.Mission.Verification.{
  fail_verification, finalize_quality_failure, failed_blocked, set_task_quality_status, StatusInput,
  quality_of, failing, quality_after_failure,
}
use pi_multi_orchestrator.Mission.Review.Decide.{set_task_quality_status-SetsQuality}
use pi_multi_orchestrator.Mission.Review.Steps.{update_verification_run-Updates}
use pi_multi_orchestrator.Mission.Cancellation.{ended_run, cancel_runs, runs_of}
use pi_multi_orchestrator.Mission.Cancellation.Cancels.{returned, proceed-returned}

-- The verifications of the mission that run are among those that are still to be ended.
unfoldable pub RunningIn : String → Store → List String → Type 0
RunningIn mission store ids =
    (id : String) (run : VerificationRun)
    → get store.verifications id ≡ some run
    → (run.mission_id === mission) ≡ true
    → is_verifying run.status ≡ true
    → includes ids id ≡ true

abbrev pub SameButRuns : Store → Store → Type 0
SameButRuns store after = (store.missions ≡ after.missions) × (store.tasks ≡ after.tasks)

set_task_quality_status-written :
    (store after : Store) (input : StatusInput)
    → set_task_quality_status store input ≡ ok after
    → (quality : Dict TaskQuality) × ((record store { quality = quality }) ≡ after)
set_task_quality_status-written store after input e =
    (_, (set_task_quality_status-SetsQuality store after input e).written)

-- What the end of a verification leaves.
record EndsRun (store : Store) (id : String) (after : Store) : Type 0 where
  run : VerificationRun
  ended : is_verifying run.status ≡ false
  verifications : put store.verifications id run ≡ after.verifications
  rest : SameButRuns store after

fail_verification-EndsRun :
    (host : Host) (store after : Store) (id summary : String)
    → fail_verification host store id failed_blocked summary ≡ ok after
    → EndsRun store id after
unfolding fail_verification
fail_verification-EndsRun host store after id summary e =
    let (updated, u, e1) =
      bind-eq-ok (update_verification_run host store id (failing failed_blocked summary)) _ e in
    let (run, there, set) = bind-eq-ok (verification_row updated id) _ e1 in
    let w =
      update_verification_run-Updates host store updated id (failing failed_blocked summary) u in
    let (quality, q) =
      set_task_quality_status-written updated after
        (quality_of id run (quality_after_failure failed_blocked) none) set in
    record {
      run = patched w.old (failing failed_blocked summary) w.round w.failure w.target;
      ended = refl;
      verifications = ap Store.verifications w.written ∙ ap Store.verifications q;
      rest = (
        ap Store.missions w.written ∙ ap Store.missions q,
        ap Store.tasks w.written ∙ ap Store.tasks q,
      );
    }

finalize-cases :
    (host : Host) (store after : Store) (id summary : String)
    → finalize_quality_failure host store id failed_blocked summary ≡ ok after
    → EndsRun store id after
      ⊎ ((store ≡ after)
          × ((run : VerificationRun) × (get store.verifications id ≡ some run)
              × (is_verifying run.status ≡ false)))
unfolding finalize_quality_failure
finalize-cases host store after id summary e =
    let (current, row, e1) = bind-eq-ok (verification_row store id) _ e in
    elim (Bool-cases (is_verifying current.status)) [
      | inl t ↦ inl (fail_verification-EndsRun host store after id summary (rw t at e1))
      | inr f ↦
          inr
            (ok-injective (rw f at e1), (current, found-eq-ok (get store.verifications id) row, f))
    ]

others :
    (id key : String) (ids : List String)
    → includes (id ∷ ids) key ≡ true
    → (id === key) ≡ false
    → includes ids key ≡ true
others id key ids h apart = ground arith

EndsRun-RunningIn :
    (mission : String) (store after : Store) (id : String) (ids : List String)
    → EndsRun store id after
    → RunningIn mission store (id ∷ ids)
    → RunningIn mission after ids
unfolding RunningIn
EndsRun-RunningIn mission store after id ids ends h key run there of_mission runs =
    elim (put-cases store.verifications id key ends.run run
      (subst (λ rows. get rows key ≡ some run) (sym ends.verifications) there)) [
        | inl (here, same) ↦ absurd (
            false≢true
              (sym ends.ended ∙ ap (λ r. is_verifying (VerificationRun.status r)) same ∙ runs))
        | inr (apart, before) ↦ others id key ids (h key run before of_mission runs) apart
      ]

ended-RunningIn :
    (mission : String) (store : Store) (id : String) (ids : List String) (run : VerificationRun)
    → get store.verifications id ≡ some run
    → is_verifying run.status ≡ false
    → RunningIn mission store (id ∷ ids)
    → RunningIn mission store ids
unfolding RunningIn
ended-RunningIn mission store id ids run at ended h key found there of_mission runs =
    elim (Bool-cases (id === key)) [
      | inl here ↦
          let same : run ≡ found =
            some-injective
              (sym at ∙ ap (get store.verifications) ((eq_iff id key).0 here) ∙ there) in
          absurd
            (false≢true (sym ended ∙ ap (λ r. is_verifying (VerificationRun.status r)) same ∙ runs))
      | inr apart ↦ others id key ids (h key found there of_mission runs) apart
    ]

pub running_ids : Dict VerificationRun → List String
running_ids rows = map (λ row. row.0) (filter (λ row. is_verifying row.1.status) rows)

pub cancel_runs-RunningIn :
    (host : Host) (mission : String) (rows : Dict VerificationRun) (store after : Store)
    → cancel_runs host store rows ≡ (after, ok tt)
    → RunningIn mission store (running_ids rows)
    → RunningIn mission after [] × SameButRuns store after
unfolding cancel_runs running_ids
cancel_runs-RunningIn host mission [] store after e h =
    let same = (returned e).0 in
    (subst (λ st. RunningIn mission st []) same h, (ap Store.missions same, ap Store.tasks same))
cancel_runs-RunningIn host mission (row ∷ rows) store after e h =
    let (next, made, more) =
      proceed-returned store after (ended_run host store row) (λ next. cancel_runs host next rows)
        tt e in
    elim (Bool-cases (is_verifying row.1.status)) [
      | inr f ↦
          let same : store ≡ next = ok-injective (rw f at made) in
          let h' : RunningIn mission store (running_ids rows) = rw f at h in
          let (none_runs, (m, t)) =
            cancel_runs-RunningIn host mission rows next after more
              (subst (λ st. RunningIn mission st (running_ids rows)) same h') in
          (none_runs, (ap Store.missions same ∙ m, ap Store.tasks same ∙ t))
      | inl runs ↦
          let h' : RunningIn mission store (row.0 ∷ running_ids rows) = rw runs at h in
          elim (finalize-cases host store next row.0 "Mission cancelled" (rw runs at made)) [
            | inl ends ↦
                let (none_runs, (m, t)) =
                  cancel_runs-RunningIn host mission rows next after more
                    (EndsRun-RunningIn mission store next row.0 (running_ids rows) ends h') in
                (none_runs, (ends.rest.0 ∙ m, ends.rest.1 ∙ t))
            | inr (same, (run, there, ended)) ↦
                let (none_runs, (m, t)) = cancel_runs-RunningIn host mission rows next after more (
                  subst (λ st. RunningIn mission st (running_ids rows)) same
                    (ended-RunningIn mission store row.0 (running_ids rows) run there ended h')) in
                (none_runs, (ap Store.missions same ∙ m, ap Store.tasks same ∙ t))
          ]
    ]

get-mem {ℓ} :
    {V : Type ℓ} (dict : Dict V) (key : String) (value : V)
    → get dict key ≡ some value
    → Memᴰ (key, value) dict
unfolding get
get-mem [] key value e = absurd (cc)
get-mem {V = V} ((name, old) ∷ dict) key value e = elim (Bool-cases (name === key)) [
  | inl here ↦ Memᴰ.head (
      ap (λ (k : String). (k, value)) (sym ((eq_iff name key).0 here))
      ∙ ap (λ (v : V). (name, v)) (sym (some-injective (rw here at e))))
  | inr apart ↦ Memᴰ.tail (get-mem dict key value (rw apart at e))
]

includes-keys :
    (entry : String × VerificationRun) (rows : Dict VerificationRun)
    → Memᴰ entry rows
    → includes (map (λ row. row.0) rows) entry.0 ≡ true
includes-keys entry [] m = elim m [ ]
includes-keys entry (first ∷ rows) (Memᴰ.head e) =
    let named : (first.0 === entry.0) ≡ true =
      subst (λ key. (key === entry.0) ≡ true) (ap (λ row. row.0) e) (===_refl entry.0) in
    rw named
includes-keys entry (first ∷ rows) (Memᴰ.tail m) = rw (includes-keys entry rows m) (ground arith)

pub runs_of-RunningIn :
    (mission : String) (store : Store)
    → RunningIn mission store (running_ids (runs_of mission store))
unfolding RunningIn running_ids
runs_of-RunningIn mission store id run there of_mission runs =
    includes-keys (id, run) _
      (filter-mem (λ row. is_verifying row.1.status) (runs_of mission store)
        (filter-mem (λ row. row.1.mission_id === mission) store.verifications
          (get-mem store.verifications id run there) of_mission)
        runs)
