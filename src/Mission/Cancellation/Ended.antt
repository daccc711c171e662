-- ===== src/Mission/Cancellation/Ended.antt =====
-- src/core/mission/mission-cancel.ts: what a cancellation leaves.
use pi_multi_orchestrator.Prelude.{
  ◌+◌, ◌≡◌, ◌≢◌, refl, sym, ap, ◌∙◌, subst, ◌⊎◌, inl, inr, Bool, true, false, Option, none, some,
  [], ◌∷◌, String, get, Dict, ◌===◌, eq_iff, ok, ok-injective, Bool-cases, false≢true, get-put_self,
}
use pi_multi_orchestrator.Mission.{
  MissionStatus, MissionRecord, TaskRecord, VerificationRun, Store, Host, user, transition_mission,
  list_tasks,
}
use pi_multi_orchestrator.Mission.Completion.{transition_mission-Moves}
use pi_multi_orchestrator.Mission.Review.{is_verifying}
use pi_multi_orchestrator.Mission.Attempt.Keyed.{IsKeyed}
use pi_multi_orchestrator.Mission.Cancellation.{
  CancelStatus, cancelled, already_terminal, no_active_mission, ambiguous, CancelRequest,
  is_terminal, and_then, is_open, cancel_tasks, cancel_runs, runs_of, cancel_mission,
  cancelled_target, given_id, or_next, active_missions, cancelled_single, cancelled_chosen,
  cancel_active_mission,
}
use pi_multi_orchestrator.Mission.Cancellation.Cancels.{
  returned, proceed-returned, and_then-returned, OpenIn, cancel_tasks-OpenIn, list_tasks-OpenIn,
}
use pi_multi_orchestrator.Mission.Cancellation.Runs.{
  RunningIn, cancel_runs-RunningIn, runs_of-RunningIn,
}

-- The mission is cancelled, none of its tasks is pending or running, and none of its verifications
-- runs.
pub record IsCancelled (store : Store) (mission : String) : Type 0 where
  pub row : MissionRecord
  pub there : get store.missions mission ≡ some row
  pub is_final : row.status ≡ MissionStatus.cancelled
  pub tasks_ended :
      (id : String) (task : TaskRecord)
      → get store.tasks id ≡ some task
      → (task.mission_id === mission) ≡ true
      → is_open task.status ≡ false
  pub runs_ended :
      (id : String) (run : VerificationRun)
      → get store.verifications id ≡ some run
      → (run.mission_id === mission) ≡ true
      → is_verifying run.status ≡ false

-- An id that the request does not give.
abbrev pub Absent : Option String → Type 0
Absent id = (id ≡ none) ⊎ (id ≡ some "")

-- The mission that a request is about: the one it names, else the active one of its owner, else the only
-- one of the store that is active.
pub data IsTarget (store : Store) (request : CancelRequest) (id : String) : Type 0 where
  asked : request.mission_id ≡ some id → IsTarget store request id
  owned :
      Absent request.mission_id
      → request.active_owned_mission_id ≡ some id
      → IsTarget store request id
  only :
      (row : MissionRecord)
      → Absent request.mission_id
      → Absent request.active_owned_mission_id
      → active_missions store ≡ (id, row) ∷ []
      → IsTarget store request id

given_id-Absent : (id : Option String) → given_id id ≡ none → Absent id
given_id-Absent none e = inl refl
given_id-Absent (some id) e = elim (Bool-cases (id === "")) [
  | inl t ↦ inr (ap some ((eq_iff id "").0 t))
  | inr f ↦ let made = rw f at e in cc
]

given_id-some : (given : Option String) (id : String) → given_id given ≡ some id → given ≡ some id
given_id-some none id e = cc
given_id-some (some other) id e = elim (Bool-cases (other === "")) [
  | inl t ↦ let made = rw t at e in cc
  | inr f ↦ rw f at e
]

never : (b : Bool) → (b ≡ true → false ≡ true) → b ≡ false
never true h = absurd (false≢true (h refl))
never false h = refl

cancel_mission-IsCancelled :
    (host : Host) (store after : Store) (id : String) (status : CancelStatus)
    → IsKeyed store.tasks
    → cancel_mission host store id ≡ (after, ok status)
    → (status ≡ cancelled) × IsCancelled after id
unfolding cancel_mission OpenIn RunningIn
cancel_mission-IsCancelled host store after id status keyed e =
    let (next, moved, e1) =
      proceed-returned store after
        (transition_mission host store id MissionStatus.cancelled user none)
        (λ next. and_then (cancel_tasks next (list_tasks host next id)) (λ ended.
          and_then (cancel_runs host ended (runs_of id ended)) (λ last. (last, ok cancelled))))
        status e in
    let (ended, tasks, e2) =
      and_then-returned after (cancel_tasks next (list_tasks host next id))
        (λ ended.
          and_then (cancel_runs host ended (runs_of id ended)) (λ last. (last, ok cancelled)))
        status e1 in
    let (last, runs, e3) =
      and_then-returned after (cancel_runs host ended (runs_of id ended))
        (λ last. (last, ok cancelled)) status e2 in
    let moves =
      transition_mission-Moves host store next id MissionStatus.cancelled user none moved in
    let row : MissionRecord = record {
      status = MissionStatus.cancelled;
      revision = moves.current.revision + 1;
    } in
    let (open_none, (m1, v1)) =
      cancel_tasks-OpenIn id (list_tasks host next id) next ended tasks
        (list_tasks-OpenIn host id next (subst IsKeyed (ap Store.tasks moves.written) keyed)) in
    let (runs_none, (m2, t2)) =
      cancel_runs-RunningIn host id (runs_of id ended) ended last runs
        (runs_of-RunningIn id ended) in
    let same = (returned e3).0 in
    (
      sym (ok-injective (returned e3).1),
      subst (λ st. IsCancelled st id) same
          (record {
            row = row;
            there =
                subst (λ rows. get rows id ≡ some row) (ap Store.missions moves.written ∙ m1 ∙ m2)
                  (get-put_self store.missions id row);
            is_final = refl;
            tasks_ended = λ key task there of_mission. never (is_open task.status) (
                open_none key task (subst (λ rows. get rows key ≡ some task) (sym t2) there)
                  of_mission);
            runs_ended = λ key run there of_mission.
                never (is_verifying run.status) (runs_none key run there of_mission);
          }),
    )

target-IsCancelled :
    (host : Host) (store after : Store) (id : String) (found : Option MissionRecord)
    (status : CancelStatus)
    → IsKeyed store.tasks
    → cancelled_target host store id found ≡ (after, ok status)
    → ((status ≡ cancelled) × IsCancelled after id) ⊎ ((status ≢ cancelled) × (store ≡ after))
target-IsCancelled host store after id none status keyed e =
    inr (λ same. other (ok-injective (returned e).1 ∙ same), (returned e).0)
  where
    other : CancelStatus.not_found ≡ cancelled → ⊥
    other h = cc
target-IsCancelled host store after id (some mission) status keyed e =
    elim (Bool-cases (is_terminal mission.status)) [
      | inl t ↦
          let e' = returned (rw t at e) in inr (λ same. other (ok-injective e'.1 ∙ same), e'.0)
      | inr f ↦ inl (cancel_mission-IsCancelled host store after id status keyed (rw f at e))
    ]
  where
    other : already_terminal ≡ cancelled → ⊥
    other h = cc

single-IsCancelled :
    (host : Host) (store after : Store) (rows : Dict MissionRecord) (status : CancelStatus)
    → IsKeyed store.tasks
    → cancelled_single host store rows ≡ (after, ok status)
    → ((id : String) × ((row : MissionRecord) × (rows ≡ (id, row) ∷ []))
        × (status ≡ cancelled)
        × IsCancelled after id)
      ⊎ ((status ≢ cancelled) × (store ≡ after))
single-IsCancelled host store after [] status keyed e =
    inr (λ same. other (ok-injective (returned e).1 ∙ same), (returned e).0)
  where
    other : no_active_mission ≡ cancelled → ⊥
    other h = cc
single-IsCancelled host store after (row ∷ []) status keyed e =
    elim (target-IsCancelled host store after row.0 (get store.missions row.0) status keyed e) [
      | inl (same, is) ↦ inl (row.0, (row.1, refl), same, is)
      | inr left ↦ inr left
    ]
single-IsCancelled host store after (row ∷ next ∷ rows) status keyed e =
    inr (λ same. other (ok-injective (returned e).1 ∙ same), (returned e).0)
  where
    other : ambiguous ≡ cancelled → ⊥
    other h = cc

-- A cancellation that returns has either cancelled the mission that the request names, or else the active
-- one of its owner, or else the only active one, with its open tasks and its running verifications, and
-- says so; or it says otherwise and has left the store, if each task stands under its own id.
pub cancel_active_mission-IsCancelled :
    (host : Host) (store after : Store) (request : CancelRequest) (status : CancelStatus)
    → IsKeyed store.tasks
    → cancel_active_mission host store request ≡ (after, ok status)
    → ((id : String) × IsTarget store request id × (status ≡ cancelled) × IsCancelled after id)
      ⊎ ((status ≢ cancelled) × (store ≡ after))
unfolding cancel_active_mission
cancel_active_mission-IsCancelled host store after request status keyed e =
    by (given_id request.mission_id) (given_id request.active_owned_mission_id) refl refl e
  where
    by :
        (named other : Option String)
        → given_id request.mission_id ≡ named
        → given_id request.active_owned_mission_id ≡ other
        → cancelled_chosen host store (or_next named other) ≡ (after, ok status)
        → ((id : String) × IsTarget store request id × (status ≡ cancelled) × IsCancelled after id)
          ⊎ ((status ≢ cancelled) × (store ≡ after))
    by none none n o e =
        elim (single-IsCancelled host store after (active_missions store) status keyed e) [
          | inl (id, (row, alone), same, is) ↦ inl (
            id,
            only row (given_id-Absent request.mission_id n)
                (given_id-Absent request.active_owned_mission_id o) alone,
            same,
            is,
          )
          | inr left ↦ inr left
        ]
    by none (some id) n o e =
        elim (target-IsCancelled host store after id (get store.missions id) status keyed e) [
          | inl (same, is) ↦ inl (
            id,
            owned (given_id-Absent request.mission_id n)
                (given_id-some request.active_owned_mission_id id o),
            same,
            is,
          )
          | inr left ↦ inr left
        ]
    by (some id) other n o e =
        elim (target-IsCancelled host store after id (get store.missions id) status keyed e) [
          | inl (same, is) ↦ inl (id, asked (given_id-some request.mission_id id n), same, is)
          | inr left ↦ inr left
        ]
