-- ===== src/Mission/Interruption/Keeps.antt =====
-- src/core/mission/index.ts: an interruption keeps what the reviews rest on.
use pi_multi_orchestrator.Prelude.{
  ℕ, ◌+◌, ◌≡◌, refl, subst, inl, inr, Option, none, some, List, [], ◌∷◌, String, get, ok,
  bind-eq-ok, check-then-eq-ok, ok-injective, Bool-cases, filter,
}
use pi_multi_orchestrator.Mission.{
  MissionStatus, awaiting_review, system, Store, Host, MissionRecord, lease_error, mission_row,
  with_mission, transition_mission, Actor,
}
use pi_multi_orchestrator.Mission.Completion.{transition_mission-Moves}
use pi_multi_orchestrator.Mission.Review.Extends.{Extends, Extends-refl, Extends-trans}
use pi_multi_orchestrator.Mission.Interruption.{
  keys, owned_by, verified_in, is_interruptible, is_held, stopped_in, to_review,
  interrupt_owned_execution, is_lost, is_lost_run, brought_to_review, review_missions, recovered,
  recovery_reason, recover_interrupted,
}
use pi_multi_orchestrator.Mission.Interruption.RowsKeep.{
  interrupt_attempts-Extends, interrupt_runs-Extends, others-Extends,
}

pub transition_mission-Extends :
    (host : Host) (store after : Store) (id : String) (status : MissionStatus) (actor : Actor)
    (expected : Option ℕ)
    → transition_mission host store id status actor expected ≡ ok after
    → Extends host store after
transition_mission-Extends host store after id status actor expected e =
    let moves = transition_mission-Moves host store after id status actor expected e in
    subst (Extends host store) moves.written
      (others-Extends host store _ refl refl refl refl (λ h. h))

pub to_review-Extends :
    (host : Host) (store after : Store) (id : String) (status : MissionStatus)
    → to_review host store id status ≡ ok after
    → Extends host store after
unfolding to_review
to_review-Extends host store after id status e = elim (Bool-cases (is_interruptible status)) [
  | inl t ↦ transition_mission-Extends host store after id awaiting_review system none (rw t at e)
  | inr f ↦ subst (Extends host store) (ok-injective (rw f at e)) (Extends-refl host store)
]

pub stopped_in-Extends :
    (host : Host) (store : Store) (mission owner reason : String)
    → Extends host store (stopped_in store mission owner reason)
stopped_in-Extends host store mission owner reason =
    Extends-trans
      (interrupt_attempts-Extends host store
        (keys (filter (owned_by mission owner) store.attempts)))
      (interrupt_runs-Extends host _ reason (filter (verified_in mission) store.verifications))

pub interrupt_owned_execution-Extends :
    (host : Host) (store after : Store) (mission owner reason : String) (now : ℕ)
    → interrupt_owned_execution host store mission owner reason now ≡ ok after
    → Extends host store after
unfolding interrupt_owned_execution
interrupt_owned_execution-Extends host store after mission owner reason now e =
    let (held, e1) =
      check-then-eq-ok (is_held (get store.leases mission) owner now) lease_error _ e in
    let (current, row, e2) = bind-eq-ok (mission_row store mission) _ e1 in
    let (moved, m, made) =
      bind-eq-ok (to_review host (stopped_in store mission owner reason) mission current.status) _
        e2 in
    subst (Extends host store) (ok-injective made) (
      Extends-trans (stopped_in-Extends host store mission owner reason) (
        Extends-trans
          (to_review-Extends host (stopped_in store mission owner reason) moved mission
            current.status m)
          (others-Extends host moved _ refl refl refl refl (λ h. h))))

brought_to_review-Extends :
    (host : Host) (store after : Store) (id : String) (found : Option MissionRecord)
    → brought_to_review host store id found ≡ ok after
    → Extends host store after
brought_to_review-Extends host store after id none e =
    subst (Extends host store) (ok-injective e) (Extends-refl host store)
brought_to_review-Extends host store after id (some mission) e =
    elim (Bool-cases (is_interruptible mission.status)) [
      | inl t ↦
          let bumped : Store =
            with_mission store id (record mission { revision = mission.revision + 1 }) in
          Extends-trans (others-Extends host store bumped refl refl refl refl (λ h. h)) (
            transition_mission-Extends host bumped after id awaiting_review system none (rw t at e))
      | inr f ↦ subst (Extends host store) (ok-injective (rw f at e)) (Extends-refl host store)
    ]

review_missions-Extends :
    (host : Host) (store after : Store) (ids : List String)
    → review_missions host store ids ≡ ok after
    → Extends host store after
unfolding review_missions
review_missions-Extends host store after [] e =
    subst (Extends host store) (ok-injective e) (Extends-refl host store)
review_missions-Extends host store after (id ∷ ids) e =
    let (next, r, rest) =
      bind-eq-ok (brought_to_review host store id (get store.missions id)) _ e in
    Extends-trans (brought_to_review-Extends host store next id (get store.missions id) r)
      (review_missions-Extends host next after ids rest)

pub recover_interrupted-Extends :
    (host : Host) (store after : Store) (owner : Option String) (now : ℕ)
    → recover_interrupted host store owner now ≡ ok after
    → Extends host store after
unfolding recover_interrupted
recover_interrupted-Extends host store after owner now e =
    Extends-trans
      (Extends-trans
        (interrupt_attempts-Extends host store
          (keys (filter (is_lost host store owner now) store.attempts)))
        (interrupt_runs-Extends host _ recovery_reason
          (filter (is_lost_run host store owner now) store.verifications)))
      (review_missions-Extends host (recovered host store owner now) after _ e)
