-- ===== src/Mission/Interruption/Stopped.antt =====
-- src/core/mission/index.ts: what stopping the work of a mission and the move to the review leave, and the
-- statuses from which no such move leads.
use pi_multi_orchestrator.Prelude.{
  ◌+◌, ◌≡◌, refl, sym, ap, ◌∙◌, subst, inl, inr, Bool, true, false, none, some, String, get, ok,
  ok-injective, arith, Bool-cases, filter, any, false≢true, get-put_self,
}
use pi_multi_orchestrator.Mission.{
  found-eq-ok, MissionStatus, planned, paused, awaiting_review, blocked, AttemptRecord,
  VerificationRun, MissionRecord, Store, Host, mission_row, system, can_transition,
}
use pi_multi_orchestrator.Mission.Completion.{transition_mission-Moves}
use pi_multi_orchestrator.Mission.Interruption.{
  stopped_attempt, interrupt_attempts, stopped_run, keys, owned_by, verified_in, is_interruptible,
  stopped_in, to_review,
}
use pi_multi_orchestrator.Mission.Interruption.Stops.{
  SameTables, interrupt_attempts-any, interrupt_runs-any, interrupt_attempts-SameTables,
  interrupt_runs-SameTables, stopped_attempt-is_running, stopped_run-is_verifying,
}

-- The statuses on the list of the interruption from which no transition leads to the review.
abbrev pub is_stuck : MissionStatus → Bool
is_stuck planned = true
is_stuck paused = true
is_stuck blocked = true
is_stuck _ = false

pub stuck :
    (status : MissionStatus)
    → is_stuck status ≡ true
    → can_transition status awaiting_review ≡ false
unfolding can_transition
stuck planned h = refl
stuck paused h = refl
stuck blocked h = refl
stuck _ h = cc

pub stuck_interruptible :
    (status : MissionStatus) → is_stuck status ≡ true → is_interruptible status ≡ true
stuck_interruptible planned h = refl
stuck_interruptible paused h = refl
stuck_interruptible blocked h = refl
stuck_interruptible _ h = cc

pub idle_unstuck :
    (status : MissionStatus) → is_interruptible status ≡ false → is_stuck status ≡ false
idle_unstuck status f = elim (Bool-cases (is_stuck status)) [
  | inl h ↦ absurd (false≢true (sym f ∙ stuck_interruptible status h))
  | inr h ↦ h
]

pub stopped_in-SameTables :
    (store : Store) (mission owner reason : String)
    → SameTables store (stopped_in store mission owner reason)
stopped_in-SameTables store mission owner reason =
    let (a, v) =
      interrupt_attempts-SameTables store (keys (filter (owned_by mission owner) store.attempts)) in
    let (r, t) =
      interrupt_runs-SameTables
        (interrupt_attempts store (keys (filter (owned_by mission owner) store.attempts))) reason
        (filter (verified_in mission) store.verifications) in
    record { missions = a.missions ∙ r.missions; leases = a.leases ∙ r.leases }

owned_by-stopped_attempt :
    (mission owner key : String) (attempt : AttemptRecord)
    → owned_by mission owner (key, stopped_attempt attempt) ≡ false
owned_by-stopped_attempt mission owner key attempt =
    rw (stopped_attempt-is_running attempt) (ground arith)

verified_in-stopped_attempt :
    (mission reason key : String) (run : VerificationRun)
    → verified_in mission (key, stopped_run reason run) ≡ false
verified_in-stopped_attempt mission reason key run =
    rw (stopped_run-is_verifying reason run) (ground arith)

pub stopped_in-any :
    (store : Store) (mission owner reason : String)
    → (any (owned_by mission owner) (stopped_in store mission owner reason).attempts ≡ false)
      × (any (verified_in mission) (stopped_in store mission owner reason).verifications ≡ false)
stopped_in-any store mission owner reason =
    let ids = keys (filter (owned_by mission owner) store.attempts) in
    let rows = filter (verified_in mission) store.verifications in
    let (a, v) = interrupt_attempts-SameTables store ids in
    let (r, t) = interrupt_runs-SameTables (interrupt_attempts store ids) reason rows in
    (
      subst (λ attempts. any (owned_by mission owner) attempts ≡ false) t
          (interrupt_attempts-any (owned_by mission owner) (owned_by-stopped_attempt mission owner)
            store),
      interrupt_runs-any (verified_in mission) reason (verified_in-stopped_attempt mission reason)
          (interrupt_attempts store ids) rows (ap (filter (verified_in mission)) (sym v)),
    )

-- What the move to the review leaves.
pub record ToReview (store : Store) (mission : String) (status : MissionStatus) (after : Store)
    : Type 0 where
  pub attempts : store.attempts ≡ after.attempts
  pub verifications : store.verifications ≡ after.verifications
  pub settled :
      (next : MissionRecord) × (get after.missions mission ≡ some next)
      × (is_interruptible next.status ≡ false)
  pub free : is_stuck status ≡ false

pub to_review-ToReview :
    (host : Host) (store after : Store) (mission : String) (row : MissionRecord)
    → mission_row store mission ≡ ok row
    → to_review host store mission row.status ≡ ok after
    → ToReview store mission row.status after
unfolding to_review
to_review-ToReview host store after mission row there e =
    elim (Bool-cases (is_interruptible row.status)) [
      | inl t ↦
          let moves =
            transition_mission-Moves host store after mission awaiting_review system none
              (rw t at e) in
          let same : row ≡ moves.current = ok-injective (sym there ∙ moves.row) in
          let next : MissionRecord = record {
            status = awaiting_review;
            revision = moves.current.revision + 1;
          } in
          record {
            attempts = ap Store.attempts moves.written;
            verifications = ap Store.verifications moves.written;
            settled = (
              next,
              subst (λ st. get (Store.missions st) mission ≡ some next) moves.written
                  (get-put_self store.missions mission next),
              refl,
            );
            free = not_stuck row.status (
                ap (λ r. can_transition (MissionRecord.status r) awaiting_review) same
                ∙ moves.allowed_next);
          }
      | inr f ↦
          let left : store ≡ after = ok-injective (rw f at e) in
          record {
            attempts = ap Store.attempts left;
            verifications = ap Store.verifications left;
            settled = (
              row,
              subst (λ st. get (Store.missions st) mission ≡ some row) left
                  (found-eq-ok (get store.missions mission) there),
              f,
            );
            free = idle_unstuck row.status f;
          }
    ]
  where
    not_stuck :
        (status : MissionStatus)
        → can_transition status awaiting_review ≡ true
        → is_stuck status ≡ false
    not_stuck status t = elim (Bool-cases (is_stuck status)) [
      | inl h ↦ absurd (false≢true (sym (stuck status h) ∙ t))
      | inr h ↦ h
    ]
