-- ===== src/Mission/Interruption/Shutdown.antt =====
-- src/core/mission/index.ts: interruptOwnedExecution, when it returns and what it leaves, and the
-- missions that recoverInterrupted cannot bring to the review.
use pi_multi_orchestrator.Prelude.{
  ℕ, ◌+◌, ◌≡◌, refl, sym, ap, ◌∙◌, subst, true, false, none, some, String, get, ok, bind-eq-ok,
  check-then-eq-ok, ok-injective, any,
}
use pi_multi_orchestrator.Mission.{
  MissionStatus, draft, planned, active, paused, running, awaiting_review, blocked, failed,
  cancelled, completed, MissionRecord, Store, Host, lease_error, mission_row, system,
  transition_mission, can_transition, with_mission,
}
use pi_multi_orchestrator.Mission.Lease.{delete}
use pi_multi_orchestrator.Mission.Lease.Refines.{get-delete}
use pi_multi_orchestrator.Mission.Interruption.{
  owned_by, verified_in, is_interruptible, is_held, stopped_in, to_review,
  interrupt_owned_execution,
}
use pi_multi_orchestrator.Mission.Interruption.Stopped.{
  ToReview, is_stuck, stopped_in-SameTables, stopped_in-any, to_review-ToReview,
}

record Interrupts (host : Host) (store : Store) (mission owner reason : String) (now : ℕ)
    (after : Store) : Type 0 where
  held : is_held (get store.leases mission) owner now ≡ true
  current : MissionRecord
  row : mission_row store mission ≡ ok current
  moved : Store
  to : ToReview (stopped_in store mission owner reason) mission current.status moved
  written : (record moved { leases = delete moved.leases mission }) ≡ after

mission_row-stopped_attempt :
    (store : Store) (mission owner reason : String)
    → mission_row store mission ≡ mission_row (stopped_in store mission owner reason) mission
mission_row-stopped_attempt store mission owner reason =
    ap (λ missions. mission_row (record store { missions = missions }) mission)
      (stopped_in-SameTables store mission owner reason).missions

interrupt_owned_execution-Interrupts :
    (host : Host) (store after : Store) (mission owner reason : String) (now : ℕ)
    → interrupt_owned_execution host store mission owner reason now ≡ ok after
    → Interrupts host store mission owner reason now after
unfolding interrupt_owned_execution
interrupt_owned_execution-Interrupts host store after mission owner reason now e =
    let (held, e1) =
      check-then-eq-ok (is_held (get store.leases mission) owner now) lease_error _ e in
    let (current, row, e2) = bind-eq-ok (mission_row store mission) _ e1 in
    let (moved, m, made) =
      bind-eq-ok (to_review host (stopped_in store mission owner reason) mission current.status) _
        e2 in
    record {
      held = held;
      current = current;
      row = row;
      moved = moved;
      to =
          to_review-ToReview host (stopped_in store mission owner reason) moved mission current
            (sym (mission_row-stopped_attempt store mission owner reason) ∙ row) m;
      written = ok-injective made;
    }

-- An interruption that returns was called by the owner of a lease that runs. After it no attempt of the
-- owner in the mission runs, no verification of the mission runs, the mission's status is none of those
-- that are interrupted, and the mission has no lease.
pub interrupt_owned_execution-stops :
    (host : Host) (store after : Store) (mission owner reason : String) (now : ℕ)
    → interrupt_owned_execution host store mission owner reason now ≡ ok after
    → (is_held (get store.leases mission) owner now ≡ true)
      × (any (owned_by mission owner) after.attempts ≡ false)
      × (any (verified_in mission) after.verifications ≡ false)
      × ((next : MissionRecord) × (get after.missions mission ≡ some next)
          × (is_interruptible next.status ≡ false))
      × (get after.leases mission ≡ none)
interrupt_owned_execution-stops host store after mission owner reason now e =
    let i = interrupt_owned_execution-Interrupts host store after mission owner reason now e in
    let (none_owned, none_verified) = stopped_in-any store mission owner reason in
    (
      i.held,
      subst (λ st. any (owned_by mission owner) (Store.attempts st) ≡ false) i.written
          (subst (λ rows. any (owned_by mission owner) rows ≡ false) i.to.attempts none_owned),
      subst (λ st. any (verified_in mission) (Store.verifications st) ≡ false) i.written
          (subst (λ rows. any (verified_in mission) rows ≡ false) i.to.verifications none_verified),
      (
        i.to.settled.0,
        subst (λ st. get (Store.missions st) mission ≡ some i.to.settled.0) i.written
            i.to.settled.1,
        i.to.settled.2,
      ),
      subst (λ st. get (Store.leases st) mission ≡ none) i.written
          (get-delete i.moved.leases mission),
    )

pub moved_returns :
    (host : Host) (store : Store) (id : String) (status : MissionStatus) (revision : ℕ)
    → mission_row store id ≡ ok (record { status = status; revision = revision })
    → is_interruptible status ≡ true
    → is_stuck status ≡ false
    → (after : Store) × (transition_mission host store id awaiting_review system none ≡ ok after)
unfolding transition_mission can_transition
moved_returns host store id active revision there t free = (
  with_mission store id (record { status = awaiting_review; revision = revision + 1 }),
  rw there refl,
)
moved_returns host store id running revision there t free = (
  with_mission store id (record { status = awaiting_review; revision = revision + 1 }),
  rw there refl,
)
moved_returns host store id planned revision there t free = absurd (cc)
moved_returns host store id paused revision there t free = absurd (cc)
moved_returns host store id blocked revision there t free = absurd (cc)
moved_returns host store id draft revision there t free = absurd (cc)
moved_returns host store id awaiting_review revision there t free = absurd (cc)
moved_returns host store id failed revision there t free = absurd (cc)
moved_returns host store id cancelled revision there t free = absurd (cc)
moved_returns host store id completed revision there t free = absurd (cc)
