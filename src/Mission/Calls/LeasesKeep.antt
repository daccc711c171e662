-- ===== src/Mission/Calls/LeasesKeep.antt =====
-- src/core/mission/index.ts: the calls on the leases keep what the reviews rest on.
use pi_multi_orchestrator.Prelude.{
  ℕ, ◌+◌, ◌≡◌, refl, subst, inl, inr, Option, none, some, List, [], ◌∷◌, String, get, ◌===◌, ok,
  bind-eq-ok, seq-eq-ok, ok-injective, Bool-cases, Number, check, ◌>>◌, not,
}
use pi_multi_orchestrator.Routing.Failure.{Stamp, instant}
use pi_multi_orchestrator.Mission.{
  MissionStatus, system, LeaseRecord, Store, Host, lease_error, conflict, mission_row,
  transition_mission,
}
use pi_multi_orchestrator.Mission.Lease.{
  acquired, text_runs_at, beaten, heartbeat_lease, released, release_lease, acquire_lease,
  claim_mission_execution, follow, steps_to_running, ttl_of, iso, runs_at, is_closed,
}
use pi_multi_orchestrator.Mission.Lease.Exclusive.{acquire_lease-Acquires}
use pi_multi_orchestrator.Mission.Review.Extends.{Extends, Extends-refl, Extends-trans}
use pi_multi_orchestrator.Mission.Interruption.Keeps.{transition_mission-Extends}
use pi_multi_orchestrator.Mission.Interruption.RowsKeep.{others-Extends}

acquired-Extends :
    (host : Host) (store : Store) (mission owner : String) (now : ℕ) (existing : Option LeaseRecord)
    (expires : Stamp)
    → Extends host store (acquired store mission owner now existing expires)
acquired-Extends host store mission owner now none expires =
    others-Extends host store _ refl refl refl refl (λ h. h)
acquired-Extends host store mission owner now (some existing) expires =
    others-Extends host store _ refl refl refl refl (λ h. h)

pub acquire_lease-Extends :
    (host : Host) (store after : Store) (mission owner : String) (ttl : Number) (now : ℕ)
    → acquire_lease store mission owner ttl now ≡ ok after
    → Extends host store after
acquire_lease-Extends host store after mission owner ttl now e =
    let a = acquire_lease-Acquires store after mission owner ttl now e in
    subst (Extends host store) a.written
      (acquired-Extends host store mission owner now (get store.leases mission) (instant a.until))

pub heartbeat_lease-Extends :
    (host : Host) (store after : Store) (mission owner : String) (ttl : Number) (now : ℕ)
    → heartbeat_lease store mission owner ttl now ≡ ok after
    → Extends host store after
unfolding heartbeat_lease
heartbeat_lease-Extends host store after mission owner ttl now e = by (get store.leases mission) e
  where
    by :
        (found : Option LeaseRecord)
        → beaten store mission owner ttl now found ≡ ok after
        → Extends host store after
    by none e = absurd (cc)
    by (some lease) e =
        let (ms, timed, e1) =
          bind-eq-ok
            (check (lease.owner === owner) lease_error
              >> check (runs_at lease.expires_at now) lease_error
              >> ttl_of ttl)
            _ e in
        let (expires, dated, made) = bind-eq-ok (iso (now + ms)) _ e1 in
        subst (Extends host store) (ok-injective made)
          (elim (Bool-cases (text_runs_at lease.expires_at now)) [
            | inl t ↦ rw t (others-Extends host store _ refl refl refl refl (λ h. h))
            | inr f ↦ rw f (Extends-refl host store)
          ])

pub release_lease-Extends :
    (host : Host) (store after : Store) (mission owner : String)
    → release_lease store mission owner ≡ ok after
    → Extends host store after
unfolding release_lease
release_lease-Extends host store after mission owner e = by (get store.leases mission) e
  where
    by :
        (found : Option LeaseRecord)
        → released store mission owner found ≡ ok after
        → Extends host store after
    by none e = subst (Extends host store) (ok-injective e) (Extends-refl host store)
    by (some lease) e = elim (Bool-cases (lease.owner === owner)) [
      | inl t ↦
          subst (Extends host store) (ok-injective (rw t at e))
            (others-Extends host store _ refl refl refl refl (λ h. h))
      | inr f ↦ let thrown = rw f at e in absurd (cc)
    ]

follow-Extends :
    (host : Host) (id : String) (statuses : List MissionStatus) (store after : Store)
    → follow host id statuses store ≡ ok after
    → Extends host store after
follow-Extends host id [] store after e =
    subst (Extends host store) (ok-injective e) (Extends-refl host store)
follow-Extends host id (status ∷ statuses) store after e =
    let (next, t, rest) = bind-eq-ok (transition_mission host store id status system none) _ e in
    Extends-trans (transition_mission-Extends host store next id status system none t)
      (follow-Extends host id statuses next after rest)

pub claim_mission_execution-Extends :
    (host : Host) (store after : Store) (mission owner : String) (ttl : Number) (now : ℕ)
    → claim_mission_execution host store mission owner ttl now ≡ ok after
    → Extends host store after
unfolding claim_mission_execution
claim_mission_execution-Extends host store after mission owner ttl now e =
    let (current, row, e1) = bind-eq-ok (mission_row store mission) _ e in
    let (leased, l, moved) =
      bind-eq-ok
        (check (not (is_closed current.status)) conflict
          >> acquire_lease store mission owner ttl now)
        _ e1 in
    let (live, taken) = seq-eq-ok _ (acquire_lease store mission owner ttl now) l in
    Extends-trans (acquire_lease-Extends host store leased mission owner ttl now taken)
      (follow-Extends host mission (steps_to_running current.status) leased after moved)
