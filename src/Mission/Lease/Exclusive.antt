-- ===== src/Mission/Lease/Exclusive.antt =====
-- src/core/mission/index.ts: one owner at a time.
use pi_multi_orchestrator.Prelude.{
  ℕ, ◌+◌, ◌<◌, ◌≡◌, ◌≢◌, refl, sym, ap, ◌∙◌, inl, inr, true, false, not, Option, none, some, String,
  leb, ◌===◌, get, get-put_self, Number, ok, ◌>>◌, check, bind-eq-ok, check-eq-ok, seq-eq-ok, arith,
  Bool-cases, false≢true, ok-injective, safe_nat?, ◌==◌,
}
use pi_multi_orchestrator.Routing.Failure.{Stamp, instant}
use pi_multi_orchestrator.Mission.{LeaseRecord, Store, lease_error, mission_row}
use pi_multi_orchestrator.Mission.Lease.{
  ttl_of, iso, max_date, runs_at, acquired, held_by_other, is_blank, acquire_lease, beaten,
  heartbeat_lease, release_lease, released, positive,
}

pub iso-ok : (ms : ℕ) (at : Stamp) → iso ms ≡ ok at → at ≡ instant ms
iso-ok ms at e = elim (Bool-cases (leb ms max_date)) [
  | inl t ↦ let made = rw t at e in cc
  | inr f ↦ let thrown = rw f at e in cc
]

-- What an acquisition that succeeds has found, and what it leaves.
pub record Acquires (store : Store) (mission owner : String) (ttl : Number) (now : ℕ)
    (after : Store) : Type 0 where
  pub free : held_by_other (get store.leases mission) owner now ≡ false
  pub ms : ℕ
  pub asked : ttl_of ttl ≡ ok ms
  pub until : ℕ
  pub ends : until ≡ now + ms
  pub later : now < until
  pub written : acquired store mission owner now (get store.leases mission) (instant until) ≡ after

pub ttl_of_positive : (ttl : Number) (ms : ℕ) → ttl_of ttl ≡ ok ms → 0 < ms
ttl_of_positive ttl ms e = given (safe_nat? ttl) (ground arith)
  where
    given : (read : Option ℕ) → positive read ≡ some ms → 0 < ms
    given none e = cc
    given (some n) e = ground arith

pub ttl_of-safe : (ttl : Number) (ms : ℕ) → ttl_of ttl ≡ ok ms → safe_nat? ttl ≡ some ms
ttl_of-safe ttl ms e = given (safe_nat? ttl) (ground arith)
  where
    given : (read : Option ℕ) → positive read ≡ some ms → read ≡ some ms
    given none e = e
    given (some n) e = elim (Bool-cases (n == 0)) [
      | inl t ↦ let made = rw t at e in cc
      | inr f ↦ rw f at e
    ]

pub acquire_lease-Acquires :
    (store after : Store) (mission owner : String) (ttl : Number) (now : ℕ)
    → acquire_lease store mission owner ttl now ≡ ok after
    → Acquires store mission owner ttl now after
unfolding acquire_lease
acquire_lease-Acquires store after mission owner ttl now e =
    let (row, found, rest) = bind-eq-ok (mission_row store mission) _ e in
    let (ms, timed, rest2) =
      bind-eq-ok (check (not (is_blank owner)) lease_error >> ttl_of ttl) _ rest in
    let (expires, dated, made) =
      bind-eq-ok _
        (λ expires. ok (acquired store mission owner now (get store.leases mission) expires))
        rest2 in
    let (guards, at) = seq-eq-ok _ (iso (now + ms)) dated in
    let (read, is_free) =
      seq-eq-ok _ (check (not (held_by_other (get store.leases mission) owner now)) lease_error)
        guards in
    let (named, given) = seq-eq-ok _ (ttl_of ttl) timed in
    let free' = check-eq-ok _ lease_error is_free in
    record {
      free = ground arith;
      ms = ms;
      asked = given;
      until = now + ms;
      ends = refl;
      later = omega (arith, ttl_of_positive ttl ms given);
      written =
          ap (acquired store mission owner now (get store.leases mission))
            (sym (iso-ok (now + ms) expires at))
          ∙ ok-injective made;
    }

pub acquired_lem :
    (store : Store) (mission owner : String) (now : ℕ) (existing : Option LeaseRecord)
    (expires : Stamp)
    → (lease : LeaseRecord) × (get
          (acquired store mission owner now existing expires).leases
          mission
        ≡ some lease)
      × (lease.owner ≡ owner)
      × (lease.expires_at ≡ expires)
acquired_lem store mission owner now none expires =
    (_, get-put_self store.leases mission _, refl, refl)
acquired_lem store mission owner now (some existing) expires =
    (_, get-put_self store.leases mission _, refl, refl)

held :
    (lease : LeaseRecord) (owner other : String) (until time : ℕ)
    → lease.owner ≡ owner
    → lease.expires_at ≡ instant until
    → (owner === other) ≡ false
    → time < until
    → held_by_other (some lease) other time ≡ true
held lease owner other until time mine ends apart early = rw (mine, ends) (ground arith)

heartbeat_other :
    (store after : Store) (mission other : String) (ttl : Number) (time : ℕ) (lease : LeaseRecord)
    → (lease.owner === other) ≡ false
    → beaten store mission other ttl time (some lease) ≢ ok after
heartbeat_other store after mission other ttl time lease apart e =
    let (ms, timed, left) =
      bind-eq-ok
        (check (lease.owner === other) lease_error
          >> check (runs_at lease.expires_at time) lease_error
          >> ttl_of ttl)
        _ e in
    let (guards, given) = seq-eq-ok _ (ttl_of ttl) timed in
    let (mine, runs) = seq-eq-ok (check (lease.owner === other) lease_error) _ guards in
    false≢true (sym apart ∙ check-eq-ok _ lease_error mine)

release_other :
    (store after : Store) (mission other : String) (lease : LeaseRecord)
    → (lease.owner === other) ≡ false
    → released store mission other (some lease) ≢ ok after
release_other store after mission other lease apart e =
    let thrown = rw apart at e in absurd (false≢true cc)

-- In the store that an acquisition leaves, the lease excludes every other owner: it is on record as the
-- owner's and expires the asked number of milliseconds later than now, which is more than 0; before
-- that no other owner can acquire the mission, and no other owner can beat or release the lease at any
-- time.
pub acquire_lease-excludes :
    (store after : Store) (mission owner : String) (ttl : Number) (now : ℕ)
    → acquire_lease store mission owner ttl now ≡ ok after
    → (ms : ℕ) × (lease : LeaseRecord) × (safe_nat? ttl ≡ some ms)
      × (0 < ms)
      × (get after.leases mission ≡ some lease)
      × (lease.owner ≡ owner)
      × (lease.expires_at ≡ instant (now + ms))
      × ((other : String)
          → (owner === other) ≡ false
          → (other_ttl : Number) (time : ℕ) (next : Store)
          → (time < now + ms → acquire_lease after mission other other_ttl time ≢ ok next)
            × (heartbeat_lease after mission other other_ttl time ≢ ok next)
            × (release_lease after mission other ≢ ok next))
unfolding heartbeat_lease release_lease
acquire_lease-excludes store after mission owner ttl now e =
    let a = acquire_lease-Acquires store after mission owner ttl now e in
    let (lease, there, mine, ends) =
      acquired_lem store mission owner now (get store.leases mission) (instant a.until) in
    let found : get after.leases mission ≡ some lease = rw (← a.written) there in
    (
      a.ms,
      lease,
      ttl_of-safe ttl a.ms a.asked,
      ttl_of_positive ttl a.ms a.asked,
      found,
      mine,
      ends ∙ ap instant a.ends,
      λ other apart other_ttl time next.
          let others : (lease.owner === other) ≡ false = rw mine apart in
          (
            (λ early f.
                let b = acquire_lease-Acquires after next mission other other_ttl time f in
                false≢true (
                  sym b.free
                  ∙ rw found (
                      held lease owner other a.until time mine ends apart
                        (omega (arith, early, a.ends))))),
            (λ f.
                heartbeat_other after next mission other other_ttl time lease others
                  (rw found at f)),
            (λ f. release_other after next mission other lease others (rw found at f)),
          ),
    )
