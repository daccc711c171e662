-- ===== src/Mission/Lease/Refines.antt =====
-- src/core/mission/index.ts: the lease of a mission is a lock that expires.
use pi_multi_orchestrator.Prelude.{
  ℕ, ◌+◌, ◌<◌, ◌≤◌, ◌≡◌, refl, sym, ap, subst, ◌⊎◌, inl, inr, true, false, not, ◌&&◌, Option, none,
  some, List, [], ◌∷◌, String, ◌===◌, eq_iff, get, get-put_self, get-put_other, Dict, Number,
  Result, ok, err, ◌>>◌, check, bind-eq-ok, check-eq-ok, seq-eq-ok, ok-injective, safe_nat?, Bool,
  if◌then◌else◌, arith, Bool-cases,
}
use pi_multi_orchestrator.Routing.Failure.{Stamp, instant, unreadable}
use pi_multi_orchestrator.Mission.{LeaseRecord, Store, MissionError, lease_error}
use pi_multi_orchestrator.Mission.Lease.{
  runs_at, text_runs_at, year_10000, acquired, held_by_other, acquire_lease, beaten,
  heartbeat_lease, delete, released, release_lease, ttl_of, iso,
}
use pi_multi_orchestrator.Mission.Lease.Exclusive.{
  iso-ok, ttl_of_positive, ttl_of-safe, acquire_lease-Acquires, acquired_lem,
}

-- The specification: a lock that its holder has until an instant.
pub record Grant : Type 0 where
  pub holder : String
  pub until : ℕ

abbrev pub Free : Option Grant → (owner : String) → (now : ℕ) → Type 0
Free none owner now = Unit {0}
Free (some grant) owner now = (grant.holder ≡ owner) ⊎ (grant.until ≤ now)

-- An expiry that cannot be read is over.
abbrev pub expires : Stamp → ℕ
expires (instant t) = t
expires unreadable = 0

abbrev pub granted : Option LeaseRecord → Option Grant
granted none = none
granted (some lease) = some (record { holder = lease.owner; until = expires lease.expires_at })

abbrev pub lock_of : Store → String → Option Grant
lock_of store mission = granted (get store.leases mission)

pub data LeaseCall : Type 0 where
  acquire_call beat_call : (mission owner : String) → (ttl : Number) → LeaseCall
  release_call : (mission owner : String) → LeaseCall

abbrev pub mission_of : LeaseCall → String
mission_of (acquire_call mission owner ttl) = mission
mission_of (beat_call mission owner ttl) = mission
mission_of (release_call mission owner) = mission

abbrev pub made : Store → ℕ → LeaseCall → Result MissionError Store
made store now (acquire_call mission owner ttl) = acquire_lease store mission owner ttl now
made store now (beat_call mission owner ttl) = heartbeat_lease store mission owner ttl now
made store now (release_call mission owner) = release_lease store mission owner

abbrev pub or_left : Store → Result MissionError Store → Store
or_left store (ok after) = after
or_left store (err why) = store

abbrev pub after_lease_calls : Store → List (ℕ × LeaseCall) → Store
after_lease_calls store [] = store
after_lease_calls store ((now, call) ∷ calls) =
    after_lease_calls (or_left store (made store now call)) calls

-- Each call, its instant, and whether it returns.
abbrev pub is_ok : Result MissionError Store → Bool
is_ok (ok after) = true
is_ok (err why) = false

abbrev pub LockEvent : Type 0
LockEvent = ℕ × LeaseCall × Bool

abbrev pub outcomes : Store → List (ℕ × LeaseCall) → List LockEvent
outcomes store [] = []
outcomes store ((now, call) ∷ calls) =
    (now, call, is_ok (made store now call)) ∷ outcomes (or_left store (made store now call)) calls

-- What the lock does on a call that returns. It is granted to an owner when it is free, or the owner's
-- already, and for the time asked; its holder renews it while it has it, for the time asked, but for a lock that runs into the year 10000,
-- whose end stays until then; and its
-- holder, or anyone while nobody has it, gives it up.
abbrev pub Allows : (now : ℕ) → LeaseCall → (before after : Option Grant) → Type 0
Allows now (acquire_call mission owner ttl) before after =
    (ms : ℕ) × (safe_nat? ttl ≡ some ms)
    × (0 < ms)
    × Free before owner now
    × (after ≡ some (record { holder = owner; until = now + ms }))
Allows now (beat_call mission owner ttl) before after =
    (ms old : ℕ) × (safe_nat? ttl ≡ some ms)
    × (0 < ms)
    × (now < old)
    × (before ≡ some (record { holder = owner; until = old }))
    × ((after ≡ some (record { holder = owner; until = now + ms }))
        ⊎ ((year_10000 ≤ old) × (now < year_10000) × (before ≡ after)))
Allows now (release_call mission owner) before after =
    ((before ≡ none) ⊎ ((old : ℕ) × (before ≡ some (record { holder = owner; until = old }))))
    × (after ≡ none)

-- A call that throws, or is of another mission, leaves the lock.
abbrev pub LockStep : String → LockEvent → (before after : Option Grant) → Type 0
LockStep mission (now, call, false) before after = before ≡ after
LockStep mission (now, call, true) before after =
    if mission_of call === mission then Allows now call before after else before ≡ after

abbrev pub LockRun : String → Option Grant → List LockEvent → Option Grant → Type 0
LockRun mission before [] last = before ≡ last
LockRun mission before (event ∷ events) last =
    (middle : Option Grant) × LockStep mission event before middle
    × LockRun mission middle events last

-- The mission's lock does what the call says, and every other lock stays.
abbrev Changes : Store → ℕ → LeaseCall → Store → Type 0
Changes store now call after =
    Allows now call (lock_of store (mission_of call)) (lock_of after (mission_of call))
    × ((other : String)
        → (mission_of call === other) ≡ false
        → lock_of store other ≡ lock_of after other)

Free-granted :
    (existing : Option LeaseRecord) (owner : String) (now : ℕ)
    → held_by_other existing owner now ≡ false
    → Free (granted existing) owner now
Free-granted none owner now h = tt
Free-granted (some lease) owner now h = by lease.expires_at h
  where
    by :
        (at : Stamp)
        → runs_at at now && not (lease.owner === owner) ≡ false
        → (lease.owner ≡ owner) ⊎ (expires at ≤ now)
    by unreadable h = inr (omega arith)
    by (instant t) h = elim (Bool-cases (lease.owner === owner)) [
      | inl mine ↦ inl ((eq_iff lease.owner owner).0 mine)
      | inr apart ↦ inr (let h' = rw apart at h in ground arith)
    ]

acquired_other :
    (store : Store) (mission owner other : String) (now : ℕ) (existing : Option LeaseRecord)
    (at : Stamp)
    → (mission === other) ≡ false
    → get (acquired store mission owner now existing at).leases other ≡ get store.leases other
acquired_other store mission owner other now none at apart =
    get-put_other store.leases mission other _ apart
acquired_other store mission owner other now (some existing) at apart =
    get-put_other store.leases mission other _ apart

acquire_lease-Changes :
    (store after : Store) (mission owner : String) (ttl : Number) (now : ℕ)
    → acquire_lease store mission owner ttl now ≡ ok after
    → Changes store now (acquire_call mission owner ttl) after
acquire_lease-Changes store after mission owner ttl now e =
    let a = acquire_lease-Acquires store after mission owner ttl now e in
    let existing = get store.leases mission in
    let (lease, there, mine, ends) =
      acquired_lem store mission owner now existing (instant a.until) in
    subst (Changes store now (acquire_call mission owner ttl)) a.written (
      (
        a.ms,
        ttl_of-safe ttl a.ms a.asked,
        ttl_of_positive ttl a.ms a.asked,
        Free-granted existing owner now a.free,
        rw (there, mine, ends, a.ends) refl,
      ),
      λ other apart.
          ap granted
            (sym (acquired_other store mission owner other now existing (instant a.until) apart)),
    )

pub get-delete {ℓ} : {V : Type ℓ} (dict : Dict V) (key : String) → get (delete dict key) key ≡ none
unfolding get
get-delete [] key = refl
get-delete ((name, value) ∷ dict) key = elim (Bool-cases (name === key)) [
  | inl here ↦ rw here (get-delete dict key)
  | inr apart ↦ rw apart (rw apart (get-delete dict key))
]

get-delete_other {ℓ} :
    {V : Type ℓ} (dict : Dict V) (key other : String)
    → (key === other) ≡ false
    → get (delete dict key) other ≡ get dict other
unfolding get
get-delete_other [] key other apart = refl
get-delete_other ((name, value) ∷ dict) key other apart = elim (Bool-cases (name === key)) [
  | inl here ↦
      let same = (eq_iff name key).0 here in
      let elsewhere : (name === other) ≡ false =
        subst (λ k. (k === other) ≡ false) (sym same) apart in
      rw (here, elsewhere) (get-delete_other dict key other apart)
  | inr kept ↦ rw kept (elim (Bool-cases (name === other)) [
    | inl there ↦ rw there refl
    | inr elsewhere ↦ rw elsewhere (get-delete_other dict key other apart)
  ])
]

beaten-Changes :
    (store after : Store) (mission owner : String) (ttl : Number) (now : ℕ)
    (found : Option LeaseRecord)
    → get store.leases mission ≡ found
    → beaten store mission owner ttl now found ≡ ok after
    → Changes store now (beat_call mission owner ttl) after
beaten-Changes store after mission owner ttl now none there e = absurd (cc)
beaten-Changes store after mission owner ttl now (some lease) there e =
    let (ms, timed, e1) =
      bind-eq-ok
        (check (lease.owner === owner) lease_error
          >> check (runs_at lease.expires_at now) lease_error
          >> ttl_of ttl)
        _ e in
    let (at, dated, written) = bind-eq-ok (iso (now + ms)) _ e1 in
    let (guards, given) = seq-eq-ok _ (ttl_of ttl) timed in
    let (mine, runs) = seq-eq-ok (check (lease.owner === owner) lease_error) _ guards in
    let own : lease.owner ≡ owner = (eq_iff lease.owner owner).0 (check-eq-ok _ lease_error mine) in
    let early = ahead lease.expires_at (check-eq-ok _ lease_error runs) in
    subst (Changes store now (beat_call mission owner ttl)) (ok-injective written)
      (elim (Bool-cases (text_runs_at lease.expires_at now)) [
        | inl t ↦ rw t (
          (
            ms,
            expires lease.expires_at,
            ttl_of-safe ttl ms given,
            ttl_of_positive ttl ms given,
            early,
            rw there (rw own refl),
            inl (
                rw (get-put_self store.leases mission (next at), iso-ok (now + ms) at dated, own)
                  refl),
          ),
          λ other apart.
              ap granted (sym (get-put_other store.leases mission other (next at) apart)),
        )
        | inr f ↦ rw f (
          (
            ms,
            expires lease.expires_at,
            ttl_of-safe ttl ms given,
            ttl_of_positive ttl ms given,
            early,
            rw there (rw own refl),
            inr (let (far, near) = beyond lease.expires_at f early in (far, near, refl)),
          ),
          λ other apart. refl,
        )
      ])
  where
    next : Stamp → LeaseRecord
    next at = record lease { heartbeat_at = now; expires_at = at }

    beyond :
        (at : Stamp)
        → text_runs_at at now ≡ false
        → now < expires at
        → (year_10000 ≤ expires at) × (now < year_10000)
    beyond (instant t) f early = (ground arith, ground arith)
    beyond unreadable f early = absurd (omega arith)

    ahead : (at : Stamp) → runs_at at now ≡ true → now < expires at
    ahead (instant t) h = ground arith
    ahead unreadable h = absurd (cc)

released-Changes :
    (store after : Store) (mission owner : String) (now : ℕ) (found : Option LeaseRecord)
    → get store.leases mission ≡ found
    → released store mission owner found ≡ ok after
    → Changes store now (release_call mission owner) after
released-Changes store after mission owner now none there e =
    subst (Changes store now (release_call mission owner)) (ok-injective e)
      ((inl (ap granted there), ap granted there), λ other apart. refl)
released-Changes store after mission owner now (some lease) there e =
    elim (Bool-cases (lease.owner === owner)) [
      | inl mine ↦
          let own : lease.owner ≡ owner = (eq_iff lease.owner owner).0 mine in
          subst (Changes store now (release_call mission owner)) (ok-injective (rw mine at e)) (
            (
              inr (expires lease.expires_at, rw there (rw own refl)),
              ap granted (get-delete store.leases mission),
            ),
            λ other apart. ap granted (sym (get-delete_other store.leases mission other apart)),
          )
      | inr apart ↦ let thrown = rw apart at e in absurd (cc)
    ]

made-Changes :
    (store after : Store) (now : ℕ) (call : LeaseCall)
    → made store now call ≡ ok after
    → Changes store now call after
unfolding heartbeat_lease release_lease
made-Changes store after now (acquire_call mission owner ttl) e =
    acquire_lease-Changes store after mission owner ttl now e
made-Changes store after now (beat_call mission owner ttl) e =
    beaten-Changes store after mission owner ttl now (get store.leases mission) refl e
made-Changes store after now (release_call mission owner) e =
    released-Changes store after mission owner now (get store.leases mission) refl e

made-LockStep :
    (store : Store) (now : ℕ) (call : LeaseCall) (mission : String)
    (result : Result MissionError Store)
    → made store now call ≡ result
    → LockStep mission
        (now, call, is_ok result)
        (lock_of store mission)
        (lock_of (or_left store result) mission)
made-LockStep store now call mission (err why) e = refl
made-LockStep store now call mission (ok after) e =
    let (this, others) = made-Changes store after now call e in
    elim (Bool-cases (mission_of call === mission)) [
      | inr apart ↦ rw apart (others mission apart)
      | inl here ↦ rw here (
          subst (λ m. Allows now call (lock_of store m) (lock_of after m))
            ((eq_iff (mission_of call) mission).0 here) this)
    ]

-- Acquisitions, heartbeats and releases refine a lock that expires. Whatever calls are made, at whatever
-- instants and for whatever missions: each call of the mission that returns does to the mission's lease
-- what the lock does on it (Allows), at that instant and for the time asked, and leaves the other leases; a call
-- that throws leaves them all.
pub lease_calls-LockRun :
    (store : Store) (calls : List (ℕ × LeaseCall)) (mission : String)
    → LockRun mission
        (lock_of store mission)
        (outcomes store calls)
        (lock_of (after_lease_calls store calls) mission)
lease_calls-LockRun store [] mission = refl
lease_calls-LockRun store ((now, call) ∷ calls) mission = (
  lock_of (or_left store (made store now call)) mission,
  made-LockStep store now call mission (made store now call) refl,
  lease_calls-LockRun (or_left store (made store now call)) calls mission,
)
