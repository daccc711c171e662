-- ===== src/Mission/Lease.antt =====
-- src/core/mission/index.ts: the leases of the missions, and the claim of a mission for its execution.
pub mod Exclusive
pub mod Claim
pub mod Refines
use pi_multi_orchestrator.Prelude.{
  ℕ, zero, suc, ◌+◌, Bool, true, false, not, ◌&&◌, ◌||◌, Option, none, some, List, [], ◌∷◌, ◌++◌,
  map, String, if◌then◌else◌, ltb, leb, ◌==◌, ◌===◌, length, or_else, is_some, any, all, filter,
  find?, includes, codes, trim, sort, Number, safe_nat?, Dict, get, put, Result, ok, err, ◌>>=◌,
  ◌>>◌, check,
}
use pi_multi_orchestrator.Routing.Failure.{Stamp, instant, unreadable}
use pi_multi_orchestrator.Mission.{
  MissionStatus, draft, planned, active, paused, running, awaiting_review, blocked, failed,
  cancelled, completed, MissionRecord, LeaseRecord, Store, MissionError, lease_error, range_error,
  not_found, conflict, mission_row, Host, transition_mission, system,
}

abbrev pub max_date : ℕ
max_date = 8640000000000000

abbrev pub positive : Option ℕ → Option ℕ
positive none = none
positive (some n) = if n == 0 then none else some n

abbrev pub ttl_of : Number → Result MissionError ℕ
ttl_of ttl = given (positive (safe_nat? ttl))
  where
    given : Option ℕ → Result MissionError ℕ
    given none = err lease_error
    given (some n) = ok n

-- `new Date(ms).toISOString()`.
abbrev pub iso : ℕ → Result MissionError Stamp
iso ms = if leb ms max_date then ok (instant ms) else err range_error

abbrev pub runs_at : Stamp → ℕ → Bool
runs_at (instant t) now = ltb now t
runs_at unreadable now = false

abbrev pub is_readable : Stamp → Bool
is_readable (instant t) = true
is_readable unreadable = false

abbrev pub acquired : Store → String → String → ℕ → Option LeaseRecord → Stamp → Store
acquired store mission owner now none expires = record store {
  leases = put store.leases mission (record {
    owner = owner;
    acquired_at = now;
    heartbeat_at = now;
    expires_at = expires;
    recovered_from = none;
  });
}
acquired store mission owner now (some existing) expires = record store {
  leases = put store.leases mission (record {
    owner = owner;
    acquired_at = if existing.owner === owner then existing.acquired_at else now;
    heartbeat_at = now;
    expires_at = expires;
    recovered_from = if existing.owner === owner then none else some existing.owner;
  });
}

-- A lease of another owner that has not expired.
abbrev pub held_by_other : Option LeaseRecord → String → ℕ → Bool
held_by_other none owner now = false
held_by_other (some existing) owner now =
    runs_at existing.expires_at now && not (existing.owner === owner)

abbrev pub lease_readable : Option LeaseRecord → Bool
lease_readable none = true
lease_readable (some existing) = is_readable existing.expires_at

abbrev pub is_blank : String → Bool
is_blank text = length (trim (codes text)) == 0

unfoldable pub acquire_lease :
    Store → (mission owner : String) → (ttl : Number) → (now : ℕ) → Result MissionError Store
acquire_lease store mission owner ttl now =
    let existing = get store.leases mission in
    mission_row store mission >>= λ row.
    check (not (is_blank owner)) lease_error >> ttl_of ttl >>= λ ms.
    check (lease_readable existing) lease_error
    >> check (not (held_by_other existing owner now)) lease_error
    >> iso (now + ms)
    >>= λ expires. ok (acquired store mission owner now existing expires)

-- The first instant whose text has a year of six digits: `+010000-01-01T00:00:00.000Z`.
abbrev pub year_10000 : ℕ
year_10000 = 253402300800000

-- SQL compares the texts of the instants: one with a sign before its year is below all others.
abbrev pub iso_le : ℕ → ℕ → Bool
iso_le a b =
    if leb year_10000 a
    then not (leb year_10000 b) || leb a b
    else not (leb year_10000 b) && leb a b

abbrev pub text_runs_at : Stamp → ℕ → Bool
text_runs_at (instant t) now = not (iso_le t now)
text_runs_at unreadable now = false

-- The UPDATE of the row, which compares the texts once more.
abbrev pub with_beat : Store → String → LeaseRecord → ℕ → Stamp → Store
with_beat store mission existing now expires =
    if text_runs_at existing.expires_at now
    then record store {
      leases =
          put store.leases mission (record existing { heartbeat_at = now; expires_at = expires });
    }
    else store

abbrev pub beaten :
    Store → String → String → Number → ℕ → Option LeaseRecord → Result MissionError Store
beaten store mission owner ttl now none = err lease_error
beaten store mission owner ttl now (some existing) =
    check (existing.owner === owner) lease_error
    >> check (runs_at existing.expires_at now) lease_error
    >> ttl_of ttl
    >>= λ ms. iso (now + ms) >>= λ expires. ok (with_beat store mission existing now expires)

unfoldable pub heartbeat_lease :
    Store → (mission owner : String) → (ttl : Number) → (now : ℕ) → Result MissionError Store
heartbeat_lease store mission owner ttl now =
    beaten store mission owner ttl now (get store.leases mission)

-- `DELETE`.
abbrev pub delete {ℓ} : {V : Type ℓ} → Dict V → String → Dict V
delete dict key = filter (λ entry. not (entry.0 === key)) dict

abbrev pub released : Store → String → String → Option LeaseRecord → Result MissionError Store
released store mission owner none = ok store
released store mission owner (some existing) =
    if existing.owner === owner
    then ok (record store { leases = delete store.leases mission })
    else err lease_error

unfoldable pub release_lease : Store → (mission owner : String) → Result MissionError Store
release_lease store mission owner = released store mission owner (get store.leases mission)

abbrev pub is_closed : MissionStatus → Bool
is_closed completed = true
is_closed cancelled = true
is_closed failed = true
is_closed _ = false

-- The transitions that lead to `running`.
abbrev pub steps_to_running : MissionStatus → List MissionStatus
steps_to_running draft = planned ∷ active ∷ running ∷ []
steps_to_running planned = active ∷ running ∷ []
steps_to_running active = running ∷ []
steps_to_running paused = running ∷ []
steps_to_running awaiting_review = running ∷ []
steps_to_running blocked = running ∷ []
steps_to_running _ = []

abbrev pub follow : Host → String → List MissionStatus → Store → Result MissionError Store
follow host id [] store = ok store
follow host id (status ∷ statuses) store =
    transition_mission host store id status system none >>= λ next. follow host id statuses next

unfoldable pub claim_mission_execution :
    Host → Store → (mission owner : String) → (ttl : Number) → (now : ℕ) → Result MissionError Store
unfolding acquire_lease transition_mission
claim_mission_execution host store mission owner ttl now = mission_row store mission >>= λ current.
    check (not (is_closed current.status)) conflict
    >> acquire_lease store mission owner ttl now
    >>= λ leased. follow host mission (steps_to_running current.status) leased
