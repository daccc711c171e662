-- ===== src/Mission/Lease/Claim.antt =====
-- src/core/mission/index.ts: `claimMissionExecution` sets a mission running under its owner's lease.
use pi_multi_orchestrator.Prelude.{
  ℕ, ◌+◌, ◌<◌, ◌≡◌, refl, sym, ◌∙◌, false, not, Option, none, some, List, [], ◌∷◌, String, get,
  get-put_self, Number, ok, ◌>>◌, check, bind-eq-ok, check-eq-ok, seq-eq-ok, ok-injective, arith,
  false≢true,
}
use pi_multi_orchestrator.Routing.Failure.{instant}
use pi_multi_orchestrator.Mission.{
  found-eq-ok, MissionStatus, draft, planned, active, paused, running, awaiting_review, blocked,
  failed, cancelled, completed, MissionRecord, LeaseRecord, Store, conflict, mission_row, Host,
  transition_mission, system,
}
use pi_multi_orchestrator.Mission.Completion.{transition_mission-Moves}
use pi_multi_orchestrator.Mission.Lease.{
  acquired, acquire_lease, is_closed, steps_to_running, follow, claim_mission_execution,
}
use pi_multi_orchestrator.Mission.Lease.Exclusive.{acquire_lease-Acquires, acquired_lem}

abbrev last_or : MissionStatus → List MissionStatus → MissionStatus
last_or status [] = status
last_or status (next ∷ statuses) = last_or next statuses

-- The steps end at the last status, and leave the leases.
follow-last :
    (host : Host) (id : String) (statuses : List MissionStatus) (store after : Store)
    (mission : MissionRecord)
    → follow host id statuses store ≡ ok after
    → get store.missions id ≡ some mission
    → ((final : MissionRecord) × (get after.missions id ≡ some final)
        × (final.status ≡ last_or mission.status statuses))
      × (after.leases ≡ store.leases)
follow-last host id [] store after mission e there =
    let same : store ≡ after = ok-injective e in (rw (← same) (mission, there, refl), rw (← same))
follow-last host id (status ∷ statuses) store after mission e there =
    let (next, stepped, left) =
      bind-eq-ok (transition_mission host store id status system none) _ e in
    let moves = transition_mission-Moves host store next id status system none stepped in
    let written : MissionRecord = record {
      status = status;
      revision = moves.current.revision + 1;
    } in
    let (ends, leases) =
      follow-last host id statuses next after written left
        (rw (← moves.written) (get-put_self store.missions id written)) in
    (ends, leases ∙ rw (← moves.written))

last-running :
    (status : MissionStatus)
    → is_closed status ≡ false
    → last_or status (steps_to_running status) ≡ running
last-running draft t = refl
last-running planned t = refl
last-running active t = refl
last-running paused t = refl
last-running running t = refl
last-running awaiting_review t = refl
last-running blocked t = refl
last-running failed t = absurd (false≢true (sym t))
last-running cancelled t = absurd (false≢true (sym t))
last-running completed t = absurd (false≢true (sym t))

-- A claim that succeeds was of a mission that is not completed, cancelled or failed; afterwards the
-- mission runs, and the claimant holds its lease, which expires later than now.
pub claim_mission_execution-running :
    (host : Host) (store after : Store) (id owner : String) (ttl : Number) (now : ℕ)
    → claim_mission_execution host store id owner ttl now ≡ ok after
    → ((before : MissionRecord) × (get store.missions id ≡ some before)
        × (is_closed before.status ≡ false))
      × ((mission : MissionRecord) × (get after.missions id ≡ some mission)
          × (mission.status ≡ running))
      × ((lease : LeaseRecord) × (until : ℕ) × (get after.leases id ≡ some lease)
          × (lease.owner ≡ owner)
          × (lease.expires_at ≡ instant until)
          × (now < until))
unfolding claim_mission_execution
claim_mission_execution-running host store after id owner ttl now e =
    let (current, row, rest) = bind-eq-ok (mission_row store id) _ e in
    let (leased, taken, left) =
      bind-eq-ok
        (check (not (is_closed current.status)) conflict >> acquire_lease store id owner ttl now) _
        rest in
    let (checked, taken_lease) = seq-eq-ok _ (acquire_lease store id owner ttl now) taken in
    let open_mission = check-eq-ok _ conflict checked in
    let live : is_closed current.status ≡ false = ground arith in
    let there = found-eq-ok (get store.missions id) row in
    let a = acquire_lease-Acquires store leased id owner ttl now taken_lease in
    let (lease, placed, mine, ends) =
      acquired_lem store id owner now (get store.leases id) (instant a.until) in
    let ((final, stands, status), leases) =
      follow-last host id (steps_to_running current.status) leased after current left
        (kept a.until (get store.leases id) leased a.written there) in
    (
      (current, there, live),
      (final, stands, status ∙ last-running current.status live),
      (lease, a.until, rw leases (rw (← a.written) placed), mine, ends, a.later),
    )
  where
    kept :
        (until : ℕ) (existing : Option LeaseRecord) (leased : Store) {found : Option MissionRecord}
        → acquired store id owner now existing (instant until) ≡ leased
        → get store.missions id ≡ found
        → get leased.missions id ≡ found
    kept until none leased w there = rw (← w) there
    kept until (some lease) leased w there = rw (← w) there
