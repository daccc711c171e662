-- ===== src/Mission/Interruption/Recovered.antt =====
-- src/core/mission/index.ts: recoverInterrupted, when it returns and what it leaves.
use pi_multi_orchestrator.Prelude.{
  ℕ, ◌≡◌, refl, sym, ap, ◌∙◌, subst, false, Option, none, some, String, ok, filter, any,
}
use pi_multi_orchestrator.Mission.{AttemptRecord, VerificationRun, Store, Host}
use pi_multi_orchestrator.Mission.Interruption.{
  stopped_attempt, interrupt_attempts, stopped_run, keys, is_lost, is_lost_run, recovered,
  recover_interrupted, recovery_reason,
}
use pi_multi_orchestrator.Mission.Interruption.Stops.{
  interrupt_attempts-any, interrupt_runs-any, interrupt_attempts-SameTables,
  interrupt_runs-SameTables, stopped_attempt-is_running, stopped_run-is_verifying,
}
use pi_multi_orchestrator.Mission.Interruption.Reviews.{
  review_missions-ReviewsAll, recovered-SameTables,
}

is_lost-stopped_attempt :
    (host : Host) (store : Store) (owner : Option String) (now : ℕ) (key : String)
    (attempt : AttemptRecord)
    → is_lost host store owner now (key, stopped_attempt attempt) ≡ false
is_lost-stopped_attempt host store none now key attempt =
    rw (stopped_attempt-is_running attempt) refl
is_lost-stopped_attempt host store (some name) now key attempt =
    rw (stopped_attempt-is_running attempt) refl

is_lost_run-stopped_attempt :
    (host : Host) (store : Store) (owner : Option String) (now : ℕ) (key : String)
    (run : VerificationRun)
    → is_lost_run host store owner now (key, stopped_run recovery_reason run) ≡ false
is_lost_run-stopped_attempt host store none now key run =
    rw (stopped_run-is_verifying recovery_reason run) refl
is_lost_run-stopped_attempt host store (some name) now key run =
    rw (stopped_run-is_verifying recovery_reason run) refl

lost_same :
    (host : Host) (store after : Store) (owner : Option String) (now : ℕ)
    → store.leases ≡ after.leases
    → (is_lost host store owner now ≡ is_lost host after owner now)
      × (is_lost_run host store owner now ≡ is_lost_run host after owner now)
lost_same host store after none now e = (
  ap (λ leases. is_lost host (record store { leases = leases }) none now) e,
  ap (λ leases. is_lost_run host (record store { leases = leases }) none now) e,
)
lost_same host store after (some name) now e =
    (refl, ap (λ leases. is_lost_run host (record store { leases = leases }) (some name) now) e)

-- In the store that a recovery leaves, its queries find no attempt and no verification any more.
pub recover_interrupted-recovers :
    (host : Host) (store after : Store) (owner : Option String) (now : ℕ)
    → recover_interrupted host store owner now ≡ ok after
    → (any (is_lost host after owner now) after.attempts ≡ false)
      × (any (is_lost_run host after owner now) after.verifications ≡ false)
unfolding recover_interrupted
recover_interrupted-recovers host store after owner now e =
    let ids = keys (filter (is_lost host store owner now) store.attempts) in
    let rows = filter (is_lost_run host store owner now) store.verifications in
    let (a, v) = interrupt_attempts-SameTables store ids in
    let (r, t) = interrupt_runs-SameTables (interrupt_attempts store ids) recovery_reason rows in
    let done = review_missions-ReviewsAll host _ (recovered host store owner now) after e in
    let (lost, lost_run) =
      lost_same host store after owner now
        ((recovered-SameTables host store owner now).leases ∙ done.leases) in
    (
      subst (λ found. any found after.attempts ≡ false) lost
          (subst (λ attempts. any (is_lost host store owner now) attempts ≡ false)
            (t ∙ done.attempts)
            (interrupt_attempts-any (is_lost host store owner now)
              (is_lost-stopped_attempt host store owner now) store)),
      subst (λ found. any found after.verifications ≡ false) lost_run
          (subst (λ runs. any (is_lost_run host store owner now) runs ≡ false) done.verifications
            (interrupt_runs-any (is_lost_run host store owner now) recovery_reason
              (is_lost_run-stopped_attempt host store owner now) (interrupt_attempts store ids) rows
              (ap (filter (is_lost_run host store owner now)) (sym v)))),
    )
