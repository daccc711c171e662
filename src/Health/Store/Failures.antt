-- ===== src/Health/Store/Failures.antt =====
-- src/core/health/index.ts: `recordFailure` and `recordSuccess` as `get`, `isBlocked` and `status`
-- see them.
use pi_multi_orchestrator.Prelude.{
  ℕ, ◌+◌, ◌≤◌, ◌<◌, ◌≡◌, refl, ◌∙◌, Option, none, true, false, ◌&&◌, some, String, ◌===◌, get, ok,
  err, arith, inl, inr,
}
use pi_multi_orchestrator.Routing.Failure.{
  FailureClassification, instant, is_infrastructure_health_failure,
}
use pi_multi_orchestrator.Health.Record.{
  RouteHealthRecord, RecordFailureOptions, calculate_cooldown_until, is_stable_id, later_than,
  validate_record, health_record_status, blocked, is_healthy, max_consecutive_failures,
}
use pi_multi_orchestrator.Health.Record.Cooldown.{calculate_cooldown_until_bounds}
use pi_multi_orchestrator.Health.Store.{
  HealthSnapshot, decoded, Disk, HealthConfig, corrupt, validate_snapshot, load_for_write, save,
  saveable, with_record, failed_record, cleared_record, get_record, record_failure, record_success,
  as_stamp,
}
use pi_multi_orchestrator.Health.Store.Written.{
  ReadsBack, load_for_write-valid, get_record-for_route, all-put,
}

module _ (config : HealthConfig) where
  failure_written :
      (disk : Disk) (id : String) (c : FailureClassification) (now : ℕ)
      (options : RecordFailureOptions) (r : RouteHealthRecord)
      → is_infrastructure_health_failure c.failure_class ≡ true
      → (record_failure config disk id c now options).1 ≡ ok r
      → ReadsBack (get_record (record_failure config disk id c now options).0 id) r
        × (failed_record config id (get (load_for_write disk now).1.routes id) c now options ≡ r)
  unfolding record_failure
  failure_written disk id c now options r infra e = rw infra (
      get_record-for_route now id (λ previous. failed_record config id previous c now options) disk
        (load_for_write disk now) r (rw infra at e))

  -- After a failure of the route that was recorded and can be read, the route is blocked at exactly the times before
  -- the end of its cooldown: the new cooldown replaces an older one, and without one it is open.
  pub record_failure-blocked :
      (disk : Disk) (id : String) (c : FailureClassification) (now : ℕ)
      (options : RecordFailureOptions) (r : RouteHealthRecord)
      → is_infrastructure_health_failure c.failure_class ≡ true
      → (record_failure config disk id c now options).1 ≡ ok r
      → get_record (record_failure config disk id c now options).0 id ≡ some r
      → (time : ℕ)
      → blocked (get_record (record_failure config disk id c now options).0 id) time
        ≡ later_than (as_stamp (calculate_cooldown_until c now options config.max_cooldown_ms)) time
  unfolding blocked failed_record
  record_failure-blocked disk id c now options r infra e read time =
      let (either, made) = failure_written disk id c now options r infra e in rw (read, ← made)

  -- However often and for whatever reason a route fails, it is not blocked for good: after a failure
  -- that was recorded, it is open from the configured maximum of a cooldown behind the failure on.
  pub record_failure-unblocks :
      (disk : Disk) (id : String) (c : FailureClassification) (now : ℕ)
      (options : RecordFailureOptions) (r : RouteHealthRecord)
      → is_infrastructure_health_failure c.failure_class ≡ true
      → (record_failure config disk id c now options).1 ≡ ok r
      → (time : ℕ) → now + config.max_cooldown_ms ≤ time
      → blocked (get_record (record_failure config disk id c now options).0 id) time ≡ false
  unfolding blocked
  record_failure-unblocks disk id c now options r infra e time h =
      elim (failure_written disk id c now options r infra e).0 [
        | inl read ↦
            record_failure-blocked disk id c now options r infra e read time
            ∙ over (calculate_cooldown_until c now options config.max_cooldown_ms)
                (calculate_cooldown_until_bounds c now options config.max_cooldown_ms)
        | inr lost ↦ rw lost refl
      ]
    where
      over :
          (until : Option ℕ)
          → ((t : ℕ) → until ≡ some t → (now ≤ t) × (t ≤ now + config.max_cooldown_ms))
          → later_than (as_stamp until) time ≡ false
      over none bounds = refl
      over (some t) bounds = let (late, early) = bounds t refl in ground arith

  -- A failure that is not the route's (a cancelled request, a missing capability) leaves the disk.
  pub record_failure-ignores :
      (disk : Disk) (id : String) (c : FailureClassification) (now : ℕ)
      (options : RecordFailureOptions)
      → is_infrastructure_health_failure c.failure_class ≡ false
      → (record_failure config disk id c now options).0 ≡ disk
  unfolding record_failure
  record_failure-ignores disk id c now options other = rw other (ground arith)

  saveable-too_many :
      (s : HealthSnapshot) (now : ℕ) (id : String) (r : RouteHealthRecord)
      → max_consecutive_failures < r.consecutive_failures
      → saveable (with_record s now id r) ≡ false
  unfolding validate_snapshot validate_record
  saveable-too_many s now id r h =
      let refused =
        all-put (λ entry. validate_record entry.1 && entry.0 === entry.1.route_id) s.routes id r
          (λ name. ground arith) in
      rw refused (ground arith)

  -- When a valid file counts 1000 failures in a row for a route, a further failure of the route
  -- (an infrastructure failure, under an accepted name) throws that the file is corrupt and leaves
  -- the disk as it is, so no cooldown is set.
  pub record_failure-stuck :
      (disk : Disk) (s : HealthSnapshot) (id : String) (previous : RouteHealthRecord)
      (c : FailureClassification) (now : ℕ) (options : RecordFailureOptions)
      → is_stable_id id ≡ true
      → disk.file ≡ decoded s
      → validate_snapshot s ≡ true
      → get s.routes id ≡ some previous
      → previous.consecutive_failures ≡ max_consecutive_failures
      → is_infrastructure_health_failure c.failure_class ≡ true
      → record_failure config disk id c now options ≡ (disk, err corrupt)
  unfolding record_failure save failed_record
  record_failure-stuck disk s id previous c now options stable file valid found many infra =
      let next = failed_record config id (some previous) c now options in
      let refused = saveable-too_many s now id next (omega arith) in
      rw (stable, infra, load_for_write-valid disk s now file valid, found) (rw refused)

-- After a success that was recorded and can be read, the route is healthy and blocked at no time.
pub record_success-heals :
    (disk : Disk) (id : String) (now : ℕ) (r : RouteHealthRecord)
    → (record_success disk id now).1 ≡ ok r
    → get_record (record_success disk id now).0 id ≡ some r
    → (time : ℕ)
    → (blocked (get_record (record_success disk id now).0 id) time ≡ false)
      × (health_record_status (get_record (record_success disk id now).0 id) time ≡ is_healthy)
unfolding record_success blocked cleared_record health_record_status
record_success-heals disk id now r e read time =
    let (either, made) =
      get_record-for_route now id (cleared_record id (some (instant now))) disk
        (load_for_write disk now) r e in
    (rw (read, ← made), rw (read, ← made))
