-- ===== src/Health/Record/Status.antt =====
-- The status that is shown, and the test that blocks a route.
use pi_multi_orchestrator.Prelude.{
  ℕ, ◌≡◌, refl, Bool, true, false, Option, none, some, arith, not, ◌||◌,
}
use pi_multi_orchestrator.Routing.Failure.{FailureClass, authentication_failed}
use pi_multi_orchestrator.Health.Record.{
  HealthStatus, is_healthy, is_degraded, is_unknown, RouteHealthRecord, CircuitState, healthy,
  health_record_status, blocked, cooldown_status, circuit_status, is_probing?,
}

-- The statuses under which a route may be used.
abbrev pub usable : HealthStatus → Bool
usable is_healthy = true
usable is_degraded = true
usable is_unknown = true
usable _ = false

usable-cooldown_status : (c : Option FailureClass) → usable (cooldown_status c) ≡ false
usable-cooldown_status none = refl
usable-cooldown_status (some authentication_failed) = refl
usable-cooldown_status (some _) = refl

usable-circuit_status : (c : CircuitState) (n : ℕ) → usable (circuit_status c n) ≡ true
usable-circuit_status healthy n = refl
usable-circuit_status _ n = ground arith

-- The status and the block agree: a record is shown as usable exactly when nothing blocks its
-- route and its circuit is not being probed.
pub usable-health_record_status :
    (r : RouteHealthRecord) (now : ℕ)
    → usable (health_record_status (some r) now)
      ≡ not (blocked (some r) now || is_probing? r.circuit)
unfolding health_record_status blocked
usable-health_record_status r now = ground (
  arith,
  usable-cooldown_status r.cooldown_reason,
  usable-circuit_status r.circuit r.consecutive_failures,
)
