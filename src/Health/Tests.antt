-- ===== src/Health/Tests.antt =====
-- src/core/health/index.ts: runs of the store.
use pi_multi_orchestrator.Prelude.{
  arith, String, put, ℕ, ◌≤◌, ◌≡◌, refl, true, false, none, some, List, [], ◌∷◌, get, ok, err,
}
use pi_multi_orchestrator.Routing.Failure.{
  rate_limited, cancelled, timeout, FailureClassification, instant,
  is_infrastructure_health_failure,
}
use pi_multi_orchestrator.Health.Record.{
  RouteHealthRecord, healthy, degraded, RecordFailureOptions, calculate_cooldown_until,
  is_stable_id, blocked,
}
use pi_multi_orchestrator.Health.Record.Cooldown.{calculate_cooldown_until_bounds}
use pi_multi_orchestrator.Health.Store.{
  HealthSnapshot, decoded, missing_file, Disk, HealthConfig, corrupt, health_config, get_record,
  record_failure, record_success, reset, recover, begin_probe, validate_snapshot,
}
use pi_multi_orchestrator.Health.Store.Coherent.{
  get_record-IsCoherent, IsCoherent, HealthCall, failure_call, after_calls,
}
use pi_multi_orchestrator.Health.Store.Failures.{record_failure-unblocks, record_failure-stuck}
use pi_multi_orchestrator.Health.Store.Frame.{IsKept, operations-frame}
use pi_multi_orchestrator.Health.Store.Quarantine.{is_corrupt, recover-repeats}

abbrev defaults : HealthConfig
defaults = record { failure_threshold = 3; max_cooldown_ms = 604800000 }

abbrev no_options : RecordFailureOptions
no_options = record {
  policy = record {
    rate_limit_ms = none;
    quota_ms = none;
    timeout_ms = none;
    transport_ms = none;
    authentication_ms = none;
    provider_ms = none;
    model_ms = none;
  };
  retry_after_ms = none;
  retry_after_at = none;
}

abbrev limited : FailureClassification
limited = record {
  failure_class = rate_limited;
  retry_after_ms = none;
  retry_after_at = some (instant 900);
  status = some 429;
}

abbrev timed_out : FailureClassification
timed_out = record {
  failure_class = timeout;
  retry_after_ms = none;
  retry_after_at = none;
  status = none;
}

abbrev aborted : FailureClassification
aborted = record {
  failure_class = cancelled;
  retry_after_ms = none;
  retry_after_at = none;
  status = none;
}

abbrev fresh : Disk
fresh = record { file = missing_file; quarantined = []; size = λ s. 1000 }

abbrev timeout_record : ℕ → RouteHealthRecord
timeout_record failures = record {
  route_id = "alpha";
  last_success_at = none;
  last_failure_at = some (instant 100);
  last_failure_class = some timeout;
  consecutive_failures = failures;
  cooldown_until = some (instant 30100);
  cooldown_reason = some timeout;
  last_http_status = none;
  retry_after_at = none;
  circuit = degraded;
  probe_in_flight = false;
}

abbrev kept : ℕ → HealthSnapshot
kept failures = record {
  generation = 1;
  updated_at = instant 100;
  routes = ("alpha", timeout_record failures) ∷ [];
}

abbrev holding : ℕ → Disk
holding failures = record { file = decoded (kept failures); quarantined = []; size = λ s. 1000 }

-- A first failure writes the record above.
first_failure :
    record_failure (health_config none none) fresh "alpha" timed_out 100 no_options
    ≡ (holding 1, ok (timeout_record 1))
unfolding record_failure health_config is_stable_id get put calculate_cooldown_until
first_failure = refl

-- A probe in the cooldown is refused, one behind it begins.
probes :
    ((begin_probe (holding 1) "alpha" 30099).1 ≡ ok false)
    × ((begin_probe (holding 1) "alpha" 30100).1 ≡ ok true)
unfolding begin_probe is_stable_id get put
probes = (refl, refl)

abbrev calls : List HealthCall
calls = failure_call "alpha" timed_out 100 no_options ∷ []

read_back : get_record (after_calls defaults fresh calls) "alpha" ≡ some (timeout_record 1)
unfolding record_failure get_record is_stable_id get put calculate_cooldown_until
read_back = refl

get_record-IsCoherent_example : IsCoherent defaults (timeout_record 1)
get_record-IsCoherent_example =
    get_record-IsCoherent defaults [] (λ s. 1000) calls "alpha" (timeout_record 1) read_back

first_ok :
    (record_failure defaults fresh "alpha" timed_out 100 no_options).1 ≡ ok (timeout_record 1)
unfolding record_failure is_stable_id get put calculate_cooldown_until
first_ok = refl

counts : is_infrastructure_health_failure timeout ≡ true
unfolding is_infrastructure_health_failure
counts = refl

record_failure-unblocks_example :
    blocked
      (get_record (record_failure defaults fresh "alpha" timed_out 100 no_options).0 "alpha")
      700000000
    ≡ false
record_failure-unblocks_example =
    record_failure-unblocks defaults fresh "alpha" timed_out 100 no_options (timeout_record 1)
      counts first_ok 700000000 (omega arith)

stable : is_stable_id "alpha" ≡ true
unfolding is_stable_id
stable = refl

valid_at_limit : validate_snapshot (kept 1000) ≡ true
unfolding validate_snapshot is_stable_id
valid_at_limit = refl

found : get (kept 1000).routes "alpha" ≡ some (timeout_record 1000)
unfolding get
found = refl

record_failure-stuck_example :
    record_failure defaults (holding 1000) "alpha" timed_out 50000 no_options
    ≡ (holding 1000, err corrupt)
record_failure-stuck_example =
    record_failure-stuck defaults (holding 1000) (kept 1000) "alpha" (timeout_record 1000) timed_out
      50000 no_options stable refl valid_at_limit found refl counts

operations-frame_example :
    IsKept
      (holding 1)
      "alpha"
      (record_failure defaults (holding 1) "beta" timed_out 200 no_options).0
    × IsKept (holding 1) "alpha" (record_success (holding 1) "beta" 200).0
    × IsKept (holding 1) "alpha" (reset (holding 1) "beta" 200).0
    × IsKept (holding 1) "alpha" (begin_probe (holding 1) "beta" 200).0
operations-frame_example =
    operations-frame defaults (holding 1) "beta" "alpha" 200 timed_out no_options refl

abbrev healed : RouteHealthRecord
healed = record (timeout_record 0) {
  last_success_at = some (instant 200);
  cooldown_until = none;
  cooldown_reason = none;
  circuit = healthy;
}

success_ok : (record_success (holding 1) "alpha" 200).1 ≡ ok healed
unfolding record_success is_stable_id get put
success_ok = refl

limited_until : calculate_cooldown_until limited 100 no_options 604800000 ≡ some 900
unfolding calculate_cooldown_until
limited_until = refl

calculate_cooldown_until_bounds_example : (100 ≤ 900) × (900 ≤ 604800100)
calculate_cooldown_until_bounds_example =
    calculate_cooldown_until_bounds limited 100 no_options 604800000 900 limited_until

invalid_count : is_corrupt (holding 1001).file ≡ true
unfolding validate_snapshot is_stable_id
invalid_count = refl

-- A file whose record has counted too far is corrupt.
recover-repeats_example :
    (is_corrupt (recover (holding 1001)).file ≡ true)
    × ((id : String) → get_record (recover (holding 1001)) id ≡ none)
    × ((recover (recover (holding 1001))).quarantined
        ≡ (holding 1001).file ∷ (holding 1001).file ∷ [])
recover-repeats_example = recover-repeats (holding 1001) invalid_count
