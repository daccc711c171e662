-- ===== src/Health/Record.antt =====
-- src/core/health/index.ts: a route's record, its validation, its status and its cooldown.
pub mod Status
pub mod Cooldown
use pi_multi_orchestrator.Prelude.{
  ℕ, ◌+◌, ◌-◌, min, max, Bool, true, false, not, ◌&&◌, ◌||◌, Option, none, some, List, [], ◌∷◌,
  String, if◌then◌else◌, ltb, leb, ◌==◌, ◌===◌, codes, length, or_else, Number, finite, not_finite,
  nat, is_negative, all, Dict, max_safe_integer,
}
use pi_multi_orchestrator.Routing.Failure.{
  FailureClass, quota_exhausted, rate_limited, authentication_failed, timeout, transport_error,
  provider_unavailable, model_unavailable, FailureClassification, Stamp, instant, unreadable,
  is_iso_date,
}

pub data CircuitState : Type 0 where
  unknown healthy degraded open_circuit probing : CircuitState

pub data HealthStatus : Type 0 where
  is_healthy is_degraded cooldown authentication_blocked quota_cooldown : HealthStatus
  rate_limit_cooldown provider_down is_probing is_unknown : HealthStatus

-- Times are the instants that their texts stand for.
pub record RouteHealthRecord : Type 0 where
  pub route_id : String
  pub last_success_at : Option Stamp
  pub last_failure_at : Option Stamp
  pub last_failure_class : Option FailureClass
  pub consecutive_failures : ℕ
  pub cooldown_until : Option Stamp
  pub cooldown_reason : Option FailureClass
  pub last_http_status : Option ℕ
  pub retry_after_at : Option Stamp
  pub circuit : CircuitState
  pub probe_in_flight : Bool

abbrev pub lowercase : ℕ → Bool
lowercase c = leb b'a' c && leb c b'z'

abbrev pub alphanumeric : ℕ → Bool
alphanumeric c = lowercase c || (leb b'0' c && leb c b'9')

-- The rest of `[a-z0-9]*(?:-[a-z0-9]+)*`, behind a dash or not.
unfoldable pub stable_rest : Bool → List ℕ → Bool
stable_rest behind_dash [] = not behind_dash
stable_rest behind_dash (c ∷ cs) =
    if c == b'-'
    then not behind_dash && stable_rest true cs
    else alphanumeric c && stable_rest false cs

abbrev pub stable_codes : List ℕ → Bool
stable_codes [] = false
stable_codes (c ∷ cs) = lowercase c && stable_rest false cs && leb (length (c ∷ cs)) 64

unfoldable pub is_stable_id : String → Bool
unfolding stable_rest
is_stable_id id = stable_codes (codes id)

abbrev pub date_ok : Option Stamp → Bool
date_ok none = true
date_ok (some at) = is_iso_date at

abbrev pub status_ok : Option ℕ → Bool
status_ok none = true
status_ok (some s) = leb 100 s && leb s 599

abbrev pub max_consecutive_failures : ℕ
max_consecutive_failures = 1000

-- The checks of `validateRecord` beyond the types of the fields.
unfoldable pub validate_record : RouteHealthRecord → Bool
validate_record r =
    is_stable_id r.route_id
    && leb r.consecutive_failures max_consecutive_failures
    && date_ok r.last_success_at
    && date_ok r.last_failure_at
    && date_ok r.cooldown_until
    && date_ok r.retry_after_at
    && status_ok r.last_http_status

-- `Date.parse(until) > now`; no text, or one that does not parse, is not in the future.
abbrev pub later_than : Option Stamp → ℕ → Bool
later_than none now = false
later_than (some (instant t)) now = ltb now t
later_than (some unreadable) now = false

abbrev pub is_probing? : CircuitState → Bool
is_probing? probing = true
is_probing? _ = false

abbrev pub cooldown_status : Option FailureClass → HealthStatus
cooldown_status (some authentication_failed) = authentication_blocked
cooldown_status (some quota_exhausted) = quota_cooldown
cooldown_status (some rate_limited) = rate_limit_cooldown
cooldown_status (some provider_unavailable) = provider_down
cooldown_status (some model_unavailable) = provider_down
cooldown_status _ = cooldown

abbrev pub circuit_status : CircuitState → ℕ → HealthStatus
circuit_status healthy failures = is_healthy
circuit_status degraded failures = if failures == 0 then is_healthy else is_degraded
circuit_status open_circuit failures = if failures == 0 then is_healthy else is_degraded
circuit_status _ failures = if failures == 0 then is_healthy else is_unknown

-- `HealthStore.status`, which `healthRecordStatus` repeats.
unfoldable pub health_record_status : Option RouteHealthRecord → ℕ → HealthStatus
health_record_status none now = is_unknown
health_record_status (some r) now =
    if r.probe_in_flight || is_probing? r.circuit
    then is_probing
    else if later_than r.cooldown_until now
    then cooldown_status r.cooldown_reason
    else circuit_status r.circuit r.consecutive_failures

unfoldable pub blocked : Option RouteHealthRecord → ℕ → Bool
blocked none now = false
blocked (some r) now = r.probe_in_flight || later_than r.cooldown_until now

-- The cooldowns of a policy, where it sets them.
pub record CooldownPolicy : Type 0 where
  pub rate_limit_ms : Option ℕ
  pub quota_ms : Option ℕ
  pub timeout_ms : Option ℕ
  pub transport_ms : Option ℕ
  pub authentication_ms : Option ℕ
  pub provider_ms : Option ℕ
  pub model_ms : Option ℕ

pub record RecordFailureOptions : Type 0 where
  pub policy : CooldownPolicy
  pub retry_after_ms : Option Number
  pub retry_after_at : Option Stamp

unfoldable pub default_ms : FailureClass → CooldownPolicy → ℕ
default_ms quota_exhausted p = or_else p.quota_ms 0
default_ms rate_limited p = or_else p.rate_limit_ms 0
default_ms authentication_failed p = or_else p.authentication_ms 300000
default_ms timeout p = or_else p.timeout_ms 30000
default_ms transport_error p = or_else p.transport_ms 30000
default_ms provider_unavailable p = or_else p.provider_ms 60000
default_ms model_unavailable p = or_else p.model_ms 60000
default_ms _ p = 0

abbrev pub parsed : Option Stamp → ℕ
parsed (some (instant t)) = t
parsed _ = 0

-- `options.retryAfterMs ?? classification.retryAfterMs`.
abbrev pub explicit_ms : Option Number → Option ℕ → Option Number
explicit_ms none none = none
explicit_ms none (some ms) = some (nat ms)
explicit_ms (some ms) other = some ms

-- `fromMs ?? 0`.
abbrev pub from_ms : Option Number → (now max_cooldown_ms : ℕ) → ℕ
from_ms (some (finite negative whole fraction)) now most =
    if is_negative (finite negative whole fraction) then 0 else now + min whole most
from_ms _ now most = 0

-- The greatest of the retry hints, as an instant; 0 when there is none.
unfoldable pub authoritative : FailureClassification → ℕ → RecordFailureOptions → ℕ → ℕ
authoritative c now options most = max (parsed options.retry_after_at) (
    max (parsed c.retry_after_at)
      (from_ms (explicit_ms options.retry_after_ms c.retry_after_ms) now most))

-- A hint that lies ahead is cut to the maximum; else the default wait of the class, if it has one.
unfoldable pub bounded_until : (hint wait now most : ℕ) → Option ℕ
bounded_until hint wait now most =
    if ltb now hint
    then some (min hint (now + most))
    else if wait == 0
    then none
    else some (now + min wait most)

unfoldable pub calculate_cooldown_until :
    FailureClassification → ℕ → RecordFailureOptions → (max_cooldown_ms : ℕ) → Option ℕ
unfolding bounded_until authoritative default_ms
calculate_cooldown_until c now options most =
    bounded_until (authoritative c now options most) (default_ms c.failure_class options.policy) now
      most
