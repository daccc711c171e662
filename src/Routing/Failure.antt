-- ===== src/Routing/Failure.antt =====
-- src/core/routing/index.ts: failure classes, their classification and the action taken.
pub mod Laws
use pi_multi_orchestrator.Prelude.{
  ℕ, ◌-◌, min, Bool, true, false, not, ◌&&◌, ◌||◌, Option, none, some, List, [], ◌∷◌, map,
  if◌then◌else◌, ltb, ◌==◌, codes, contains, same, is_space, trim, Number, finite, not_finite,
  is_negative, String,
}

pub data FailureClass : Type 0 where
  quota_exhausted rate_limited authentication_failed timeout transport_error : FailureClass
  provider_unavailable model_unavailable invalid_request protocol_error result_capability :
      FailureClass
  cancelled unknown : FailureClass

pub data FailureAction : Type 0 where
  retry_same_route fallback_next_route stop : FailureAction

-- A point in time as a text: the instant, in milliseconds, that `Date.parse` reads from it.
pub data Stamp : Type 0 where
  instant : ℕ → Stamp
  unreadable : Stamp

abbrev pub is_iso_date : Stamp → Bool
is_iso_date (instant t) = true
is_iso_date unreadable = false

-- Texts are lists of code points; an absent flag is false.
pub record FailureInput : Type 0 where
  pub status : Option ℕ
  pub code : Option (List ℕ)
  pub category : Option (List ℕ)
  pub timed_out : Bool  -- `timeout`
  pub was_cancelled : Bool  -- `cancelled`
  pub retry_after_ms : Option Number
  pub retry_after_at : Option Stamp
  pub message : Option (List ℕ)

-- `safeMessage` is the fixed text of the class, SAFE_MESSAGES[class], and is not stored.
pub record FailureClassification : Type 0 where
  pub failure_class : FailureClass  -- `class`
  pub retry_after_ms : Option ℕ
  pub retry_after_at : Option Stamp
  pub status : Option ℕ

abbrev pub max_retry_after_ms : ℕ
max_retry_after_ms = 86400000

unfoldable pub bounded_retry_after_ms : Option Number → Option ℕ
bounded_retry_after_ms none = none
bounded_retry_after_ms (some not_finite) = none
bounded_retry_after_ms (some (finite negative whole fraction)) =
    if is_negative (finite negative whole fraction)
    then none
    else some (min whole max_retry_after_ms)

-- `.replace(/[\s-]+/gu, "_")`: each run of white space and dashes becomes one underscore.
unfoldable pub join_runs : Bool → List ℕ → List ℕ
join_runs inside [] = []
join_runs inside (c ∷ cs) =
    if is_space c || c == b'-'
    then (if inside then join_runs true cs else b'_' ∷ join_runs true cs)
    else c ∷ join_runs false cs

abbrev pub or_first {ℓ} : {A : Type ℓ} → Option A → Option A → Option A
or_first none other = other
or_first (some a) other = some a

abbrev pub status_is : Option ℕ → ℕ → Bool
status_is none n = false
status_is (some m) n = m == n

abbrev pub is : List ℕ → String → Bool
is code word = same code (codes word)

-- The ladder of tests, over the normalised code and message.
unfoldable pub class_of : FailureInput → (code message : List ℕ) → FailureClass
class_of input code message =
    if was_cancelled || is code "cancelled" || is code "aborted"
    then cancelled
    else if contains code (codes "quota")
        || is code "insufficient_quota"
        || is code "quota_exhausted"
        || contains message (codes "quota_exhausted")
    then quota_exhausted
    else if is code "authentication_failed"
        || is code "authentication"
        || is code "unauthorized"
        || status_is status 401
        || status_is status 403
    then authentication_failed
    else if timed_out
        || is code "timeout"
        || is code "deadline_exceeded"
        || contains message (codes "timeout")
    then timeout
    else if is code "rate_limited"
        || is code "rate_limit"
        || is code "too_many_requests"
        || status_is status 429
    then rate_limited
    else if is code "model_unavailable" || is code "model_not_found"
    then model_unavailable
    else if is code "provider_unavailable"
        || is code "service_unavailable"
        || status_is status 502
        || status_is status 503
        || status_is status 504
    then provider_unavailable
    else if is code "invalid_request"
        || is code "bad_request"
        || status_is status 400
        || status_is status 422
    then invalid_request
    else if is code "protocol_error" || is code "malformed" || is code "decode_error"
    then protocol_error
    else if is code "result_capability" || is code "result_capability_failure"
    then result_capability
    else if is code "transport_error"
        || is code "transport"
        || is code "network_error"
        || status_is status 0
    then transport_error
    else unknown
  where
    open input use {was_cancelled, timed_out, status}

abbrev pub readable : Option Stamp → Option Stamp
readable none = none
readable (some at) = if is_iso_date at then some at else none

-- `toLocaleLowerCase` depends on the host's locale data.
module _ (to_lower : List ℕ → List ℕ) where
  unfoldable pub normalized : Option (List ℕ) → List ℕ
  unfolding join_runs
  normalized none = []
  normalized (some value) = join_runs false (to_lower (trim value))

  unfoldable pub classify_failure : FailureInput → FailureClassification
  unfolding class_of normalized bounded_retry_after_ms
  classify_failure input = record {
    failure_class =
        class_of input (normalized (or_first input.code input.category)) (normalized input.message);
    retry_after_ms = bounded_retry_after_ms input.retry_after_ms;
    retry_after_at = readable input.retry_after_at;
    status = input.status;
  }

unfoldable pub result_capability_failure : FailureClassification
result_capability_failure = record {
  failure_class = result_capability;
  retry_after_ms = none;
  retry_after_at = none;
  status = none;
}

unfoldable pub is_infrastructure_health_failure : FailureClass → Bool
is_infrastructure_health_failure cancelled = false
is_infrastructure_health_failure result_capability = false
is_infrastructure_health_failure _ = true

pub record FailureDecisionInput : Type 0 where
  pub classification : FailureClassification
  pub retry_count : ℕ
  pub max_same_route_retries : ℕ
  pub fallback_enabled : Bool

-- The classes that `decideFailureAction` retries, and those that it never sends elsewhere.
abbrev pub retryable : FailureClass → Bool
retryable rate_limited = true
retryable timeout = true
retryable transport_error = true
retryable _ = false

abbrev pub stays : FailureClass → Bool
stays cancelled = true
stays invalid_request = true
stays unknown = true
stays protocol_error = true
stays _ = false

unfoldable pub decide_failure_action : FailureDecisionInput → FailureAction
decide_failure_action input =
    if retryable input.classification.failure_class
      && ltb input.retry_count input.max_same_route_retries
    then retry_same_route
    else if input.fallback_enabled && not (stays input.classification.failure_class)
    then fallback_next_route
    else stop
