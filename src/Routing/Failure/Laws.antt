-- ===== src/Routing/Failure/Laws.antt =====
-- What the classification of a failure and the choice of an action guarantee.
use pi_multi_orchestrator.Prelude.{ℕ, ◌≤◌, ◌<◌, ◌≡◌, refl, Bool, true, some, List, ◌∙◌, arith}
use pi_multi_orchestrator.Routing.Failure.{
  FailureInput, FailureDecisionInput, cancelled, retry_same_route, stop, max_retry_after_ms,
  classify_failure, class_of, bounded_retry_after_ms, decide_failure_action, normalized, or_first,
}

class_of-was_cancelled :
    (input : FailureInput) (code message : List ℕ)
    → input.was_cancelled ≡ true
    → class_of input code message ≡ cancelled
unfolding class_of
class_of-was_cancelled input code message h = rw h refl

module _ (to_lower : List ℕ → List ℕ) where
  classify-class :
      (input : FailureInput)
      → (classify_failure to_lower input).failure_class
        ≡ class_of input
            (normalized to_lower (or_first input.code input.category))
            (normalized to_lower input.message)
  unfolding classify_failure
  classify-class input = refl

  pub classify_failure-was_cancelled :
      (input : FailureInput)
      → input.was_cancelled ≡ true
      → (classify_failure to_lower input).failure_class ≡ cancelled
  classify_failure-was_cancelled input h = classify-class input ∙ class_of-was_cancelled input _ _ h

  -- A cancelled request is classified as cancelled whatever else the failure says, and no retry
  -- count and no policy sends it anywhere again.
  pub decide_failure_action-cancelled :
      (input : FailureInput) (retry_count max_same_route_retries : ℕ) (fallback_enabled : Bool)
      → input.was_cancelled ≡ true
      → decide_failure_action (record {
        classification = classify_failure to_lower input;
        retry_count = retry_count;
        max_same_route_retries = max_same_route_retries;
        fallback_enabled = fallback_enabled;
      })
        ≡ stop
  unfolding decide_failure_action
  decide_failure_action-cancelled input n m b h =
      ground (arith, classify_failure-was_cancelled input)

pub decide-eq-retry :
    (i : FailureDecisionInput)
    → decide_failure_action i ≡ retry_same_route
    → i.retry_count < i.max_same_route_retries
unfolding decide_failure_action
decide-eq-retry i h = ground arith

-- The classified delay before a retry is at most one day.
pub classify_failure-retry_after_le :
    (to_lower : List ℕ → List ℕ) (input : FailureInput) (ms : ℕ)
    → (classify_failure to_lower input).retry_after_ms ≡ some ms
    → ms ≤ max_retry_after_ms
unfolding classify_failure bounded_retry_after_ms
classify_failure-retry_after_le to_lower input ms h = ground arith
