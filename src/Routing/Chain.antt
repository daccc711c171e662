-- ===== src/Routing/Chain.antt =====
-- src/core/routing/index.ts: the chain of attempts of one run, and what follows a failure.
pub mod Bounds
use pi_multi_orchestrator.Prelude.{
  ℕ, ◌+◌, ◌-◌, Bool, true, false, Option, none, some, List, [], ◌∷◌, ◌++◌, if◌then◌else◌, String,
  includes, get, put, Dict, or_else,
}
use pi_multi_orchestrator.Routing.Failure.{
  FailureClassification, FailureAction, FailureDecisionInput, decide_failure_action,
}

pub data PoolId : Type 0 where
  investigation implementation verification : PoolId

pub record AttemptChain : Type 0 where
  pub pool_id : PoolId
  pub started_at : ℕ
  pub attempted_route_ids : List String
  pub retry_counts : Dict ℕ
  pub current_route_id : Option String
  pub last_failure : Option FailureClassification

-- The fields of `RoutingPolicy` that the routing code reads; the numbers are validated to be
-- non-negative integers where the configuration is loaded.
pub record RoutingPolicy : Type 0 where
  pub max_attempts : ℕ
  pub fallback_enabled : Bool  -- `fallback.enabled`

unfoldable pub create_attempt_chain : PoolId → ℕ → AttemptChain
create_attempt_chain pool started = record {
  pool_id = pool;
  started_at = started;
  attempted_route_ids = [];
  retry_counts = [];
  current_route_id = none;
  last_failure = none;
}

-- `retryCounts[routeId] ?? fallback`.
abbrev pub count_or : ℕ → String → Dict ℕ → ℕ
count_or fallback id counts = or_else (get counts id) fallback

abbrev pub counted : Option FailureClassification → String → Dict ℕ → Dict ℕ
counted none id counts = counts
counted (some failure) id counts = put counts id (count_or 0 id counts + 1)

abbrev pub latest {ℓ} : {A : Type ℓ} → Option A → Option A → Option A
latest none old = old
latest (some new) old = some new

unfoldable pub record_attempt : AttemptChain → String → Option FailureClassification → AttemptChain
record_attempt chain id failure = record chain {
  attempted_route_ids =
      if includes attempted_route_ids id
      then attempted_route_ids
      else attempted_route_ids ++ id ∷ [];
  retry_counts = counted failure id retry_counts;
  current_route_id = some id;
  last_failure = latest failure last_failure;
}
  where
    open chain use {attempted_route_ids, retry_counts, last_failure}

abbrev pub prior_retries : Option String → Dict ℕ → ℕ
prior_retries none counts = 0
prior_retries (some id) counts = count_or 1 id counts - 1

unfoldable pub next_after_failure :
    AttemptChain → FailureClassification → RoutingPolicy → FailureAction
next_after_failure chain classification policy = decide_failure_action (record {
  classification = classification;
  retry_count = prior_retries chain.current_route_id chain.retry_counts;
  max_same_route_retries = policy.max_attempts - 1;
  fallback_enabled = policy.fallback_enabled;
})
