-- ===== src/Routing/Eligibility.antt =====
-- src/core/routing/index.ts: what speaks against a candidate, and its evaluation.
use pi_multi_orchestrator.Prelude.{
  ℕ, Bool, true, false, not, ◌&&◌, ◌||◌, Option, none, some, List, [], ◌∷◌, ◌++◌, if◌then◌else◌,
  ltb, ◌==◌, String, includes, or_else, any, Number, nat, is_safe_integer, is_negative, trunc,
}
use pi_multi_orchestrator.Routing.Failure.{Stamp, instant, unreadable}
use pi_multi_orchestrator.Routing.Chain.{PoolId, investigation, implementation, verification}
use pi_multi_orchestrator.Routing.Request.{
  CandidateEvaluation, Circuit, DiversityContext, DiversityMode, Reason, RouteAvailability,
  RouteHealthView, RoutingCandidate, SchedulingPolicy, already_attempted, availability_unknown,
  catalog_stale, cooldown_until, explicitly_excluded, globally_disabled, health_not_ready, missing,
  missing_remotely, open_circuit, pool_entry_disabled, priority, probe_already_in_flight, probing,
  require, required_conflict, route_unavailable, stale, unavailable, weight_invalid, weight_zero,
  weighted,
}

abbrev pub is_future : Stamp → ℕ → Bool
is_future (instant t) now = ltb now t
is_future unreadable now = false

abbrev pub same_pool : PoolId → PoolId → Bool
same_pool investigation investigation = true
same_pool implementation implementation = true
same_pool verification verification = true
same_pool _ _ = false

abbrev pub includes_some : List String → Option String → Bool
includes_some ids none = false
includes_some ids (some id) = includes ids id

unfoldable pub has_diversity_conflict : RoutingCandidate → Option DiversityContext → Bool
has_diversity_conflict candidate none = false
has_diversity_conflict candidate (some d) =
    includes d.avoid_route_ids candidate.route_id
    || includes d.avoid_remote_model_ids candidate.remote_model_id
    || includes_some d.avoid_resource_ids candidate.resource_id
    || any (λ tag. includes candidate.tags tag) d.avoid_tags

abbrev pub when : Bool → Reason → List Reason
when true reason = reason ∷ []
when false reason = []

-- The ladder over `availability` and `available`.
abbrev pub availability_reasons :
    Option RouteAvailability → Option Bool → SchedulingPolicy → List Reason
availability_reasons (some missing) ok policy = missing_remotely ∷ []
availability_reasons (some stale) ok weighted = catalog_stale ∷ []
availability_reasons (some unavailable) ok policy = route_unavailable ∷ []
availability_reasons availability (some false) policy = route_unavailable ∷ []
availability_reasons (some RouteAvailability.unknown) ok policy = availability_unknown ∷ []
availability_reasons _ _ _ = []

-- Under Weighted Rotation an open circuit counts as ready once its cooldown has passed.
abbrev pub health_not_ready? : Option Circuit → Option Stamp → ℕ → Bool
health_not_ready? (some open_circuit) (some until) now = is_future until now
health_not_ready? (some open_circuit) none now = true
health_not_ready? (some probing) cooldown now = true
health_not_ready? _ _ _ = false

abbrev pub weight_reasons : Number → List Reason
weight_reasons weight =
    if not (is_safe_integer weight) || is_negative weight
    then weight_invalid ∷ []
    else when (trunc weight == 0) weight_zero

abbrev pub health_blocks : Option RouteHealthView → ℕ → Bool
health_blocks none now = false
health_blocks (some h) now = health_not_ready? h.circuit h.cooldown_until now

abbrev pub weighted_reasons : SchedulingPolicy → RoutingCandidate → ℕ → List Reason
weighted_reasons priority candidate now = []
weighted_reasons weighted candidate now =
    when (health_blocks candidate.health now) health_not_ready
    ++ weight_reasons (or_else candidate.weight (nat 1))

abbrev pub cooldown_of : Option RouteHealthView → Option Stamp
cooldown_of none = none
cooldown_of (some h) = h.cooldown_until

abbrev pub probe_of : Option RouteHealthView → Bool
probe_of none = false
probe_of (some h) = h.probe_in_flight

-- The cooldown, if it lies in the future.
abbrev pub blocking_cooldown : Option Stamp → ℕ → Option Stamp
blocking_cooldown none now = none
blocking_cooldown (some until) now = if is_future until now then some until else none

abbrev pub cooldown_reasons : Option Stamp → List Reason
cooldown_reasons none = []
cooldown_reasons (some until) = cooldown_until until ∷ []

abbrev pub is_empty {ℓ} : {A : Type ℓ} → List A → Bool
is_empty [] = true
is_empty (x ∷ xs) = false

abbrev pub requires : DiversityMode → Bool
requires require = true
requires _ = false

-- Everything that counts against a candidate, in the order of the source.
unfoldable pub reasons_against :
    RoutingCandidate
    → ℕ
    → (attempted excluded : List String) → Option DiversityContext
    → DiversityMode
    → SchedulingPolicy
    → List Reason
reasons_against candidate now attempted excluded diversity mode policy =
    when (not pool_enabled) pool_entry_disabled
    ++ when (not global_enabled) globally_disabled
    ++ availability_reasons availability available policy
    ++ weighted_reasons policy candidate now
    ++ when (includes attempted route_id) already_attempted
    ++ when (includes excluded route_id) explicitly_excluded
    ++ cooldown_reasons (blocking_cooldown (cooldown_of health) now)
    ++ when (probe_of health) probe_already_in_flight
    ++ when (has_diversity_conflict candidate diversity && requires mode) required_conflict
  where
    open candidate use {pool_enabled, global_enabled, availability, available, route_id, health}

unfoldable pub evaluate_candidate :
    RoutingCandidate
    → ℕ
    → (attempted excluded : List String) → Option DiversityContext
    → DiversityMode
    → SchedulingPolicy
    → CandidateEvaluation
unfolding reasons_against
evaluate_candidate candidate now attempted excluded diversity mode policy =
    let reasons = reasons_against candidate now attempted excluded diversity mode policy in
    record {
      route_id = candidate.route_id;
      pool_position = candidate.pool_position;
      eligible = is_empty reasons;
      reasons = reasons;
      diversity_conflict = has_diversity_conflict candidate diversity;
      retry_at = blocking_cooldown (cooldown_of candidate.health) now;
    }
