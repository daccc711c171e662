-- ===== src/Routing/Request.antt =====
-- src/core/routing/index.ts: the requests that the selection of a route answers, the candidates, what
-- is found of each and the two decisions.
use pi_multi_orchestrator.Prelude.{ℕ, Bool, Option, List, String, Number}
use pi_multi_orchestrator.Routing.Failure.{Stamp}
use pi_multi_orchestrator.Routing.Chain.{PoolId}

pub data DiversityMode : Type 0 where
  no_diversity prefer require : DiversityMode

pub data RouteAvailability : Type 0 where
  available missing stale unavailable unknown : RouteAvailability

pub data Circuit : Type 0 where
  unknown healthy degraded open_circuit probing : Circuit

pub data SchedulingPolicy : Type 0 where
  priority weighted : SchedulingPolicy

pub record RouteHealthView : Type 0 where
  pub circuit : Option Circuit
  pub cooldown_until : Option Stamp
  pub probe_in_flight : Bool

pub record RoutingCandidate : Type 0 where
  pub route_id : String
  pub pool_id : PoolId
  pub pool_position : ℕ
  pub pool_enabled : Bool
  pub global_enabled : Bool
  pub remote_model_id : String
  pub resource_id : Option String
  pub tags : List String
  pub availability : Option RouteAvailability
  pub available : Option Bool
  pub health : Option RouteHealthView
  pub weight : Option Number

pub record DiversityContext : Type 0 where
  pub avoid_route_ids : List String
  pub avoid_remote_model_ids : List String
  pub avoid_resource_ids : List String
  pub avoid_tags : List String
  pub mode : Option DiversityMode

-- The members of DiversityPreference and DiversityMode.
pub data DiversityPreference : Type 0 where
  no_preference prefer_diverse require_diverse : DiversityPreference

pub record RoutingRequest : Type 0 where
  pub pool_id : PoolId
  pub candidates : List RoutingCandidate
  pub diversity_preference : DiversityPreference
  pub now : ℕ
  pub attempted_route_ids : List String
  pub excluded_route_ids : List String
  pub diversity : Option DiversityContext
  pub scheduling_policy : Option SchedulingPolicy
  pub scheduling_key : Option String

pub data Reason : Type 0 where
  pool_entry_disabled globally_disabled missing_remotely catalog_stale : Reason
  route_unavailable availability_unknown health_not_ready weight_invalid weight_zero : Reason
  already_attempted explicitly_excluded probe_already_in_flight required_conflict : Reason
  cooldown_until : Stamp → Reason

pub record CandidateEvaluation : Type 0 where
  pub route_id : String
  pub pool_position : ℕ
  pub eligible : Bool
  pub reasons : List Reason
  pub diversity_conflict : Bool
  pub retry_at : Option Stamp

-- The text of `reason`, by what it says.
pub data SelectionReason : Type 0 where
  weighted_rotation : (weight : Number) (conflict : Bool) → SelectionReason
  highest_priority : (conflict : Bool) → SelectionReason

-- `diversityStatus` is "preferred-conflict" or "clear", by `conflict`.
pub record SelectedRoute : Type 0 where
  pub route_id : String
  pub pool_id : PoolId
  pub pool_position : ℕ
  pub reason : SelectionReason
  pub health : Option RouteHealthView
  pub conflict : Bool
  pub evaluations : List CandidateEvaluation
  pub scheduling_policy : SchedulingPolicy

pub record NoEligibleRoute : Type 0 where
  pub pool_id : PoolId
  pub reasons : List CandidateEvaluation
  pub earliest_retry_at : Option Stamp

pub data RoutingDecision : Type 0 where
  selected : SelectedRoute → RoutingDecision
  no_eligible_route : NoEligibleRoute → RoutingDecision
