-- ===== src/Workers/Executor.antt =====
-- src/core/workers/executor.ts: the run of a worker over the routes of a pool (SubagentExecutor.execute),
-- up to its result. The adapter, the abort signal, the clock and the children are arguments, by the
-- round of the loop in which they are asked. Here: what a round chooses.
pub mod Loop
pub mod Follows
pub mod Rounds
pub mod Runs
mod Tests
use pi_multi_orchestrator.Prelude.{
  ℕ, zero, suc, ◌+◌, Bool, true, false, not, ◌&&◌, ◌||◌, Option, none, some, List, [], ◌∷◌, ◌++◌,
  String, if◌then◌else◌, leb, ◌===◌, find?, is_some,
}
use pi_multi_orchestrator.Routing.Failure.{
  Stamp, instant, unreadable, FailureClass, result_capability, FailureClassification, FailureAction,
  retry_same_route, fallback_next_route, stop, classify_failure, result_capability_failure,
  is_infrastructure_health_failure,
}
use pi_multi_orchestrator.Routing.Chain.{
  PoolId, RoutingPolicy, AttemptChain, create_attempt_chain, record_attempt, next_after_failure,
}
use pi_multi_orchestrator.Routing.Select.{Host, select_route, policy_of}
use pi_multi_orchestrator.Routing.Eligibility.{same_pool, is_future, cooldown_of, probe_of}
use pi_multi_orchestrator.Routing.Request.{
  RoutingCandidate, RoutingRequest, RoutingDecision, selected, no_eligible_route, DiversityContext,
  SchedulingPolicy, weighted, RouteAvailability, missing, stale, unavailable, Circuit, healthy,
  degraded, open_circuit, probing, RouteHealthView,
}
use pi_multi_orchestrator.Workers.Attempt.{
  Child, SingleAttempt, AttemptOutcome, completed, invalid_child_result, protocol_violation,
  cancelled, timed_out, infrastructure_failure, child_runtime_error, timeout_input, execute_attempt,
}

pub data TerminalStatus : Type 0 where
  run_completed run_cancelled run_timed_out no_route infrastructure_stopped : TerminalStatus
  partial_mutation_requires_review run_invalid_child_result run_child_runtime_error : TerminalStatus

-- `SubagentAttempt`, of which the texts, the times, the tool observations and the particulars of the
-- selection are left out.
pub record SubagentAttempt : Type 0 where
  pub route_id : String
  pub retry_index : ℕ
  pub outcome : AttemptOutcome
  pub infrastructure_failure_of : Option FailureClassification
  pub failure_action : Option FailureAction
  pub potential_mutation_observed : Bool

pub record SubagentRunResult : Type 0 where
  pub terminal_status : TerminalStatus
  pub final_route_id : Option String
  pub attempts : List SubagentAttempt
  pub protocol_result : Option String
  pub fallback_count : ℕ

-- What the adapter is told of a route's health; what it throws is caught.
pub data HealthReport : Type 0 where
  record_success_call : String → HealthReport
  record_failure_call : String → FailureClassification → HealthReport

pub record ResolvedRoute : Type 0 where
  pub route_id : String
  pub remote_model_id : String
  pub model_id : String
  pub model_provider : String

-- `routing_request` and `resolve_route` give none when they throw; `signalled` and `late_signal` say
-- whether the signal is aborted at the start of the round, and after a resolution that threw;
-- `success_recorded` whether recordSuccess returns.
pub record World : Type 0 where
  pub host : Host
  pub to_lower : List ℕ → List ℕ
  pub clock : ℕ → ℕ
  pub signalled : ℕ → Bool
  pub late_signal : ℕ → Bool
  pub routing_request : ℕ → (attempted : List String) → Option (RoutingRequest × RoutingPolicy)
  pub resolve_route : ℕ → String → Option ResolvedRoute
  pub success_recorded : ℕ → Bool
  pub child : ℕ → (route : String) → Child

pub record ExecutionRequest : Type 0 where
  pub run_id : String
  pub pool_id : PoolId
  pub excluded_route_ids : List String
  pub diversity : Option DiversityContext
  pub result_tool : String

-- The variables of the loop.
pub record Progress : Type 0 where
  pub round : ℕ
  pub chain : AttemptChain
  pub attempts : List SubagentAttempt
  pub current_route_id : Option String
  pub retry_index : ℕ
  pub fallback_count : ℕ
  pub health_calls : List HealthReport

pub data Step : Type 0 where
  finished : SubagentRunResult → List HealthReport → Step
  again : Progress → Step

abbrev pub or_diversity :
    Option DiversityContext → Option DiversityContext → Option DiversityContext
or_diversity none supplied = supplied
or_diversity (some d) supplied = some d

abbrev pub supplied_request : World → ExecutionRequest → Progress → RoutingRequest → RoutingRequest
supplied_request world request p supplied = record supplied {
  pool_id = request.pool_id;
  now = world.clock p.round;
  scheduling_key = some request.run_id;
  attempted_route_ids = p.chain.attempted_route_ids;
  excluded_route_ids = request.excluded_route_ids;
  diversity = or_diversity request.diversity supplied.diversity;
}

abbrev pub result_base :
    Progress → TerminalStatus → (route : Option String) → (result : Option String) → Step
result_base p status route result =
    finished
      (record {
        terminal_status = status;
        final_route_id = route;
        attempts = p.attempts;
        protocol_result = result;
        fallback_count = p.fallback_count;
      })
      p.health_calls

abbrev pub has_passed : Option Stamp → ℕ → Bool
has_passed (some (instant t)) now = leb t now
has_passed _ now = false

abbrev pub will_pass : Option Stamp → ℕ → Bool
will_pass none now = false
will_pass (some t) now = is_future t now

abbrev pub circuit_of : Option RouteHealthView → Option Circuit
circuit_of none = none
circuit_of (some h) = h.circuit

abbrev pub is_open : Option Circuit → Bool
is_open (some open_circuit) = true
is_open _ = false

abbrev pub is_probing : Option Circuit → Bool
is_probing (some probing) = true
is_probing _ = false

abbrev pub is_weighted : Option SchedulingPolicy → Bool
is_weighted (some weighted) = true
is_weighted _ = false

-- The tests of `availability`.
abbrev pub is_withdrawn : (weighted : Bool) → Option RouteAvailability → Bool
is_withdrawn w (some missing) = true
is_withdrawn w (some stale) = w
is_withdrawn w (some unavailable) = true
is_withdrawn w (some RouteAvailability.unknown) = true
is_withdrawn w _ = false

abbrev pub is_refused : Option Bool → Bool
is_refused (some false) = true
is_refused _ = false

abbrev pub cannot_retry : RoutingRequest → RoutingCandidate → Bool
cannot_retry r c =
    let w = is_weighted r.scheduling_policy in
    let half_open = is_open (circuit_of c.health) && has_passed (cooldown_of c.health) r.now in
    not (same_pool c.pool_id r.pool_id)
    || not c.global_enabled
    || not c.pool_enabled
    || is_refused c.available
    || is_withdrawn w c.availability
    || (w && (is_open (circuit_of c.health) || is_probing (circuit_of c.health)) && not half_open)
    || probe_of c.health
    || will_pass (cooldown_of c.health) r.now

-- Whether the route may be tried again; the decision of the source holds no more that is read.
unfoldable pub retry_selection : String → RoutingRequest → Bool
retry_selection id r = may (find? (λ c. c.route_id === id) r.candidates)
  where
    may : Option RoutingCandidate → Bool
    may none = false
    may (some c) = not (cannot_retry r c)

abbrev pub fallen_back : Progress → Progress
fallen_back p = record p {
  current_route_id = none;
  retry_index = 0;
  fallback_count = p.fallback_count + 1;
}

-- The route of the round, with the variables after the choice; or those with which the run ends.
pub data Choice : Type 0 where
  chosen_route : Progress → String → Choice
  no_choice : Progress → Choice

abbrev pub choice_of : Progress → RoutingDecision → Choice
choice_of p (selected s) = chosen_route p s.route_id
choice_of p (no_eligible_route n) = no_choice p

abbrev pub choose_route : Host → RoutingRequest → RoutingPolicy → Progress → Option String → Choice
choose_route host r policy p none = choice_of p (select_route host r)
choose_route host r policy p (some id) =
    if retry_selection id r
    then chosen_route p id
    else if policy.fallback_enabled
    then choice_of (fallen_back p) (select_route host r)
    else no_choice p

abbrev pub is_exact : String → Option RoutingCandidate → ResolvedRoute → Bool
is_exact id none route = false
is_exact id (some c) route =
    (route.route_id === id)
    && (c.remote_model_id === route.remote_model_id)
    && (route.model_id === route.remote_model_id)
    && (route.model_provider === "9router")

-- Whether the resolution returns.
abbrev pub resolve_exact_route : String → RoutingRequest → Option ResolvedRoute → Bool
resolve_exact_route id r none = false
resolve_exact_route id r (some route) =
    is_exact id (find? (λ c. c.route_id === id) r.candidates) route
