-- ===== src/Workers/Executor/Loop.antt =====
-- src/core/workers/executor.ts: the rounds of SubagentExecutor.execute.
use pi_multi_orchestrator.Prelude.{
  ℕ, zero, suc, ◌+◌, Bool, true, false, not, ◌&&◌, ◌||◌, Option, none, some, List, [], ◌∷◌, ◌++◌,
  String, if◌then◌else◌, is_some,
}
use pi_multi_orchestrator.Routing.Failure.{
  FailureClass, result_capability, FailureClassification, FailureAction, retry_same_route,
  fallback_next_route, stop, classify_failure, result_capability_failure,
  is_infrastructure_health_failure,
}
use pi_multi_orchestrator.Routing.Chain.{
  RoutingPolicy, create_attempt_chain, record_attempt, next_after_failure,
}
use pi_multi_orchestrator.Routing.Request.{RoutingRequest}
use pi_multi_orchestrator.Workers.Attempt.{
  SingleAttempt, AttemptOutcome, completed, invalid_child_result, protocol_violation, cancelled,
  timed_out, infrastructure_failure, child_runtime_error, timeout_input, is_timed_out,
  execute_attempt,
}
use pi_multi_orchestrator.Workers.Executor.{
  TerminalStatus, run_completed, run_cancelled, run_timed_out, no_route, infrastructure_stopped,
  partial_mutation_requires_review, run_invalid_child_result, run_child_runtime_error,
  SubagentAttempt, SubagentRunResult, HealthReport, record_success_call, record_failure_call, World,
  ExecutionRequest, Progress, Step, finished, again, supplied_request, result_base, Choice,
  chosen_route, no_choice, choose_route, resolve_exact_route,
}

abbrev pub is_protocol_failure : AttemptOutcome → Bool
is_protocol_failure invalid_child_result = true
is_protocol_failure protocol_violation = true
is_protocol_failure _ = false

unfoldable pub is_result_capability_eligible : SingleAttempt → Bool
is_result_capability_eligible single =
    is_protocol_failure single.outcome
    && not single.potential_mutation
    && single.finalized
    && not (is_some single.result)

-- `single.failure`, as it is recorded.
abbrev pub recorded_failure : SingleAttempt → Option FailureClassification
recorded_failure single =
    if is_result_capability_eligible single then some result_capability_failure else single.failure

abbrev pub timeout_of : World → FailureClassification
timeout_of world = classify_failure world.to_lower timeout_input

-- `single.failure`, when it is decided what follows.
abbrev pub decided_failure : World → SingleAttempt → Option FailureClassification
decided_failure world single =
    if is_timed_out single.outcome then some (timeout_of world) else recorded_failure single

-- The status with which the run ends before that, by the outcome, in the order of the source's tests.
abbrev pub unless_mutated : SingleAttempt → Option TerminalStatus → Option TerminalStatus
unless_mutated single status =
    if single.potential_mutation then some partial_mutation_requires_review else status

abbrev pub ended_with : SingleAttempt → AttemptOutcome → Option TerminalStatus
ended_with single cancelled = unless_mutated single (some run_cancelled)
ended_with single timed_out = unless_mutated single none
ended_with single completed =
    if is_some single.result && not single.protocol_violation
    then some run_completed
    else unless_mutated single none
ended_with single infrastructure_failure = unless_mutated single none
ended_with single child_runtime_error = unless_mutated single (some run_child_runtime_error)
ended_with single _ =
    unless_mutated single
      (if is_result_capability_eligible single then none else some run_invalid_child_result)

abbrev pub attempt_of :
    World → Progress → String → SingleAttempt → Option FailureAction → SubagentAttempt
attempt_of world p id single action = record {
  route_id = id;
  retry_index = p.retry_index;
  outcome = single.outcome;
  infrastructure_failure_of =
      if is_timed_out single.outcome && not single.potential_mutation
      then some (timeout_of world)
      else single.failure;
  failure_action = action;
  potential_mutation_observed = single.potential_mutation;
}

abbrev pub attempted :
    World → Progress → String → SingleAttempt → Option FailureAction → List SubagentAttempt
attempted world p id single action = p.attempts ++ attempt_of world p id single action ∷ []

abbrev pub failure_calls : String → Option FailureClassification → List HealthReport
failure_calls id none = []
failure_calls id (some f) =
    if is_infrastructure_health_failure f.failure_class then record_failure_call id f ∷ [] else []

-- After a recordSuccess that throws, recordFailure is not called.
abbrev pub health_calls_of : World → Progress → String → SingleAttempt → List HealthReport
health_calls_of world p id single =
    if single.provider_succeeded
    then record_success_call id
      ∷ (if world.success_recorded p.round then failure_calls id (recorded_failure single) else [])
    else failure_calls id (recorded_failure single)

abbrev pub is_capability : FailureClass → Bool
is_capability result_capability = true
is_capability _ = false

abbrev pub stop_status : AttemptOutcome → FailureClassification → TerminalStatus
stop_status outcome f =
    if is_capability f.failure_class || is_protocol_failure outcome
    then run_invalid_child_result
    else if is_timed_out outcome
    then run_timed_out
    else infrastructure_stopped

abbrev pub follow_action :
    World → Progress → String → SingleAttempt → FailureClassification → FailureAction → Step
follow_action world p id single f stop =
    result_base (record p { attempts = attempted world p id single (some stop) })
      (stop_status single.outcome f) (some id) none
follow_action world p id single f retry_same_route = again (record p {
  round = p.round + 1;
  attempts = attempted world p id single (some retry_same_route);
  current_route_id = some id;
  retry_index = p.retry_index + 1;
})
follow_action world p id single f fallback_next_route = again (record p {
  round = p.round + 1;
  attempts = attempted world p id single (some fallback_next_route);
  current_route_id = none;
  retry_index = 0;
  fallback_count = p.fallback_count + 1;
})

abbrev pub reported_result : TerminalStatus → Option String → Option String
reported_result run_completed result = result
reported_result _ result = none

abbrev pub settle :
    World
    → RoutingPolicy
    → Progress
    → String
    → SingleAttempt
    → Option TerminalStatus
    → Option FailureClassification
    → Step
settle world policy p id single (some status) failure =
    result_base (record p { attempts = attempted world p id single none }) status (some id)
      (reported_result status single.result)
settle world policy p id single none none =
    result_base (record p { attempts = attempted world p id single none }) infrastructure_stopped
      (some id) none
settle world policy p id single none (some f) =
    follow_action world p id single f (next_after_failure p.chain f policy)

-- What follows an attempt.
unfoldable pub after_attempt : World → RoutingPolicy → Progress → String → SingleAttempt → Step
unfolding record_attempt next_after_failure
after_attempt world policy p id single =
    settle world policy
      (record p {
        chain = record_attempt p.chain id (recorded_failure single);
        health_calls = p.health_calls ++ health_calls_of world p id single;
      })
      id single (ended_with single single.outcome) (decided_failure world single)

abbrev pub unresolved_attempt : Progress → String → SubagentAttempt
unresolved_attempt p id = record {
  route_id = id;
  retry_index = p.retry_index;
  outcome = child_runtime_error;
  infrastructure_failure_of = none;
  failure_action = none;
  potential_mutation_observed = false;
}

-- After a resolution that threw.
abbrev pub unresolved : World → Progress → String → Step
unresolved world p id =
    if world.late_signal p.round
    then result_base p run_cancelled none none
    else result_base (record p { attempts = p.attempts ++ unresolved_attempt p id ∷ [] })
        run_child_runtime_error none none

abbrev pub with_choice : World → ExecutionRequest → RoutingRequest → RoutingPolicy → Choice → Step
with_choice world request r policy (no_choice p) = result_base p no_route none none
with_choice world request r policy (chosen_route p id) =
    if resolve_exact_route id r (world.resolve_route p.round id)
    then after_attempt world policy p id
        (execute_attempt world.to_lower (world.child p.round id) request.result_tool)
    else unresolved world p id

abbrev pub prepared :
    World → ExecutionRequest → Progress → Option (RoutingRequest × RoutingPolicy) → Step
prepared world request p none = result_base p run_child_runtime_error none none
prepared world request p (some (supplied, policy)) =
    let r = supplied_request world request p supplied in
    with_choice world request r policy (choose_route world.host r policy p p.current_route_id)

-- A round of the loop.
unfoldable pub round : World → ExecutionRequest → Progress → Step
unfolding after_attempt execute_attempt
round world request p =
    if world.signalled p.round
    then result_base p run_cancelled none none
    else prepared world request p (world.routing_request p.round p.chain.attempted_route_ids)

abbrev pub start : World → ExecutionRequest → Progress
start world request = record {
  round = 0;
  chain = create_attempt_chain request.pool_id (world.clock 0);
  attempts = [];
  current_route_id = none;
  retry_index = 0;
  fallback_count = 0;
  health_calls = [];
}

abbrev pub followed :
    Step
    → (Progress → Option (SubagentRunResult × List HealthReport))
    → Option (SubagentRunResult × List HealthReport)
followed (finished result calls) next = some (result, calls)
followed (again p) next = next p

-- The loop, with fuel; it starts from `start`.
unfoldable pub execute :
    World
    → ExecutionRequest
    → (fuel : ℕ) → Progress
    → Option (SubagentRunResult × List HealthReport)
unfolding round
execute world request zero p = none
execute world request (suc fuel) p = followed (round world request p) (execute world request fuel)
