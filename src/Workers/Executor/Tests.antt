-- ===== src/Workers/Executor/Tests.antt =====
-- Runs of SubagentExecutor.execute, and its theorems at concrete inputs.
use mathlib.Core.List.{Memᴰ}
use pi_multi_orchestrator.Prelude.{
  ℕ, ◌≡◌, refl, ◌≤◌, subst, ap, true, false, none, some, List, [], ◌∷◌, String, ◌===◌,
  if◌then◌else◌, ok, arith, get, put,
}
use pi_multi_orchestrator.Routing.Failure.{
  FailureClassification, timeout, retry_same_route, fallback_next_route, classify_failure,
  decide_failure_action, is_infrastructure_health_failure,
}
use pi_multi_orchestrator.Routing.Chain.{
  investigation, RoutingPolicy, create_attempt_chain, record_attempt, next_after_failure,
}
use pi_multi_orchestrator.Routing.Select.{select_route}
use pi_multi_orchestrator.Routing.Eligibility.{evaluate_candidate, has_diversity_conflict}
use pi_multi_orchestrator.Routing.Request.{
  available, RoutingCandidate, RoutingRequest, no_preference,
}
use pi_multi_orchestrator.Workers.{is_potentially_mutating_tool}
use pi_multi_orchestrator.Workers.Attempt.{
  Child, PromptOutcome, prompt_done, prompt_timed_out, ended, completed, timed_out, execute_attempt,
}
use pi_multi_orchestrator.Workers.Executor.{
  World, ExecutionRequest, SubagentAttempt, SubagentRunResult, HealthReport, record_success_call,
  record_failure_call, run_completed, retry_selection,
}
use pi_multi_orchestrator.Workers.Executor.Loop.{execute, start, is_result_capability_eligible}
use pi_multi_orchestrator.Workers.Executor.Runs.{execute-no_replay}
use pi_multi_orchestrator.Workers.Executor.Runs.Limits.{
  AllowsAtMost, attempts_on, execute-attempts_le,
}
use pi_multi_orchestrator.Workers.Executor.Runs.Ends.{SuppliesFrom, execute-returns}

abbrev candidate : String → ℕ → RoutingCandidate
candidate id position = record {
  route_id = id;
  pool_id = investigation;
  pool_position = position;
  pool_enabled = true;
  global_enabled = true;
  remote_model_id = "model";
  resource_id = none;
  tags = [];
  availability = some available;
  available = none;
  health = none;
  weight = none;
}

abbrev supplied : RoutingRequest
supplied = record {
  pool_id = investigation;
  candidates = candidate "alpha" 0 ∷ candidate "beta" 1 ∷ [];
  diversity_preference = no_preference;
  now = 0;
  attempted_route_ids = [];
  excluded_route_ids = [];
  diversity = none;
  scheduling_policy = none;
  scheduling_key = none;
}

abbrev policy : RoutingPolicy
policy = record { max_attempts = 2; fallback_enabled = true }

-- A child that does what it is prompted to.
abbrev child_of : PromptOutcome → Child
child_of prompt = record {
  work = ok prompt;
  stop = ended;
  captured = record { result = some "report"; violated = false };
  tools = "read" ∷ [];
  violation = false;
  safety_terminated = false;
  signalled = false;
  finalization = ok prompt_done;
  finally_captured = record { result = none; violated = false };
  late_tools = [];
  late_violation = false;
  late_signal = false;
}

-- The children on alpha time out; the others report.
abbrev world : World
world = record {
  host = record {
    not_after = λ a b. true;
    to_iso = λ t. "now";
    score = λ key weight. 0;
    text_rank = λ time. 0;
  };
  to_lower = λ text. text;
  clock = λ n. n;
  signalled = λ n. false;
  late_signal = λ n. false;
  routing_request = λ n attempted. some (supplied, policy);
  resolve_route = λ n id. some (record {
    route_id = id;
    remote_model_id = "model";
    model_id = "model";
    model_provider = "9router";
  });
  success_recorded = λ n. true;
  child = λ n id. child_of (if id === "alpha" then prompt_timed_out else prompt_done);
}

abbrev request : ExecutionRequest
request = record {
  run_id = "run";
  pool_id = investigation;
  excluded_route_ids = [];
  diversity = none;
  result_tool = "submit_agent_result";
}

abbrev timed : FailureClassification
timed = record {
  failure_class = timeout;
  retry_after_ms = none;
  retry_after_at = none;
  status = none;
}

abbrev first_attempt : SubagentAttempt
first_attempt = record {
  route_id = "alpha";
  retry_index = 0;
  outcome = timed_out;
  infrastructure_failure_of = some timed;
  failure_action = some retry_same_route;
  potential_mutation_observed = false;
}

-- Alpha is tried twice, then beta once.
abbrev reported : SubagentRunResult
reported = record {
  terminal_status = run_completed;
  final_route_id = some "beta";
  attempts =
      first_attempt
      ∷ (record first_attempt { retry_index = 1; failure_action = some fallback_next_route })
      ∷ (record first_attempt {
        route_id = "beta";
        outcome = completed;
        infrastructure_failure_of = none;
        failure_action = none;
      })
      ∷ [];
  protocol_result = some "report";
  fallback_count = 1;
}

abbrev told : List HealthReport
told =
    record_failure_call "alpha" timed
    ∷ record_failure_call "alpha" timed
    ∷ record_success_call "beta"
    ∷ []

worker_runs : execute world request 5 (start world request) ≡ some (reported, told)
unfolding execute execute_attempt record_attempt next_after_failure create_attempt_chain
    classify_failure select_route decide_failure_action is_infrastructure_health_failure get put
    evaluate_candidate has_diversity_conflict is_potentially_mutating_tool retry_selection
    is_result_capability_eligible
worker_runs = refl

allows : AllowsAtMost 2 world
allows n attempted r supplied_policy e =
    let same : policy ≡ supplied_policy = cc in
    subst (λ (p : RoutingPolicy). p.max_attempts ≤ 2) same (omega arith)

from : SuppliesFrom ("alpha" ∷ "beta" ∷ []) world
from n attempted r supplied_policy e c m =
    let same : r ≡ supplied = cc in
    listed (subst (λ (r : RoutingRequest). Memᴰ c r.candidates) same m)
  where
    listed :
        Memᴰ c (candidate "alpha" 0 ∷ candidate "beta" 1 ∷ [])
        → Memᴰ c.route_id ("alpha" ∷ "beta" ∷ [])
    listed (Memᴰ.head e) = Memᴰ.head (ap RoutingCandidate.route_id e)
    listed (Memᴰ.tail (Memᴰ.head e)) = Memᴰ.tail (Memᴰ.head (ap RoutingCandidate.route_id e))
    listed (Memᴰ.tail (Memᴰ.tail m)) = elim m [ ]

execute-returns_example :
    (outcome : SubagentRunResult × List HealthReport) × (execute world request 5
        (start world request)
      ≡ some outcome)
execute-returns_example =
    execute-returns 2 (omega arith) ("alpha" ∷ "beta" ∷ []) world request allows from 5
      (omega arith)

execute-no_replay_example : first_attempt.potential_mutation_observed ≡ false
execute-no_replay_example =
    execute-no_replay world request 5 reported told worker_runs first_attempt (Memᴰ.head refl)

execute-attempts_le_example : attempts_on "alpha" reported.attempts ≤ 2
execute-attempts_le_example =
    execute-attempts_le 2 (omega arith) world request allows 5 reported told worker_runs "alpha"
