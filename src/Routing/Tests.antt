-- ===== src/Routing/Tests.antt =====
-- Runs of the routing code, and its theorems at concrete inputs.
use mathlib.Core.List.{Memᴰ}
use pi_multi_orchestrator.Prelude.{
  includes, get, put, ◌-◌, ℕ, ◌+◌, ◌≤◌, ◌≡◌, refl, ◌↔◌, true, false, Option, none, some, List, [],
  ◌∷◌, String, nat, map, codes,
}
use pi_multi_orchestrator.Routing.Failure.{
  unreadable, FailureInput, FailureClassification, retry_same_route, fallback_next_route, Stamp,
  instant, classify_failure, decide_failure_action, timeout, rate_limited, cancelled,
}
use pi_multi_orchestrator.Routing.Chain.{
  investigation, implementation, RoutingPolicy, create_attempt_chain, record_attempt,
  next_after_failure,
}
use pi_multi_orchestrator.Routing.Chain.Bounds.{
  History, tried, record_all, IsConsistent, reachable-IsConsistent,
}
use pi_multi_orchestrator.Routing.Select.{Host, select_route, evaluated, select_weighted_route}
use pi_multi_orchestrator.Routing.Eligibility.{
  same_pool, evaluate_candidate, has_diversity_conflict,
}
use pi_multi_orchestrator.Routing.Request.{
  RoutingCandidate, RoutingRequest, SelectedRoute, NoEligibleRoute, RoutingDecision, selected,
  no_eligible_route, SchedulingPolicy, priority, weighted, prefer, no_preference, highest_priority,
  open_circuit,
}
use pi_multi_orchestrator.Routing.Select.Eligible.{evaluate_candidate-eligible_iff}
use pi_multi_orchestrator.Routing.Select.Weighted.{IsScored, select_weighted_route-IsLeast, IsLeast}
use pi_multi_orchestrator.Routing.Select.Outcome.{IsReadyFor}
use pi_multi_orchestrator.Routing.Select.Guarantees.{
  IsSelection, select_route-IsSelection, select_route-no_eligible_iff,
}
use pi_multi_orchestrator.Routing.Select.Order.{
  select_route-first, select_route-earliest, CoolsUntil,
}

abbrev timed_out : FailureClassification
timed_out = record {
  failure_class = timeout;
  retry_after_ms = none;
  retry_after_at = none;
  status = none;
}

abbrev three_attempts : RoutingPolicy
three_attempts = record { max_attempts = 3; fallback_enabled = true }

-- The first two failures of a route are retried; the third sends the run to the next route.
abbrev two_failures : History
two_failures = ("alpha", some timed_out) ∷ ("beta", none) ∷ ("alpha", some timed_out) ∷ []

chain_runs :
    (next_after_failure
        (record_attempt (create_attempt_chain investigation 0) "alpha" (some timed_out))
        timed_out
        three_attempts
      ≡ retry_same_route)
    × (next_after_failure
          (record_attempt
            (record_all (create_attempt_chain investigation 0) two_failures)
            "alpha"
            (some timed_out))
          timed_out
          three_attempts
        ≡ fallback_next_route)
unfolding next_after_failure record_attempt create_attempt_chain record_all decide_failure_action
    get put
chain_runs = (refl, refl)

reachable-IsConsistent_example :
    IsConsistent (record_all (create_attempt_chain investigation 0) two_failures)
    × ((id : String)
        → includes
            (record_all (create_attempt_chain investigation 0) two_failures).attempted_route_ids
            id
          ≡ tried id two_failures)
reachable-IsConsistent_example = reachable-IsConsistent investigation 0 two_failures

abbrev lower : List ℕ → List ℕ
lower text = text

abbrev aborted : FailureInput
aborted = record {
  status = some 429;
  code = some (codes "rate limit");
  category = none;
  timed_out = true;
  was_cancelled = true;
  retry_after_ms = some (nat 100000000);
  retry_after_at = none;
  message = none;
}

classify_runs :
    ((classify_failure lower aborted).failure_class ≡ cancelled)
    × ((classify_failure lower
          (record aborted { was_cancelled = false; timed_out = false })).failure_class
        ≡ rate_limited)
    × ((classify_failure lower aborted).retry_after_ms ≡ some 86400000)
unfolding classify_failure
classify_runs = (refl, refl, refl)

-- Texts of one format are in the order of their instants.
abbrev rank : Stamp → ℕ
rank (instant t) = t
rank unreadable = 0

-- A host whose collation keeps every order, and whose score is the length of the key.
abbrev host : Host
host = record {
  not_after = λ a b. true;
  to_iso = λ t. "now";
  score = λ key weight. 100 - weight;
  text_rank = rank;
}

abbrev route : String → ℕ → RoutingCandidate
route id at = record {
  route_id = id;
  pool_id = implementation;
  pool_position = at;
  pool_enabled = true;
  global_enabled = true;
  remote_model_id = id;
  resource_id = none;
  tags = [];
  availability = none;
  available = some true;
  health = none;
  weight = some (nat (at + 1));
}

abbrev cooling : String → ℕ → ℕ → RoutingCandidate
cooling id at until = record (route id at) {
  health = some (record {
    circuit = some open_circuit;
    cooldown_until = some (instant until);
    probe_in_flight = false;
  });
}

abbrev request : List RoutingCandidate → SchedulingPolicy → RoutingRequest
request candidates policy = record {
  pool_id = implementation;
  candidates = candidates;
  diversity_preference = no_preference;
  now = 1000;
  attempted_route_ids = "tried" ∷ [];
  excluded_route_ids = [];
  diversity = some (record {
    avoid_route_ids = "beta" ∷ [];
    avoid_remote_model_ids = [];
    avoid_resource_ids = [];
    avoid_tags = [];
    mode = some prefer;
  });
  scheduling_policy = some policy;
  scheduling_key = some "run";
}

abbrev four : List RoutingCandidate
four = route "gamma" 3 ∷ route "beta" 2 ∷ cooling "alpha" 1 5000 ∷ route "tried" 0 ∷ []

abbrev selected_id : RoutingDecision → Option String
selected_id (selected s) = some s.route_id
selected_id (no_eligible_route n) = none

select_runs :
    (selected_id (select_route host (request four priority)) ≡ some "gamma")
    × (selected_id (select_route host (request four weighted)) ≡ some "gamma")
unfolding select_route evaluated evaluate_candidate select_weighted_route has_diversity_conflict
select_runs = (refl, refl)

abbrev prioritised : RoutingRequest
prioritised = request four priority

-- The decision of a run, as the theorems take it.
abbrev selection_of : RoutingDecision → Option SelectedRoute
selection_of (selected s) = some s
selection_of (no_eligible_route n) = none

gamma_ready : IsReadyFor prioritised (route "gamma" 3)
unfolding evaluate_candidate has_diversity_conflict
gamma_ready =
    (evaluate_candidate-eligible_iff (route "gamma" 3) 1000 ("tried" ∷ []) [] prioritised.diversity
        prefer priority).0
      refl

beta_ready : IsReadyFor prioritised (route "beta" 2)
unfolding evaluate_candidate has_diversity_conflict
beta_ready =
    (evaluate_candidate-eligible_iff (route "beta" 2) 1000 ("tried" ∷ []) [] prioritised.diversity
        prefer priority).0
      refl

abbrev gamma_selected : SelectedRoute
gamma_selected = record {
  route_id = "gamma";
  pool_id = implementation;
  pool_position = 3;
  reason = highest_priority false;
  health = none;
  conflict = false;
  evaluations = map (λ p. p.1) (evaluated host prioritised);
  scheduling_policy = priority;
}

gamma_runs : select_route host prioritised ≡ selected gamma_selected
unfolding select_route evaluated evaluate_candidate has_diversity_conflict
gamma_runs = refl

select_route-IsSelection_example : IsSelection host prioritised gamma_selected
select_route-IsSelection_example =
    select_route-IsSelection host prioritised gamma_selected gamma_runs

select_route-first_example : 3 ≤ 3
select_route-first_example =
    select_route-first host prioritised gamma_selected (route "gamma" 3) refl gamma_runs
      (Memᴰ.head refl) refl gamma_ready (λ t c. unfold has_diversity_conflict in cc)

-- Only a route with a conflict is ready.
abbrev lonely : RoutingRequest
lonely = request (route "beta" 2 ∷ cooling "alpha" 1 5000 ∷ []) priority

abbrev beta_selected : SelectedRoute
beta_selected = record {
  route_id = "beta";
  pool_id = implementation;
  pool_position = 2;
  reason = highest_priority true;
  health = none;
  conflict = true;
  evaluations = map (λ p. p.1) (evaluated host lonely);
  scheduling_policy = priority;
}

beta_runs : select_route host lonely ≡ selected beta_selected
unfolding select_route evaluated evaluate_candidate has_diversity_conflict
beta_runs = refl

-- Every route of the pool is cooling down.
abbrev waiting : RoutingRequest
waiting = request (cooling "alpha" 1 5000 ∷ cooling "delta" 2 4000 ∷ []) priority

abbrev nothing_ready : NoEligibleRoute
nothing_ready = record {
  pool_id = implementation;
  reasons = map (λ p. p.1) (evaluated host waiting);
  earliest_retry_at = some (instant 4000);
}

waiting_runs : select_route host waiting ≡ no_eligible_route nothing_ready
unfolding select_route evaluated evaluate_candidate has_diversity_conflict
waiting_runs = refl

select_route-earliest_example :
    ((c : RoutingCandidate) × CoolsUntil host waiting (instant 4000) c)
    × ((c : RoutingCandidate) (u : Stamp)
        → CoolsUntil host waiting u c
        → rank (instant 4000) ≤ rank u)
select_route-earliest_example =
    select_route-earliest host waiting nothing_ready (instant 4000) waiting_runs refl

select_route-no_eligible_iff_example :
    ((n : NoEligibleRoute) × (select_route host waiting ≡ no_eligible_route n)) ↔ (
      (c : RoutingCandidate)
      → Memᴰ c waiting.candidates
      → same_pool c.pool_id waiting.pool_id ≡ true
      → ¬ IsReadyFor waiting c)
select_route-no_eligible_iff_example = select_route-no_eligible_iff host waiting

heavy_wins : select_weighted_route host four "run" ≡ some (route "gamma" 3)
unfolding select_weighted_route
heavy_wins = refl

select_weighted_route-IsLeast_example :
    (n : ℕ) × IsScored host "run" four (route "gamma" 3) n
    × IsLeast host four "run" (route "gamma" 3) n
select_weighted_route-IsLeast_example =
    select_weighted_route-IsLeast host four "run" (route "gamma" 3) heavy_wins
