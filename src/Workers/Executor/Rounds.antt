-- ===== src/Workers/Executor/Rounds.antt =====
-- src/core/workers/executor.ts: what a round of the loop does.
use pi_multi_orchestrator.Prelude.{
  ◌≡◌, refl, ap, inl, inr, Option, none, some, List, [], ◌∷◌, ◌++◌, String, Bool-cases,
}
use pi_multi_orchestrator.Routing.Chain.{RoutingPolicy}
use pi_multi_orchestrator.Routing.Select.{Host, select_route}
use pi_multi_orchestrator.Routing.Request.{
  RoutingRequest, RoutingDecision, SelectedRoute, selected, no_eligible_route,
}
use pi_multi_orchestrator.Workers.Attempt.Timeout.{execute_attempt-IsTimed}
use pi_multi_orchestrator.Workers.Executor.{
  SubagentRunResult, HealthReport, World, ExecutionRequest, Progress, Step, finished,
  supplied_request, Choice, chosen_route, no_choice, choice_of, choose_route, retry_selection,
  fallen_back, resolve_exact_route,
}
use pi_multi_orchestrator.Workers.Executor.Loop.{unresolved_attempt, with_choice, prepared, round}
use pi_multi_orchestrator.Workers.Executor.Follows.{Follows, over, after_attempt-Follows}

-- The route is selected anew, or it is the current one.
pub data Starts (host : Host) (r : RoutingRequest) (current : Option String) (id : String)
    : Type 0 where
  anew :
      (s : SelectedRoute)
      → select_route host r ≡ selected s
      → s.route_id ≡ id
      → Starts host r current id
  retried : current ≡ some id → Starts host r current id

data Chosen (host : Host) (r : RoutingRequest) (p : Progress) (current : Option String)
    (choice : Choice) : Type 0 where
  none_left :
      (q : Progress)
      → choice ≡ no_choice q
      → q.attempts ≡ p.attempts
      → Chosen host r p current choice
  one :
      (q : Progress) (id : String)
      → choice ≡ chosen_route q id
      → q.attempts ≡ p.attempts
      → q.chain ≡ p.chain
      → Starts host r current id
      → Chosen host r p current choice

choice_of-Chosen :
    (host : Host) (r : RoutingRequest) (p q : Progress) (current : Option String)
    (decision : RoutingDecision)
    → select_route host r ≡ decision
    → q.attempts ≡ p.attempts
    → q.chain ≡ p.chain
    → Chosen host r p current (choice_of q decision)
choice_of-Chosen host r p q current (selected s) e same chain =
    one q s.route_id refl same chain (anew s e refl)
choice_of-Chosen host r p q current (no_eligible_route n) e same chain = none_left q refl same

choose_route-Chosen :
    (host : Host) (r : RoutingRequest) (policy : RoutingPolicy) (p : Progress)
    (current : Option String)
    → Chosen host r p current (choose_route host r policy p current)
choose_route-Chosen host r policy p none =
    choice_of-Chosen host r p p none (select_route host r) refl refl refl
choose_route-Chosen host r policy p (some id) = elim (Bool-cases (retry_selection id r)) [
  | inl t ↦ one p id (rw t refl) refl refl (retried refl)
  | inr f ↦ elim (Bool-cases policy.fallback_enabled) [
    | inl on ↦
        rw (f, on)
          (choice_of-Chosen host r p (fallen_back p) (some id) (select_route host r) refl refl refl)
    | inr off ↦ rw (f, off) (none_left p refl refl)
  ]
]

-- What the adapter supplies for the round, and the request that the router gets.
pub record Supplies (world : World) (request : ExecutionRequest) (p : Progress) (r : RoutingRequest)
    (policy : RoutingPolicy) : Type 0 where
  pub supplied : RoutingRequest
  pub there : world.routing_request p.round p.chain.attempted_route_ids ≡ some (supplied, policy)
  pub completed_as : supplied_request world request p supplied ≡ r

-- A round ends the run without an attempt, or it makes one on a route that it has chosen.
pub data RoundOf (world : World) (request : ExecutionRequest) (p : Progress) (step : Step)
    : Type 0 where
  idle :
      (result : SubagentRunResult) (calls : List HealthReport)
      → step ≡ finished result calls
      → result.attempts ≡ p.attempts
      → RoundOf world request p step
  tries :
      (r : RoutingRequest) (policy : RoutingPolicy) (id : String)
      → Supplies world request p r policy
      → Starts world.host r p.current_route_id id
      → Follows p id policy step
      → RoundOf world request p step

with_choice-RoundOf :
    (world : World) (request : ExecutionRequest) (p : Progress) (r : RoutingRequest)
    (policy : RoutingPolicy) (choice : Choice)
    → Supplies world request p r policy
    → Chosen world.host r p p.current_route_id choice
    → RoundOf world request p (with_choice world request r policy choice)
with_choice-RoundOf world request p r policy choice supplies (none_left q e same) =
    rw e (idle _ _ refl same)
with_choice-RoundOf world request p r policy choice supplies (one q id e same chain starts) =
    rw e (elim (Bool-cases (resolve_exact_route id r (world.resolve_route q.round id))) [
      | inl t ↦ rw t (
          tries r policy id supplies starts (
            after_attempt-Follows world policy p id _ q same chain (
              execute_attempt-IsTimed world.to_lower (world.child q.round id) request.result_tool)))
      | inr f ↦ rw f (elim (Bool-cases (world.late_signal q.round)) [
        | inl late ↦ rw late (idle _ _ refl same)
        | inr here ↦ rw here (
            tries r policy id supplies starts (
              over (unresolved_attempt q id) _ _ refl
                (ap (λ xs. xs ++ unresolved_attempt q id ∷ []) same) refl))
      ])
    ])

prepared-RoundOf :
    (world : World) (request : ExecutionRequest) (p : Progress)
    (found : Option (RoutingRequest × RoutingPolicy))
    → world.routing_request p.round p.chain.attempted_route_ids ≡ found
    → RoundOf world request p (prepared world request p found)
prepared-RoundOf world request p none e = idle _ _ refl refl
prepared-RoundOf world request p (some (supplied, policy)) e =
    with_choice-RoundOf world request p _ policy _
      (record { supplied = supplied; there = e; completed_as = refl })
      (choose_route-Chosen world.host (supplied_request world request p supplied) policy p
        p.current_route_id)

pub round-RoundOf :
    (world : World) (request : ExecutionRequest) (p : Progress)
    → RoundOf world request p (round world request p)
unfolding round
round-RoundOf world request p = elim (Bool-cases (world.signalled p.round)) [
  | inl t ↦ rw t (idle _ _ refl refl)
  | inr f ↦ rw f (
      prepared-RoundOf world request p (world.routing_request p.round p.chain.attempted_route_ids)
        refl)
]
