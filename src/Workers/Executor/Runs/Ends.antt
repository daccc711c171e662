-- ===== src/Workers/Executor/Runs/Ends.antt =====
-- src/core/workers/executor.ts: every run of SubagentExecutor.execute ends.
use mathlib.Core.List.{Memᴰ}
use pi_multi_orchestrator.Prelude.{
  ℕ, zero, suc, ◌+◌, ◌-◌, ◌≤◌, ◌<◌, ◌≡◌, refl, sym, ◌∙◌, subst, inl, inr, some, List, [], ◌∷◌,
  String, ◌===◌, ===_refl, Bool-cases, arith,
}
use pi_multi_orchestrator.Routing.Failure.{FailureClassification}
use pi_multi_orchestrator.Routing.Chain.{
  AttemptChain, RoutingPolicy, record_attempt, create_attempt_chain,
}
use pi_multi_orchestrator.Routing.Chain.Bounds.{failures, failures-record_step}
use pi_multi_orchestrator.Routing.Request.{RoutingCandidate, RoutingRequest}
use pi_multi_orchestrator.Routing.Select.Guarantees.{select_route-IsSelection}
use pi_multi_orchestrator.Workers.Executor.{
  SubagentRunResult, HealthReport, World, ExecutionRequest, Progress, Step,
}
use pi_multi_orchestrator.Workers.Executor.Loop.{round, start, followed, execute}
use pi_multi_orchestrator.Workers.Executor.Follows.{GoesOn, GoesOn-retry, over, onward}
use pi_multi_orchestrator.Workers.Executor.Rounds.{
  Starts, anew, retried, Supplies, RoundOf, idle, tries, round-RoundOf,
}
use pi_multi_orchestrator.Workers.Executor.Runs.Limits.{
  AllowsAtMost, IsSound, failures-lt, GoesOn-IsSound, start-IsSound,
}

-- Every candidate that the adapter supplies is one of these routes.
abbrev pub SuppliesFrom : List String → World → Type 0
SuppliesFrom routes world =
    (n : ℕ) (attempted : List String) (r : RoutingRequest) (policy : RoutingPolicy)
    → world.routing_request n attempted ≡ some (r, policy)
    → (c : RoutingCandidate) → Memᴰ c r.candidates
    → Memᴰ c.route_id routes

-- As many rounds as the limit allows for each of the routes.
abbrev pub rounds : ℕ → List String → ℕ
rounds limit [] = 0
rounds limit (id ∷ routes) = limit + rounds limit routes

-- The failures of the routes that are left before the limit.
abbrev remaining : ℕ → List String → AttemptChain → ℕ
remaining limit [] chain = 0
remaining limit (id ∷ routes) chain = (limit - failures id chain) + remaining limit routes chain

remaining-le :
    (limit : ℕ) (routes : List String) (chain : AttemptChain)
    → remaining limit routes chain ≤ rounds limit routes
remaining-le limit [] chain = omega arith
remaining-le limit (id ∷ routes) chain = omega (arith, remaining-le limit routes chain)

module _ (limit : ℕ) (chain : AttemptChain) (id : String) (f : FailureClassification) where
  failures-grow :
      (other : String) → failures other chain ≤ failures other (record_attempt chain id (some f))
  failures-grow other = elim (Bool-cases (id === other)) [
    | inl here ↦ rw (failures-record_step chain other id f, here) (omega arith)
    | inr apart ↦ rw (failures-record_step chain other id f, apart) (omega arith)
  ]

  remaining-shrinks_le :
      (routes : List String)
      → remaining limit routes (record_attempt chain id (some f)) ≤ remaining limit routes chain
  remaining-shrinks_le [] = omega arith
  remaining-shrinks_le (other ∷ routes) =
      omega (arith, failures-grow other, remaining-shrinks_le routes)

  failures-next : failures id (record_attempt chain id (some f)) ≡ failures id chain + 1
  failures-next = rw (failures-record_step chain id id f, ===_refl id) refl

  remaining-shrinks :
      (routes : List String)
      → Memᴰ id routes
      → failures id chain < limit
      → remaining limit routes (record_attempt chain id (some f)) < remaining limit routes chain
  remaining-shrinks [] m below = elim m [ ]
  remaining-shrinks (other ∷ routes) (Memᴰ.head e) below =
      let next = failures-next in
      let step =
        subst
          (λ key.
            (failures key (record_attempt chain id (some f)) ≡ failures key chain + 1)
            × (failures key chain < limit))
          e (next, below) in
      omega (arith, step.0, step.1, remaining-shrinks_le routes)
  remaining-shrinks (other ∷ routes) (Memᴰ.tail m) below =
      omega (arith, failures-grow other, remaining-shrinks routes m below)

-- The current route is one of them.
abbrev IsKnown : List String → Progress → Type 0
IsKnown routes p = (id : String) → p.current_route_id ≡ some id → Memᴰ id routes

module _ (routes : List String) (world : World) (request : ExecutionRequest)
    (from : SuppliesFrom routes world) where
  Starts-IsKnown :
      (p : Progress) (r : RoutingRequest) (policy : RoutingPolicy) (id : String)
      → IsKnown routes p
      → Supplies world request p r policy
      → Starts world.host r p.current_route_id id
      → Memᴰ id routes
  Starts-IsKnown p r policy id known s (retried e) = known id e
  Starts-IsKnown p r policy id known s (anew selection e same) =
      let found = select_route-IsSelection world.host r selection e in
      subst (λ key. Memᴰ key routes) (sym found.route ∙ same)
        (from p.round p.chain.attempted_route_ids s.supplied policy s.there found.candidate (
          subst (λ (r : RoutingRequest). Memᴰ found.candidate r.candidates) (sym s.completed_as)
            found.listed))

  GoesOn-IsKnown :
      (p q : Progress) (policy : RoutingPolicy) (id : String)
      → Memᴰ id routes
      → GoesOn p id policy q
      → IsKnown routes q
  GoesOn-IsKnown p q policy id m g other e =
      subst (λ key. Memᴰ key routes) (GoesOn-retry g other e).0 m

abbrev Returns : World → ExecutionRequest → ℕ → Progress → Type 0
Returns world request fuel p =
    (outcome : SubagentRunResult × List HealthReport) × (execute world request fuel p
      ≡ some outcome)

module _ (limit : ℕ) (positive : 1 ≤ limit) (routes : List String) (world : World)
    (request : ExecutionRequest) (allows : AllowsAtMost limit world)
    (from : SuppliesFrom routes world) where
  execute-Returns :
      (fuel : ℕ) (p : Progress)
      → IsSound limit p
      → IsKnown routes p
      → remaining limit routes p.chain < fuel
      → Returns world request fuel p
  unfolding execute
  execute-Returns zero p sound known h = absurd (omega arith)
  execute-Returns (suc fuel) p sound known h =
      by (round world request p) (round-RoundOf world request p)
        (λ q sound' known' h'. execute-Returns fuel q sound' known' h')
    where
      by :
          (step : Step)
          → RoundOf world request p step
          → ((q : Progress)
              → IsSound limit q
              → IsKnown routes q
              → remaining limit routes q.chain < fuel
              → Returns world request fuel q)
          → (outcome : SubagentRunResult × List HealthReport) × (followed step
                (execute world request fuel)
              ≡ some outcome)
      by step (idle result calls e same) next = ((result, calls), rw e refl)
      by step (tries r policy id s starts (over a result calls e more on)) next =
          ((result, calls), rw e refl)
      by step (tries r policy id s starts (onward q e g)) next =
          let below =
            failures-lt limit positive world request allows p r policy id sound s starts in
          let m = Starts-IsKnown routes world request from p r policy id known s starts in
          let (outcome, made) =
            next q
              (GoesOn-IsSound limit positive world request allows p r policy id q sound s below g)
              (GoesOn-IsKnown routes world request from p q policy id m g)
              (rw g.chain
                (omega (arith, h, remaining-shrinks limit p.chain id g.failure routes m below))) in
          (outcome, rw e made)

-- If every policy that the adapter supplies allows at most `limit` attempts on a route, and every
-- candidate that it supplies is one of some routes, then the loop ends whatever else happens: more
-- rounds than `limit` for each of the routes are enough.
pub execute-returns :
    (limit : ℕ)
    → 1 ≤ limit
    → (routes : List String) (world : World) (request : ExecutionRequest) → AllowsAtMost limit world
    → SuppliesFrom routes world
    → (fuel : ℕ) → rounds limit routes < fuel
    → (outcome : SubagentRunResult × List HealthReport) × (execute world request fuel
          (start world request)
        ≡ some outcome)
execute-returns limit positive routes world request allows from fuel h =
    execute-Returns limit positive routes world request allows from fuel (start world request)
      (start-IsSound limit world request) (λ id e. absurd (cc))
      (omega (
        arith,
        h,
        remaining-le limit routes (create_attempt_chain request.pool_id (world.clock 0)),
      ))
