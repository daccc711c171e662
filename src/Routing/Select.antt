-- ===== src/Routing/Select.antt =====
-- src/core/routing/index.ts: the selection among a pool's routes.
pub mod Eligible
pub mod Weighted
pub mod Outcome
pub mod Guarantees
pub mod Order
use mathlib.Core.Option
use Prim.Native.String
use pi_multi_orchestrator.Prelude.{
  ℕ, zero, suc, ◌+◌, ◌≤◌, ◌<◌, ◌≡◌, Bool, true, false, not, ◌&&◌, ◌||◌, Option, none, some, List,
  [], ◌∷◌, ◌++◌, map, if◌then◌else◌, ltb, leb, ◌==◌, ◌===◌, String, includes, or_else, is_some, any,
  filter, find?, first, sort, Number, nat, is_safe_integer, is_negative, trunc,
}
use pi_multi_orchestrator.Routing.Failure.{FailureClass, Stamp, instant, unreadable}
use pi_multi_orchestrator.Routing.Chain.{PoolId, investigation, implementation, verification}
use pi_multi_orchestrator.Routing.Request.{
  CandidateEvaluation, Circuit, DiversityContext, DiversityMode, DiversityPreference, Reason,
  RouteAvailability, RouteHealthView, RoutingCandidate, RoutingDecision, RoutingRequest,
  SchedulingPolicy, SelectionReason, already_attempted, availability_unknown, catalog_stale,
  cooldown_until, explicitly_excluded, globally_disabled, health_not_ready, highest_priority,
  missing, missing_remotely, no_diversity, no_eligible_route, no_preference, open_circuit,
  pool_entry_disabled, prefer, prefer_diverse, priority, probe_already_in_flight, probing, require,
  require_diverse, required_conflict, route_unavailable, selected, stale, unavailable, unknown,
  weight_invalid, weight_zero, weighted, weighted_rotation,
}
use pi_multi_orchestrator.Routing.Eligibility.{evaluate_candidate, same_pool}

abbrev pub map_diversity : DiversityPreference → DiversityMode
map_diversity no_preference = no_diversity
map_diversity prefer_diverse = prefer
map_diversity require_diverse = require

abbrev pub pool_name : PoolId → String
pool_name investigation = "investigation"
pool_name implementation = "implementation"
pool_name verification = "verification"

abbrev pub Evaluated : Type 0
Evaluated = RoutingCandidate × CandidateEvaluation

-- The best candidate so far, with its score.
abbrev pub Best : Type 0
Best = Option (RoutingCandidate × ℕ)

-- What the host provides: the collation of `localeCompare`, the text of an instant, and the
-- rendezvous score, -log(u) / weight for a u in (0, 1] taken from the SHA-256 of the key. Scores
-- are not negative, and are compared only, so that natural numbers in their order stand for them.
-- The rank of a time is the place of its text in the order of texts.
pub record Host : Type 0 where
  pub not_after : String → String → Bool
  pub to_iso : ℕ → String
  pub score : String → ℕ → ℕ
  pub text_rank : Stamp → ℕ

infixr 65 ◌++ˢ◌
abbrev ◌++ˢ◌ : String → String → String
◌++ˢ◌ s t = String.◌++◌ s t

module _ (host : Host) where
  open host use {not_after, to_iso, score}

  abbrev pub by_position : RoutingCandidate → RoutingCandidate → Bool
  by_position left right =
      if left.pool_position == right.pool_position
      then not_after left.route_id right.route_id
      else ltb left.pool_position right.pool_position

  -- One round of the loop of `selectWeightedRoute`; the earlier of equal scores stays.
  abbrev pub better : Best → RoutingCandidate → ℕ → Best
  better none candidate score' = some (candidate, score')
  better (some (best, least)) candidate score' =
      if ltb score' least then some (candidate, score') else some (best, least)

  abbrev pub positive_weight : Option Number → Option ℕ
  positive_weight weight =
      let w = or_else weight (nat 1) in
      if not (is_safe_integer w) || is_negative w || trunc w == 0 then none else some (trunc w)

  abbrev pub consider : Best → RoutingCandidate → String → Option ℕ → Best
  consider best candidate key none = best
  consider best candidate key (some weight) =
      better best candidate (score (key ++ˢ ":" ++ˢ candidate.route_id) weight)

  pub weighted_from : Best → List RoutingCandidate → String → Best
  weighted_from best [] key = best
  weighted_from best (candidate ∷ rest) key =
      weighted_from (consider best candidate key (positive_weight candidate.weight)) rest key

  unfoldable pub select_weighted_route : List RoutingCandidate → String → Option RoutingCandidate
  unfolding weighted_from
  select_weighted_route candidates key =
      Option.map (λ best. best.0) (weighted_from none candidates key)

abbrev pub prefers : DiversityMode → Bool
prefers prefer = true
prefers _ = false

abbrev pub mode_in : Option DiversityContext → Option DiversityMode
mode_in none = none
mode_in (some d) = d.mode

abbrev pub mode_of : RoutingRequest → DiversityMode
mode_of r = or_else (mode_in r.diversity) (map_diversity r.diversity_preference)

abbrev pub policy_of : RoutingRequest → SchedulingPolicy
policy_of r = or_else r.scheduling_policy priority

abbrev pub evaluate : RoutingRequest → RoutingCandidate → CandidateEvaluation
evaluate r candidate =
    evaluate_candidate candidate r.now r.attempted_route_ids r.excluded_route_ids r.diversity
      (mode_of r) (policy_of r)

-- The source sorts the times as texts, unit by unit, and not as instants.
abbrev pub stamp_le : Host → Stamp → Stamp → Bool
stamp_le host s t = leb (host.text_rank s) (host.text_rank t)

abbrev pub add_some {ℓ} : {A : Type ℓ} → Option A → List A → List A
add_some none rest = rest
add_some (some a) rest = a ∷ rest

-- `evaluations.flatMap((evaluation) => evaluation.retryAt ? [evaluation.retryAt] : [])`.
abbrev pub retry_times : List CandidateEvaluation → List Stamp
retry_times [] = []
retry_times (e ∷ es) = add_some e.retry_at (retry_times es)

abbrev pub reason_of : SchedulingPolicy → RoutingCandidate → Bool → SelectionReason
reason_of weighted candidate conflict =
    weighted_rotation (or_else candidate.weight (nat 1)) conflict
reason_of priority candidate conflict = highest_priority conflict

module _ (host : Host) (r : RoutingRequest) where
  open host use {to_iso}

  -- `raw` of the source.
  abbrev pub raw : List RoutingCandidate
  raw = sort (by_position host) (filter (λ c. same_pool c.pool_id r.pool_id) r.candidates)

  unfoldable pub evaluated : List Evaluated
  evaluated = map (λ c. (c, evaluate r c)) raw

  abbrev pub key_of : String
  key_of = or_else r.scheduling_key (pool_name r.pool_id ++ˢ ":" ++ˢ to_iso r.now)

  abbrev pub find_route : Option RoutingCandidate → List Evaluated → Option Evaluated
  find_route none pairs = none
  find_route (some c) pairs = find? (λ e. e.0.route_id === c.route_id) pairs

  unfoldable pub weighted_selection : List Evaluated → Option Evaluated
  weighted_selection eligible =
      find_route (select_weighted_route host (map (λ e. e.0) eligible) key_of) eligible

  abbrev pub choose : SchedulingPolicy → List Evaluated → Option Evaluated
  choose weighted pairs = weighted_selection pairs
  choose priority pairs = first pairs

  unfoldable pub eligible_routes : List Evaluated
  eligible_routes = filter (λ e. e.1.eligible) evaluated

  unfoldable pub preferred_routes : List Evaluated
  preferred_routes =
      if prefers (mode_of r)
      then filter (λ e. not e.1.diversity_conflict) eligible_routes
      else eligible_routes

  abbrev pub or_any : Option Evaluated → Option Evaluated → Option Evaluated
  or_any (some e) other = some e
  or_any none other = if prefers (mode_of r) then other else none

  abbrev pub decision : Option Evaluated → RoutingDecision
  decision (some (c, e)) = selected (record {
    route_id = c.route_id;
    pool_id = r.pool_id;
    pool_position = c.pool_position;
    reason = reason_of (policy_of r) c e.diversity_conflict;
    health = c.health;
    conflict = e.diversity_conflict;
    evaluations = map (λ p. p.1) evaluated;
    scheduling_policy = policy_of r;
  })
  decision none = no_eligible_route (record {
    pool_id = r.pool_id;
    reasons = map (λ p. p.1) evaluated;
    earliest_retry_at = first (sort (stamp_le host) (retry_times (map (λ p. p.1) evaluated)));
  })

  unfoldable pub chosen : Option Evaluated
  unfolding preferred_routes eligible_routes evaluated weighted_selection
  chosen = or_any (choose (policy_of r) preferred_routes) (choose (policy_of r) eligible_routes)

  unfoldable pub select_route : RoutingDecision
  unfolding chosen
  select_route = decision chosen
