-- ===== src/Pools/Changes.antt =====
-- src/core/pools/index.ts: the pools after any sequence of changes.
use pi_multi_orchestrator.Prelude.{
  ℕ, ◌≤◌, ◌≡◌, refl, subst, Bool, not, Option, none, some, List, [], ◌∷◌, ◌++◌, String, Number,
  finite, not_finite, if◌then◌else◌, or_else, is_some, get, Dict, Result, ok, err, arith,
  Bool-cases, inl, inr, bind-eq-ok, check, Distinct-append, All-append, map,
}
use pi_multi_orchestrator.Routing.Chain.{PoolId, investigation, implementation, verification}
use pi_multi_orchestrator.Thinking.{ThinkingEffort}
use pi_multi_orchestrator.Pools.{
  PoolRoute, RouteConfig, Config, PoolManagerError, route_not_found, duplicate_route,
  route_not_in_pool, entries_of, mutate, moved, reorder, reordered, index_of, bounded_position,
  Target, to, add_route, remove_route, move_route, set_pool_entry_enabled, set_pool_entry_weight,
  set_scheduling_policy, update_pool_weights, change_entry, assert_weight, max_pool_entry_weight,
  new_entry, is_member, without, PoolSchedulingPolicy, matches,
}
use pi_multi_orchestrator.Pools.Views.{
  CatalogCache, set_pool_entry_thinking_effort, effort_confirmed, listed_entry,
}
use pi_multi_orchestrator.Pools.Membership.{
  IsEntry, IsPool, IsPools, remove_at-IsPool, moved-IsPool, Keeps-IsPool, change_entry-Keeps,
  weigh_all-Keeps, mutate-IsPools, assert_weight_le,
}

-- The changes of the pools that the manager offers.
pub data PoolCall : Type 0 where
  add_call remove_call : PoolId → String → PoolCall
  reorder_call : PoolId → String → Target → PoolCall
  move_call : PoolId → String → Number → PoolCall
  enabled_call : PoolId → String → Bool → PoolCall
  weight_call : PoolId → String → Number → PoolCall
  weights_call : PoolId → Dict Number → PoolCall
  policy_call : PoolId → PoolSchedulingPolicy → PoolCall
  effort_call :
      (context : Config) → Option CatalogCache → PoolId → String → ThinkingEffort → PoolCall

abbrev kept : Config → Result PoolManagerError Config → Config
kept config (ok after) = after
kept config (err why) = config

module _ (normalize : String → Option String) where
  abbrev pub outcome : Config → PoolCall → Result PoolManagerError Config
  outcome config (add_call pool id) = add_route config pool id
  outcome config (remove_call pool id) = remove_route config pool id
  outcome config (reorder_call pool id target) = reorder config pool id target
  outcome config (move_call pool id index) = move_route config pool id index
  outcome config (enabled_call pool id enabled) = set_pool_entry_enabled config pool id enabled
  outcome config (weight_call pool id weight) = set_pool_entry_weight config pool id weight
  outcome config (weights_call pool weights) = update_pool_weights config pool weights
  outcome config (policy_call pool policy) = ok (set_scheduling_policy config pool policy)
  outcome config (effort_call context cache pool id effort) =
      set_pool_entry_thinking_effort normalize context cache config pool id effort

  -- A call that throws leaves the configuration.
  abbrev pub after_changes : Config → List PoolCall → Config
  after_changes config [] = config
  after_changes config (call ∷ calls) = after_changes (kept config (outcome config call)) calls

add_route-IsPools :
    (config after : Config) (pool : PoolId) (id : String)
    → add_route config pool id ≡ ok after
    → IsPools config
    → IsPools after
unfolding add_route
add_route-IsPools config after pool id e h = mutate-IsPools config pool _ after e h added
  where
    added :
        (entries : List PoolRoute)
        → (if not (is_some (get config.routes id))
            then err route_not_found
            else if is_member (entries_of config pool) id
            then err duplicate_route
            else ok (entries_of config pool ++ (new_entry id ∷ [])))
          ≡ ok entries
        → IsPool config.routes entries
    added entries r = elim (Bool-cases (is_some (get config.routes id))) [
      | inr absent ↦ let thrown = rw absent at r in cc
      | inl there ↦ elim (Bool-cases (is_member (entries_of config pool) id)) [
        | inl twice ↦ let thrown = rw (there, twice) at r in cc
        | inr once ↦
            let same : entries_of config pool ++ (new_entry id ∷ []) ≡ entries =
              let made = rw (there, once) at r in cc in
            subst (IsPool config.routes) same (record {
              distinct =
                  Distinct-append PoolRoute.route_id (entries_of config pool) (new_entry id)
                    (h pool).distinct once;
              entries_ok =
                  All-append (IsEntry config.routes) (entries_of config pool) (new_entry id)
                    (h pool).entries_ok (record { configured = there; weight_le = omega arith });
            })
      ]
    ]

without-IsPool :
    (routes : Dict RouteConfig) (entries : List PoolRoute) (found : Option ℕ)
    → IsPool routes entries
    → IsPool routes (without entries found)
without-IsPool routes entries none h = h
without-IsPool routes entries (some i) h = remove_at-IsPool routes i entries h

reordered-IsPool :
    (routes : Dict RouteConfig) (entries after : List PoolRoute) (found : Option ℕ)
    (target : Target)
    → reordered entries found target ≡ ok after
    → IsPool routes entries
    → IsPool routes after
reordered-IsPool routes entries after none target e h = cc
reordered-IsPool routes entries after (some i) target e h =
    let same : moved entries i (bounded_position target i entries) ≡ after = cc in
    subst (IsPool routes) same (moved-IsPool routes entries i (bounded_position target i entries) h)

reorder-IsPools :
    (config after : Config) (pool : PoolId) (id : String) (target : Target)
    → reorder config pool id target ≡ ok after
    → IsPools config
    → IsPools after
unfolding reorder
reorder-IsPools config after pool id target e h =
    mutate-IsPools config pool _ after e h (λ entries r.
      reordered-IsPool config.routes (entries_of config pool) entries _ target r (h pool))

change-IsPools :
    (config after : Config) (pool : PoolId) (id : String) (change : PoolRoute → PoolRoute)
    → ((x : PoolRoute)
        → (x.route_id ≡ (change x).route_id)
          × (or_else x.weight 1 ≤ max_pool_entry_weight
              → or_else (change x).weight 1 ≤ max_pool_entry_weight))
    → mutate config pool (change_entry change id (entries_of config pool)) ≡ ok after
    → IsPools config
    → IsPools after
change-IsPools config after pool id change keeps e h =
    mutate-IsPools config pool (change_entry change id (entries_of config pool)) after e h
      (λ entries r.
        Keeps-IsPool config.routes (entries_of config pool) entries
          (change_entry-Keeps change id (entries_of config pool) entries keeps r) (h pool))

enabled-IsPools :
    (config after : Config) (pool : PoolId) (id : String) (enabled : Bool)
    → set_pool_entry_enabled config pool id enabled ≡ ok after
    → IsPools config
    → IsPools after
unfolding set_pool_entry_enabled
enabled-IsPools config after pool id enabled e h =
    change-IsPools config after pool id (λ entry. record entry { enabled = enabled })
      (λ x. (refl, λ w. w)) e h

weight-IsPools :
    (config after : Config) (pool : PoolId) (id : String) (weight : Number)
    → set_pool_entry_weight config pool id weight ≡ ok after
    → IsPools config
    → IsPools after
unfolding set_pool_entry_weight
weight-IsPools config after pool id weight e h =
    let (n, asserted, left) = bind-eq-ok (assert_weight (some weight)) _ e in
    change-IsPools config after pool id (λ entry. record entry { weight = some n })
      (λ x. (refl, λ w. assert_weight_le (some weight) n asserted)) left h

weights-IsPools :
    (config after : Config) (pool : PoolId) (weights : Dict Number)
    → update_pool_weights config pool weights ≡ ok after
    → IsPools config
    → IsPools after
unfolding update_pool_weights
weights-IsPools config after pool weights e h = mutate-IsPools config pool _ after e h (λ entries r.
    let (checked, matched, left) =
      bind-eq-ok
        (check (matches (map PoolRoute.route_id (entries_of config pool)) weights)
          route_not_in_pool)
        _ r in
    Keeps-IsPool config.routes (entries_of config pool) entries
      (weigh_all-Keeps weights (entries_of config pool) entries left) (h pool))

policy-IsPools :
    (config : Config) (pool : PoolId) (policy : PoolSchedulingPolicy)
    → IsPools config
    → IsPools (set_scheduling_policy config pool policy)
unfolding set_scheduling_policy
policy-IsPools config investigation policy h investigation = h investigation
policy-IsPools config investigation policy h implementation = h implementation
policy-IsPools config investigation policy h verification = h verification
policy-IsPools config implementation policy h investigation = h investigation
policy-IsPools config implementation policy h implementation = h implementation
policy-IsPools config implementation policy h verification = h verification
policy-IsPools config verification policy h investigation = h investigation
policy-IsPools config verification policy h implementation = h implementation
policy-IsPools config verification policy h verification = h verification

module _ (normalize : String → Option String) where
  effort-IsPools :
      (context : Config) (cache : Option CatalogCache) (config after : Config) (pool : PoolId)
      (id : String) (effort : ThinkingEffort)
      → set_pool_entry_thinking_effort normalize context cache config pool id effort ≡ ok after
      → IsPools config
      → IsPools after
  unfolding set_pool_entry_thinking_effort
  effort-IsPools context cache config after pool id effort e h =
      elim (Bool-cases (
        effort_confirmed effort (get context.routes id)
          (listed_entry normalize context cache (get context.routes id)))) [
            | inl t ↦
                change-IsPools config after pool id
                  (λ entry. record entry { thinking_effort = some effort }) (λ x. (refl, λ w. w))
                  (rw t at e) h
            | inr f ↦ let thrown = rw f at e in cc
          ]

  outcome-IsPools :
      (config after : Config) (call : PoolCall)
      → outcome normalize config call ≡ ok after
      → IsPools config
      → IsPools after
  unfolding remove_route move_route
  outcome-IsPools config after (add_call pool id) e h = add_route-IsPools config after pool id e h
  outcome-IsPools config after (remove_call pool id) e h =
      mutate-IsPools config pool
        (ok (without (entries_of config pool) (index_of (entries_of config pool) id))) after e h
        (λ entries r.
          let same : without (entries_of config pool) (index_of (entries_of config pool) id)
              ≡ entries =
            cc in
          subst (IsPool config.routes) same
            (without-IsPool config.routes (entries_of config pool) _ (h pool)))
  outcome-IsPools config after (reorder_call pool id target) e h =
      reorder-IsPools config after pool id target e h
  outcome-IsPools config after (move_call pool id not_finite) e h = cc
  outcome-IsPools config after (move_call pool id (finite negative whole fraction)) e h =
      reorder-IsPools config after pool id (to negative whole) e h
  outcome-IsPools config after (enabled_call pool id enabled) e h =
      enabled-IsPools config after pool id enabled e h
  outcome-IsPools config after (weight_call pool id weight) e h =
      weight-IsPools config after pool id weight e h
  outcome-IsPools config after (weights_call pool weights) e h =
      weights-IsPools config after pool weights e h
  outcome-IsPools config after (policy_call pool policy) e h =
      let same : set_scheduling_policy config pool policy ≡ after = cc in
      subst IsPools same (policy-IsPools config pool policy h)
  outcome-IsPools config after (effort_call context cache pool id effort) e h =
      effort-IsPools context cache config after pool id effort e h

  kept-IsPools :
      (config : Config) (result : Result PoolManagerError Config)
      → ((after : Config) → result ≡ ok after → IsPools config → IsPools after)
      → IsPools config
      → IsPools (kept config result)
  kept-IsPools config (ok after) f h = f after refl h
  kept-IsPools config (err why) f h = h

  -- Whatever changes of the pools are asked for, in whatever order and whether or not they throw: no
  -- pool lists a route twice, every entry is of a configured route, and every weight is in range.
  pub after_changes-IsPools :
      (config : Config) (calls : List PoolCall)
      → IsPools config
      → IsPools (after_changes normalize config calls)
  after_changes-IsPools config [] h = h
  after_changes-IsPools config (call ∷ calls) h =
      after_changes-IsPools (kept config (outcome normalize config call)) calls (
        kept-IsPools config (outcome normalize config call)
          (λ after e. outcome-IsPools config after call e) h)
