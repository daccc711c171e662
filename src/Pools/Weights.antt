-- ===== src/Pools/Weights.antt =====
-- src/core/pools/index.ts: weights are set all together or not at all; what the views count.
use pi_multi_orchestrator.Prelude.{
  ℕ, ◌+◌, ◌≤◌, ◌≡◌, refl, sym, ap, ◌∙◌, Result, err, subst, ok-injective, true, false, not, ◌&&◌,
  none, some, List, [], ◌∷◌, Number, length, get, Dict, ok, arith, inl, inr, ◌⊎◌, bind-eq-ok,
  check-eq-ok, check, filter, map,
}
use pi_multi_orchestrator.Routing.Chain.{PoolId}
use pi_multi_orchestrator.Thinking.{
  explicit, ExplicitThinkingEffort, MappedLevel, is_supported_thinking_effort,
  is_supported_thinking_effort_iff, level_kept, needs_entry,
}
use pi_multi_orchestrator.Pools.{
  PoolRoute, RouteConfig, Config, entries_of, with_pool, pool_of, mutate, update_pool_weights,
  weigh_all, weigh_entry, assert_weight, matches, max_pool_entry_weight, route_not_in_pool,
  PoolManagerError,
}
use pi_multi_orchestrator.Pools.Orders.{mutate-ok, entries_of-with_pool}
use pi_multi_orchestrator.Pools.Membership.{assert_weight_le}
use pi_multi_orchestrator.Pools.Views.{
  PoolEntryView, PoolManagementState, active, global_disabled, missing, provider_unavailable,
  unknown, pool_status, same_state, route_thinking_metadata, viewed_thinking_metadata, levels_of,
}

-- Each entry has its own supplied weight, which is in range, and is otherwise as before.
abbrev pub Weighed : Dict Number → List PoolRoute → List PoolRoute → Type 0
Weighed weights [] [] = Unit
Weighed weights (x ∷ xs) (y ∷ ys) =
    ((n : ℕ) × (y ≡ weigh_entry n x)
      × (assert_weight (get weights x.route_id) ≡ ok n)
      × (n ≤ max_pool_entry_weight))
    × Weighed weights xs ys
Weighed weights _ _ = ⊥

weigh_all-Weighed :
    (weights : Dict Number) (xs ys : List PoolRoute)
    → weigh_all PoolRoute.route_id weigh_entry weights xs ≡ ok ys
    → Weighed weights xs ys
unfolding weigh_all
weigh_all-Weighed weights [] [] e = tt
weigh_all-Weighed weights [] (y ∷ ys) e = cc
weigh_all-Weighed weights (x ∷ xs) ys e =
    let (n, asserted, left) = bind-eq-ok (assert_weight (get weights x.route_id)) _ e in
    let (rest, made, returned) =
      bind-eq-ok (weigh_all PoolRoute.route_id weigh_entry weights xs)
        (λ weighed. ok (weigh_entry n x ∷ weighed)) left in
    let eq : weigh_entry n x ∷ rest ≡ ys = cc in
    subst (Weighed weights (x ∷ xs)) eq (
      (n, refl, asserted, assert_weight_le (get weights x.route_id) n asserted),
      weigh_all-Weighed weights xs rest made,
    )

mutate-written :
    (config : Config) (pool : PoolId) (mutated : Result PoolManagerError (List PoolRoute))
    (after : Config)
    → mutate config pool mutated ≡ ok after
    → after
      ≡ with_pool config pool (record (pool_of config pool) { entries = entries_of after pool })
mutate-written config pool (ok made) after e =
    let same = ok-injective e in
    sym same
    ∙ ap (λ entries. with_pool config pool (record (pool_of config pool) { entries = entries }))
        (sym (entries_of-with_pool config pool made) ∙ ap (λ c. entries_of c pool) same)
mutate-written config pool (err why) after e = cc

-- An update of a pool's weights that succeeds gives every entry the weight supplied for its route,
-- between 0 and 1,000,000, and keeps everything else of the entries and of the configuration: the
-- routes, the other pools, the scheduling policy. As many names were supplied as the pool has routes,
-- each of them of the pool.
pub update_pool_weights-Weighed :
    (config after : Config) (pool : PoolId) (weights : Dict Number)
    → update_pool_weights config pool weights ≡ ok after
    → (matches (map PoolRoute.route_id (entries_of config pool)) weights ≡ true)
      × Weighed weights (entries_of config pool) (entries_of after pool)
      × (after
          ≡ with_pool config pool
              (record (pool_of config pool) { entries = entries_of after pool }))
unfolding update_pool_weights
update_pool_weights-Weighed config after pool weights e =
    let (made, r, same) = mutate-ok config pool _ after e in
    let (checked, matched, left) =
      bind-eq-ok
        (check (matches (map PoolRoute.route_id (entries_of config pool)) weights)
          route_not_in_pool)
        _ r in
    (
      check-eq-ok _ route_not_in_pool matched,
      rw same (weigh_all-Weighed weights (entries_of config pool) made left),
      mutate-written config pool _ after e,
    )

state_cases :
    (s : PoolManagementState)
    → (s ≡ active)
      ⊎ (s ≡ global_disabled)
      ⊎ (s ≡ missing)
      ⊎ (s ≡ provider_unavailable)
      ⊎ (s ≡ unknown)
state_cases active = inl refl
state_cases global_disabled = inr (inl refl)
state_cases missing = inr (inr (inl refl))
state_cases provider_unavailable = inr (inr (inr (inl refl)))
state_cases unknown = inr (inr (inr (inr refl)))

-- The entries that are active but for the pool, which has disabled them.
abbrev pub withheld : List PoolEntryView → ℕ
withheld entries =
    length (filter (λ entry. same_state entry.state active && not entry.pool_enabled) entries)

-- The counts of a pool's status add up to the total, together with the active entries that the pool
-- has disabled; those are among the disabled ones.
pub pool_status-total :
    (entries : List PoolEntryView)
    → let status = pool_status entries in
      (status.active_count
          + withheld entries
          + status.globally_disabled
          + status.missing_count
          + status.provider_unavailable_count
          + status.unknown_count
        ≡ status.total)
      × (withheld entries ≤ status.pool_disabled)
unfolding pool_status
pool_status-total [] = (refl, omega arith)
pool_status-total (entry ∷ entries) =
    let rest = pool_status-total entries in
    elim (state_cases entry.state) [
      | inl e ↦ rw e (ground (arith, rest))
      | inr (inl e) ↦ rw e (ground (arith, rest))
      | inr (inr (inl e)) ↦ rw e (ground (arith, rest))
      | inr (inr (inr (inl e))) ↦ rw e (ground (arith, rest))
      | inr (inr (inr (inr e))) ↦ rw e (ground (arith, rest))
    ]

-- A route with a level map of its own that no catalog lists: a level that its map offers may be set,
-- and is then shown as not valid.
pub unlisted-thinking :
    (route : RouteConfig) (levels : ExplicitThinkingEffort → MappedLevel)
    (effort : ExplicitThinkingEffort)
    → route.level_map ≡ some levels
    → level_kept (levels effort) (needs_entry effort) ≡ true
    → (is_supported_thinking_effort (route_thinking_metadata route none) (explicit effort) ≡ true)
      × (is_supported_thinking_effort (viewed_thinking_metadata route none) (explicit effort)
          ≡ false)
unfolding route_thinking_metadata viewed_thinking_metadata
unlisted-thinking route levels effort e h =
    (rw e ((is_supported_thinking_effort_iff (some true) (some levels) effort).1 (refl, h)), shown)
  where
    shown :
        is_supported_thinking_effort (viewed_thinking_metadata route none) (explicit effort) ≡ false
    shown = ground (arith, is_supported_thinking_effort_iff none (levels_of route none) effort)
