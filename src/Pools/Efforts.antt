-- ===== src/Pools/Efforts.antt =====
-- src/core/pools/index.ts: how the thinking level that setPoolEntryThinkingEffort has set is viewed.
use pi_multi_orchestrator.Prelude.{
  ℕ, zero, suc, ◌+◌, ◌≡◌, ◌↔◌, refl, ◌∙◌, ap, true, Option, none, some, List, [], ◌∷◌, String,
  ◌===◌, get, ok, arith, eq_iff, Bool-cases, inl, inr, bind-eq-ok, ok-injective, subst, get_elem?,
}
use pi_multi_orchestrator.Routing.Chain.{PoolId, investigation, implementation, verification}
use pi_multi_orchestrator.Thinking.{
  explicit, ExplicitThinkingEffort, is_supported_thinking_effort_iff,
}
use pi_multi_orchestrator.Pools.{
  PoolRoute, RouteConfig, Pool, Config, entries_of, with_pool, pool_of, change_entry, index_of,
}
use pi_multi_orchestrator.Pools.Orders.{entries_of-with_pool}
use pi_multi_orchestrator.Pools.Views.{
  CatalogCache, PoolEntryView, view_configured, view_entry, view_from, view_pool, levels_of,
  reasoning_of, route_thinking_metadata, viewed_thinking_metadata, effort_confirmed, listed_entry,
  set_pool_entry_thinking_effort,
}

-- The first entry of the route is the one that is changed.
change_entry-changed :
    (change : PoolRoute → PoolRoute) (id : String) (entries after : List PoolRoute)
    → change_entry change id entries ≡ ok after
    → (i : ℕ) × (entry : PoolRoute) × (index_of entries id ≡ some i)
      × ((entry.route_id === id) ≡ true)
      × (get_elem? after i ≡ some (change entry))
unfolding change_entry
change_entry-changed change id [] after e = cc
change_entry-changed change id (x ∷ xs) after e = elim (Bool-cases (x.route_id === id)) [
  | inl t ↦
      let made : change x ∷ xs ≡ after = let made = rw t at e in cc in
      (0, x, rw t refl, t, rw (← made) refl)
  | inr f ↦
      let (rest, r, returned) =
        bind-eq-ok (change_entry change id xs) (λ changed. ok (x ∷ changed)) (rw f at e) in
      let (i, entry, found, named, there) = change_entry-changed change id xs rest r in
      let made : x ∷ rest ≡ after = cc in
      (suc i, entry, rw (f, found) refl, named, rw (← made) there)
]

module _ (normalize : String → Option String) (cache : Option CatalogCache) where
  view_entry-with_pool :
      (config : Config) (id : PoolId) (pool : Pool) (entry : PoolRoute) (index : ℕ)
      → view_entry normalize (with_pool config id pool) cache entry index
        ≡ view_entry normalize config cache entry index
  unfolding view_entry
  view_entry-with_pool config investigation pool entry index = refl
  view_entry-with_pool config implementation pool entry index = refl
  view_entry-with_pool config verification pool entry index = refl

  get_elem?-view_from :
      (config : Config) (n i : ℕ) (entries : List PoolRoute) (entry : PoolRoute)
      → get_elem? entries i ≡ some entry
      → get_elem? (view_from normalize config cache n entries) i
        ≡ some (view_entry normalize config cache entry (n + i))
  get_elem?-view_from config n i [] entry e = cc
  get_elem?-view_from config n zero (x ∷ xs) entry e =
      let same : x ≡ entry = cc in
      rw same (ap (λ j. some (view_entry normalize config cache entry j)) (omega arith))
  get_elem?-view_from config n (suc i) (x ∷ xs) entry e =
      get_elem?-view_from config (n + 1) i xs entry e
      ∙ ap (λ j. some (view_entry normalize config cache entry j)) (omega arith)

  -- A level that the test lets pass is shown, and shown as valid if the catalog states the reasoning.
  view_configured-effort :
      (config : Config) (found : Option RouteConfig) (entry : PoolRoute)
      (effort : ExplicitThinkingEffort) (index : ℕ)
      → effort_confirmed (explicit effort) found (listed_entry normalize config cache found) ≡ true
      → let changed = record entry { thinking_effort = some (explicit effort) } in
        let view = view_configured normalize config cache found changed index in
        (view.thinking_effort ≡ explicit effort)
        × ((view.thinking_effort_valid ≡ true)
            ↔ (reasoning_of (listed_entry normalize config cache found) ≡ some true))
  unfolding route_thinking_metadata viewed_thinking_metadata
  view_configured-effort config none entry effort index h = cc
  view_configured-effort config (some route) entry effort index h =
      let listed = listed_entry normalize config cache (some route) in
      let kept = ((is_supported_thinking_effort_iff _ (levels_of route listed) effort).0 h).1 in
      let shown =
        is_supported_thinking_effort_iff (reasoning_of listed) (levels_of route listed) effort in
      (refl, (λ valid. (shown.0 valid).0, λ stated. shown.1 (stated, kept)))

  -- What the view of a pool shows of a level that was set on a route.
  abbrev pub ShowsEffort :
      (config after : Config) → PoolId → String → ExplicitThinkingEffort → Type 0
  ShowsEffort config after pool id effort =
      (i : ℕ) × (view : PoolEntryView) × (index_of (entries_of config pool) id ≡ some i)
      × (get_elem? (view_pool normalize after cache pool) i ≡ some view)
      × (view.thinking_effort ≡ explicit effort)
      × ((view.thinking_effort_valid ≡ true)
          ↔ (reasoning_of (listed_entry normalize config cache (get config.routes id)) ≡ some true))

  with_pool-ShowsEffort :
      (config : Config) (pool : PoolId) (id : String) (effort : ExplicitThinkingEffort)
      (made : List PoolRoute)
      → effort_confirmed
          (explicit effort)
          (get config.routes id)
          (listed_entry normalize config cache (get config.routes id))
        ≡ true
      → change_entry
          (λ entry. record entry { thinking_effort = some (explicit effort) })
          id
          (entries_of config pool)
        ≡ ok made
      → ShowsEffort config
          (with_pool config pool (record (pool_of config pool) { entries = made }))
          pool
          id
          effort
  unfolding view_pool view_entry
  with_pool-ShowsEffort config pool id effort made h e =
      let change : PoolRoute → PoolRoute =
        λ entry. record entry { thinking_effort = some (explicit effort) } in
      let (i, entry, found, named, there) =
        change_entry-changed change id (entries_of config pool) made e in
      let after = with_pool config pool (record (pool_of config pool) { entries = made }) in
      let same : entry.route_id ≡ id = (eq_iff entry.route_id id).0 named in
      let (shown, valid) = view_configured-effort config (get config.routes id) entry effort i h in
      (
        i,
        view_configured normalize config cache (get config.routes id) (change entry) i,
        found,
        ap (λ entries. get_elem? (view_from normalize after cache 0 entries) i)
              (entries_of-with_pool config pool made)
            ∙ get_elem?-view_from after 0 i made (change entry) there
            ∙ ap some (view_entry-with_pool config pool _ (change entry) (0 + i))
            ∙ ap (λ j. some (view_entry normalize config cache (change entry) j)) (omega arith)
            ∙ ap
                (λ route. some (
                  view_configured normalize config cache (get config.routes route) (change entry)
                    i))
                same,
        shown,
        valid,
      )

  -- A level that was set on a route is then shown in the view of the pool, at the first entry of the
  -- route, and is shown as valid exactly if the catalog lists the route and says that it reasons.
  pub set_pool_entry_thinking_effort-ShowsEffort :
      (config after : Config) (pool : PoolId) (id : String) (effort : ExplicitThinkingEffort)
      → set_pool_entry_thinking_effort normalize config cache config pool id (explicit effort)
        ≡ ok after
      → ShowsEffort config after pool id effort
  unfolding set_pool_entry_thinking_effort
  set_pool_entry_thinking_effort-ShowsEffort config after pool id effort e =
      let confirmed =
        effort_confirmed (explicit effort) (get config.routes id)
          (listed_entry normalize config cache (get config.routes id)) in
      elim (Bool-cases confirmed) [
        | inr f ↦ let thrown = rw f at e in cc
        | inl t ↦
            let (made, changed, returned) =
              bind-eq-ok
                (change_entry (λ entry. record entry { thinking_effort = some (explicit effort) })
                  id (entries_of config pool))
                _ (rw t at e) in
            subst (λ after. ShowsEffort config after pool id effort) (ok-injective returned)
              (with_pool-ShowsEffort config pool id effort made t changed)
      ]
