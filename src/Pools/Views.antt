-- ===== src/Pools/Views.antt =====
-- src/core/pools/index.ts: what the manager shows of a pool, and the thinking level of an entry. The
-- normal form of a gateway's URL is a parameter: `none` where `normalizeNineRouterBaseUrl` throws.
use pi_multi_orchestrator.Prelude.{
  ℕ, ◌+◌, Bool, true, false, not, ◌&&◌, ◌||◌, Option, none, some, List, [], ◌∷◌, String,
  if◌then◌else◌, ◌===◌, length, or_else, is_some, find?, filter, get, Result, err,
}
use pi_multi_orchestrator.Thinking.{
  ThinkingEffort, auto, explicit, ThinkingModelMetadata, ExplicitThinkingEffort, MappedLevel,
  is_supported_thinking_effort, supported_thinking_efforts, ThinkingSupport, thinking_support,
}
use pi_multi_orchestrator.Routing.Chain.{PoolId}
use pi_multi_orchestrator.Pools.{
  RouteConfig, PoolRoute, Gateway, Config, PoolManagerError, invalid_thinking_effort, entries_of,
  mutate, change_entry,
}

pub data PoolManagementState : Type 0 where
  active global_disabled missing provider_unavailable unknown : PoolManagementState

pub data PoolCatalogState : Type 0 where
  fresh stale missing_entry unknown_catalog : PoolCatalogState

pub record CatalogEntry : Type 0 where
  pub remote_id : String
  pub non_chat : Bool  -- `capability === "non-chat"`
  pub reasoning : Option Bool
  pub level_map : Option (ExplicitThinkingEffort → MappedLevel)

pub record CatalogCache : Type 0 where
  pub base_url : String
  pub entries : List CatalogEntry
  pub failed : Bool  -- whether `lastError` is there

abbrev pub nine_router_gateway_id : String
nine_router_gateway_id = "ninerouter"

abbrev pub is_nine_router : Option String → Bool
is_nine_router none = false
is_nine_router (some id) = id === nine_router_gateway_id

module _ (normalize : String → Option String) where
  abbrev pub catalog_at : Option Gateway → CatalogCache → Option CatalogCache
  catalog_at none cache = none
  catalog_at (some gateway) cache =
      if not (gateway.kind === "9router") then none else same_url (normalize gateway.base_url)
    where
      same_url : Option String → Option CatalogCache
      same_url none = none
      same_url (some url) = if url === cache.base_url then some cache else none

  abbrev pub cached : Config → Option String → Option CatalogCache → Option CatalogCache
  cached config gateway none = none
  cached config gateway (some cache) =
      if not (is_nine_router gateway)
      then none
      else catalog_at (get config.gateways nine_router_gateway_id) cache

  unfoldable pub bound_catalog : Config → RouteConfig → Option CatalogCache → Option CatalogCache
  bound_catalog config route cache = cached config route.gateway_id cache

abbrev pub entry_in : Option CatalogCache → RouteConfig → Option CatalogEntry
entry_in none route = none
entry_in (some catalog) route =
    find? (λ entry. entry.remote_id === route.remote_model_id) catalog.entries

abbrev pub catalog_verdict : Option CatalogCache → Option CatalogEntry → PoolManagementState
catalog_verdict none entry = unknown
catalog_verdict (some catalog) none = missing
catalog_verdict (some catalog) (some entry) =
    if entry.non_chat then provider_unavailable else active

abbrev pub gateway_verdict :
    String → Option Gateway → Option CatalogCache → Option CatalogEntry → PoolManagementState
gateway_verdict id none catalog entry = provider_unavailable
gateway_verdict id (some gateway) catalog entry =
    if not gateway.enabled
    then provider_unavailable
    else if not (id === nine_router_gateway_id) || not (gateway.kind === "9router")
    then active
    else catalog_verdict catalog entry

abbrev pub route_verdict :
    Config → Option String → Option CatalogCache → Option CatalogEntry → PoolManagementState
route_verdict config none catalog entry = active
route_verdict config (some id) catalog entry =
    gateway_verdict id (get config.gateways id) catalog entry

unfoldable pub management_state :
    Config → RouteConfig → Option CatalogCache → Option CatalogEntry → PoolManagementState
management_state config route catalog entry =
    if not route.enabled
    then global_disabled
    else route_verdict config route.gateway_id catalog entry

abbrev pub catalog_state : Option CatalogCache → Option CatalogEntry → PoolCatalogState
catalog_state none entry = unknown_catalog
catalog_state (some catalog) none = missing_entry
catalog_state (some catalog) (some entry) = if catalog.failed then stale else fresh

abbrev pub reasoning_of : Option CatalogEntry → Option Bool
reasoning_of none = none
reasoning_of (some entry) = entry.reasoning

abbrev pub levels_of :
    RouteConfig → Option CatalogEntry → Option (ExplicitThinkingEffort → MappedLevel)
levels_of route none = route.level_map
levels_of route (some entry) = levels_or entry.level_map
  where
    levels_or :
        Option (ExplicitThinkingEffort → MappedLevel)
        → Option (ExplicitThinkingEffort → MappedLevel)
    levels_or none = route.level_map
    levels_or (some levels) = some levels

-- `routeThinkingMetadata`: a route with a level map reasons unless the catalog says otherwise.
unfoldable pub route_thinking_metadata : RouteConfig → Option CatalogEntry → ThinkingModelMetadata
route_thinking_metadata route entry = record {
  reasoning =
      if is_some (reasoning_of entry) || is_some route.level_map
      then some (or_else (reasoning_of entry) true)
      else none;
  level_map = levels_of route entry;
}

-- The metadata that `viewEntry` builds.
unfoldable pub viewed_thinking_metadata : RouteConfig → Option CatalogEntry → ThinkingModelMetadata
viewed_thinking_metadata route entry = record {
  reasoning = reasoning_of entry;
  level_map = levels_of route entry;
}

-- The share of the weights is left out.
pub record PoolEntryView : Type 0 where
  pub route_id : String
  pub index : ℕ
  pub global_enabled : Bool
  pub pool_enabled : Bool
  pub state : PoolManagementState
  pub catalog_state_shown : PoolCatalogState
  pub present_in_catalog : Option Bool
  pub thinking_effort : ThinkingEffort
  pub supported_efforts : List ExplicitThinkingEffort
  pub support : ThinkingSupport
  pub thinking_effort_valid : Bool
  pub weight : ℕ

abbrev pub is_auto : ThinkingEffort → Bool
is_auto auto = true
is_auto (explicit e) = false

abbrev pub present : Option CatalogCache → Option CatalogEntry → Option Bool
present none entry = none
present (some catalog) entry = some (is_some entry)

module _ (normalize : String → Option String) (config : Config) (cache : Option CatalogCache) where
  abbrev pub view_configured : Option RouteConfig → PoolRoute → ℕ → PoolEntryView
  view_configured none entry index = record {
    route_id = entry.route_id;
    index = index;
    global_enabled = false;
    pool_enabled = entry.enabled;
    state = unknown;
    catalog_state_shown = unknown_catalog;
    present_in_catalog = some false;
    thinking_effort = or_else entry.thinking_effort auto;
    supported_efforts = [];
    support = ThinkingSupport.unknown;
    thinking_effort_valid = is_auto (or_else entry.thinking_effort auto);
    weight = or_else entry.weight 1;
  }
  view_configured (some route) entry index =
      let catalog = bound_catalog normalize config route cache in
      let listed = entry_in catalog route in
      let effort = or_else entry.thinking_effort auto in
      let metadata = viewed_thinking_metadata route listed in
      record {
        route_id = route.id;
        index = index;
        global_enabled = route.enabled;
        pool_enabled = entry.enabled;
        state = management_state config route catalog listed;
        catalog_state_shown = catalog_state catalog listed;
        present_in_catalog = present catalog listed;
        thinking_effort = effort;
        supported_efforts = supported_thinking_efforts metadata;
        support = thinking_support metadata;
        thinking_effort_valid = is_auto effort || is_supported_thinking_effort metadata effort;
        weight = or_else entry.weight 1;
      }

  unfoldable pub view_entry : PoolRoute → ℕ → PoolEntryView
  unfolding bound_catalog viewed_thinking_metadata management_state thinking_support
  view_entry entry index = view_configured (get config.routes entry.route_id) entry index

  abbrev pub view_from : ℕ → List PoolRoute → List PoolEntryView
  view_from index [] = []
  view_from index (entry ∷ entries) = view_entry entry index ∷ view_from (index + 1) entries

  -- The entries of `viewPool`.
  unfoldable pub view_pool : PoolId → List PoolEntryView
  unfolding view_entry
  view_pool pool = view_from 0 (entries_of config pool)

abbrev pub same_state : PoolManagementState → PoolManagementState → Bool
same_state active active = true
same_state global_disabled global_disabled = true
same_state missing missing = true
same_state provider_unavailable provider_unavailable = true
same_state unknown unknown = true
same_state _ _ = false

abbrev pub is_stale : PoolCatalogState → Bool
is_stale stale = true
is_stale _ = false

pub record PoolStatus : Type 0 where
  pub total : ℕ
  pub active_count : ℕ
  pub pool_disabled : ℕ
  pub globally_disabled : ℕ
  pub missing_count : ℕ
  pub provider_unavailable_count : ℕ
  pub unknown_count : ℕ
  pub stale_count : ℕ

abbrev pub in_state : PoolManagementState → List PoolEntryView → ℕ
in_state state entries = length (filter (λ entry. same_state entry.state state) entries)

unfoldable pub pool_status : List PoolEntryView → PoolStatus
pool_status entries = record {
  total = length entries;
  active_count =
      length (filter (λ entry. same_state entry.state active && entry.pool_enabled) entries);
  pool_disabled = length (filter (λ entry. not entry.pool_enabled) entries);
  globally_disabled = in_state global_disabled entries;
  missing_count = in_state missing entries;
  provider_unavailable_count = in_state provider_unavailable entries;
  unknown_count = in_state unknown entries;
  stale_count = length (filter (λ entry. is_stale entry.catalog_state_shown) entries);
}

-- Whether a level may be set: the test before the change.
abbrev pub effort_confirmed : ThinkingEffort → Option RouteConfig → Option CatalogEntry → Bool
effort_confirmed auto route entry = true
effort_confirmed (explicit e) none entry = false
effort_confirmed (explicit e) (some route) entry =
    is_supported_thinking_effort (route_thinking_metadata route entry) (explicit e)

abbrev pub listed_entry :
    (String → Option String)
    → Config
    → Option CatalogCache
    → Option RouteConfig
    → Option CatalogEntry
listed_entry normalize config cache none = none
listed_entry normalize config cache (some route) =
    entry_in (bound_catalog normalize config route cache) route

-- `context` is the configuration that was loaded for the test, `config` the draft that is changed.
unfoldable pub set_pool_entry_thinking_effort :
    (String → Option String)
    → (context : Config) → Option CatalogCache
    → (config : Config) → PoolId
    → String
    → ThinkingEffort
    → Result PoolManagerError Config
unfolding change_entry route_thinking_metadata bound_catalog
set_pool_entry_thinking_effort normalize context cache config pool id effort =
    let route = get context.routes id in
    if not (effort_confirmed effort route (listed_entry normalize context cache route))
    then err invalid_thinking_effort
    else mutate config pool (
        change_entry (λ entry. record entry { thinking_effort = some effort }) id
          (entries_of config pool))
