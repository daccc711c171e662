-- ===== src/Pools.antt =====
-- src/core/pools/index.ts: the operations of `PoolManager` on the draft of the configuration. The
-- store keeps the draft when they return, and the old configuration when they throw.
pub mod Orders
pub mod Membership
pub mod Changes
pub mod Weights
pub mod Efforts
pub mod Views
mod Tests
use pi_multi_orchestrator.Prelude.{
  ℕ, zero, suc, ◌+◌, ◌-◌, min, max, Bool, true, false, not, ◌&&◌, ◌||◌, Option, none, some, List,
  [], ◌∷◌, ◌++◌, map, String, if◌then◌else◌, ltb, leb, ◌==◌, ◌===◌, length, or_else, is_some,
  Number, finite, not_finite, safe_nat?, any, all, filter, find?, includes, Dict, get, put, Result,
  ok, err, ◌>>=◌, ◌>>◌, check, find_index, get_elem?, remove_at, insert_at, has_key,
}
use pi_multi_orchestrator.Thinking.{
  ThinkingEffort, auto, explicit, max_effort, ThinkingModelMetadata, ExplicitThinkingEffort,
  MappedLevel, is_supported_thinking_effort,
}
use pi_multi_orchestrator.Routing.Chain.{PoolId, investigation, implementation, verification}

pub record RouteConfig : Type 0 where
  pub id : String
  pub display_name : String
  pub enabled : Bool
  pub gateway_id : Option String
  pub remote_model_id : String
  pub level_map : Option (ExplicitThinkingEffort → MappedLevel)  -- `metadata?.thinkingLevelMap`

pub record PoolRoute : Type 0 where
  pub route_id : String
  pub enabled : Bool
  pub timeout_ms : Option ℕ
  pub max_attempts : Option ℕ
  pub thinking_effort : Option ThinkingEffort
  pub weight : Option ℕ

pub data PoolSchedulingPolicy : Type 0 where
  priority weighted : PoolSchedulingPolicy

pub record Pool : Type 0 where
  pub scheduling_policy : Option PoolSchedulingPolicy
  pub entries : List PoolRoute

pub record BossRoute : Type 0 where
  pub route_id : String
  pub enabled : Bool
  pub thinking_effort : Option ThinkingEffort
  pub weight : Option ℕ

pub record BossProfile : Type 0 where
  pub route_ids : List String
  pub entries : Option (List BossRoute)
  pub scheduling_policy : Option PoolSchedulingPolicy

pub record Gateway : Type 0 where
  pub kind : String
  pub enabled : Bool
  pub base_url : String

-- The parts of the configuration that the manager reads and writes.
pub record Config : Type 0 where
  pub routes : Dict RouteConfig
  pub gateways : Dict Gateway
  pub investigation_pool : Pool
  pub implementation_pool : Pool
  pub verification_pool : Pool
  pub boss_profiles : Dict BossProfile

pub data PoolManagerError : Type 0 where
  configuration_unavailable route_not_found duplicate_route route_not_in_pool : PoolManagerError
  invalid_thinking_effort invalid_target_index invalid_weight : PoolManagerError

abbrev pub pool_of : Config → PoolId → Pool
pool_of config investigation = config.investigation_pool
pool_of config implementation = config.implementation_pool
pool_of config verification = config.verification_pool

abbrev pub with_pool : Config → PoolId → Pool → Config
with_pool config investigation pool = record config { investigation_pool = pool }
with_pool config implementation pool = record config { implementation_pool = pool }
with_pool config verification pool = record config { verification_pool = pool }

abbrev pub mutate :
    Config → PoolId → Result PoolManagerError (List PoolRoute) → Result PoolManagerError Config
mutate config id mutated = mutated >>= λ entries.
    ok (with_pool config id (record (pool_of config id) { entries = entries }))

abbrev pub entries_of : Config → PoolId → List PoolRoute
entries_of config id = (pool_of config id).entries

abbrev pub is_member : List PoolRoute → String → Bool
is_member entries id = has_key PoolRoute.route_id entries id

abbrev pub new_entry : String → PoolRoute
new_entry id = record {
  route_id = id;
  enabled = true;
  timeout_ms = none;
  max_attempts = none;
  thinking_effort = some auto;
  weight = some 1;
}

unfoldable pub add_route : Config → PoolId → String → Result PoolManagerError Config
add_route config pool id =
    let entries = entries_of config pool in
    mutate config pool (
      if not (is_some (get config.routes id))
      then err route_not_found
      else if is_member entries id
      then err duplicate_route
      else ok (entries ++ (new_entry id ∷ [])))

abbrev pub index_of : List PoolRoute → String → Option ℕ
index_of entries id = find_index (λ entry. entry.route_id === id) entries

abbrev pub without : List PoolRoute → Option ℕ → List PoolRoute
without entries none = entries
without entries (some i) = remove_at i entries

unfoldable pub remove_route : Config → PoolId → String → Result PoolManagerError Config
remove_route config pool id =
    let entries = entries_of config pool in
    mutate config pool (ok (without entries (index_of entries id)))

pub data Target : Type 0 where
  up down : Target
  to : (negative : Bool) (whole : ℕ) → Target

-- `Math.max(requested, 0)`.
abbrev pub requested : Target → ℕ → ℕ
requested up index = index - 1
requested down index = index + 1
requested (to negative whole) index = if negative then 0 else whole

abbrev pub bounded_position : Target → ℕ → List PoolRoute → ℕ
bounded_position target index entries = min (requested target index) (length entries - 1)

abbrev pub insert_taken : ℕ → Option PoolRoute → List PoolRoute → List PoolRoute
insert_taken position none rest = rest
insert_taken position (some entry) rest = insert_at position entry rest

unfoldable pub moved : List PoolRoute → ℕ → ℕ → List PoolRoute
moved entries index position =
    if position == index
    then entries
    else insert_taken position (get_elem? entries index) (remove_at index entries)

abbrev pub reordered : List PoolRoute → Option ℕ → Target → Result PoolManagerError (List PoolRoute)
reordered entries none target = err route_not_in_pool
reordered entries (some index) target =
    ok (moved entries index (bounded_position target index entries))

unfoldable pub reorder : Config → PoolId → String → Target → Result PoolManagerError Config
unfolding moved
reorder config pool id target =
    let entries = entries_of config pool in
    mutate config pool (reordered entries (index_of entries id) target)

unfoldable pub move_route : Config → PoolId → String → Number → Result PoolManagerError Config
unfolding reorder
move_route config pool id not_finite = err invalid_target_index
move_route config pool id (finite negative whole fraction) =
    reorder config pool id (to negative whole)

-- `entries.find(...)`, and a change of the entry that it finds.
unfoldable pub change_entry :
    (PoolRoute → PoolRoute) → String → List PoolRoute → Result PoolManagerError (List PoolRoute)
change_entry change id [] = err route_not_in_pool
change_entry change id (entry ∷ entries) =
    let rest = change_entry change id entries in
    if entry.route_id === id
    then ok (change entry ∷ entries)
    else rest >>= λ changed. ok (entry ∷ changed)

unfoldable pub set_pool_entry_enabled :
    Config → PoolId → String → Bool → Result PoolManagerError Config
unfolding change_entry
set_pool_entry_enabled config pool id enabled =
    mutate config pool
      (change_entry (λ entry. record entry { enabled = enabled }) id (entries_of config pool))

unfoldable pub set_scheduling_policy : Config → PoolId → PoolSchedulingPolicy → Config
set_scheduling_policy config pool policy =
    with_pool config pool (record (pool_of config pool) { scheduling_policy = some policy })

abbrev pub max_pool_entry_weight : ℕ
max_pool_entry_weight = 1000000

abbrev pub within_weight : Option ℕ → Result PoolManagerError ℕ
within_weight none = err invalid_weight
within_weight (some n) = if leb n max_pool_entry_weight then ok n else err invalid_weight

unfoldable pub assert_weight : Option Number → Result PoolManagerError ℕ
assert_weight none = err invalid_weight
assert_weight (some x) = within_weight (safe_nat? x)

unfoldable pub set_pool_entry_weight :
    Config → PoolId → String → Number → Result PoolManagerError Config
unfolding change_entry assert_weight
set_pool_entry_weight config pool id weight = assert_weight (some weight) >>= λ n.
    mutate config pool
      (change_entry (λ entry. record entry { weight = some n }) id (entries_of config pool))

-- `new Set(ids)`.
unfoldable pub distinct : List String → List String
distinct [] = []
distinct (id ∷ ids) = let rest = distinct ids in if includes ids id then rest else id ∷ rest

abbrev pub keys {ℓ} : {V : Type ℓ} → Dict V → List String
keys dict = map (λ entry. entry.0) dict

-- The supplied names are the expected ones.
abbrev pub matches : List String → Dict Number → Bool
matches expected weights =
    (length (keys weights) == length (distinct expected))
    && all (λ id. includes expected id) (keys weights)

module _ {A : Type 0} (id_of : A → String) (set_weight : ℕ → A → A) where
  unfoldable pub weigh_all : Dict Number → List A → Result PoolManagerError (List A)
  unfolding assert_weight
  weigh_all weights [] = ok []
  weigh_all weights (entry ∷ entries) =
      let rest = weigh_all weights entries in
      assert_weight (get weights (id_of entry)) >>= λ n.
      rest >>= λ weighed. ok (set_weight n entry ∷ weighed)

abbrev pub weigh_entry : ℕ → PoolRoute → PoolRoute
weigh_entry n entry = record entry { weight = some n }

unfoldable pub update_pool_weights : Config → PoolId → Dict Number → Result PoolManagerError Config
unfolding weigh_all distinct
update_pool_weights config pool weights =
    let entries = entries_of config pool in
    mutate config pool (
      check (matches (map PoolRoute.route_id entries) weights) route_not_in_pool
      >> weigh_all PoolRoute.route_id weigh_entry weights entries)

abbrev pub boss_route : String → BossRoute
boss_route id = record {
  route_id = id;
  enabled = true;
  thinking_effort = some (explicit max_effort);
  weight = some 1;
}

abbrev pub boss_entries : BossProfile → List BossRoute
boss_entries profile = or_else profile.entries (map boss_route profile.route_ids)

abbrev pub weigh_boss : ℕ → BossRoute → BossRoute
weigh_boss n entry = record entry { weight = some n }

abbrev pub with_weighed : Config → String → List BossRoute → Config
with_weighed config id entries = record config {
  boss_profiles = put config.boss_profiles id (record {
    route_ids = map BossRoute.route_id entries;
    entries = some entries;
    scheduling_policy = some weighted;
  });
}

abbrev pub weigh_profile :
    Config → String → Option BossProfile → Dict Number → Result PoolManagerError Config
weigh_profile config id none weights = err configuration_unavailable
weigh_profile config id (some profile) weights =
    check (matches (map BossRoute.route_id (boss_entries profile)) weights) route_not_in_pool
    >> weigh_all BossRoute.route_id weigh_boss weights (boss_entries profile)
    >>= λ entries. ok (with_weighed config id entries)

unfoldable pub update_boss_weights : Config → String → Dict Number → Result PoolManagerError Config
unfolding weigh_all distinct
update_boss_weights config id weights =
    weigh_profile config id (get config.boss_profiles id) weights
