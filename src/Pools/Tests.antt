-- ===== src/Pools/Tests.antt =====
-- src/core/pools/index.ts: changes of a small configuration.
use pi_multi_orchestrator.Prelude.{
  ◌≡◌, refl, true, false, Option, none, some, List, [], ◌∷◌, String, nat, is_some, get, ok, err,
  arith,
}
use pi_multi_orchestrator.Routing.Chain.{investigation, implementation, verification}
use pi_multi_orchestrator.Thinking.{is_supported_thinking_effort, explicit, high, named_level}
use pi_multi_orchestrator.Pools.{
  to, PoolRoute, Pool, RouteConfig, Config, duplicate_route, invalid_weight, entries_of, pool_of,
  new_entry, with_pool, add_route, reorder, up, down, update_pool_weights, weigh_entry, matches,
}
use pi_multi_orchestrator.Pools.Orders.Back.{reorder-back}
use pi_multi_orchestrator.Pools.Orders.{Lands, reorder-Lands}
use pi_multi_orchestrator.Pools.Membership.{IsEntry, IsPools}
use pi_multi_orchestrator.Pools.Changes.{
  PoolCall, add_call, weight_call, reorder_call, after_changes, after_changes-IsPools,
}
use pi_multi_orchestrator.Pools.Views.{set_pool_entry_thinking_effort, PoolEntryView, view_pool}
use pi_multi_orchestrator.Pools.Efforts.{ShowsEffort, set_pool_entry_thinking_effort-ShowsEffort}
use pi_multi_orchestrator.Pools.Weights.{Weighed, update_pool_weights-Weighed}

abbrev route : String → RouteConfig
route id = record {
  id = id;
  display_name = id;
  enabled = true;
  gateway_id = none;
  remote_model_id = id;
  level_map = some (λ level. named_level);
}

abbrev no_pool : Pool
no_pool = record { scheduling_policy = none; entries = [] }

abbrev three : List PoolRoute
three = new_entry "a" ∷ new_entry "b" ∷ new_entry "c" ∷ []

abbrev config : Config
config = record {
  routes = ("a", route "a") ∷ ("b", route "b") ∷ ("c", route "c") ∷ [];
  gateways = [];
  investigation_pool = record { scheduling_policy = none; entries = three };
  implementation_pool = no_pool;
  verification_pool = no_pool;
  boss_profiles = [];
}

abbrev same_url : String → Option String
same_url url = some url

valid : (id : String) → is_some (get config.routes id) ≡ true → IsEntry config.routes (new_entry id)
valid id h = record { configured = h; weight_le = omega arith }

config-IsPools : IsPools config
unfolding get
config-IsPools investigation = record {
  distinct = (refl, (refl, (refl, tt)));
  entries_ok = (valid "a" refl, (valid "b" refl, (valid "c" refl, tt)));
}
config-IsPools implementation = record { distinct = tt; entries_ok = tt }
config-IsPools verification = record { distinct = tt; entries_ok = tt }

abbrev after_up : Config
after_up =
    with_pool config investigation
      (record no_pool { entries = new_entry "a" ∷ new_entry "c" ∷ new_entry "b" ∷ [] })

goes_up : reorder config investigation "c" up ≡ ok after_up
unfolding reorder
goes_up = refl

twice : add_route config investigation "b" ≡ err duplicate_route
unfolding add_route get
twice = refl

reorder-Lands_example :
    Lands three (new_entry "a" ∷ new_entry "c" ∷ new_entry "b" ∷ []) "c" up (some 2)
reorder-Lands_example = reorder-Lands config after_up investigation "c" up goes_up

reorder-back_example : reorder after_up investigation "c" (to false 2) ≡ ok config
reorder-back_example =
    reorder-back config after_up investigation "c" up 2 config-IsPools refl goes_up

abbrev calls : List PoolCall
calls =
    add_call implementation "b"
    ∷ add_call implementation "b"
    ∷ weight_call investigation "a" (nat 7)
    ∷ reorder_call investigation "a" down
    ∷ []

after_changes-IsPools_example : IsPools (after_changes same_url config calls)
after_changes-IsPools_example = after_changes-IsPools same_url config calls config-IsPools

abbrev reweighed : Config
reweighed = with_pool config investigation (record no_pool {
  entries =
      weigh_entry 5 (new_entry "a")
      ∷ weigh_entry 0 (new_entry "b")
      ∷ weigh_entry 9 (new_entry "c")
      ∷ [];
})

weighs :
    update_pool_weights config investigation (("a", nat 5) ∷ ("c", nat 9) ∷ ("b", nat 0) ∷ [])
    ≡ ok reweighed
unfolding update_pool_weights get
weighs = refl

too_heavy :
    update_pool_weights config investigation (("a", nat 5) ∷ ("c", nat 1000001) ∷ ("b", nat 0) ∷ [])
    ≡ err invalid_weight
unfolding update_pool_weights get
too_heavy = refl

update_pool_weights-Weighed_example :
    (matches ("a" ∷ "b" ∷ "c" ∷ []) (("a", nat 5) ∷ ("c", nat 9) ∷ ("b", nat 0) ∷ []) ≡ true)
    × Weighed
        (("a", nat 5) ∷ ("c", nat 9) ∷ ("b", nat 0) ∷ [])
        three
        (entries_of reweighed investigation)
    × (reweighed
        ≡ with_pool config investigation (record (pool_of config investigation) {
          entries = entries_of reweighed investigation;
        }))
update_pool_weights-Weighed_example =
    update_pool_weights-Weighed config reweighed investigation
      (("a", nat 5) ∷ ("c", nat 9) ∷ ("b", nat 0) ∷ []) weighs

abbrev shown : List PoolEntryView
shown = view_pool same_url config none investigation

abbrev with_effort : Config
with_effort = with_pool config investigation (record no_pool {
  entries =
      record (new_entry "a") { thinking_effort = some (explicit high) }
      ∷ new_entry "b"
      ∷ new_entry "c"
      ∷ [];
})

sets_effort :
    set_pool_entry_thinking_effort same_url config none config investigation "a" (explicit high)
    ≡ ok with_effort
unfolding set_pool_entry_thinking_effort get is_supported_thinking_effort
sets_effort = refl

set_pool_entry_thinking_effort-ShowsEffort_example :
    ShowsEffort same_url none config with_effort investigation "a" high
set_pool_entry_thinking_effort-ShowsEffort_example =
    set_pool_entry_thinking_effort-ShowsEffort same_url none config with_effort investigation "a"
      high sets_effort
