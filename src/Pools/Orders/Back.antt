-- ===== src/Pools/Orders/Back.antt =====
-- src/core/pools/index.ts: a `reorder` that takes the entry back to where it was.
use pi_multi_orchestrator.Prelude.{
  ℕ, ◌-◌, ◌≤◌, ◌≡◌, refl, ap, true, false, some, List, String, ◌===◌, length, ok, arith, Dict,
  remove_at, get_elem?, get_elem?-lt, length-remove_at, find_index-get_elem?, find_index-Distinct,
}
use pi_multi_orchestrator.Routing.Chain.{PoolId, investigation, implementation, verification}
use pi_multi_orchestrator.Pools.{
  PoolRoute, RouteConfig, Config, entries_of, with_pool, pool_of, moved, reorder, reordered,
  index_of, bounded_position, Target, to,
}
use pi_multi_orchestrator.Pools.Membership.{IsPools, IsPool, moved-IsPool}
use pi_multi_orchestrator.Pools.Orders.{entries_of-with_pool, moved-lands, moved-back}

length-moved :
    (entries : List PoolRoute) (i position : ℕ) (entry : PoolRoute)
    → get_elem? entries i ≡ some entry
    → position ≤ length entries - 1
    → length (moved entries i position) ≡ length entries
length-moved entries i position entry e h =
    let (there, rest) = moved-lands entries i position entry e h in
    let same : length (remove_at position (moved entries i position))
        ≡ length (remove_at i entries) =
      ap length rest in
    omega (
      arith,
      length-remove_at i entries (get_elem?-lt i entries e),
      length-remove_at position (moved entries i position)
          (get_elem?-lt position (moved entries i position) there),
      same,
    )

with_pool-back :
    (config : Config) (pool : PoolId) (entries : List PoolRoute)
    → (let there = with_pool config pool (record (pool_of config pool) { entries = entries }) in
        with_pool there pool (record (pool_of there pool) { entries = entries_of config pool }))
      ≡ config
with_pool-back config investigation entries = refl
with_pool-back config implementation entries = refl
with_pool-back config verification entries = refl

reordered-back :
    (routes : Dict RouteConfig) (entries : List PoolRoute) (i position : ℕ) (entry : PoolRoute)
    (id : String)
    → IsPool routes entries
    → get_elem? entries i ≡ some entry
    → (entry.route_id === id) ≡ true
    → position ≤ length entries - 1
    → reordered (moved entries i position) (index_of (moved entries i position) id) (to false i)
      ≡ ok entries
reordered-back routes entries i position entry id pool e named h =
    let (there, rest) = moved-lands entries i position entry e h in
    let found : index_of (moved entries i position) id ≡ some position =
      find_index-Distinct PoolRoute.route_id (moved entries i position) position entry id
        (moved-IsPool routes entries i position pool).distinct there named in
    let same : bounded_position (to false i) position (moved entries i position) ≡ i =
      omega (arith, length-moved entries i position entry e h, get_elem?-lt i entries e) in
    rw (found, same) (ap ok (moved-back entries i position entry e h))

-- In pools that list no route twice and only configured routes, with weights in range, a reordering
-- that succeeds is undone by a reordering of the same route to the position where it was found: that
-- one succeeds too, and the configuration is the one before.
pub reorder-back :
    (config after : Config) (pool : PoolId) (id : String) (target : Target) (i : ℕ)
    → IsPools config
    → index_of (entries_of config pool) id ≡ some i
    → reorder config pool id target ≡ ok after
    → reorder after pool id (to false i) ≡ ok config
unfolding reorder
reorder-back config after pool id target i pools found e =
    let entries = entries_of config pool in
    let position = bounded_position target i entries in
    let (entry, there, named) =
      find_index-get_elem? (λ entry. entry.route_id === id) entries i found in
    let same : with_pool config pool
          (record (pool_of config pool) { entries = moved entries i position })
        ≡ after =
      let made = rw found at e in cc in
    rw
      (
        ← same,
        entries_of-with_pool config pool (moved entries i position),
        reordered-back config.routes entries i position entry id (pools pool) there named
            (omega arith),
      )
      (ap ok (with_pool-back config pool (moved entries i position)))
