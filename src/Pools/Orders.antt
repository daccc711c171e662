-- ===== src/Pools/Orders.antt =====
-- src/core/pools/index.ts: `reorder` moves one entry and keeps the order of the others.
pub mod Back
use pi_multi_orchestrator.Prelude.{
  ℕ, zero, suc, ◌-◌, ◌≤◌, ◌≡◌, refl, sym, ◌∙◌, ap, true, false, Option, none, some, List, [], ◌∷◌,
  String, ◌==◌, ◌===◌, length, Result, ok, err, arith, Bool-cases, inl, inr, get_elem?, remove_at,
  insert_at, get_elem?-insert_at, remove_at-insert_at, length-remove_at, get_elem?-lt,
  find_index-get_elem?,
}
use pi_multi_orchestrator.Routing.Chain.{PoolId, investigation, implementation, verification}
use pi_multi_orchestrator.Pools.{
  PoolRoute, Config, PoolManagerError, entries_of, with_pool, pool_of, mutate, moved, reorder,
  reordered, index_of, bounded_position, Target,
}

pub entries_of-with_pool :
    (config : Config) (pool : PoolId) (entries : List PoolRoute)
    → entries_of (with_pool config pool (record (pool_of config pool) { entries = entries })) pool
      ≡ entries
entries_of-with_pool config investigation entries = refl
entries_of-with_pool config implementation entries = refl
entries_of-with_pool config verification entries = refl

pub mutate-ok :
    (config : Config) (pool : PoolId) (mutated : Result PoolManagerError (List PoolRoute))
    (after : Config)
    → mutate config pool mutated ≡ ok after
    → (entries : List PoolRoute) × (mutated ≡ ok entries) × (entries_of after pool ≡ entries)
mutate-ok config pool (ok entries) after e =
    let same : with_pool config pool (record (pool_of config pool) { entries = entries }) ≡ after =
      cc in
    (entries, refl, rw (← same) (entries_of-with_pool config pool entries))
mutate-ok config pool (err why) after e = cc

insert_at-remove_at :
    (entries : List PoolRoute) (i : ℕ) (entry : PoolRoute)
    → get_elem? entries i ≡ some entry
    → insert_at i entry (remove_at i entries) ≡ entries
insert_at-remove_at [] i entry e = cc
insert_at-remove_at (x ∷ []) zero entry e = cc
insert_at-remove_at (x ∷ y ∷ xs) zero entry e = cc
insert_at-remove_at (x ∷ xs) (suc i) entry e = ap (λ ys. x ∷ ys) (insert_at-remove_at xs i entry e)

pub moved-lands :
    (entries : List PoolRoute) (i position : ℕ) (entry : PoolRoute)
    → get_elem? entries i ≡ some entry
    → position ≤ length entries - 1
    → (get_elem? (moved entries i position) position ≡ some entry)
      × (remove_at position (moved entries i position) ≡ remove_at i entries)
unfolding moved
moved-lands entries i position entry e h =
    let room : position ≤ length (remove_at i entries) =
      omega
        (arith, length-remove_at i entries (get_elem?-lt i entries e), get_elem?-lt i entries e) in
    elim (Bool-cases (position == i)) [
      | inl t ↦ let same : position ≡ i = ground arith in rw t (rw same (e, refl))
      | inr f ↦
          rw (f, e)
            (
              get_elem?-insert_at position entry (remove_at i entries) room,
              remove_at-insert_at position entry (remove_at i entries) room,
            )
    ]

moved-stay :
    (entries : List PoolRoute) (i position : ℕ) → position ≡ i → moved entries i position ≡ entries
unfolding moved
moved-stay entries i position same = ground arith

moved-apart :
    (entries : List PoolRoute) (i position : ℕ) (entry : PoolRoute)
    → get_elem? entries i ≡ some entry
    → (position == i) ≡ false
    → moved entries i position ≡ insert_at position entry (remove_at i entries)
unfolding moved
moved-apart entries i position entry e apart = rw (apart, e)

-- Moving an entry to a position of the list and then back to where it was restores the list.
pub moved-back :
    (entries : List PoolRoute) (i position : ℕ) (entry : PoolRoute)
    → get_elem? entries i ≡ some entry
    → position ≤ length entries - 1
    → moved (moved entries i position) position i ≡ entries
moved-back entries i position entry e h =
    let (there, rest) = moved-lands entries i position entry e h in
    elim (Bool-cases (i == position)) [
      | inl t ↦
          let same : i ≡ position = ground arith in
          moved-stay (moved entries i position) position i same
          ∙ moved-stay entries i position (sym same)
      | inr f ↦
          moved-apart (moved entries i position) position i entry there f
          ∙ ap (insert_at i entry) rest
          ∙ insert_at-remove_at entries i entry e
    ]

abbrev pub Lands : List PoolRoute → List PoolRoute → String → Target → Option ℕ → Type 0
Lands entries after id target found =
    (i : ℕ) × (entry : PoolRoute) × (found ≡ some i)
    × (get_elem? entries i ≡ some entry)
    × ((entry.route_id === id) ≡ true)
    × (get_elem? after (bounded_position target i entries) ≡ some entry)
    × (remove_at (bounded_position target i entries) after ≡ remove_at i entries)

reordered-Lands :
    (entries after : List PoolRoute) (id : String) (target : Target) (found : Option ℕ)
    → index_of entries id ≡ found
    → reordered entries found target ≡ ok after
    → Lands entries after id target found
reordered-Lands entries after id target none e r = cc
reordered-Lands entries after id target (some i) e r =
    let (entry, there, named) = find_index-get_elem? (λ entry. entry.route_id === id) entries i e in
    let (landed, rest) =
      moved-lands entries i (bounded_position target i entries) entry there (omega arith) in
    let same : moved entries i (bounded_position target i entries) ≡ after = cc in
    (i, entry, refl, there, named, rw (← same) landed, rw (← same) rest)

-- A reordering that succeeds takes the first entry of the route to the position asked for, cut to
-- the list, and keeps the order of all other entries.
pub reorder-Lands :
    (config after : Config) (pool : PoolId) (id : String) (target : Target)
    → reorder config pool id target ≡ ok after
    → Lands
        (entries_of config pool)
        (entries_of after pool)
        id
        target
        (index_of (entries_of config pool) id)
unfolding reorder
reorder-Lands config after pool id target e =
    let entries = entries_of config pool in
    let (made, r, same) =
      mutate-ok config pool (reordered entries (index_of entries id) target) after e in
    rw same (reordered-Lands entries made id target (index_of entries id) refl r)
