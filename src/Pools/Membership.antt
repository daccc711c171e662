-- ===== src/Pools/Membership.antt =====
-- src/core/pools/index.ts: what holds of the pools after a change of their entries.
use pi_multi_orchestrator.Prelude.{
  ◌==◌, ℕ, ◌≤◌, ◌≡◌, refl, ◌∙◌, subst, true, Option, none, some, List, [], ◌∷◌, String, Number,
  ◌===◌, or_else, is_some, get, Dict, Result, ok, arith, Bool-cases, inl, inr, bind-eq-ok,
  safe_nat?, get_elem?, remove_at, Distinct, Distinct-remove_at, Distinct-insert_at,
  has_key-removed, All, All-remove_at, All-insert_at, All-get_elem?,
}
use pi_multi_orchestrator.Routing.Chain.{PoolId, investigation, implementation, verification}
use pi_multi_orchestrator.Pools.{
  PoolRoute, RouteConfig, Config, PoolManagerError, entries_of, with_pool, pool_of, mutate, moved,
  insert_taken, change_entry, weigh_all, weigh_entry, assert_weight, within_weight,
  max_pool_entry_weight, is_member,
}

-- An entry names a configured route and has a weight in range.
pub record IsEntry (routes : Dict RouteConfig) (entry : PoolRoute) : Type 0 where
  pub configured : is_some (get routes entry.route_id) ≡ true
  pub weight_le : or_else entry.weight 1 ≤ max_pool_entry_weight

pub record IsPool (routes : Dict RouteConfig) (entries : List PoolRoute) : Type 0 where
  pub distinct : Distinct PoolRoute.route_id entries
  pub entries_ok : All (IsEntry routes) entries

-- The entries of two lists are of the same routes, and a weight in range stays so.
abbrev pub Keeps : List PoolRoute → List PoolRoute → Type 0
Keeps [] [] = Unit
Keeps (x ∷ xs) (y ∷ ys) =
    (x.route_id ≡ y.route_id)
    × (or_else x.weight 1 ≤ max_pool_entry_weight → or_else y.weight 1 ≤ max_pool_entry_weight)
    × Keeps xs ys
Keeps _ _ = ⊥

Keeps-refl : (xs : List PoolRoute) → Keeps xs xs
Keeps-refl [] = tt
Keeps-refl (x ∷ xs) = (refl, λ h. h, Keeps-refl xs)

Keeps-has_key :
    (xs ys : List PoolRoute) (id : String) → Keeps xs ys → is_member ys id ≡ is_member xs id
Keeps-has_key [] [] id h = refl
Keeps-has_key (x ∷ xs) (y ∷ ys) id (e, w, hs) = rw (e, Keeps-has_key xs ys id hs)
Keeps-has_key [] (y ∷ ys) id h = absurd h
Keeps-has_key (x ∷ xs) [] id h = absurd h

module _ (routes : Dict RouteConfig) where
  pub Keeps-IsPool : (xs ys : List PoolRoute) → Keeps xs ys → IsPool routes xs → IsPool routes ys
  Keeps-IsPool [] [] k h = h
  Keeps-IsPool (x ∷ xs) (y ∷ ys) (e, w, ks) h =
      let rest =
        Keeps-IsPool xs ys ks (record { distinct = h.distinct.1; entries_ok = h.entries_ok.1 }) in
      record {
        distinct = (Keeps-has_key xs ys y.route_id ks ∙ rw (← e) h.distinct.0, rest.distinct);
        entries_ok = (
          record {
            configured = rw (← e) h.entries_ok.0.configured;
            weight_le = w h.entries_ok.0.weight_le;
          },
          rest.entries_ok,
        );
      }
  Keeps-IsPool [] (y ∷ ys) k h = absurd k
  Keeps-IsPool (x ∷ xs) [] k h = absurd k

  pub remove_at-IsPool :
      (i : ℕ) (entries : List PoolRoute)
      → IsPool routes entries
      → IsPool routes (remove_at i entries)
  remove_at-IsPool i entries h = record {
    distinct = Distinct-remove_at PoolRoute.route_id i entries h.distinct;
    entries_ok = All-remove_at (IsEntry routes) i entries h.entries_ok;
  }

  insert_taken-IsPool :
      (entries : List PoolRoute) (i position : ℕ) (taken : Option PoolRoute)
      → get_elem? entries i ≡ taken
      → IsPool routes entries
      → IsPool routes (insert_taken position taken (remove_at i entries))
  insert_taken-IsPool entries i position none e h = remove_at-IsPool i entries h
  insert_taken-IsPool entries i position (some entry) e h =
      let rest = remove_at-IsPool i entries h in
      record {
        distinct =
            Distinct-insert_at PoolRoute.route_id position entry (remove_at i entries)
              (has_key-removed PoolRoute.route_id i entries entry h.distinct e) rest.distinct;
        entries_ok =
            All-insert_at (IsEntry routes) position entry (remove_at i entries)
              (All-get_elem? (IsEntry routes) i entries entry h.entries_ok e) rest.entries_ok;
      }

  pub moved-IsPool :
      (entries : List PoolRoute) (i position : ℕ)
      → IsPool routes entries
      → IsPool routes (moved entries i position)
  unfolding moved
  moved-IsPool entries i position h = elim (Bool-cases (position == i)) [
    | inl t ↦ rw t h
    | inr f ↦ rw f (insert_taken-IsPool entries i position (get_elem? entries i) refl h)
  ]

pub change_entry-Keeps :
    (change : PoolRoute → PoolRoute) (id : String) (xs ys : List PoolRoute)
    → ((x : PoolRoute)
        → (x.route_id ≡ (change x).route_id)
          × (or_else x.weight 1 ≤ max_pool_entry_weight
              → or_else (change x).weight 1 ≤ max_pool_entry_weight))
    → change_entry change id xs ≡ ok ys
    → Keeps xs ys
unfolding change_entry
change_entry-Keeps change id [] ys keeps e = cc
change_entry-Keeps change id (x ∷ xs) ys keeps e = elim (Bool-cases (x.route_id === id)) [
  | inl t ↦
      let same = rw t at e in
      let eq : change x ∷ xs ≡ ys = cc in
      subst (Keeps (x ∷ xs)) eq ((keeps x).0, (keeps x).1, Keeps-refl xs)
  | inr f ↦
      let (rest, made, returned) =
        bind-eq-ok (change_entry change id xs) (λ changed. ok (x ∷ changed)) (rw f at e) in
      let eq : x ∷ rest ≡ ys = cc in
      subst (Keeps (x ∷ xs)) eq (refl, λ h. h, change_entry-Keeps change id xs rest keeps made)
]

pub assert_weight_le :
    (weight : Option Number) (n : ℕ) → assert_weight weight ≡ ok n → n ≤ max_pool_entry_weight
unfolding assert_weight
assert_weight_le none n e = cc
assert_weight_le (some x) n e = within (safe_nat? x) e
  where
    within : (read : Option ℕ) → within_weight read ≡ ok n → n ≤ max_pool_entry_weight
    within none e = cc
    within (some m) e = ground arith

pub weigh_all-Keeps :
    (weights : Dict Number) (xs ys : List PoolRoute)
    → weigh_all PoolRoute.route_id weigh_entry weights xs ≡ ok ys
    → Keeps xs ys
unfolding weigh_all
weigh_all-Keeps weights [] [] e = tt
weigh_all-Keeps weights [] (y ∷ ys) e = cc
weigh_all-Keeps weights (x ∷ xs) ys e =
    let (n, asserted, left) = bind-eq-ok (assert_weight (get weights x.route_id)) _ e in
    let (rest, made, returned) =
      bind-eq-ok (weigh_all PoolRoute.route_id weigh_entry weights xs)
        (λ weighed. ok (weigh_entry n x ∷ weighed)) left in
    let eq : weigh_entry n x ∷ rest ≡ ys = cc in
    subst (Keeps (x ∷ xs)) eq (
      refl,
      λ h. assert_weight_le (get weights x.route_id) n asserted,
      weigh_all-Keeps weights xs rest made,
    )

-- All three pools are in order.
abbrev pub IsPools : Config → Type 0
IsPools config = (pool : PoolId) → IsPool config.routes (entries_of config pool)

with_pool-IsPools :
    (config : Config) (pool : PoolId) (entries : List PoolRoute)
    → IsPools config
    → IsPool config.routes entries
    → IsPools (with_pool config pool (record (pool_of config pool) { entries = entries }))
with_pool-IsPools config investigation entries h k investigation = k
with_pool-IsPools config investigation entries h k implementation = h implementation
with_pool-IsPools config investigation entries h k verification = h verification
with_pool-IsPools config implementation entries h k investigation = h investigation
with_pool-IsPools config implementation entries h k implementation = k
with_pool-IsPools config implementation entries h k verification = h verification
with_pool-IsPools config verification entries h k investigation = h investigation
with_pool-IsPools config verification entries h k implementation = h implementation
with_pool-IsPools config verification entries h k verification = k

pub mutate-IsPools :
    (config : Config) (pool : PoolId) (mutated : Result PoolManagerError (List PoolRoute))
    (after : Config)
    → mutate config pool mutated ≡ ok after
    → IsPools config
    → ((entries : List PoolRoute) → mutated ≡ ok entries → IsPool config.routes entries)
    → IsPools after
mutate-IsPools config pool mutated after e h k =
    let (entries, made, returned) =
      bind-eq-ok mutated
        (λ entries. ok (with_pool config pool (record (pool_of config pool) { entries = entries })))
        e in
    let same : with_pool config pool (record (pool_of config pool) { entries = entries }) ≡ after =
      cc in
    subst IsPools same (with_pool-IsPools config pool entries h (k entries made))
