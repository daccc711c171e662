-- ===== src/Prelude/Sort.antt =====
-- The stable sort of `Array.prototype.sort`, by a comparison "not after".
use Prim.Native.Nat.{ℕ, ◌≤◌}
use mathlib.Core.Path.{◌≡◌, refl, ap, sym}
use mathlib.Core.Logic.{◌⊎◌, inl, inr}
use mathlib.Core.Bool.{Bool, true, false}
use mathlib.Core.Option.{Option, none, some}
use mathlib.Core.List.{List, [], ◌∷◌, map}
use mathlib.Core.List.Memᴰ
use mathlib.Core.List.{Memᴰ}
use native.Mathlib.Omega.{arith}
use pi_multi_orchestrator.Prelude.Tests.{if◌then◌else◌, Bool-cases}
use pi_multi_orchestrator.Prelude.Lists.{All, All-mem, All-of_mem, filter, mem-filter, first}

module _ {ℓ} {A : Type ℓ} (le : A → A → Bool) where
  -- Behind the elements that it is after, before the others.
  abbrev pub insert_sorted : A → List A → List A
  insert_sorted x [] = x ∷ []
  insert_sorted x (y ∷ ys) = if le x y then x ∷ y ∷ ys else y ∷ insert_sorted x ys

  abbrev pub sort : List A → List A
  sort [] = []
  sort (x ∷ xs) = insert_sorted x (sort xs)

  later : {a x y : A} {ys : List A} → (a ≡ y) ⊎ ((a ≡ x) ⊎ Memᴰ a ys) → (a ≡ x) ⊎ Memᴰ a (y ∷ ys)
  later (inl e) = inr (Memᴰ.head e)
  later (inr (inl e)) = inl e
  later (inr (inr m)) = inr (Memᴰ.tail m)

  deeper : {a y : A} {P Q : Type ℓ} → (a ≡ y) ⊎ P → (P → Q) → (a ≡ y) ⊎ Q
  deeper (inl e) f = inl e
  deeper (inr p) f = inr (f p)

  mem-insert_sorted :
      {a : A} (x : A) (ys : List A) → Memᴰ a (insert_sorted x ys) → (a ≡ x) ⊎ Memᴰ a ys
  mem-insert_sorted x [] (Memᴰ.head e) = inl e
  mem-insert_sorted x [] (Memᴰ.tail m) = elim m [ ]
  mem-insert_sorted x (y ∷ ys) m = elim (Bool-cases (le x y)) [
    | inl t ↦ Memᴰ.cases_cons (rw t at m)
    | inr f ↦ later (deeper (Memᴰ.cases_cons (rw f at m)) (mem-insert_sorted x ys))
  ]

  insert_sorted-mem_self : (x : A) (ys : List A) → Memᴰ x (insert_sorted x ys)
  insert_sorted-mem_self x [] = Memᴰ.head refl
  insert_sorted-mem_self x (y ∷ ys) = elim (Bool-cases (le x y)) [
    | inl t ↦ rw t (Memᴰ.head refl)
    | inr f ↦ rw f (Memᴰ.tail (insert_sorted-mem_self x ys))
  ]

  insert_sorted-mem : {a : A} (x : A) (ys : List A) → Memᴰ a ys → Memᴰ a (insert_sorted x ys)
  insert_sorted-mem x [] m = elim m [ ]
  insert_sorted-mem x (y ∷ ys) (Memᴰ.head e) = elim (Bool-cases (le x y)) [
    | inl t ↦ rw t (Memᴰ.tail (Memᴰ.head e))
    | inr f ↦ rw f (Memᴰ.head e)
  ]
  insert_sorted-mem x (y ∷ ys) (Memᴰ.tail m) = elim (Bool-cases (le x y)) [
    | inl t ↦ rw t (Memᴰ.tail (Memᴰ.tail m))
    | inr f ↦ rw f (Memᴰ.tail (insert_sorted-mem x ys m))
  ]

  -- Sorting keeps the elements.
  pub mem-sort : {a : A} (xs : List A) → Memᴰ a (sort xs) → Memᴰ a xs
  mem-sort [] m = m
  mem-sort (x ∷ xs) m = elim (mem-insert_sorted x (sort xs) m) [
    | inl e ↦ Memᴰ.head e
    | inr n ↦ Memᴰ.tail (mem-sort xs n)
  ]

  pub sort-mem : {a : A} (xs : List A) → Memᴰ a xs → Memᴰ a (sort xs)
  sort-mem [] m = m
  sort-mem (x ∷ xs) (Memᴰ.head e) = Memᴰ.cast e (insert_sorted-mem_self x (sort xs))
  sort-mem (x ∷ xs) (Memᴰ.tail m) = insert_sorted-mem x (sort xs) (sort-mem xs m)

-- Each element has a key that is at most the keys behind it.
abbrev pub Ascending {ℓ} : {A : Type ℓ} → (A → ℕ) → List A → Type 0
Ascending key [] = Unit
Ascending key (x ∷ xs) = All (λ y. key x ≤ key y) xs × Ascending key xs

module _ {ℓ} {A : Type ℓ} (le : A → A → Bool) (key : A → ℕ)
    (below : (x y : A) → le x y ≡ true → key x ≤ key y)
    (above : (x y : A) → le x y ≡ false → key y ≤ key x) where
  All-insert_sorted :
      (k : ℕ) (x : A) (ys : List A)
      → k ≤ key x
      → All (λ y. k ≤ key y) ys
      → All (λ y. k ≤ key y) (insert_sorted le x ys)
  All-insert_sorted k x [] h hs = (h, tt)
  All-insert_sorted k x (y ∷ ys) h (g, gs) = elim (Bool-cases (le x y)) [
    | inl t ↦ rw t (h, (g, gs))
    | inr f ↦ rw f (g, All-insert_sorted k x ys h gs)
  ]

  All-weaken : {j k : ℕ} (ys : List A) → j ≤ k → All (λ y. k ≤ key y) ys → All (λ y. j ≤ key y) ys
  All-weaken [] h hs = tt
  All-weaken (y ∷ ys) h (g, gs) = (omega arith, All-weaken ys h gs)

  insert_sorted-Ascending :
      (x : A) (ys : List A) → Ascending key ys → Ascending key (insert_sorted le x ys)
  insert_sorted-Ascending x [] h = (tt, tt)
  insert_sorted-Ascending x (y ∷ ys) (g, gs) = elim (Bool-cases (le x y)) [
    | inl t ↦ rw t ((below x y t, All-weaken ys (below x y t) g), (g, gs))
    | inr f ↦ rw f (All-insert_sorted (key y) x ys (above x y f) g, insert_sorted-Ascending x ys gs)
  ]

  pub sort-Ascending : (xs : List A) → Ascending key (sort le xs)
  sort-Ascending [] = tt
  sort-Ascending (x ∷ xs) = insert_sorted-Ascending x (sort le xs) (sort-Ascending xs)

-- Leaving elements out keeps the order.
module _ {ℓ} {A : Type ℓ} (key : A → ℕ) where
  pub head-Ascending :
      {a : A} (x : A) (xs : List A) → Ascending key (x ∷ xs) → Memᴰ a (x ∷ xs) → key x ≤ key a
  head-Ascending x xs (h, hs) (Memᴰ.head e) = rw e (omega arith)
  head-Ascending x xs (h, hs) (Memᴰ.tail m) = All-mem (λ y. key x ≤ key y) xs h m

  pub Ascending-filter :
      (p : A → Bool) (xs : List A) → Ascending key xs → Ascending key (filter p xs)
  Ascending-filter p [] h = tt
  Ascending-filter p (x ∷ xs) (h, hs) = elim (Bool-cases (p x)) [
    | inl t ↦ rw t (
      All-of_mem (λ y. key x ≤ key y) (filter p xs)
          (λ a m. All-mem (λ y. key x ≤ key y) xs h (mem-filter p xs m).0),
      Ascending-filter p xs hs,
    )
    | inr f ↦ rw f (Ascending-filter p xs hs)
  ]

  pub first-le :
      {a b : A} (xs : List A) → Ascending key xs → first xs ≡ some a → Memᴰ b xs → key a ≤ key b
  first-le [] h e m = elim m [ ]
  first-le (x ∷ xs) h e m = omega (arith, head-Ascending x xs h m, ap key_or (sym e))
    where
      key_or : Option A → ℕ
      key_or none = 0
      key_or (some y) = key y

  pub Ascending-map {κ} :
      {B : Type κ} (f : B → A) (xs : List B)
      → Ascending (λ b. key (f b)) xs
      → Ascending key (map f xs)
  Ascending-map f [] h = tt
  Ascending-map f (x ∷ xs) (h, hs) = (all_map xs h, Ascending-map f xs hs)
    where
      all_map :
          (ys : List _)
          → All (λ b. key (f x) ≤ key (f b)) ys
          → All (λ y. key (f x) ≤ key y) (map f ys)
      all_map [] h = tt
      all_map (y ∷ ys) (h, hs) = (h, all_map ys hs)
