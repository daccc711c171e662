-- ===== src/Prelude/Positions.antt =====
-- Arrays by their positions, `findIndex` and `splice`, and lists whose elements have distinct keys.
use Prim.Native.Nat.{ℕ, zero, suc, ◌<◌, ◌≤◌}
use Prim.Native.String.{String}
use mathlib.Core.Path.{◌≡◌, refl, ap, subst}
use mathlib.Core.Logic.{inl, inr}
use mathlib.Core.Bool.{Bool, true, false, ◌||◌}
use mathlib.Core.Option.{Option, none, some}
use mathlib.Core.List.{List, [], ◌∷◌, ◌++◌}
use native.Mathlib.Omega.{arith}
use text.Mathlib.TextEquality.{eq_iff}
use pi_multi_orchestrator.Prelude.Tests.{if◌then◌else◌, ◌===◌, Bool-cases}
use pi_multi_orchestrator.Prelude.Lists.{length, any, All}

abbrev pub next_index : Option ℕ → Option ℕ
next_index none = none
next_index (some i) = some (suc i)

module _ {ℓ} {A : Type ℓ} where
  -- `xs.findIndex(p)`, with no result in place of -1.
  abbrev pub find_index : (A → Bool) → List A → Option ℕ
  find_index p [] = none
  find_index p (x ∷ xs) = let rest = find_index p xs in if p x then some 0 else next_index rest

  abbrev pub get_elem? : List A → ℕ → Option A
  get_elem? [] i = none
  get_elem? (x ∷ xs) zero = some x
  get_elem? (x ∷ xs) (suc i) = get_elem? xs i

  -- `xs.splice(i, 1)`.
  abbrev pub remove_at : ℕ → List A → List A
  remove_at i [] = []
  remove_at zero (x ∷ xs) = xs
  remove_at (suc i) (x ∷ xs) = x ∷ remove_at i xs

  -- `xs.splice(i, 0, a)`.
  abbrev pub insert_at : ℕ → A → List A → List A
  insert_at i a [] = a ∷ []
  insert_at zero a (x ∷ xs) = a ∷ x ∷ xs
  insert_at (suc i) a (x ∷ xs) = x ∷ insert_at i a xs

  pub get_elem?-insert_at :
      (i : ℕ) (a : A) (xs : List A) → i ≤ length xs → get_elem? (insert_at i a xs) i ≡ some a
  get_elem?-insert_at zero a [] h = refl
  get_elem?-insert_at (suc i) a [] h = absurd (omega arith)
  get_elem?-insert_at zero a (x ∷ xs) h = refl
  get_elem?-insert_at (suc i) a (x ∷ xs) h = get_elem?-insert_at i a xs (omega arith)

  pub remove_at-insert_at :
      (i : ℕ) (a : A) (xs : List A) → i ≤ length xs → remove_at i (insert_at i a xs) ≡ xs
  remove_at-insert_at zero a [] h = refl
  remove_at-insert_at (suc i) a [] h = absurd (omega arith)
  remove_at-insert_at zero a (x ∷ xs) h = refl
  remove_at-insert_at (suc i) a (x ∷ xs) h =
      ap (λ ys. x ∷ ys) (remove_at-insert_at i a xs (omega arith))

  pub length-remove_at :
      (i : ℕ) (xs : List A) → i < length xs → suc (length (remove_at i xs)) ≡ length xs
  length-remove_at i [] h = absurd (omega arith)
  length-remove_at zero (x ∷ xs) h = refl
  length-remove_at (suc i) (x ∷ xs) h = omega (arith, length-remove_at i xs (omega arith))

  pub get_elem?-lt : (i : ℕ) (xs : List A) {a : A} → get_elem? xs i ≡ some a → i < length xs
  get_elem?-lt i [] e = cc
  get_elem?-lt zero (x ∷ xs) e = omega arith
  get_elem?-lt (suc i) (x ∷ xs) e = omega (arith, get_elem?-lt i xs e)

  -- What is found at an index stands there and passes.
  pub find_index-get_elem? :
      (p : A → Bool) (xs : List A) (i : ℕ)
      → find_index p xs ≡ some i
      → (a : A) × (get_elem? xs i ≡ some a) × (p a ≡ true)
  find_index-get_elem? p [] i e = cc
  find_index-get_elem? p (x ∷ xs) i e = elim (Bool-cases (p x)) [
    | inl t ↦ at_head x xs i t (rw t at e)
    | inr f ↦ behind x xs i (find_index p xs) (λ j h. find_index-get_elem? p xs j h) (rw f at e)
  ]
    where
      at_head :
          (x : A) (xs : List A) (i : ℕ)
          → p x ≡ true
          → some 0 ≡ some i
          → (a : A) × (get_elem? (x ∷ xs) i ≡ some a) × (p a ≡ true)
      at_head x xs zero t e = (x, refl, t)
      at_head x xs (suc i) t e = cc

      behind :
          (x : A) (xs : List A) (i : ℕ) (found : Option ℕ)
          → ((j : ℕ) → found ≡ some j → (a : A) × (get_elem? xs j ≡ some a) × (p a ≡ true))
          → next_index found ≡ some i
          → (a : A) × (get_elem? (x ∷ xs) i ≡ some a) × (p a ≡ true)
      behind x xs i none h e = cc
      behind x xs zero (some j) h e = cc
      behind x xs (suc i) (some j) h e = h i (ground arith)

module _ {ℓ} {A : Type ℓ} (key : A → String) where
  abbrev pub has_key : List A → String → Bool
  has_key xs k = any (λ x. key x === k) xs

  -- No two elements have the same key.
  abbrev pub Distinct : List A → Type 0
  Distinct [] = Unit
  Distinct (x ∷ xs) = (has_key xs (key x) ≡ false) × Distinct xs

  pub has_key-append :
      (xs : List A) (a : A) (k : String)
      → has_key (xs ++ (a ∷ [])) k ≡ (has_key xs k || (key a === k))
  has_key-append [] a k = ground arith
  has_key-append (x ∷ xs) a k = rw (has_key-append xs a k) (ground arith)

  pub Distinct-append :
      (xs : List A) (a : A) → Distinct xs → has_key xs (key a) ≡ false → Distinct (xs ++ (a ∷ []))
  Distinct-append [] a h n = (refl, tt)
  Distinct-append (x ∷ xs) a (h, hs) n = (
    rw (has_key-append xs a (key x))
        (ground (arith, eq_iff (key a) (key x), eq_iff (key x) (key a))),
    Distinct-append xs a hs (ground arith),
  )

  pub has_key-remove_at :
      (i : ℕ) (xs : List A) (k : String) → has_key xs k ≡ false → has_key (remove_at i xs) k ≡ false
  has_key-remove_at i [] k h = refl
  has_key-remove_at zero (x ∷ xs) k h = ground arith
  has_key-remove_at (suc i) (x ∷ xs) k h =
      rw (has_key-remove_at i xs k (ground arith)) (ground arith)

  pub Distinct-remove_at : (i : ℕ) (xs : List A) → Distinct xs → Distinct (remove_at i xs)
  Distinct-remove_at i [] h = tt
  Distinct-remove_at zero (x ∷ xs) (h, hs) = hs
  Distinct-remove_at (suc i) (x ∷ xs) (h, hs) =
      (has_key-remove_at i xs (key x) h, Distinct-remove_at i xs hs)

  pub has_key-insert_at :
      (i : ℕ) (a : A) (xs : List A) (k : String)
      → has_key (insert_at i a xs) k ≡ ((key a === k) || has_key xs k)
  has_key-insert_at i a [] k = refl
  has_key-insert_at zero a (x ∷ xs) k = refl
  has_key-insert_at (suc i) a (x ∷ xs) k = rw (has_key-insert_at i a xs k) (ground arith)

  pub Distinct-insert_at :
      (i : ℕ) (a : A) (xs : List A)
      → has_key xs (key a) ≡ false
      → Distinct xs
      → Distinct (insert_at i a xs)
  Distinct-insert_at i a [] n h = (refl, tt)
  Distinct-insert_at zero a (x ∷ xs) n h = (n, h)
  Distinct-insert_at (suc i) a (x ∷ xs) n (h, hs) = (
    rw (has_key-insert_at i a xs (key x))
        (ground (arith, eq_iff (key a) (key x), eq_iff (key x) (key a))),
    Distinct-insert_at i a xs (ground arith) hs,
  )

  -- What was removed is in the rest no more.
  pub has_key-removed :
      (i : ℕ) (xs : List A) (a : A)
      → Distinct xs
      → get_elem? xs i ≡ some a
      → has_key (remove_at i xs) (key a) ≡ false
  has_key-removed i [] a h e = cc
  has_key-removed zero (x ∷ xs) a (h, hs) e = let same : x ≡ a = cc in rw (← same) h
  has_key-removed (suc i) (x ∷ xs) a (h, hs) e =
      rw (has_key-removed i xs a hs e)
        (ground (arith, eq_iff (key x) (key a), missing (key x) i xs a e h))
    where
      missing :
          (k : String) (i : ℕ) (xs : List A) (a : A)
          → get_elem? xs i ≡ some a
          → has_key xs k ≡ false
          → (key a === k) ≡ false
      missing k i [] a e h = cc
      missing k zero (x ∷ xs) a e h = let same : x ≡ a = cc in rw (← same) (ground arith)
      missing k (suc i) (x ∷ xs) a e h = missing k i xs a e (ground arith)

  has_key-get_elem? :
      (xs : List A) (i : ℕ) (a : A) → get_elem? xs i ≡ some a → has_key xs (key a) ≡ true
  has_key-get_elem? [] i a e = cc
  has_key-get_elem? (x ∷ xs) zero a e =
      let same : x ≡ a = cc in rw (← same) (ground (arith, eq_iff (key x) (key x)))
  has_key-get_elem? (x ∷ xs) (suc i) a e = rw (has_key-get_elem? xs i a e) (ground arith)

  -- Where no two elements have the same key, an element is found by its key at its position.
  pub find_index-Distinct :
      (xs : List A) (i : ℕ) (a : A) (k : String)
      → Distinct xs
      → get_elem? xs i ≡ some a
      → (key a === k) ≡ true
      → find_index (λ x. key x === k) xs ≡ some i
  find_index-Distinct [] i a k h e named = cc
  find_index-Distinct (x ∷ xs) zero a k h e named = let same : x ≡ a = cc in rw (same, named) refl
  find_index-Distinct (x ∷ xs) (suc i) a k (h, hs) e named =
      rw (find_index-Distinct xs i a k hs e named)
        (ground (arith, eq_iff (key x) k, eq_iff (key a) k, h, has_key-get_elem? xs i a e))

module _ {ℓ κ} {A : Type ℓ} (P : A → Type κ) where
  pub All-append : (xs : List A) (a : A) → All P xs → P a → All P (xs ++ (a ∷ []))
  All-append [] a h k = (k, tt)
  All-append (x ∷ xs) a (h, hs) k = (h, All-append xs a hs k)

  pub All-remove_at : (i : ℕ) (xs : List A) → All P xs → All P (remove_at i xs)
  All-remove_at i [] h = tt
  All-remove_at zero (x ∷ xs) (h, hs) = hs
  All-remove_at (suc i) (x ∷ xs) (h, hs) = (h, All-remove_at i xs hs)

  pub All-insert_at : (i : ℕ) (a : A) (xs : List A) → P a → All P xs → All P (insert_at i a xs)
  All-insert_at i a [] k h = (k, tt)
  All-insert_at zero a (x ∷ xs) k h = (k, h)
  All-insert_at (suc i) a (x ∷ xs) k (h, hs) = (h, All-insert_at i a xs k hs)

  pub All-get_elem? : (i : ℕ) (xs : List A) (a : A) → All P xs → get_elem? xs i ≡ some a → P a
  All-get_elem? i [] a h e = cc
  All-get_elem? zero (x ∷ xs) a (h, hs) e = let same : x ≡ a = cc in subst P same h
  All-get_elem? (suc i) (x ∷ xs) a (h, hs) e = All-get_elem? i xs a hs e
