-- ===== src/Prelude/Lists.antt =====
-- Lists as the source's arrays use them: by Boolean tests, measured by native numbers.
use Prim.Native.Nat.{ℕ, zero, suc, ◌+◌}
use Prim.Native.String.{String}
use mathlib.Core.Path.{◌≡◌, refl, sym, ap, ◌∙◌, subst}
use mathlib.Core.Logic.{inl, inr}
use mathlib.Core.Bool.{Bool, true, false, ◌||◌, ◌&&◌, false≢true}
use mathlib.Core.Option.{Option, none, some}
use mathlib.Core.List.{List, [], ◌∷◌, ◌++◌, Memᴰ}
use native.Mathlib.Omega.{arith}
use pi_multi_orchestrator.Prelude.Tests.{if◌then◌else◌, ◌===◌, Bool-cases}

module _ {ℓ} {A : Type ℓ} where
  abbrev pub length : List A → ℕ
  length [] = 0
  length (x ∷ xs) = suc (length xs)

  pub length-append : (xs ys : List A) → length (xs ++ ys) ≡ length xs + length ys
  length-append [] ys = omega arith
  length-append (x ∷ xs) ys = omega (arith, length-append xs ys)

  -- The elements that pass a test: `xs.filter(p)`.
  abbrev pub filter : (A → Bool) → List A → List A
  filter p [] = []
  filter p (x ∷ xs) = if p x then x ∷ filter p xs else filter p xs

  -- The first element that passes a test: `xs.find(p)`.
  abbrev pub find? : (A → Bool) → List A → Option A
  find? p [] = none
  find? p (x ∷ xs) = if p x then some x else find? p xs

  -- `xs.some(p)` and `xs.every(p)`.
  abbrev pub any : (A → Bool) → List A → Bool
  any p [] = false
  any p (x ∷ xs) = p x || any p xs

  abbrev pub all : (A → Bool) → List A → Bool
  all p [] = true
  all p (x ∷ xs) = p x && all p xs

  -- What holds of every element.
  abbrev pub All {κ} : (A → Type κ) → List A → Type κ
  All P [] = Unit
  All P (x ∷ xs) = P x × All P xs

  -- `xs[0]`.
  abbrev pub first : List A → Option A
  first [] = none
  first (x ∷ xs) = some x

module _ {ℓ κ} {A : Type ℓ} (P : A → Type κ) where
  pub All-mem : {a : A} (xs : List A) → All P xs → Memᴰ a xs → P a
  All-mem [] h m = elim m [ ]
  All-mem (x ∷ xs) (h, hs) (Memᴰ.head e) = subst P (sym e) h
  All-mem (x ∷ xs) (h, hs) (Memᴰ.tail m) = All-mem xs hs m

  pub All-of_mem : (xs : List A) → ((a : A) → Memᴰ a xs → P a) → All P xs
  All-of_mem [] h = tt
  All-of_mem (x ∷ xs) h = (h x (Memᴰ.head refl), All-of_mem xs (λ a m. h a (Memᴰ.tail m)))

module _ {ℓ} {A : Type ℓ} (p : A → Bool) where
  mem-kept :
      {a : A} (x : A) (xs ys : List A)
      → p x ≡ true
      → (Memᴰ a ys → Memᴰ a xs × (p a ≡ true))
      → Memᴰ a (x ∷ ys)
      → Memᴰ a (x ∷ xs) × (p a ≡ true)
  mem-kept x xs ys t rest (Memᴰ.head e) = (Memᴰ.head e, ap p e ∙ t)
  mem-kept x xs ys t rest (Memᴰ.tail m) = let (n, e) = rest m in (Memᴰ.tail n, e)

  pub mem-filter : {a : A} (xs : List A) → Memᴰ a (filter p xs) → Memᴰ a xs × (p a ≡ true)
  mem-filter [] m = elim m [ ]
  mem-filter (x ∷ xs) m = elim (Bool-cases (p x)) [
    | inl t ↦ mem-kept x xs (filter p xs) t (mem-filter xs) (rw t at m)
    | inr f ↦ let (n, e) = mem-filter xs (rw f at m) in (Memᴰ.tail n, e)
  ]

  pub filter-mem : {a : A} (xs : List A) → Memᴰ a xs → p a ≡ true → Memᴰ a (filter p xs)
  filter-mem [] m t = elim m [ ]
  filter-mem (x ∷ xs) (Memᴰ.head e) t = rw (sym (ap p e) ∙ t) (Memᴰ.head e)
  filter-mem (x ∷ xs) (Memᴰ.tail m) t = elim (Bool-cases (p x)) [
    | inl kept ↦ rw kept (Memᴰ.tail (filter-mem xs m t))
    | inr out ↦ rw out (filter-mem xs m t)
  ]

  found :
      {a : A} {xs : List A} (x : A) → p x ≡ true → some x ≡ some a → Memᴰ a (x ∷ xs) × (p a ≡ true)
  found {a} x t e = let same : x ≡ a = cc in (Memᴰ.head (sym same), rw (← same) t)

  -- What a search returns is an element that passes; when it returns nothing, none passes.
  pub find?-eq-some : {a : A} (xs : List A) → find? p xs ≡ some a → Memᴰ a xs × (p a ≡ true)
  find?-eq-some [] e = cc
  find?-eq-some {a} (x ∷ xs) e = elim (Bool-cases (p x)) [
    | inl t ↦ found x t (rw t at e)
    | inr f ↦ let (m, t) = find?-eq-some xs (rw f at e) in (Memᴰ.tail m, t)
  ]

  pub find?-eq-none : {a : A} (xs : List A) → find? p xs ≡ none → Memᴰ a xs → p a ≡ false
  find?-eq-none [] e m = elim m [ ]
  find?-eq-none (x ∷ xs) e (Memᴰ.head h) = rw h (ground arith)
  find?-eq-none (x ∷ xs) e (Memᴰ.tail m) = find?-eq-none xs (ground arith) m

  pub mem-any : {a : A} (xs : List A) → Memᴰ a xs → p a ≡ true → any p xs ≡ true
  mem-any [] m t = elim m [ ]
  mem-any (x ∷ xs) (Memᴰ.head e) t = rw (sym (ap p e) ∙ t)
  mem-any (x ∷ xs) (Memᴰ.tail m) t = rw (mem-any xs m t) (ground arith)

  pub any-mem : (xs : List A) → any p xs ≡ true → (a : A) × Memᴰ a xs × (p a ≡ true)
  any-mem [] t = absurd (false≢true t)
  any-mem (x ∷ xs) t = elim (Bool-cases (p x)) [
    | inl h ↦ (x, Memᴰ.head refl, h)
    | inr f ↦ let (a, m, h) = any-mem xs (rw f at t) in (a, Memᴰ.tail m, h)
  ]

  pub all-mem : {a : A} (xs : List A) → all p xs ≡ true → Memᴰ a xs → p a ≡ true
  all-mem [] t m = elim m [ ]
  all-mem (x ∷ xs) t (Memᴰ.head e) = rw e (ground arith)
  all-mem (x ∷ xs) t (Memᴰ.tail m) = all-mem xs (ground arith) m

-- `ids.includes(id)` and `new Set(ids).has(id)`.
abbrev pub includes : List String → String → Bool
includes ids id = any (λ other. other === id) ids

-- `xs.slice(0, n)`.
abbrev pub take {ℓ} : {A : Type ℓ} → ℕ → List A → List A
take zero xs = []
take (suc n) [] = []
take (suc n) (x ∷ xs) = x ∷ take n xs
