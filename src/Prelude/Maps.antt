-- ===== src/Prelude/Maps.antt =====
-- Objects used as dictionaries, `Record<string, V>`: association lists with a first match.
use Prim.Native.String.{String}
use mathlib.Core.Path.{◌≡◌, refl, ◌∙◌}
use mathlib.Core.Bool.{false}
use mathlib.Core.Logic.{◌⊎◌, inl, inr}
use mathlib.Core.Option.{Option, none, some}
use mathlib.Core.List.{List, [], ◌∷◌}
use native.Mathlib.Omega.{arith}
use text.Mathlib.TextEquality.{eq_iff}
use pi_multi_orchestrator.Prelude.Tests.{if◌then◌else◌, ◌===◌, ===_refl, Bool-cases}

abbrev pub Dict {ℓ} : Type ℓ → Type ℓ
Dict V = List (String × V)

module _ {ℓ} {V : Type ℓ} where
  -- `record[key]`.
  unfoldable pub get : Dict V → String → Option V
  get [] key = none
  get ((name, value) ∷ rest) key =
      let later = get rest key in if name === key then some value else later

  -- `{ ...record, [key]: value }`, which keeps the place of a key that is there.
  unfoldable pub put : Dict V → String → V → Dict V
  put [] key value = (key, value) ∷ []
  put ((name, old) ∷ rest) key value =
      let kept = (name, old) ∷ put rest key value in
      if name === key then (name, value) ∷ rest else kept

  pub get-put :
      (dict : Dict V) (key other : String) (value : V)
      → get (put dict key value) other ≡ (if key === other then some value else get dict other)
  unfolding get put
  get-put [] key other value = refl
  get-put ((name, old) ∷ rest) key other value =
      let later = get-put rest key other value in
      elim (Bool-cases (name === key)) [
        | inl here ↦ rw (here, (eq_iff name key).0 here) (ground arith)
        | inr elsewhere ↦
            rw elsewhere
              (ground (arith, later, eq_iff name other, eq_iff key other, eq_iff name key))
      ]

  pub get-put_self :
      (dict : Dict V) (key : String) (value : V) → get (put dict key value) key ≡ some value
  get-put_self dict key value = get-put dict key key value ∙ rw (===_refl key)

  -- A write elsewhere.
  pub get-put_other :
      (dict : Dict V) (key other : String) (value : V)
      → (key === other) ≡ false
      → get (put dict key value) other ≡ get dict other
  get-put_other dict key other value h = get-put dict key other value ∙ rw h

  pub put-cases :
      (dict : Dict V) (key other : String) (value found : V)
      → get (put dict key value) other ≡ some found
      → ((key ≡ other) × (value ≡ found))
        ⊎ (((key === other) ≡ false) × (get dict other ≡ some found))
  put-cases dict key other value found e = elim (Bool-cases (key === other)) [
    | inl here ↦
        let e' = rw (get-put dict key other value, here) at e in inl ((eq_iff key other).0 here, cc)
    | inr apart ↦ inr (apart, rw (get-put dict key other value, apart) at e)
  ]

  -- A write under a new key keeps what is there.
  pub put-kept :
      (dict : Dict V) (key other : String) (value found : V)
      → get dict key ≡ none
      → get dict other ≡ some found
      → get (put dict key value) other ≡ some found
  put-kept dict key other value found fresh there = elim (Bool-cases (key === other)) [
    | inl here ↦
        let same = (eq_iff key other).0 here in let fresh' = rw same at fresh in absurd (cc)
    | inr apart ↦ get-put_other dict key other value apart ∙ there
  ]
