-- ===== src/Mission/Attempt/Rows.antt =====
-- src/core/mission/index.ts: what an UPDATE leaves in a table.
use pi_multi_orchestrator.Prelude.{
  ◌≡◌, refl, ◌⊎◌, inl, inr, Bool, true, false, some, [], ◌∷◌, ◌++◌, String, ◌===◌, eq_iff,
  if◌then◌else◌, get, Dict, arith, Bool-cases,
}
use pi_multi_orchestrator.Mission.Attempt.{update}

module _ {ℓ} {V : Type ℓ} where
  pub update-kept :
      (dict : Dict V) (key other : String) (change : V → V) (value : V)
      → get dict other ≡ some value
      → get (update dict key change) other ≡ some (if key === other then change value else value)
  unfolding get
  update-kept [] key other change value e = cc
  update-kept ((name, old) ∷ dict) key other change value e = elim (Bool-cases (name === other)) [
    | inl here ↦
        let found : old ≡ value = elim_some (rw here at e) in
        let same = (eq_iff name other).0 here in
        rw (here, found) (ground (arith, ===_sym name key other same))
    | inr apart ↦ rw apart (update-kept dict key other change value (rw apart at e))
  ]
    where
      elim_some : {a b : V} → some a ≡ some b → a ≡ b
      elim_some h = cc

      ===_sym : (name key other : String) → name ≡ other → (name === key) ≡ (key === other)
      ===_sym name key other same = ground (arith, eq_iff name key, eq_iff key other)

  pub update-cases :
      (dict : Dict V) (key other : String) (change : V → V) (value : V)
      → get (update dict key change) other ≡ some value
      → (old : V) × (get dict other ≡ some old) × ((value ≡ change old) ⊎ (value ≡ old))
  unfolding get
  update-cases [] key other change value e = absurd (cc)
  update-cases ((name, old) ∷ dict) key other change value e = elim (Bool-cases (name === other)) [
    | inl here ↦ (old, rw here refl, changed (name === key) (rw here at e))
    | inr apart ↦
        let (found, there, how) = update-cases dict key other change value (rw apart at e) in
        (found, rw apart there, how)
  ]
    where
      changed :
          (b : Bool)
          → some (if b then change old else old) ≡ some value
          → (value ≡ change old) ⊎ (value ≡ old)
      changed true h = inl (cc)
      changed false h = inr (cc)

  -- A row that is inserted last hides none.
  pub append-kept :
      (dict : Dict V) (entry : String × V) (other : String) (value : V)
      → get dict other ≡ some value
      → get (dict ++ (entry ∷ [])) other ≡ some value
  unfolding get
  append-kept [] entry other value e = cc
  append-kept ((name, old) ∷ dict) entry other value e = elim (Bool-cases (name === other)) [
    | inl here ↦ rw here (rw here at e)
    | inr apart ↦ rw apart (append-kept dict entry other value (rw apart at e))
  ]
