-- ===== src/Mission/Interruption/Stops.antt =====
-- src/core/mission/index.ts: the loops of an interruption leave no row that their query has found.
use mathlib.Core.List.{Memᴰ}
use pi_multi_orchestrator.Prelude.{
  ◌≡◌, refl, sym, ap, ◌∙◌, subst, inl, inr, Bool, true, false, Option, none, some, List, [], ◌∷◌,
  String, get, Dict, if◌then◌else◌, eq_iff, ===_refl, ◌===◌, arith, Bool-cases, filter, any,
  includes, All, All-of_mem, filter-mem, false≢true,
}
use pi_multi_orchestrator.Mission.{AttemptRecord, VerificationRun, Store}
use pi_multi_orchestrator.Mission.Attempt.{is_running, update}
use pi_multi_orchestrator.Mission.Review.{is_verifying}
use pi_multi_orchestrator.Mission.Interruption.{
  stopped_attempt, interrupted_attempt, interrupt_attempts, stopped_run, interrupted_run,
  interrupt_runs, keys,
}

includes-keys {ℓ} :
    {V : Type ℓ} (entry : String × V) (dict : Dict V)
    → Memᴰ entry dict
    → includes (keys dict) entry.0 ≡ true
includes-keys entry [] m = elim m [ ]
includes-keys entry (first ∷ dict) (Memᴰ.head e) =
    let named : (first.0 === entry.0) ≡ true =
      subst (λ key. (key === entry.0) ≡ true) (ap (λ row. row.0) e) (===_refl entry.0) in
    rw named
includes-keys entry (first ∷ dict) (Memᴰ.tail m) = rw (includes-keys entry dict m) (ground arith)

module _ {ℓ} {V : Type ℓ} (found : String × V → Bool) where
  -- The rows that the query would still find are among those that the loop has left to do.
  abbrev pub Covered : List String → Dict V → Type 0
  Covered ids = All (λ entry. found entry ≡ true → includes ids entry.0 ≡ true)

  pub filter-Covered : (dict : Dict V) → Covered (keys (filter found dict)) dict
  filter-Covered dict =
      All-of_mem (λ entry. found entry ≡ true → includes (keys (filter found dict)) entry.0 ≡ true)
        dict λ entry m hit. includes-keys entry (filter found dict) (filter-mem found dict m hit)

  pub none-Covered : (dict : Dict V) → Covered [] dict → any found dict ≡ false
  none-Covered [] c = refl
  none-Covered (entry ∷ dict) c = elim (Bool-cases (found entry)) [
    | inl hit ↦ absurd (false≢true (c.0 hit))
    | inr miss ↦ rw miss (none-Covered dict c.1)
  ]

  others :
      (id key : String) (ids : List String)
      → includes (id ∷ ids) key ≡ true
      → (key === id) ≡ false
      → includes ids key ≡ true
  others id key ids h apart = ground (arith, eq_iff id key, eq_iff key id)

  pub update-Covered :
      (change : V → V)
      → ((key : String) (value : V) → found (key, change value) ≡ false)
      → (id : String) (ids : List String) (dict : Dict V) → Covered (id ∷ ids) dict
      → Covered ids (update dict id change)
  update-Covered change stops id ids [] c = tt
  update-Covered change stops id ids ((key, value) ∷ dict) c =
      (head (key === id) refl, update-Covered change stops id ids dict c.1)
    where
      head :
          (b : Bool)
          → (key === id) ≡ b
          → found (key, if b then change value else value) ≡ true
          → includes ids key ≡ true
      head true here hit = absurd (false≢true (sym (stops key value) ∙ hit))
      head false apart hit = others id key ids (c.0 hit) apart

  absent-Covered :
      (id : String) (ids : List String) (dict : Dict V)
      → get dict id ≡ none
      → Covered (id ∷ ids) dict
      → Covered ids dict
  unfolding get
  absent-Covered id ids [] e c = tt
  absent-Covered id ids ((key, value) ∷ dict) e c = elim (Bool-cases (key === id)) [
    | inl here ↦ let there = rw here at e in absurd (cc)
    | inr apart ↦
        (λ hit. others id key ids (c.0 hit) apart, absent-Covered id ids dict (rw apart at e) c.1)
  ]

module _ (found : String × AttemptRecord → Bool)
    (stops : (key : String) (attempt : AttemptRecord)
      → found (key, stopped_attempt attempt) ≡ false) where
  interrupted_attempt-Covered :
      (store : Store) (id : String) (ids : List String)
      → Covered found (id ∷ ids) store.attempts
      → Covered found ids (interrupted_attempt store id (get store.attempts id)).attempts
  interrupted_attempt-Covered store id ids c = by (get store.attempts id) refl
    where
      by :
          (row : Option AttemptRecord)
          → get store.attempts id ≡ row
          → Covered found ids (interrupted_attempt store id row).attempts
      by none e = absent-Covered found id ids store.attempts e c
      by (some current) e = update-Covered found stopped_attempt stops id ids store.attempts c

  interrupt_attempts-Covered :
      (ids : List String) (store : Store)
      → Covered found ids store.attempts
      → Covered found [] (interrupt_attempts store ids).attempts
  unfolding interrupt_attempts
  interrupt_attempts-Covered [] store c = c
  interrupt_attempts-Covered (id ∷ ids) store c =
      interrupt_attempts-Covered ids (interrupted_attempt store id (get store.attempts id))
        (interrupted_attempt-Covered store id ids c)

  -- The loop over what the query has found leaves nothing for the query.
  pub interrupt_attempts-any :
      (store : Store)
      → any found (interrupt_attempts store (keys (filter found store.attempts))).attempts ≡ false
  interrupt_attempts-any store = none-Covered found _ (
      interrupt_attempts-Covered (keys (filter found store.attempts)) store
        (filter-Covered found store.attempts))

module _ (found : String × VerificationRun → Bool) (reason : String)
    (stops : (key : String) (run : VerificationRun)
      → found (key, stopped_run reason run) ≡ false) where
  interrupt_runs-Covered :
      (rows : Dict VerificationRun) (store : Store)
      → Covered found (keys rows) store.verifications
      → Covered found [] (interrupt_runs store reason rows).verifications
  unfolding interrupt_runs
  interrupt_runs-Covered [] store c = c
  interrupt_runs-Covered (row ∷ rows) store c =
      interrupt_runs-Covered rows (interrupted_run store reason row)
        (update-Covered found (stopped_run reason) stops row.0 (keys rows) store.verifications c)

  pub interrupt_runs-any :
      (store : Store) (rows : Dict VerificationRun)
      → filter found store.verifications ≡ rows
      → any found (interrupt_runs store reason rows).verifications ≡ false
  interrupt_runs-any store rows e = none-Covered found _ (
      interrupt_runs-Covered rows store (
        subst (λ rows. Covered found (keys rows) store.verifications) e
          (filter-Covered found store.verifications)))

pub stopped_attempt-is_running :
    (attempt : AttemptRecord) → is_running (stopped_attempt attempt).status ≡ false
stopped_attempt-is_running attempt = elim (Bool-cases (is_running attempt.status)) [
  | inl t ↦ rw t refl
  | inr f ↦ rw f f
]

pub stopped_run-is_verifying :
    (reason : String) (run : VerificationRun) → is_verifying (stopped_run reason run).status ≡ false
stopped_run-is_verifying reason run = elim (Bool-cases (is_verifying run.status)) [
  | inl t ↦ rw t refl
  | inr f ↦ rw f f
]

-- What the loops leave alone.
pub record SameTables (store after : Store) : Type 0 where
  pub missions : store.missions ≡ after.missions
  pub leases : store.leases ≡ after.leases

pub interrupt_attempts-SameTables :
    (store : Store) (ids : List String)
    → SameTables store (interrupt_attempts store ids)
      × (store.verifications ≡ (interrupt_attempts store ids).verifications)
unfolding interrupt_attempts
interrupt_attempts-SameTables store [] = (record { missions = refl; leases = refl }, refl)
interrupt_attempts-SameTables store (id ∷ ids) =
    let (m, l, v) = once (get store.attempts id) in
    let (rest, v') =
      interrupt_attempts-SameTables (interrupted_attempt store id (get store.attempts id)) ids in
    (record { missions = m ∙ rest.missions; leases = l ∙ rest.leases }, v ∙ v')
  where
    once :
        (row : Option AttemptRecord)
        → (store.missions ≡ (interrupted_attempt store id row).missions)
          × (store.leases ≡ (interrupted_attempt store id row).leases)
          × (store.verifications ≡ (interrupted_attempt store id row).verifications)
    once none = (refl, refl, refl)
    once (some current) = (refl, refl, refl)

pub interrupt_runs-SameTables :
    (store : Store) (reason : String) (rows : Dict VerificationRun)
    → SameTables store (interrupt_runs store reason rows)
      × (store.attempts ≡ (interrupt_runs store reason rows).attempts)
unfolding interrupt_runs
interrupt_runs-SameTables store reason [] = (record { missions = refl; leases = refl }, refl)
interrupt_runs-SameTables store reason (row ∷ rows) =
    let (rest, a) = interrupt_runs-SameTables (interrupted_run store reason row) reason rows in
    (record { missions = rest.missions; leases = rest.leases }, a)
