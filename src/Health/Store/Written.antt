-- ===== src/Health/Store/Written.antt =====
-- src/core/health/index.ts: what a write that succeeded leaves to be read.
use pi_multi_orchestrator.Prelude.{
  ℕ, ◌≡◌, ap, ◌∙◌, inl, inr, Bool, true, false, Option, some, [], ◌∷◌, String, ◌===◌, Dict, get,
  put, get-put_self, leb, none, refl, ◌⊎◌, ok, arith, Bool-cases, all,
}
use pi_multi_orchestrator.Health.Record.{RouteHealthRecord, is_stable_id}
use pi_multi_orchestrator.Health.Store.{
  HealthSnapshot, decoded, damaged_file, max_bytes, quarantine, empty_snapshot, Disk, Outcome,
  validate_snapshot, load_for_write, save, saveable, with_record, get_record, write_loaded,
  for_route,
}

pub save-ok :
    {A : Type 0} (disk : Disk) (s : HealthSnapshot) (result r : A)
    → (save disk s result).1 ≡ ok r
    → (saveable s ≡ true) × (result ≡ r)
unfolding save
save-ok disk s result r e = elim (Bool-cases (saveable s)) [
  | inl t ↦ let returned = rw t at e in (t, cc)
  | inr f ↦ let thrown = rw f at e in cc
]

pub get_record-save :
    {A : Type 0} (disk : Disk) (s : HealthSnapshot) (result : A) (id : String)
    → saveable s ≡ true
    → leb (disk.size s) max_bytes ≡ true
    → get_record (save disk s result).0 id ≡ get s.routes id
unfolding save get_record
get_record-save disk s result id t small =
    let valid : validate_snapshot s ≡ true = ground arith in rw (t, small) (rw valid)

pub get_record-save_large :
    {A : Type 0} (disk : Disk) (s : HealthSnapshot) (result : A) (id : String)
    → saveable s ≡ true
    → leb (disk.size s) max_bytes ≡ false
    → ((save disk s result).0.file ≡ damaged_file) × (get_record (save disk s result).0 id ≡ none)
unfolding save get_record get
get_record-save_large disk s result id t large = rw (t, large) (refl, refl)

pub load_for_write-save :
    {A : Type 0} (disk : Disk) (s : HealthSnapshot) (result : A) (now : ℕ)
    → saveable s ≡ true
    → leb (disk.size s) max_bytes ≡ true
    → load_for_write (save disk s result).0 now ≡ ((save disk s result).0, s)
unfolding save load_for_write
load_for_write-save disk s result now t small =
    let valid : validate_snapshot s ≡ true = ground arith in rw (t, small) (rw valid)

pub load_for_write-save_large :
    {A : Type 0} (disk : Disk) (s : HealthSnapshot) (result : A) (now : ℕ)
    → saveable s ≡ true
    → leb (disk.size s) max_bytes ≡ false
    → load_for_write (save disk s result).0 now
      ≡ (quarantine damaged_file (save disk s result).0, empty_snapshot now)
unfolding save load_for_write empty_snapshot
load_for_write-save_large disk s result now t large = rw (t, large) refl

-- A valid file is loaded as it is.
pub load_for_write-valid :
    (disk : Disk) (s : HealthSnapshot) (now : ℕ)
    → disk.file ≡ decoded s
    → validate_snapshot s ≡ true
    → load_for_write disk now ≡ (disk, s)
unfolding load_for_write
load_for_write-valid disk s now e t = rw e (rw t)

pub for_route-ok :
    {A : Type 0} (id : String) (disk : Disk) (outcome : Outcome A) (r : A)
    → (for_route id disk outcome).1 ≡ ok r
    → (is_stable_id id ≡ true) × (for_route id disk outcome ≡ outcome)
for_route-ok id disk outcome r e = elim (Bool-cases (is_stable_id id)) [
  | inl t ↦ (t, rw t)
  | inr f ↦ let thrown = rw f at e in cc
]

-- What is read of the route after a write: the record, or nothing, if the file has grown too large.
abbrev pub ReadsBack : Option RouteHealthRecord → RouteHealthRecord → Type 0
ReadsBack found r = (found ≡ some r) ⊎ (found ≡ none)

pub get_record-write_loaded :
    (now : ℕ) (id : String) (make : Option RouteHealthRecord → RouteHealthRecord)
    (loaded : Disk × HealthSnapshot) (r : RouteHealthRecord)
    → (write_loaded now id make loaded).1 ≡ ok r
    → ReadsBack (get_record (write_loaded now id make loaded).0 id) r
      × (make (get loaded.1.routes id) ≡ r)
get_record-write_loaded now id make (disk, s) r e =
    let made = make (get s.routes id) in
    let (t, same) = save-ok disk (with_record s now id made) made r e in
    let next = with_record s now id made in
    elim (Bool-cases (leb (disk.size next) max_bytes)) [
      | inl small ↦ (
        inl (
            get_record-save disk next made id t small
            ∙ (get-put_self s.routes id made ∙ ap some same)),
        same,
      )
      | inr large ↦ (inr (get_record-save_large disk next made id t large).1, same)
    ]

pub get_record-for_route :
    (now : ℕ) (id : String) (make : Option RouteHealthRecord → RouteHealthRecord) (disk : Disk)
    (loaded : Disk × HealthSnapshot) (r : RouteHealthRecord)
    → (for_route id disk (write_loaded now id make loaded)).1 ≡ ok r
    → ReadsBack (get_record (for_route id disk (write_loaded now id make loaded)).0 id) r
      × (make (get loaded.1.routes id) ≡ r)
get_record-for_route now id make disk loaded r e =
    let (t, same) = for_route-ok id disk (write_loaded now id make loaded) r e in
    let (read, made) = get_record-write_loaded now id make loaded r (rw same at e) in
    (rw same read, made)

-- All entries of a written dictionary pass only if the written value does.
pub all-put {ℓ} :
    {V : Type ℓ} (p : String × V → Bool) (dict : Dict V) (key : String) (value : V)
    → ((name : String) → p (name, value) ≡ false)
    → all p (put dict key value) ≡ false
unfolding put
all-put p [] key value h = rw (h key)
all-put p ((name, old) ∷ rest) key value h =
    let later = all-put p rest key value h in
    elim (Bool-cases (name === key)) [
      | inl here ↦ rw here (rw (h name))
      | inr elsewhere ↦ rw elsewhere (rw later (ground arith))
    ]
