-- ===== src/Security/Scan.antt =====
-- src/core/security/index.ts: the scan below a directory ends, and misses nothing.
use mathlib.Core.List.{Memᴰ}
use pi_multi_orchestrator.Prelude.{
  some-injective, ℕ, zero, suc, ◌+◌, ◌-◌, ◌≤◌, ◌<◌, ◌≡◌, refl, sym, ◌∙◌, subst, inl, inr, Bool,
  true, false, not, ◌&&◌, Option, none, some, List, [], ◌∷◌, if◌then◌else◌, ltb, arith, Bool-cases,
  any, All, All-mem, length,
}
use pi_multi_orchestrator.Security.{
  FilePath, Code, SafetyResult, allow, review_required, blocked, recursive_path_unverified, read,
  PathPolicy, Entry, FileSystem, is_directory, is_symlink, child, max_recursive_scan_entries,
  Scanned, stop, go_on, scan_entries, after_entries, scan_directory, scan, scanned_target,
  read_recursively, check_path, authorize_recursive_read, same_path, inside,
}

-- Every entry is clean, and the directories among them are left to be scanned.
abbrev Swept : (FilePath → Bool) → FilePath → List FilePath → List Entry → Type 0
Swept looks_credential current left = All (λ entry.
    (looks_credential (child current entry) ≡ false)
    × (is_symlink entry.kind ≡ false)
    × (is_directory entry.kind ≡ true → Memᴰ (child current entry) left))

module _ (looks_credential : FilePath → Bool) (limit : ℕ) where
  scan_entries-le :
      (current : FilePath) (entries : List Entry) (pending : List FilePath) (scanned : ℕ)
      (left : List FilePath) (count : ℕ)
      → scan_entries looks_credential limit current entries pending scanned ≡ go_on left count
      → length left + (limit - count) ≤ length pending + (limit - scanned)
  unfolding scan_entries
  scan_entries-le current [] pending scanned left count e = ground arith
  scan_entries-le current (entry ∷ entries) pending scanned left count e =
      elim (Bool-cases (ltb limit (scanned + 1))) [
        | inl over ↦ let stopped = rw over at e in absurd (cc)
        | inr within ↦ elim (Bool-cases (looks_credential (child current entry))) [
          | inl hit ↦ let stopped = rw (within, hit) at e in absurd (cc)
          | inr clean ↦ elim (Bool-cases (is_symlink entry.kind)) [
            | inl link ↦ let stopped = rw (within, clean, link) at e in absurd (cc)
            | inr real ↦
                let later =
                  scan_entries-le current entries
                    (if is_directory entry.kind then child current entry ∷ pending else pending)
                    (scanned + 1) left count (rw (within, clean, real) at e) in
                pushed (is_directory entry.kind) within later
          ]
        ]
      ]
    where
      pushed :
          (b : Bool)
          → ltb limit (scanned + 1) ≡ false
          → length left + (limit - count)
            ≤ length (if b then child current entry ∷ pending else pending)
              + (limit - (scanned + 1))
          → length left + (limit - count) ≤ length pending + (limit - scanned)
      pushed true within later = ground arith
      pushed false within later = ground arith

  scan_entries-clean :
      (current : FilePath) (entries : List Entry) (pending : List FilePath) (scanned : ℕ)
      (left : List FilePath) (count : ℕ)
      → scan_entries looks_credential limit current entries pending scanned ≡ go_on left count
      → Swept looks_credential current left entries
        × ((path : FilePath) → Memᴰ path pending → Memᴰ path left)
  unfolding scan_entries
  scan_entries-clean current [] pending scanned left count e =
      (tt, λ path m. let same : pending ≡ left = lefts e in subst (λ l. Memᴰ path l) same m)
    where
      lefts : {p q : List FilePath} {a b : ℕ} → go_on p a ≡ go_on q b → p ≡ q
      lefts h = cc
  scan_entries-clean current (entry ∷ entries) pending scanned left count e =
      elim (Bool-cases (ltb limit (scanned + 1))) [
        | inl over ↦ let stopped = rw over at e in absurd (clash stopped)
        | inr within ↦ elim (Bool-cases (looks_credential (child current entry))) [
          | inl hit ↦ let stopped = rw (within, hit) at e in absurd (clash stopped)
          | inr clean ↦ elim (Bool-cases (is_symlink entry.kind)) [
            | inl link ↦ let stopped = rw (within, clean, link) at e in absurd (clash stopped)
            | inr real ↦
                let (others, kept) =
                  scan_entries-clean current entries
                    (if is_directory entry.kind then child current entry ∷ pending else pending)
                    (scanned + 1) left count (rw (within, clean, real) at e) in
                (
                  (
                    (clean, real, λ dir. kept (child current entry) (rw dir (Memᴰ.head refl))),
                    others,
                  ),
                  λ path m. kept path (under (is_directory entry.kind) path m),
                )
          ]
        ]
      ]
    where
      clash : {code : Code} {p : List FilePath} {a : ℕ} → stop code ≡ go_on p a → ⊥
      clash h = cc

      under :
          (b : Bool) (path : FilePath)
          → Memᴰ path pending
          → Memᴰ path (if b then child current entry ∷ pending else pending)
      under true path m = Memᴰ.tail m
      under false path m = m

-- The directories that a recursive read of `top` goes through.
pub data Reached (files : FileSystem) : FilePath → FilePath → Type 0 where
  itself : {top path : FilePath} → top ≡ path → Reached files top path
  below :
      {top path : FilePath} (entries : List Entry) (entry : Entry)
      → files.entries top ≡ some entries
      → Memᴰ entry entries
      → is_directory entry.kind ≡ true
      → Reached files (child top entry) path
      → Reached files top path

-- The directory can be listed, and no entry looks like a credential or is a symbolic link.
pub record IsClean (looks_credential : FilePath → Bool) (files : FileSystem) (path : FilePath)
    : Type 0 where
  pub entries : List Entry
  pub listed : files.entries path ≡ some entries
  pub no_credential :
      (entry : Entry) → Memᴰ entry entries → looks_credential (child path entry) ≡ false
  pub no_symlink : (entry : Entry) → Memᴰ entry entries → is_symlink entry.kind ≡ false

module _ (looks_credential : FilePath → Bool) (limit : ℕ) (files : FileSystem) where
  pub scan-returns :
      (fuel : ℕ) (pending : List FilePath) (scanned : ℕ)
      → length pending + (limit - scanned) < fuel
      → (result : SafetyResult) × (scan looks_credential limit files fuel pending scanned
          ≡ some result)
  unfolding scan
  scan-returns zero pending scanned h = absurd (omega arith)
  scan-returns (suc fuel) [] scanned h = (allow, refl)
  scan-returns (suc fuel) (current ∷ pending) scanned h =
      listed (files.entries current) (λ left count fits. scan-returns fuel left count fits)
    where
      followed :
          ((left : List FilePath) (count : ℕ)
            → length left + (limit - count) < fuel
            → (result : SafetyResult) × (scan looks_credential limit files fuel left count
                ≡ some result))
          → (outcome : Scanned)
          → ((left : List FilePath) (count : ℕ)
              → outcome ≡ go_on left count
              → length left + (limit - count) < fuel)
          → (result : SafetyResult) × (after_entries outcome
                (scan looks_credential limit files fuel)
              ≡ some result)
      followed again (stop code) fits = (blocked code, refl)
      followed again (go_on left count) fits = again left count (fits left count refl)

      listed :
          (found : Option (List Entry))
          → ((left : List FilePath) (count : ℕ)
              → length left + (limit - count) < fuel
              → (result : SafetyResult) × (scan looks_credential limit files fuel left count
                  ≡ some result))
          → (result : SafetyResult) × (scan_directory looks_credential limit files current found
                pending scanned
                (scan looks_credential limit files fuel)
              ≡ some result)
      listed none again = (blocked recursive_path_unverified, refl)
      listed (some entries) again =
          followed again (scan_entries looks_credential limit current entries pending scanned)
            (λ left count e. omega (
              arith,
              scan_entries-le looks_credential limit current entries pending scanned left count e,
            ))

  -- Every directory below one of these is clean.
  abbrev pub CleanUnder : List FilePath → Type 0
  CleanUnder pending =
      (top : FilePath)
      → Memᴰ top pending
      → (path : FilePath) → Reached files top path
      → IsClean looks_credential files path

  -- A scan that allows has found every directory below those that were left clean.
  pub scan-IsClean :
      (fuel : ℕ) (pending : List FilePath) (scanned : ℕ)
      → scan looks_credential limit files fuel pending scanned ≡ some allow
      → CleanUnder pending
  unfolding scan
  scan-IsClean zero pending scanned e top m path r = absurd (cc)
  scan-IsClean (suc fuel) [] scanned e top m path r = elim m [ ]
  scan-IsClean (suc fuel) (current ∷ pending) scanned e top m path r =
      listed (files.entries current) refl e (λ left count e. scan-IsClean fuel left count e) m
    where
      Again : Type 0
      Again =
          (left : List FilePath) (count : ℕ)
          → scan looks_credential limit files fuel left count ≡ some allow
          → CleanUnder left

      at_top :
          (entries : List Entry) (left : List FilePath)
          → files.entries current ≡ some entries
          → Swept looks_credential current left entries
          → CleanUnder left
          → (path : FilePath) → Reached files current path
          → IsClean looks_credential files path
      at_top entries left there clean again path (itself same) =
          subst (IsClean looks_credential files) same (record {
            entries = entries;
            listed = there;
            no_credential = λ entry m. (All-mem _ entries clean m).0;
            no_symlink = λ entry m. (All-mem _ entries clean m).1;
          })
      at_top entries left there clean again path (below others entry there' m dir r) =
          let same : others ≡ entries = some-injective (sym there' ∙ there) in
          let m' = subst (λ l. Memᴰ entry l) same m in
          again (child current entry) ((All-mem _ entries clean m').2 dir) path r

      picked :
          (entries : List Entry) (left : List FilePath)
          → files.entries current ≡ some entries
          → Swept looks_credential current left entries
          → ((path : FilePath) → Memᴰ path pending → Memᴰ path left)
          → CleanUnder left
          → Memᴰ top (current ∷ pending)
          → IsClean looks_credential files path
      picked entries left there clean kept again (Memᴰ.head same) =
          at_top entries left there clean again path
            (subst (λ start. Reached files start path) same r)
      picked entries left there clean kept again (Memᴰ.tail m) = again top (kept top m) path r

      followed :
          (entries : List Entry)
          → files.entries current ≡ some entries
          → (outcome : Scanned)
          → scan_entries looks_credential limit current entries pending scanned ≡ outcome
          → after_entries outcome (scan looks_credential limit files fuel) ≡ some allow
          → Again
          → Memᴰ top (current ∷ pending)
          → IsClean looks_credential files path
      followed entries there (stop code) o e again m = absurd (cc)
      followed entries there (go_on left count) o e again m =
          let (clean, kept) =
            scan_entries-clean looks_credential limit current entries pending scanned left count
              o in
          picked entries left there clean kept (again left count e) m

      listed :
          (found : Option (List Entry))
          → files.entries current ≡ found
          → scan_directory looks_credential limit files current found pending scanned
              (scan looks_credential limit files fuel)
            ≡ some allow
          → Again
          → Memᴰ top (current ∷ pending)
          → IsClean looks_credential files path
      listed none there e again m = absurd (cc)
      listed (some entries) there e again m =
          followed entries there
            (scan_entries looks_credential limit current entries pending scanned) refl e again m

-- A recursive read is decided, whatever the file system: the bound on the scan ends it.
pub authorize_recursive_read-returns :
    (looks_credential : FilePath → Bool) (files : FileSystem) (policy : PathPolicy)
    (target : FilePath)
    → (result : SafetyResult) × (authorize_recursive_read looks_credential files policy target
        ≡ some result)
unfolding authorize_recursive_read
authorize_recursive_read-returns looks_credential files policy target =
    by (check_path looks_credential policy target read)
  where
    scanned :
        (found : Option Bool)
        → (result : SafetyResult) × (scanned_target looks_credential files target found
            ≡ some result)
    scanned none = (blocked recursive_path_unverified, refl)
    scanned (some false) = (allow, refl)
    scanned (some true) =
        scan-returns looks_credential max_recursive_scan_entries files
          (max_recursive_scan_entries + 2) (target ∷ []) 0 (omega arith)

    by :
        (checked : SafetyResult)
        → (result : SafetyResult) × (read_recursively looks_credential files policy target checked
            ≡ some result)
    by allow =
        elim (Bool-cases (
          any (λ path. not (same_path path target) && inside target path) policy.protected_paths)) [
            | inl t ↦ (blocked Code.protected_path_descendant, rw t refl)
            | inr f ↦ let (result, e) = scanned (files.is_directory target) in (result, rw f e)
          ]
    by (blocked code) = (blocked code, refl)
    by (review_required code) = (review_required code, refl)
