-- ===== src/Security/Checks.antt =====
-- src/core/security/index.ts: what an allowed read keeps out of.
use mathlib.Core.List.{Memᴰ}
use pi_multi_orchestrator.Prelude.{
  ◌≡◌, ◌≢◌, refl, sym, inl, inr, ◌+◌, ◌∙◌, subst, Bool, true, false, not, ◌&&◌, ◌||◌, some, [], ◌∷◌,
  ◌++◌, ◌===◌, eq_iff, ===_refl, if◌then◌else◌, arith, Bool-cases, any, mem-any, false≢true,
}
use pi_multi_orchestrator.Security.{
  FilePath, Code, SafetyResult, allow, blocked, review_required, read, Operation, PathPolicy,
  FileSystem, is_read, goes_up, inside, same_path, check_path, read_recursively,
  authorize_recursive_read, max_recursive_scan_entries,
}
use pi_multi_orchestrator.Security.Scan.{Reached, IsClean, scan-IsClean}

-- `inside` finds exactly the paths that go down from the root.
inside-eq-append :
    (root target : FilePath)
    → inside root target ≡ true
    → (rest : FilePath) × (target ≡ root ++ rest) × (goes_up rest ≡ false)
unfolding inside
inside-eq-append [] target h = (target, refl, ground arith)
inside-eq-append (name ∷ root) [] h = absurd (ground arith)
inside-eq-append (name ∷ root) (other ∷ target) h = elim (Bool-cases (name === other)) [
  | inl here ↦
      let (rest, e, down) = inside-eq-append root target (rw here at h) in
      (rest, rw (e, (eq_iff name other).0 here) refl, down)
  | inr apart ↦ let up = rw apart at h in absurd (ground arith)
]

append-inside : (root rest : FilePath) → goes_up rest ≡ false → inside root (root ++ rest) ≡ true
unfolding inside
append-inside [] rest h = rw h refl
append-inside (name ∷ root) rest h = rw (===_refl name) (append-inside root rest h)

same_path-eq : (path target : FilePath) → same_path path target ≡ true → path ≡ target
same_path-eq [] [] h = refl
same_path-eq [] (other ∷ target) h = absurd (false≢true h)
same_path-eq (name ∷ path) [] h = absurd (false≢true h)
same_path-eq (name ∷ path) (other ∷ target) h =
    let tail = same_path-eq path target (ground arith) in
    rw ((eq_iff name other).0 (ground arith), tail) refl

append_nil : (path : FilePath) → path ++ [] ≡ path
append_nil [] = refl
append_nil (name ∷ path) = rw (append_nil path) refl

-- The target lies under the project's root, under no protected path, and is no credential.
pub record IsOpen (looks_credential : FilePath → Bool) (policy : PathPolicy) (target : FilePath)
    : Type 0 where
  pub rest : FilePath
  pub in_project : target ≡ policy.project_root ++ rest
  pub no_credential : looks_credential target ≡ false
  pub unprotected :
      (path rest : FilePath)
      → Memᴰ path policy.protected_paths
      → goes_up rest ≡ false
      → target ≢ path ++ rest

module _ (looks_credential : FilePath → Bool) (policy : PathPolicy) (target : FilePath) where
  pub check_path-IsOpen :
      (operation : Operation)
      → check_path looks_credential policy target operation ≡ allow
      → IsOpen looks_credential policy target × (is_read operation || policy.trusted ≡ true)
  unfolding check_path
  check_path-IsOpen operation e = elim (Bool-cases (looks_credential target)) [
    | inl t ↦ let refused = rw t at e in absurd (cc)
    | inr clean ↦ elim (Bool-cases (any (λ path. inside path target) policy.protected_paths)) [
      | inl t ↦ let refused = rw (clean, t) at e in absurd (cc)
      | inr free ↦ elim (Bool-cases (inside policy.project_root target)) [
        | inr f ↦ let refused = rw (clean, free, f) at e in absurd (cc)
        | inl t ↦
            let (rest, under, down) = inside-eq-append policy.project_root target t in
            (
              record {
                rest = rest;
                in_project = under;
                no_credential = clean;
                unprotected = λ path rest m down same. false≢true (
                    sym free
                    ∙ mem-any (λ path. inside path target) policy.protected_paths m
                        (rw same (append-inside path rest down)));
              },
              may (rw (clean, free, t) at e),
            )
      ]
    ]
  ]
    where
      may :
          (if not (is_read operation) && not policy.trusted
              then blocked Code.project_trust_required
              else allow)
            ≡ allow
          → is_read operation || policy.trusted ≡ true
      may h = ground arith

-- A recursive read of a directory that is allowed goes through directories that can be listed and hold
-- nothing that looks like a credential and no symbolic link. The directory lies under the project's
-- root, is no credential, and neither lies under a protected path nor has one below it.
pub authorize_recursive_read-IsClean :
    (looks_credential : FilePath → Bool) (files : FileSystem) (policy : PathPolicy)
    (target : FilePath)
    → files.is_directory target ≡ some true
    → authorize_recursive_read looks_credential files policy target ≡ some allow
    → IsOpen looks_credential policy target
      × ((path rest : FilePath)
          → Memᴰ path policy.protected_paths
          → goes_up rest ≡ false
          → path ≢ target ++ rest)
      × ((path : FilePath) → Reached files target path → IsClean looks_credential files path)
unfolding authorize_recursive_read
authorize_recursive_read-IsClean looks_credential files policy target dir e =
    by (check_path looks_credential policy target read) refl e
  where
    above : Bool
    above = any (λ path. not (same_path path target) && inside target path) policy.protected_paths

    not_same :
        (path : FilePath)
        → IsOpen looks_credential policy target
        → Memᴰ path policy.protected_paths
        → same_path path target ≡ false
    not_same path opens m = elim (Bool-cases (same_path path target)) [
      | inr f ↦ f
      | inl t ↦ absurd (
          opens.unprotected path [] m refl
            (sym (same_path-eq path target t) ∙ sym (append_nil path)))
    ]

    by :
        (checked : SafetyResult)
        → check_path looks_credential policy target read ≡ checked
        → read_recursively looks_credential files policy target checked ≡ some allow
        → IsOpen looks_credential policy target
          × ((path rest : FilePath)
              → Memᴰ path policy.protected_paths
              → goes_up rest ≡ false
              → path ≢ target ++ rest)
          × ((path : FilePath) → Reached files target path → IsClean looks_credential files path)
    by (blocked code) c e = absurd (cc)
    by (review_required code) c e = absurd (cc)
    by allow c e = elim (Bool-cases above) [
      | inl t ↦ let refused = rw t at e in absurd (cc)
      | inr free ↦
          let (opens, readable) = check_path-IsOpen looks_credential policy target read c in
          let scanned = rw (free, dir) at e in
          (
            opens,
            λ path rest m down same. false≢true (
                sym free
                ∙ mem-any _ policy.protected_paths m (
                    ground (
                      arith,
                      subst (λ p. inside target p ≡ true) (sym same)
                          (append-inside target rest down),
                      not_same path opens m,
                    ))),
            λ path r.
                scan-IsClean looks_credential max_recursive_scan_entries files
                  (max_recursive_scan_entries + 2) (target ∷ []) 0 scanned target (Memᴰ.head refl)
                  path r,
          )
    ]

-- A recursive read that is allowed is one whose target is open.
pub authorize_recursive_read-IsOpen :
    (looks_credential : FilePath → Bool) (files : FileSystem) (policy : PathPolicy)
    (target : FilePath)
    → authorize_recursive_read looks_credential files policy target ≡ some allow
    → IsOpen looks_credential policy target
unfolding authorize_recursive_read
authorize_recursive_read-IsOpen looks_credential files policy target e =
    by (check_path looks_credential policy target read) refl e
  where
    by :
        (checked : SafetyResult)
        → check_path looks_credential policy target read ≡ checked
        → read_recursively looks_credential files policy target checked ≡ some allow
        → IsOpen looks_credential policy target
    by (blocked code) c e = absurd (cc)
    by (review_required code) c e = absurd (cc)
    by allow c e = (check_path-IsOpen looks_credential policy target read c).0
