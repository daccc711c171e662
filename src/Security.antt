-- ===== src/Security.antt =====
-- src/core/security/index.ts: the trust of projects, and the policies on paths and commands. A path is
-- canonical and absolute, the list of its names. The file system, the resolution of a path
-- (`canonicalize`, `canonicalExisting`), pathLooksCredential and the regular expressions on a command are
-- parameters.
pub mod Scan
pub mod Checks
pub mod Commands
use pi_multi_orchestrator.Prelude.{
  ℕ, zero, suc, ◌+◌, Bool, true, false, not, ◌&&◌, ◌||◌, Option, none, some, List, [], ◌∷◌, ◌++◌,
  map, String, if◌then◌else◌, ltb, ◌==◌, ◌===◌, or_else, any, length, Dict, get, put,
}

abbrev pub FilePath : Type 0
FilePath = List String

pub data Code : Type 0 where
  credential_path protected_path outside_workspace project_trust_required : Code
  protected_path_descendant recursive_path_unverified credential_path_descendant
        symlink_descendant :
      Code
  empty_command privilege_escalation device_operation permission_change destructive_delete : Code
  destructive_git ambiguous_shell compound_shell recursive_shell_read network_or_publication : Code
  command_not_allowlisted : Code
  tool_not_active profile_tool_not_allowed profile_mutation_denied invalid_command invalid_path :
      Code
  unknown_mutating_tool : Code

pub data SafetyResult : Type 0 where
  allow : SafetyResult
  review_required blocked : Code → SafetyResult

pub data Operation : Type 0 where
  read write execute : Operation

abbrev pub is_read : Operation → Bool
is_read read = true
is_read _ = false

-- `relative(root, target)`: how many names to go up, and the names to go down.
abbrev pub relative : FilePath → FilePath → ℕ × FilePath
relative [] target = (0, target)
relative (name ∷ root) [] = (length (name ∷ root), [])
relative (name ∷ root) (other ∷ target) =
    let below = relative root target in
    if name === other then below else (length (name ∷ root), other ∷ target)

abbrev pub goes_up : FilePath → Bool
goes_up [] = false
goes_up (name ∷ names) = name === ".."

unfoldable pub inside : FilePath → FilePath → Bool
inside root target = ((relative root target).0 == 0) && not (goes_up (relative root target).1)

abbrev pub same_path : FilePath → FilePath → Bool
same_path [] [] = true
same_path (name ∷ path) (other ∷ target) = (name === other) && same_path path target
same_path _ _ = false

pub record PathPolicy : Type 0 where
  pub project_root : FilePath
  pub trusted : Bool
  pub protected_paths : List FilePath

abbrev pub protected_names : List String
protected_names =
    ".git" ∷ ".pi" ∷ ".ssh" ∷ ".env" ∷ "mission.sqlite" ∷ "analytics.sqlite" ∷ "health.json"
    ∷ ".project-trust.json" ∷ "config.json" ∷ []

-- The constructor of PathSafetyPolicy; `real` is canonicalExisting.
abbrev pub path_policy :
    (real : FilePath → FilePath)
    → (root : FilePath) → (trusted : Bool) → (internal given : List FilePath) → PathPolicy
path_policy real root trusted internal given = record {
  project_root = real root;
  trusted = trusted;
  protected_paths =
      map real (internal ++ (given ++ map (λ name. real root ++ (name ∷ [])) protected_names));
}

module _ (looks_credential : FilePath → Bool) where
  -- PathSafetyPolicy.check, on the canonical form of the path.
  unfoldable pub check_path : PathPolicy → FilePath → Operation → SafetyResult
  unfolding inside
  check_path policy target operation =
      if looks_credential target
      then blocked credential_path
      else if any (λ path. inside path target) policy.protected_paths
      then blocked protected_path
      else if not (inside policy.project_root target)
      then blocked outside_workspace
      else if not (is_read operation) && not policy.trusted
      then blocked project_trust_required
      else allow

pub data Kind : Type 0 where
  plain directory symlink : Kind

pub record Entry : Type 0 where
  pub name : String
  pub kind : Kind

-- `lstatSync(path).isDirectory()` and `readdirSync`; none is a call that throws.
pub record FileSystem : Type 0 where
  pub is_directory : FilePath → Option Bool
  pub entries : FilePath → Option (List Entry)

abbrev pub is_directory : Kind → Bool
is_directory directory = true
is_directory _ = false

abbrev pub is_symlink : Kind → Bool
is_symlink symlink = true
is_symlink _ = false

abbrev pub child : FilePath → Entry → FilePath
child current entry = current ++ (entry.name ∷ [])

abbrev pub max_recursive_scan_entries : ℕ
max_recursive_scan_entries = 20000

-- What the entries of a directory lead to: an end, or the directories that are left and the count.
pub data Scanned : Type 0 where
  stop : Code → Scanned
  go_on : (pending : List FilePath) → (scanned : ℕ) → Scanned

module _ (looks_credential : FilePath → Bool) (limit : ℕ) where
  unfoldable pub scan_entries : FilePath → List Entry → (pending : List FilePath) → ℕ → Scanned
  scan_entries current [] pending scanned = go_on pending scanned
  scan_entries current (entry ∷ entries) pending scanned =
      let rest =
        scan_entries current entries
          (if is_directory entry.kind then child current entry ∷ pending else pending)
          (scanned + 1) in
      if ltb limit (scanned + 1)
      then stop recursive_path_unverified
      else if looks_credential (child current entry)
      then stop credential_path_descendant
      else if is_symlink entry.kind
      then stop symlink_descendant
      else rest

-- What follows the entries of a directory, by the loop that is left.
abbrev pub after_entries : Scanned → (List FilePath → ℕ → Option SafetyResult) → Option SafetyResult
after_entries (stop code) next = some (blocked code)
after_entries (go_on pending scanned) next = next pending scanned

module _ (looks_credential : FilePath → Bool) (limit : ℕ) (files : FileSystem) where
  abbrev pub scan_directory :
      FilePath
      → Option (List Entry)
      → List FilePath
      → ℕ
      → (List FilePath → ℕ → Option SafetyResult)
      → Option SafetyResult
  scan_directory current none pending scanned next = some (blocked recursive_path_unverified)
  scan_directory current (some entries) pending scanned next =
      after_entries (scan_entries looks_credential limit current entries pending scanned) next

  -- The loop over the directories that are left, the last first; none means that the fuel ran out.
  unfoldable pub scan : (fuel : ℕ) → (pending : List FilePath) → ℕ → Option SafetyResult
  unfolding scan_entries
  scan zero pending scanned = none
  scan (suc fuel) [] scanned = some allow
  scan (suc fuel) (current ∷ pending) scanned =
      scan_directory current (files.entries current) pending scanned (scan fuel)

module _ (looks_credential : FilePath → Bool) (files : FileSystem) where
  abbrev pub scanned_target : FilePath → Option Bool → Option SafetyResult
  scanned_target target none = some (blocked recursive_path_unverified)
  scanned_target target (some false) = some allow
  scanned_target target (some true) =
      scan looks_credential max_recursive_scan_entries files (max_recursive_scan_entries + 2)
        (target ∷ []) 0

  abbrev pub read_recursively : PathPolicy → FilePath → SafetyResult → Option SafetyResult
  read_recursively policy target allow =
      if any (λ path. not (same_path path target) && inside target path) policy.protected_paths
      then some (blocked protected_path_descendant)
      else scanned_target target (files.is_directory target)
  read_recursively policy target refused = some refused

  -- PathSafetyPolicy.authorizeRecursiveRead.
  unfoldable pub authorize_recursive_read : PathPolicy → FilePath → Option SafetyResult
  unfolding check_path scan inside
  authorize_recursive_read policy target =
      read_recursively policy target (check_path looks_credential policy target read)
