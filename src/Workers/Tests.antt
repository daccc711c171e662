-- ===== src/Workers/Tests.antt =====
-- src/core/security and src/core/workers: reads, writes and commands of a worker.
use mathlib.Core.List.{Memᴰ}
use pi_multi_orchestrator.Prelude.{
  ◌≡◌, ◌≢◌, ◌⊎◌, refl, Bool, true, false, Option, none, some, List, [], ◌∷◌, ◌++◌, if◌then◌else◌,
  ◌===◌, includes,
}
use pi_multi_orchestrator.Security.{
  FilePath, SafetyResult, allow, blocked, review_required, symlink_descendant, tool_not_active,
  project_trust_required, ambiguous_shell, protected_path, PathPolicy, plain, directory, symlink,
  Entry, FileSystem, goes_up, same_path, authorize_recursive_read, path_policy,
}
use pi_multi_orchestrator.Security.Scan.{Reached, IsClean, authorize_recursive_read-returns}
use pi_multi_orchestrator.Security.Checks.{IsOpen, authorize_recursive_read-IsClean}
use pi_multi_orchestrator.Security.Commands.{path_words, CommandTests}
use pi_multi_orchestrator.Workers.{
  implementation, Guard, active_tools, submits_result, ToolArguments, authorize,
}
use pi_multi_orchestrator.Workers.Guarded.{IsGuarded, authorize-IsGuarded}

abbrev policy : PathPolicy
policy = path_policy (λ path. path) ("p" ∷ []) true [] []

abbrev listing : FilePath → Option (List Entry)
listing path =
    if same_path path ("p" ∷ "src" ∷ [])
    then some (record { name = "a"; kind = plain } ∷ record { name = "lib"; kind = directory } ∷ [])
    else if same_path path ("p" ∷ "src" ∷ "lib" ∷ [])
    then some []
    else if same_path path ("p" ∷ "out" ∷ [])
    then some (record { name = "link"; kind = symlink } ∷ [])
    else none

abbrev files : FileSystem
files = record { is_directory = λ path. some true; entries = listing }

abbrev no_credential : FilePath → Bool
no_credential path = false

abbrev source : FilePath
source = "p" ∷ "src" ∷ []

reads_source : authorize_recursive_read no_credential files policy source ≡ some allow
unfolding authorize_recursive_read
reads_source = refl

not_through_links :
    authorize_recursive_read no_credential files policy ("p" ∷ "out" ∷ [])
    ≡ some (blocked symlink_descendant)
unfolding authorize_recursive_read
not_through_links = refl

authorize_recursive_read-returns_example :
    (result : SafetyResult) × (authorize_recursive_read no_credential files policy source
      ≡ some result)
authorize_recursive_read-returns_example =
    authorize_recursive_read-returns no_credential files policy source

authorize_recursive_read-IsClean_example :
    IsOpen no_credential policy source
    × ((path rest : FilePath)
        → Memᴰ path policy.protected_paths
        → goes_up rest ≡ false
        → path ≢ source ++ rest)
    × ((path : FilePath) → Reached files source path → IsClean no_credential files path)
authorize_recursive_read-IsClean_example =
    authorize_recursive_read-IsClean no_credential files policy source refl reads_source

abbrev tests : CommandTests
tests = record {
  is_empty = λ command. command === "";
  escalates = λ command. false;
  changes_device = λ command. false;
  changes_permissions = λ command. false;
  deletes_recursively = λ command. false;
  destroys_git = λ command. false;
  has_syntax = λ command. command === "ls *";
  is_compound = λ command. false;
  reads_recursively = λ command. false;
  mutates = λ command. false;
  uses_network = λ command. false;
  is_allowlisted = λ command. true;
}

abbrev guard : Guard
guard = record {
  profile = implementation;
  requested_tools = "read" ∷ "write" ∷ "bash" ∷ "grep" ∷ [];
  result_tool_name = some "submit_agent_result";
  policy = policy;
  files = files;
  canonicalize = λ name. "p" ∷ name ∷ [];
  looks_credential = no_credential;
  tests = tests;
}

abbrev to_file : ToolArguments
to_file = record { path = some "a"; file_path = none; command = none }

writes : authorize guard "write" to_file ≡ allow
unfolding authorize
writes = refl

not_to_git :
    authorize guard "write" (record to_file { path = some ".git" }) ≡ blocked protected_path
unfolding authorize
not_to_git = refl

no_edit : authorize guard "edit" to_file ≡ blocked tool_not_active
unfolding authorize
no_edit = refl

untrusted :
    authorize (record guard { policy = record policy { trusted = false } }) "bash" to_file
    ≡ blocked project_trust_required
unfolding authorize
untrusted = refl

no_syntax :
    authorize guard "bash" (record to_file { command = some "ls *" })
    ≡ review_required ambiguous_shell
unfolding authorize
no_syntax = refl

authorize-IsGuarded_example :
    (includes (active_tools guard) "write" ≡ true)
    × ((submits_result guard "write" ≡ true) ⊎ IsGuarded guard "write" to_file)
authorize-IsGuarded_example = authorize-IsGuarded guard "write" to_file writes

-- A path that stands in an option is none of the words that are checked.
option_path : path_words "sort  --output=.git/config a" ≡ "sort" ∷ "a" ∷ []
unfolding path_words
option_path = refl
