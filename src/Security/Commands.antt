-- ===== src/Security/Commands.antt =====
-- src/core/security/index.ts: CommandSafetyPolicy, whose regular expressions are parameters, and
-- TrustStore over what its file holds (the labels are left out).
use pi_multi_orchestrator.Prelude.{
  ℕ, Bool, true, false, not, ◌&&◌, Option, none, some, List, [], ◌∷◌, String, if◌then◌else◌, Dict,
  get, put, ◌||◌, ◌==◌, map, filter, is_space, is_empty_text,
}
use Prim.Native.Char.{Char, code}
use pi_multi_orchestrator.Security.{
  SafetyResult, allow, review_required, blocked, empty_command, privilege_escalation,
  device_operation, permission_change, destructive_delete, destructive_git, ambiguous_shell,
  compound_shell, recursive_shell_read, project_trust_required, network_or_publication,
  command_not_allowlisted,
}

-- The tests of a command.
pub record CommandTests : Type 0 where
  pub is_empty : String → Bool
  pub escalates : String → Bool
  pub changes_device : String → Bool
  pub changes_permissions : String → Bool
  pub deletes_recursively : String → Bool
  pub destroys_git : String → Bool
  pub has_syntax : String → Bool
  pub is_compound : String → Bool
  pub reads_recursively : String → Bool
  pub mutates : String → Bool
  pub uses_network : String → Bool
  pub is_allowlisted : String → Bool

-- `source.split(/\s+/u)`, with an empty text more where several spaces follow each other.
abbrev pub onto_first : Char → List String → List String
onto_first c [] = String.◌∷◌ c String.[] ∷ []
onto_first c (word ∷ words) = String.◌∷◌ c word ∷ words

abbrev pub split_spaces : String → List String
split_spaces String.[] = String.[] ∷ []
split_spaces (String.◌∷◌ c s) =
    let rest = split_spaces s in if is_space (code c) then String.[] ∷ rest else onto_first c rest

abbrev pub is_option_word : String → Bool
is_option_word String.[] = false
is_option_word (String.◌∷◌ c s) = code c == 45

abbrev pub is_quote : Char → Bool
is_quote c = code c == 34 || code c == 39

abbrev pub without_last_quote : String → String
without_last_quote String.[] = String.[]
without_last_quote (String.◌∷◌ c s) =
    let rest = without_last_quote s in
    if is_empty_text s && is_quote c then String.[] else String.◌∷◌ c rest

abbrev pub without_quotes : String → String
without_quotes String.[] = String.[]
without_quotes (String.◌∷◌ c s) =
    if is_quote c then without_last_quote s else without_last_quote (String.◌∷◌ c s)

-- The words of a command that are taken for paths: those that do not begin with a dash.
unfoldable pub path_words : String → List String
path_words command =
    filter (λ word. not (is_empty_text word))
      (map without_quotes (filter (λ word. not (is_option_word word)) (split_spaces command)))

-- `explicitlyAuthorized`, `trusted`, and `pathPolicy.authorizeExecute`.
pub record CommandOptions : Type 0 where
  pub path_policy : Option (String → SafetyResult)
  pub trusted : Option Bool
  pub explicitly_authorized : Bool

abbrev pub is_allowed : SafetyResult → Bool
is_allowed allow = true
is_allowed _ = false

-- The first word that the path policy does not allow decides.
abbrev pub check_words : (String → SafetyResult) → List String → SafetyResult
check_words authorize [] = allow
check_words authorize (word ∷ words) =
    let rest = check_words authorize words in
    if is_allowed (authorize word) then rest else authorize word

abbrev pub checked_words : Option (String → SafetyResult) → List String → SafetyResult
checked_words none words = allow
checked_words (some authorize) words = check_words authorize words

abbrev pub is_untrusted : Option Bool → Bool
is_untrusted (some false) = true
is_untrusted _ = false

abbrev pub last_tests : CommandTests → CommandOptions → String → SafetyResult
last_tests tests options command =
    if is_untrusted options.trusted && tests.mutates command
    then blocked project_trust_required
    else if options.explicitly_authorized
    then allow
    else if tests.uses_network command
    then blocked network_or_publication
    else if not (tests.is_allowlisted command)
    then review_required command_not_allowlisted
    else allow

abbrev pub after_words : SafetyResult → SafetyResult → SafetyResult
after_words allow next = next
after_words refused next = refused

-- CommandSafetyPolicy.evaluate, on the trimmed command.
unfoldable pub evaluate : CommandTests → CommandOptions → String → SafetyResult
unfolding path_words
evaluate tests options command =
    if tests.is_empty command
    then blocked empty_command
    else if tests.escalates command
    then blocked privilege_escalation
    else if tests.changes_device command
    then blocked device_operation
    else if tests.changes_permissions command
    then blocked permission_change
    else if tests.deletes_recursively command
    then blocked destructive_delete
    else if tests.destroys_git command
    then blocked destructive_git
    else if tests.has_syntax command
    then review_required ambiguous_shell
    else if tests.is_compound command
    then review_required compound_shell
    else if tests.reads_recursively command
    then review_required recursive_shell_read
    else after_words (checked_words options.path_policy (path_words command))
        (last_tests tests options command)

pub record TrustRecord : Type 0 where
  pub trusted : Bool
  pub created_at : Option ℕ
  pub updated_at : ℕ

abbrev pub trusted_of : Option TrustRecord → Bool
trusted_of none = false
trusted_of (some row) = row.trusted

-- The records of the store, under the canonical root of each project.
unfoldable pub is_trusted : Dict TrustRecord → String → Bool
is_trusted records root = trusted_of (get records root)

abbrev pub first_time : Option TrustRecord → ℕ → Option ℕ
first_time none now = some now
first_time (some row) now = kept row.created_at
  where
    kept : Option ℕ → Option ℕ
    kept none = some now
    kept (some at) = some at

abbrev pub marked : Bool → Dict TrustRecord → String → ℕ → Dict TrustRecord
marked trusted records root now =
    put records root (record {
      trusted = trusted;
      created_at = first_time (get records root) now;
      updated_at = now;
    })

unfoldable pub trust : Dict TrustRecord → (root : String) → (now : ℕ) → Dict TrustRecord
trust records root now = marked true records root now

unfoldable pub revoke : Dict TrustRecord → (root : String) → (now : ℕ) → Dict TrustRecord
revoke records root now = marked false records root now
