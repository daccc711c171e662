-- ===== src/Workers.antt =====
-- src/core/workers: the tools of a worker (profiles.ts), the guard before each tool call (safety.ts) and
-- the decision on a finalization turn (finalization.ts).
pub mod Guarded
pub mod Attempt
pub mod Executor
mod Tests
use pi_multi_orchestrator.Prelude.{
  Bool, true, false, not, ◌&&◌, ◌||◌, Option, none, some, List, [], ◌∷◌, ◌++◌, String,
  if◌then◌else◌, ◌===◌, any, filter, includes, is_some,
}
use pi_multi_orchestrator.Security.{
  FilePath, Code, SafetyResult, allow, blocked, review_required, read, write, execute, PathPolicy,
  FileSystem, check_path, authorize_recursive_read, tool_not_active, profile_tool_not_allowed,
  profile_mutation_denied, invalid_command, invalid_path, unknown_mutating_tool,
  project_trust_required, recursive_path_unverified,
}
use pi_multi_orchestrator.Security.Commands.{CommandTests, evaluate}

pub data WorkerProfile : Type 0 where
  investigation implementation verification recommendation_analyst recovery_assessor : WorkerProfile

abbrev pub read_only_tools : List String
read_only_tools = "read" ∷ "grep" ∷ "find" ∷ "ls" ∷ []

abbrev pub tool_profile_for_worker : WorkerProfile → List String
tool_profile_for_worker investigation = read_only_tools
tool_profile_for_worker implementation =
    "read" ∷ "grep" ∷ "find" ∷ "ls" ∷ "bash" ∷ "edit" ∷ "write" ∷ []
tool_profile_for_worker verification = read_only_tools
tool_profile_for_worker recommendation_analyst = read_only_tools
tool_profile_for_worker recovery_assessor = "read" ∷ "ls" ∷ []

abbrev pub worker_result_tool_names : List String
worker_result_tool_names =
    "submit_agent_result" ∷ "submit_verification_result" ∷ "submit_recommendation_analysis"
    ∷ "submit_recovery_assessment" ∷ []

abbrev pub is_worker_result_tool_name : String → Bool
is_worker_result_tool_name name = includes worker_result_tool_names name

unfoldable pub is_potentially_mutating_tool : String → Bool
is_potentially_mutating_tool name =
    not (includes read_only_tools name) && not (is_worker_result_tool_name name)

-- What the guard was made with; the file system, the resolution of a path and the tests of a command
-- are those of Security.
pub record Guard : Type 0 where
  pub profile : WorkerProfile
  pub requested_tools : List String
  pub result_tool_name : Option String
  pub policy : PathPolicy
  pub files : FileSystem
  pub canonicalize : String → FilePath
  pub looks_credential : FilePath → Bool
  pub tests : CommandTests

abbrev pub result_tools : Option String → List String
result_tools none = []
result_tools (some name) = if is_worker_result_tool_name name then name ∷ [] else []

abbrev pub active_tools : Guard → List String
active_tools guard =
    filter (includes (tool_profile_for_worker guard.profile)) guard.requested_tools
    ++ result_tools guard.result_tool_name

abbrev pub names_tool : Option String → String → Bool
names_tool none name = false
names_tool (some other) name = other === name

abbrev pub submits_result : Guard → String → Bool
submits_result guard tool =
    names_tool guard.result_tool_name tool && is_worker_result_tool_name tool

abbrev pub is_implementation : WorkerProfile → Bool
is_implementation implementation = true
is_implementation _ = false

abbrev pub mutating_tools : List String
mutating_tools = "edit" ∷ "write" ∷ "bash" ∷ []

abbrev pub path_tools : List String
path_tools = "read" ∷ "grep" ∷ "find" ∷ "ls" ∷ "edit" ∷ "write" ∷ []

-- The fields of the arguments that are texts and not blank.
pub record ToolArguments : Type 0 where
  pub path : Option String
  pub file_path : Option String
  pub command : Option String

abbrev pub authorized_command : Guard → Option String → SafetyResult
authorized_command guard none = blocked invalid_command
authorized_command guard (some command) =
    evaluate guard.tests
      (record {
        path_policy = some (λ word.
            check_path guard.looks_credential guard.policy (guard.canonicalize word) execute);
        trusted = some guard.policy.trusted;
        explicitly_authorized = false;
      })
      command

abbrev pub authorize_bash : Guard → ToolArguments → SafetyResult
authorize_bash guard arguments =
    if not guard.policy.trusted
    then blocked project_trust_required
    else authorized_command guard arguments.command

abbrev pub or_path : Option String → Option String → Option String
or_path none other = other
or_path (some path) other = some path

abbrev pub default_path : String → Option String
default_path tool =
    if (tool === "grep") || (tool === "find") || (tool === "ls") then some "." else none

-- The scan of a recursive read always ends, so that its fuel does not run out.
abbrev pub settled_read : Option SafetyResult → SafetyResult
settled_read none = blocked recursive_path_unverified
settled_read (some result) = result

abbrev pub authorized_target : Guard → String → Option String → SafetyResult
authorized_target guard tool none = blocked invalid_path
authorized_target guard tool (some path) =
    let target = guard.canonicalize path in
    if (tool === "grep") || (tool === "find")
    then settled_read
        (authorize_recursive_read guard.looks_credential guard.files guard.policy target)
    else check_path guard.looks_credential guard.policy target
        (if includes mutating_tools tool then write else read)

abbrev pub authorize_path : Guard → String → ToolArguments → SafetyResult
authorize_path guard tool arguments =
    authorized_target guard tool
      (or_path arguments.path (or_path arguments.file_path (default_path tool)))

-- WorkerSafetyGuard.authorize.
unfoldable pub authorize : Guard → (tool : String) → ToolArguments → SafetyResult
unfolding is_potentially_mutating_tool evaluate check_path authorize_recursive_read
authorize guard tool arguments =
    if not (includes (active_tools guard) tool)
    then blocked tool_not_active
    else if not (includes (tool_profile_for_worker guard.profile) tool)
        && not (submits_result guard tool)
    then blocked profile_tool_not_allowed
    else if submits_result guard tool
    then allow
    else if includes mutating_tools tool && not (is_implementation guard.profile)
    then blocked profile_mutation_denied
    else if tool === "bash"
    then authorize_bash guard arguments
    else if includes path_tools tool
    then authorize_path guard tool arguments
    else if is_potentially_mutating_tool tool
    then blocked unknown_mutating_tool
    else allow

abbrev pub is_recoverable : Code → Bool
is_recoverable tool_not_active = true
is_recoverable profile_tool_not_allowed = true
is_recoverable profile_mutation_denied = true
is_recoverable _ = false

abbrev pub terminates_on : String → Code → Bool
terminates_on tool code =
    not (includes read_only_tools tool || is_worker_result_tool_name tool)
    && not (is_recoverable code)

unfoldable pub should_terminate_worker_on_safety_block : String → SafetyResult → Bool
should_terminate_worker_on_safety_block tool allow = false
should_terminate_worker_on_safety_block tool (blocked code) = terminates_on tool code
should_terminate_worker_on_safety_block tool (review_required code) = terminates_on tool code

pub record FinalizationInput : Type 0 where
  pub captured : Bool
  pub cancelled : Bool
  pub safety_terminated : Bool
  pub provider_succeeded : Bool
  pub protocol_violation : Bool
  pub timed_out : Bool
  pub mutation_observed : Bool
  pub has_useful_work : Bool

unfoldable pub should_run_result_finalization : FinalizationInput → Bool
should_run_result_finalization input =
    if input.captured || input.cancelled || input.safety_terminated || input.protocol_violation
    then false
    else if input.provider_succeeded
    then true
    else input.timed_out && input.has_useful_work && not input.mutation_observed
