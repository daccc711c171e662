-- ===== src/Workers/Guarded.antt =====
-- src/core/workers/safety.ts: what a tool call that the guard allows may do.
use pi_multi_orchestrator.Prelude.{
  ◌≡◌, refl, sym, ap, ◌∙◌, ◌⊎◌, inl, inr, true, false, not, ◌&&◌, ◌||◌, Option, none, some, List,
  [], ◌∷◌, String, if◌then◌else◌, ◌===◌, eq_iff, includes, arith, Bool-cases, All, false≢true,
}
use pi_multi_orchestrator.Security.{
  Code, SafetyResult, allow, blocked, review_required, read, write, execute, check_path, is_read,
}
use pi_multi_orchestrator.Security.Checks.{
  IsOpen, check_path-IsOpen, authorize_recursive_read-IsOpen,
}
use pi_multi_orchestrator.Security.Commands.{
  CommandTests, CommandOptions, evaluate, path_words, check_words, checked_words, is_allowed,
  after_words, last_tests,
}
use pi_multi_orchestrator.Workers.{
  WorkerProfile, implementation, tool_profile_for_worker, Guard, active_tools, submits_result,
  is_implementation, mutating_tools, path_tools, ToolArguments, authorized_command, authorize_bash,
  or_path, default_path, settled_read, authorized_target, authorize_path, authorize,
  is_potentially_mutating_tool,
}

abbrev pub path_of : String → ToolArguments → Option String
path_of tool arguments = or_path arguments.path (or_path arguments.file_path (default_path tool))

-- What an allowed call of a tool that is not the result tool has to show.
pub record IsGuarded (guard : Guard) (tool : String) (arguments : ToolArguments) : Type 0 where
  pub in_profile : includes (tool_profile_for_worker guard.profile) tool ≡ true
  pub may_mutate :
      includes mutating_tools tool ≡ true
      → (guard.profile ≡ implementation) × (guard.policy.trusted ≡ true)
  pub target_open :
      includes path_tools tool ≡ true
      → (path : String) × (path_of tool arguments ≡ some path)
        × IsOpen guard.looks_credential guard.policy (guard.canonicalize path)
  pub words_open :
      tool ≡ "bash"
      → (command : String) × (arguments.command ≡ some command)
        × All
            (λ word. IsOpen guard.looks_credential guard.policy (guard.canonicalize word))
            (path_words command)

implementation_of :
    (profile : WorkerProfile) → is_implementation profile ≡ true → profile ≡ implementation
implementation_of implementation h = refl
implementation_of _ h = cc

check_words-allowed :
    (authorize : String → SafetyResult) (words : List String)
    → check_words authorize words ≡ allow
    → All (λ word. authorize word ≡ allow) words
check_words-allowed authorize [] e = tt
check_words-allowed authorize (word ∷ words) e = elim (Bool-cases (is_allowed (authorize word))) [
  | inl t ↦ (allowed (authorize word) t, check_words-allowed authorize words (rw t at e))
  | inr f ↦
      let refused : authorize word ≡ allow = rw f at e in
      absurd (false≢true (sym f ∙ ap is_allowed refused))
]
  where
    allowed : (result : SafetyResult) → is_allowed result ≡ true → result ≡ allow
    allowed allow h = refl
    allowed _ h = cc

evaluate-allowed :
    (tests : CommandTests) (options : CommandOptions) (command : String)
    → evaluate tests options command ≡ allow
    → checked_words options.path_policy (path_words command) ≡ allow
unfolding evaluate
evaluate-allowed tests options command e =
    first (checked_words options.path_policy (path_words command)) (reached e)
  where
    first :
        (checked : SafetyResult)
        → after_words checked (last_tests tests options command) ≡ allow
        → checked ≡ allow
    first allow h = refl
    first (blocked code) h = cc
    first (review_required code) h = cc

    reached :
        evaluate tests options command ≡ allow
        → after_words
            (checked_words options.path_policy (path_words command))
            (last_tests tests options command)
          ≡ allow
    reached e = ground arith

All-IsOpen :
    (guard : Guard) (words : List String)
    → All
        (λ word.
          check_path guard.looks_credential guard.policy (guard.canonicalize word) execute ≡ allow)
        words
    → All (λ word. IsOpen guard.looks_credential guard.policy (guard.canonicalize word)) words
All-IsOpen guard [] h = tt
All-IsOpen guard (word ∷ words) h = (
  (check_path-IsOpen guard.looks_credential guard.policy (guard.canonicalize word) execute h.0).0,
  All-IsOpen guard words h.1,
)

bash-IsOpen :
    (guard : Guard) (arguments : ToolArguments)
    → authorize_bash guard arguments ≡ allow
    → (guard.policy.trusted ≡ true)
      × ((command : String) × (arguments.command ≡ some command)
          × All
              (λ word. IsOpen guard.looks_credential guard.policy (guard.canonicalize word))
              (path_words command))
bash-IsOpen guard arguments e = elim (Bool-cases guard.policy.trusted) [
  | inr f ↦ let refused = rw f at e in absurd (cc)
  | inl t ↦ (t, by arguments.command refl (trusting t e))
]
  where
    trusting :
        guard.policy.trusted ≡ true
        → authorize_bash guard arguments ≡ allow
        → authorized_command guard arguments.command ≡ allow
    trusting t e = ground arith

    by :
        (command : Option String)
        → arguments.command ≡ command
        → authorized_command guard command ≡ allow
        → (text : String) × (arguments.command ≡ some text)
          × All
              (λ word. IsOpen guard.looks_credential guard.policy (guard.canonicalize word))
              (path_words text)
    by none there e = absurd (cc)
    by (some text) there e = (
      text,
      there,
      All-IsOpen guard (path_words text)
          (check_words-allowed _ (path_words text) (evaluate-allowed guard.tests _ text e)),
    )

path-IsOpen :
    (guard : Guard) (tool : String) (found : Option String)
    → authorized_target guard tool found ≡ allow
    → ((path : String) × (found ≡ some path)
        × IsOpen guard.looks_credential guard.policy (guard.canonicalize path))
      × (includes mutating_tools tool ≡ true → guard.policy.trusted ≡ true)
path-IsOpen guard tool none e = absurd (cc)
path-IsOpen guard tool (some path) e = elim (Bool-cases ((tool === "grep") || (tool === "find"))) [
  | inl t ↦
      let scanned = rw t at e in
      (
        (
          path,
          refl,
          authorize_recursive_read-IsOpen guard.looks_credential guard.files guard.policy
              (guard.canonicalize path) (allowed _ scanned),
        ),
        λ mutates. absurd (false≢true (sym (reads t) ∙ mutates)),
      )
  | inr f ↦
      let (opens, may) =
        check_path-IsOpen guard.looks_credential guard.policy (guard.canonicalize path) _
          (rw f at e) in
      ((path, refl, opens), λ mutates. writes mutates may)
]
  where
    allowed : (result : Option SafetyResult) → settled_read result ≡ allow → result ≡ some allow
    allowed none h = cc
    allowed (some result) h = cc

    reads : (tool === "grep") || (tool === "find") ≡ true → includes mutating_tools tool ≡ false
    reads t = elim (Bool-cases (tool === "grep")) [
      | inl g ↦ rw ((eq_iff tool "grep").0 g) refl
      | inr n ↦ rw ((eq_iff tool "find").0 (ground arith)) refl
    ]

    writes :
        includes mutating_tools tool ≡ true
        → is_read (if includes mutating_tools tool then write else read) || guard.policy.trusted
          ≡ true
        → guard.policy.trusted ≡ true
    writes mutates may = rw mutates at may

-- A tool that is neither bash nor on the list of paths does not mutate.
not_mutating :
    (tool : String)
    → (tool === "bash") ≡ false
    → includes path_tools tool ≡ false
    → includes mutating_tools tool ≡ false
not_mutating tool b p = ground (arith, eq_iff tool "bash", eq_iff "bash" tool)

not_bash_path : (tool : String) → tool ≡ "bash" → includes path_tools tool ≡ false
not_bash_path tool e = rw e refl

-- A tool call that the guard allows is of an active tool. Unless it submits the worker's result, the tool
-- belongs to the worker's profile; it mutates only for the implementation profile in a trusted project;
-- and the path it is given, or each word of the command it is given that does not begin with a dash, is
-- open: under the project's root, under no protected path, and no credential.
pub authorize-IsGuarded :
    (guard : Guard) (tool : String) (arguments : ToolArguments)
    → authorize guard tool arguments ≡ allow
    → (includes (active_tools guard) tool ≡ true)
      × ((submits_result guard tool ≡ true) ⊎ IsGuarded guard tool arguments)
unfolding authorize
authorize-IsGuarded guard tool arguments e =
    elim (Bool-cases (includes (active_tools guard) tool)) [
      | inr f ↦ let refused = rw f at e in absurd (cc)
      | inl active ↦ elim (Bool-cases (submits_result guard tool)) [
        | inl result ↦ (active, inl result)
        | inr no_result ↦
            elim (Bool-cases (includes (tool_profile_for_worker guard.profile) tool)) [
              | inr f ↦ let refused = rw (active, f, no_result) at e in absurd (cc)
              | inl member ↦ (
                active,
                inr (inside_profile member no_result (rw (active, member, no_result) at e)),
              )
            ]
      ]
    ]
  where
    Rest : Type 0
    Rest =
        (if includes mutating_tools tool && not (is_implementation guard.profile)
          then blocked Code.profile_mutation_denied
          else if tool === "bash"
          then authorize_bash guard arguments
          else if includes path_tools tool
          then authorize_path guard tool arguments
          else if is_potentially_mutating_tool tool
          then blocked Code.unknown_mutating_tool
          else allow)
        ≡ allow

    profiled : Rest → includes mutating_tools tool ≡ true → guard.profile ≡ implementation
    profiled e mutates = elim (Bool-cases (is_implementation guard.profile)) [
      | inl t ↦ implementation_of guard.profile t
      | inr f ↦ let refused = rw (mutates, f) at e in absurd (cc)
    ]

    open_gate :
        Rest → (includes mutating_tools tool && not (is_implementation guard.profile)) ≡ false
    open_gate e =
        elim (Bool-cases (includes mutating_tools tool && not (is_implementation guard.profile))) [
          | inr f ↦ f
          | inl t ↦ let refused = rw t at e in absurd (cc)
        ]

    inside_profile :
        includes (tool_profile_for_worker guard.profile) tool ≡ true
        → submits_result guard tool ≡ false
        → Rest
        → IsGuarded guard tool arguments
    inside_profile member no_result e = elim (Bool-cases (tool === "bash")) [
      | inl b ↦
          let (trusted, (command, given, words)) =
            bash-IsOpen guard arguments (rw (open_gate e, b) at e) in
          let named = (eq_iff tool "bash").0 b in
          record {
            in_profile = member;
            may_mutate = λ mutates. (profiled e mutates, trusted);
            target_open = λ p. absurd (false≢true (sym (not_bash_path tool named) ∙ p));
            words_open = λ same. (command, given, words);
          }
      | inr n ↦ elim (Bool-cases (includes path_tools tool)) [
        | inl p ↦
            let ((path, given, opens), trusted) =
              path-IsOpen guard tool (path_of tool arguments) (rw (open_gate e, n, p) at e) in
            record {
              in_profile = member;
              may_mutate = λ mutates. (profiled e mutates, trusted mutates);
              target_open = λ q. (path, given, opens);
              words_open = λ same. absurd (false≢true (sym n ∙ (eq_iff tool "bash").1 same));
            }
        | inr q ↦ record {
          in_profile = member;
          may_mutate = λ mutates. absurd (false≢true (sym (not_mutating tool n q) ∙ mutates));
          target_open = λ p. absurd (false≢true (sym q ∙ p));
          words_open = λ same. absurd (false≢true (sym n ∙ (eq_iff tool "bash").1 same));
        }
      ]
    ]
