-- ===== src/Recovery/Classify.antt =====
-- src/core/recovery/classify.ts: what kind of change a run has made, and whether it may be recovered.
use pi_multi_orchestrator.Prelude.{
  ℕ, Bool, true, false, not, ◌&&◌, ◌||◌, Option, none, some, List, [], ◌∷◌, String, if◌then◌else◌,
  ◌===◌, or_else, any, includes,
}

pub data MutationClass : Type 0 where
  no_mutation local_observable unsafe_external unknown : MutationClass

pub data ToolEffectClass : Type 0 where
  local_write unsafe_effect unknown_effect : ToolEffectClass

pub record ToolObservation : Type 0 where
  pub tool_name : String
  pub completed : Bool
  pub effect_class : Option ToolEffectClass

abbrev pub is_unsafe : Option ToolEffectClass → Bool
is_unsafe (some unsafe_effect) = true
is_unsafe _ = false

abbrev pub unsafe_safety : List String
unsafe_safety = "NETWORK_OR_PUBLICATION" ∷ "DEVICE_OPERATION" ∷ "PRIVILEGE_ESCALATION" ∷ []

abbrev pub unsafe_code : Option String → Bool
unsafe_code none = false
unsafe_code (some code) = includes unsafe_safety code

abbrev pub is_local : ToolObservation → Bool
is_local item =
    item.completed
    && ((item.tool_name === "edit") || (item.tool_name === "write") || (item.tool_name === "bash"))
    && not (is_unsafe item.effect_class)

unfoldable pub classify_mutation :
    (observed : Bool) → List ToolObservation → (code : Option String) → MutationClass
classify_mutation observed observations code =
    if not observed
    then no_mutation
    else if any (λ item. is_unsafe item.effect_class) observations || unsafe_code code
    then unsafe_external
    else if any is_local observations
    then local_observable
    else unknown

pub record Attempt : Type 0 where
  pub tool_observations : List ToolObservation
  pub safety_block_code : Option String

pub record Run : Type 0 where
  pub terminal_status : String
  pub mutation_observed : Bool  -- `potentialMutationObserved`
  pub has_result : Bool  -- whether `structuredResult` is there
  pub attempts : List Attempt
  pub summary : List ℕ

abbrev pub last : List Attempt → Option Attempt
last [] = none
last (attempt ∷ attempts) = some (or_else (last attempts) attempt)

abbrev pub observations_of : Option Attempt → List ToolObservation
observations_of none = []
observations_of (some attempt) = attempt.tool_observations

abbrev pub code_of : Option Attempt → Option String
code_of none = none
code_of (some attempt) = attempt.safety_block_code

unfoldable pub classify_mutation_from_run : Run → MutationClass
unfolding classify_mutation
classify_mutation_from_run run =
    classify_mutation run.mutation_observed (observations_of (last run.attempts))
      (code_of (last run.attempts))

abbrev pub is_local_class : MutationClass → Bool
is_local_class local_observable = true
is_local_class _ = false

unfoldable pub should_enter_autonomous_recovery :
    (status : String) (observed has_result : Bool) → MutationClass → (safety_stop : Bool) → Bool
should_enter_autonomous_recovery status observed has_result mutation safety_stop =
    not safety_stop
    && not ((status === "cancelled") || (status === "SAFETY_STOP"))
    && not has_result
    && observed
    && is_local_class mutation
    && (status === "partial_mutation_requires_review")

unfoldable pub eligible : Run → Bool
unfolding should_enter_autonomous_recovery classify_mutation_from_run
eligible run =
    should_enter_autonomous_recovery run.terminal_status run.mutation_observed run.has_result
      (classify_mutation_from_run run) false
