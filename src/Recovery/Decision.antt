-- ===== src/Recovery/Decision.antt =====
-- src/core/recovery/decision.ts: the decision of the Boss. Texts are lists of UTF-16 units.
use pi_multi_orchestrator.Prelude.{
  ℕ, Bool, false, Option, none, some, List, [], ◌∷◌, String, if◌then◌else◌, ◌===◌, codes, trim,
  Result, ok, err, ◌>>=◌, take,
}

pub data RecoveryAction : Type 0 where
  continue_existing_work repair_existing_work rollback_and_retry request_human : RecoveryAction

pub record RecoveryDecision : Type 0 where
  pub action : RecoveryAction
  pub summary : List ℕ

-- A value that is to be a decision: whether it is an object, and its fields where they are texts.
pub data RawDecision : Type 0 where
  not_object : RawDecision
  raw_object : (action : Option String) (summary : Option (List ℕ)) → RawDecision

pub data Thrown : Type 0 where
  type_error other_error : Thrown

abbrev pub action_named : String → Option RecoveryAction
action_named name =
    if name === "CONTINUE_EXISTING_WORK"
    then some continue_existing_work
    else if name === "REPAIR_EXISTING_WORK"
    then some repair_existing_work
    else if name === "ROLLBACK_AND_RETRY"
    then some rollback_and_retry
    else if name === "REQUEST_HUMAN"
    then some request_human
    else none

abbrev pub named : Option String → Result Thrown RecoveryAction
named none = err type_error
named (some name) = known (action_named name)
  where
    known : Option RecoveryAction → Result Thrown RecoveryAction
    known none = err type_error
    known (some action) = ok action

-- The trimmed text, which is not empty.
abbrev pub summarised : Option (List ℕ) → Result Thrown (List ℕ)
summarised none = err type_error
summarised (some text) = filled (trim text)
  where
    filled : List ℕ → Result Thrown (List ℕ)
    filled [] = err type_error
    filled (c ∷ cs) = ok (c ∷ cs)

abbrev pub proven : Bool → RecoveryAction → List ℕ → RecoveryDecision
proven false rollback_and_retry text = record {
  action = request_human;
  summary = codes "Rollback is not proven safe; human review is required";
}
proven _ action text = record { action = action; summary = take 2000 text }

unfoldable pub normalize_recovery_decision :
    RawDecision → (rollback_proven : Bool) → Result Thrown RecoveryDecision
normalize_recovery_decision not_object rollback_proven = err type_error
normalize_recovery_decision (raw_object action summary) rollback_proven =
    named action >>= λ known. summarised summary >>= λ text. ok (proven rollback_proven known text)
