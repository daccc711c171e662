-- ===== src/Quality.antt =====
-- src/core/quality/gate.ts: the gate that turns a reviewer's result into a verdict. Texts are lists of
-- UTF-16 units; the summaries and the fixes are left out. The normal form of a criterion (criterionKey)
-- and the test for a criterion that forbids modifications are parameters.
pub mod Align
pub mod Gate
mod Tests
use pi_multi_orchestrator.Prelude.{
  ℕ, zero, suc, Bool, true, false, not, ◌&&◌, ◌||◌, Option, none, some, List, [], ◌∷◌, ◌++◌, map,
  String, if◌then◌else◌, ◌==◌, ◌===◌, length, or_else, is_some, any, all, filter, find?, same, trim,
}
use mathlib.Core.List.{reverse}

abbrev pub Text : Type 0
Text = List ℕ

pub data QualityVerdict : Type 0 where
  pass reject blocked : QualityVerdict

pub data CriterionStatus : Type 0 where
  satisfied failed not_verified : CriterionStatus

pub record CriterionResult : Type 0 where
  pub criterion : Text
  pub status : CriterionStatus
  pub mandatory : Bool

pub data CheckOutcome : Type 0 where
  check_passed check_failed check_timed_out check_not_run : CheckOutcome

-- What the gate reads of its input: the verdict and the results of the reviewer, the outcomes of the
-- mechanical checks, the policy with its defaults filled in, and what is known of the worker's run.
pub record GateInput : Type 0 where
  pub acceptance_criteria : List Text
  pub checks : List CheckOutcome
  pub reviewer_verdict : QualityVerdict
  pub reviewer_results : List CriterionResult
  pub missing_rejects : Bool  -- `policy.missingCriterion === "reject"`
  pub require_checks : Bool  -- `policy.requireMechanicalChecks`
  pub is_investigation : Bool  -- `executionClass === "investigation"`
  pub unmodified : Bool  -- `mutationObserved === false`

pub data Reason : Type 0 where
  criterion_not_verified criterion_failed : Text → Reason
  evidence_missing checks_missing a_check_failed a_check_timed_out : Reason

abbrev pub is_text : Text → Bool
is_text [] = false
is_text (c ∷ cs) = true

-- `.map((item) => item.trim()).filter(Boolean)`.
abbrev pub trimmed : List Text → List Text
trimmed criteria = filter is_text (map trim criteria)

abbrev pub is_satisfied : CriterionStatus → Bool
is_satisfied satisfied = true
is_satisfied _ = false

abbrev pub is_failed : CriterionStatus → Bool
is_failed failed = true
is_failed _ = false

abbrev pub is_unverified : CriterionStatus → Bool
is_unverified not_verified = true
is_unverified _ = false

abbrev pub is_failed_check : CheckOutcome → Bool
is_failed_check check_failed = true
is_failed_check _ = false

abbrev pub is_timed_out : CheckOutcome → Bool
is_timed_out check_timed_out = true
is_timed_out _ = false

abbrev pub renamed : Text → CriterionResult → CriterionResult
renamed criterion result = record result { criterion = criterion }

abbrev pub unreported : Text → CriterionResult
unreported criterion = record { criterion = criterion; status = not_verified; mandatory = false }

abbrev pub answer : Text → Option CriterionResult → CriterionResult
answer criterion none = unreported criterion
answer criterion (some result) = renamed criterion result

-- The results by their positions.
abbrev pub positional : List Text → List CriterionResult → List CriterionResult
positional [] results = []
positional (criterion ∷ criteria) [] = []
positional (criterion ∷ criteria) (result ∷ results) =
    renamed criterion result ∷ positional criteria results

module _ (key : Text → Text) where
  -- The first result of the same key, unless the key is empty.
  abbrev pub hit : List CriterionResult → Text → Option CriterionResult
  hit results criterion =
      if is_text (key criterion)
      then find? (λ result. same (key result.criterion) (key criterion)) results
      else none

  abbrev pub aligned_to : List Text → List CriterionResult → List CriterionResult
  aligned_to criteria results =
      if not (any (λ criterion. is_some (hit results criterion)) criteria)
        && (length results == length criteria)
      then positional criteria results
      else map (λ criterion. answer criterion (hit results criterion)) criteria

  -- Without acceptance criteria the results stay as they are.
  abbrev pub aligned_or : List CriterionResult → List Text → List CriterionResult
  aligned_or results [] = results
  aligned_or results (criterion ∷ criteria) = aligned_to (criterion ∷ criteria) results

  unfoldable pub align_criterion_results : List Text → List CriterionResult → List CriterionResult
  align_criterion_results acceptance results = aligned_or results (trimmed acceptance)

-- `new Map(...).get(criterion)`: the last result of the name.
abbrev pub by_name : List CriterionResult → Text → Option CriterionResult
by_name results criterion = find? (λ result. same result.criterion criterion) (reverse results)

abbrev pub reason_of : Text → Option CriterionResult → List Reason
reason_of criterion none = criterion_not_verified criterion ∷ []
reason_of criterion (some result) =
    if is_unverified result.status
    then criterion_not_verified criterion ∷ []
    else if is_failed result.status
    then criterion_failed criterion ∷ []
    else []

abbrev pub criterion_reasons : List CriterionResult → List Text → List Reason
criterion_reasons results [] = []
criterion_reasons results (criterion ∷ criteria) =
    reason_of criterion (by_name results criterion) ++ criterion_reasons results criteria

abbrev pub when : Bool → Reason → List Reason
when test reason = if test then reason ∷ [] else []

abbrev pub is_pass : QualityVerdict → Bool
is_pass pass = true
is_pass _ = false

abbrev pub is_blocked : QualityVerdict → Bool
is_blocked blocked = true
is_blocked _ = false

abbrev pub is_empty {ℓ} : {A : Type ℓ} → List A → Bool
is_empty [] = true
is_empty (x ∷ xs) = false

abbrev pub other_reasons : GateInput → List CriterionResult → List Reason
other_reasons input criteria =
    when (is_pass input.reviewer_verdict && is_empty criteria && is_empty input.checks)
      evidence_missing
    ++ when (input.require_checks && is_empty input.checks) checks_missing
    ++ when (any is_failed_check input.checks) a_check_failed
    ++ when (any is_timed_out input.checks) a_check_timed_out

unfoldable pub gate_reasons : GateInput → List CriterionResult → List Reason
gate_reasons input criteria =
    criterion_reasons criteria (trimmed input.acceptance_criteria) ++ other_reasons input criteria

abbrev pub says_failed : Reason → Bool
says_failed (criterion_failed criterion) = true
says_failed _ = false

abbrev pub says_missing : Reason → Bool
says_missing (criterion_not_verified criterion) = true
says_missing _ = false

abbrev pub says_no_evidence : Reason → Bool
says_no_evidence evidence_missing = true
says_no_evidence _ = false

unfoldable pub gate_verdict : GateInput → List CriterionResult → List Reason → QualityVerdict
gate_verdict input criteria reasons =
    let missing = any says_missing reasons in
    if any (λ criterion. criterion.mandatory && is_failed criterion.status) criteria
      || any says_failed reasons
      || any is_failed_check input.checks
    then reject
    else if missing
        || any says_no_evidence reasons
        || any is_timed_out input.checks
        || (input.require_checks && is_empty input.checks)
    then (if input.missing_rejects && missing then reject else blocked)
    else if is_pass input.reviewer_verdict
        && any (λ criterion. criterion.mandatory && not (is_satisfied criterion.status)) criteria
    then blocked
    else if is_empty reasons
        && is_blocked input.reviewer_verdict
        && not (is_empty criteria)
        && all (λ criterion. is_satisfied criterion.status) criteria
    then pass
    else input.reviewer_verdict

module _ (key : Text → Text) (forbids_modification : Text → Bool) where
  -- A run that changed nothing satisfies a criterion that forbids modifications.
  abbrev pub observed : GateInput → CriterionResult → CriterionResult
  observed input result =
      if is_unverified result.status
        && input.is_investigation
        && input.unmodified
        && forbids_modification result.criterion
      then record result { status = satisfied }
      else result

  unfoldable pub gate_criteria : GateInput → List CriterionResult
  unfolding align_criterion_results
  gate_criteria input =
      map (observed input)
        (align_criterion_results key input.acceptance_criteria input.reviewer_results)

  unfoldable pub evaluate_quality_gate : GateInput → QualityVerdict
  unfolding gate_criteria gate_reasons gate_verdict
  evaluate_quality_gate input =
      gate_verdict input (gate_criteria input) (gate_reasons input (gate_criteria input))
