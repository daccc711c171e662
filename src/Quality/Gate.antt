-- ===== src/Quality/Gate.antt =====
-- src/core/quality/gate.ts: what a verdict of the gate stands for.
use mathlib.Core.List.{Memᴰ}
use pi_multi_orchestrator.Quality.Align.{reports, NoneMatch}
use pi_multi_orchestrator.Prelude.{◌⊎◌, true, ◌≡◌, ◌≢◌, Bool, false, ◌&&◌, some, List, any, All}
use pi_multi_orchestrator.Quality.{
  Text, reject, satisfied, not_verified, CriterionResult, is_failed_check, is_timed_out, GateInput,
  Reason, trimmed, by_name, is_empty, says_failed, says_missing,
}

-- What holds when the gate passes.
pub record Passes (input : GateInput) (criteria : List CriterionResult) (reasons : List Reason)
    : Type 0 where
  pub none_failed : any says_failed reasons ≡ false
  pub none_missing : any says_missing reasons ≡ false
  pub no_check_failed : any is_failed_check input.checks ≡ false
  pub no_check_timed_out : any is_timed_out input.checks ≡ false
  pub checks_there : input.require_checks && is_empty input.checks ≡ false
  pub not_rejected : input.reviewer_verdict ≢ reject

-- A criterion whose result of that name, the last one, is satisfied.
abbrev pub IsMet : List CriterionResult → Text → Type 0
IsMet results criterion =
    (result : CriterionResult) × (by_name results criterion ≡ some result)
    × (result.status ≡ satisfied)

module _ (key : Text → Text) (forbids_modification : Text → Bool) (input : GateInput) where
  -- The reviewer's result counts for the criterion: by its key, or by its position, if none of the results
  -- is of any criterion.
  abbrev pub Counts : Text → CriterionResult → Type 0
  Counts criterion r =
      Memᴰ r input.reviewer_results
      × ((reports key criterion r ≡ true)
          ⊎ NoneMatch key (trimmed input.acceptance_criteria) input.reviewer_results)

  -- The reviewer reported the criterion as satisfied; or did not verify it, but it forbids modifications
  -- and the run was an investigation in which none was observed.
  abbrev pub IsSatisfied : Text → Type 0
  IsSatisfied criterion =
      ((r : CriterionResult) × Counts criterion r × (r.status ≡ satisfied))
      ⊎ ((All (λ r. reports key criterion r ≡ false) input.reviewer_results
            ⊎ ((r : CriterionResult) × Counts criterion r × (r.status ≡ not_verified)))
          × (input.is_investigation ≡ true)
          × (input.unmodified ≡ true)
          × (forbids_modification criterion ≡ true))

  abbrev Observed : CriterionResult → Type 0
  Observed a =
      (a.status ≡ satisfied)
      ⊎ ((a.status ≡ not_verified)
          × (input.is_investigation ≡ true)
          × (input.unmodified ≡ true)
          × (forbids_modification a.criterion ≡ true))
