-- ===== src/Quality/Tests.antt =====
-- src/core/quality/gate.ts: a result that passes.
use pi_multi_orchestrator.Prelude.{◌≡◌, refl, Bool, true, false, [], ◌∷◌, codes, false≢true, ap}
use pi_multi_orchestrator.Quality.{
  Text, reject, blocked, satisfied, check_passed, check_failed, GateInput, trimmed,
  align_criterion_results, is_empty, evaluate_quality_gate,
}
use pi_multi_orchestrator.Quality.Align.{IsAligned, align_criterion_results-answers}

abbrev input : GateInput
input = record {
  acceptance_criteria = codes " builds " ∷ codes "tests pass" ∷ [];
  checks = check_passed ∷ [];
  reviewer_verdict = blocked;
  reviewer_results =
      record { criterion = codes "tests pass"; status = satisfied; mandatory = true }
      ∷ record { criterion = codes "builds"; status = satisfied; mandatory = false }
      ∷ [];
  missing_rejects = false;
  require_checks = true;
  is_investigation = false;
  unmodified = false;
}

abbrev as_is : Text → Text
as_is text = text

abbrev never : Text → Bool
never text = false

rejects : evaluate_quality_gate as_is never (record input { checks = check_failed ∷ [] }) ≡ reject
unfolding evaluate_quality_gate
rejects = refl

align_criterion_results-answers_example :
    IsAligned as_is
      (trimmed input.acceptance_criteria)
      input.reviewer_results
      (align_criterion_results as_is input.acceptance_criteria input.reviewer_results)
align_criterion_results-answers_example =
    align_criterion_results-answers as_is input.acceptance_criteria input.reviewer_results
      (λ none_there. false≢true (ap is_empty none_there))
