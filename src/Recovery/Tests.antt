-- ===== src/Recovery/Tests.antt =====
-- src/core/recovery: a recovery that continues, and one that follows it.
use pi_multi_orchestrator.Prelude.{
  ◌≤◌, ◌≡◌, ◌≢◌, refl, ap, true, false, none, some, List, [], ◌∷◌, ◌++◌, codes, ok,
}
use pi_multi_orchestrator.Recovery.Classify.{
  local_observable, ToolObservation, local_write, unsafe_effect, classify_mutation, unsafe_external,
  eligible, Run,
}
use pi_multi_orchestrator.Recovery.Decision.{
  repair_existing_work, raw_object, normalize_recovery_decision, RecoveryDecision, request_human,
}
use pi_multi_orchestrator.Recovery.Orchestrate.{
  Evidence, Calls, RecoveryOptions, RecoveryResult, continued, budget_exhausted,
  recovery_sequence_count, recover_after_mutation,
}
use pi_multi_orchestrator.Recovery.Budget.{
  Acts, Appends, recover_after_mutation-Bounded, recover_after_mutation-once,
}

abbrev edit : ToolObservation
edit = record { tool_name = "edit"; completed = true; effect_class = some local_write }

abbrev run : Run
run = record {
  terminal_status = "partial_mutation_requires_review";
  mutation_observed = true;
  has_result = false;
  attempts = record { tool_observations = edit ∷ []; safety_block_code = none } ∷ [];
  summary = [];
}

abbrev calls : Calls
calls = record {
  accepts = λ log item. true;
  fresh_id = λ log. "evidence";
  project = ok 1;
  assess = λ changed.
      ok (some (record { recoverable = true; human_required = false; recommended_plan = [] }));
  decide = λ assessment. ok (raw_object (some "REPAIR_EXISTING_WORK") (some (codes "repair")));
  continue_work =
      λ action log. (log, ok (record { attempt_id = "second"; summary = codes "done" }));
}

abbrev options : RecoveryOptions
options = record {
  mission_id = "m";
  task_id = "t";
  failed_attempt_id = "first";
  failed_run = run;
  rollback_proven = false;
}

abbrev repaired : RecoveryResult
repaired = record {
  outcome = continued;
  action = repair_existing_work;
  summary = codes "done";
  mutation_class = local_observable;
  recovery_assessment_id = some "evidence";
  continuation_attempt_id = some "second";
}

continues : (recover_after_mutation calls options []).1 ≡ ok repaired
unfolding recover_after_mutation
continues = refl

-- A rollback that is not proven safe becomes a request for a human.
no_rollback :
    (text : RecoveryDecision) × (normalize_recovery_decision
        (raw_object (some "ROLLBACK_AND_RETRY") (some (codes "x")))
        false
      ≡ ok text)
    × (text.action ≡ request_human)
unfolding normalize_recovery_decision
no_rollback = (_, refl, refl)

published :
    classify_mutation true (edit ∷ record edit { effect_class = some unsafe_effect } ∷ []) none
    ≡ unsafe_external
unfolding classify_mutation
published = refl

only_appends : Appends calls options
only_appends action log = ([], append_nil log)
  where
    append_nil : (log : List Evidence) → log ≡ log ++ []
    append_nil [] = refl
    append_nil (item ∷ log) = ap (λ rest. item ∷ rest) (append_nil log)

local : classify_mutation true (edit ∷ []) none ≡ local_observable
unfolding classify_mutation
local = refl

recover_after_mutation-Bounded_example :
    (eligible run ≡ true)
    × (recovery_sequence_count options [] ≡ 0)
    × Acts calls options repair_existing_work
    × (1 ≤ recovery_sequence_count options (recover_after_mutation calls options []).0)
recover_after_mutation-Bounded_example =
    recover_after_mutation-Bounded calls options only_appends [] repaired continues refl

abbrev refused : RecoveryResult
refused = record {
  outcome = budget_exhausted;
  action = request_human;
  summary = codes "Autonomous mutation recovery budget is exhausted for this Task";
  mutation_class = local_observable;
  recovery_assessment_id = none;
  continuation_attempt_id = none;
}

refuses :
    (recover_after_mutation calls options (recover_after_mutation calls options []).0).1
    ≡ ok refused
unfolding recover_after_mutation
refuses = refl

recover_after_mutation-once_example : refused.outcome ≢ continued
recover_after_mutation-once_example =
    recover_after_mutation-once calls options only_appends [] repaired continues refl calls options
      refl refl refused refuses
