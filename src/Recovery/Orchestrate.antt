-- ===== src/Recovery/Orchestrate.antt =====
-- src/core/recovery/orchestrate.ts: what happens when an implementation run has changed the work tree
-- and did not report a result. The prompts (packet.ts) and the projection of the work tree
-- (projection.ts) are left out.
use pi_multi_orchestrator.Prelude.{
  ℕ, Bool, not, ◌&&◌, ◌||◌, Option, none, some, List, [], ◌∷◌, ◌++◌, String, if◌then◌else◌, leb,
  ◌===◌, length, or_else, filter, codes, Result, ok, err, ◌>>=◌, take,
}
use pi_multi_orchestrator.Recovery.Classify.{
  MutationClass, Run, classify_mutation_from_run, is_local_class, eligible,
}
use pi_multi_orchestrator.Recovery.Decision.{
  RecoveryAction, rollback_and_retry, request_human, RecoveryDecision, RawDecision, Thrown,
  other_error, normalize_recovery_decision,
}

pub record RecoveryAssessment : Type 0 where
  pub recoverable : Bool
  pub human_required : Bool
  pub recommended_plan : List ℕ

-- What the evidence of the mission says of a recovery.
pub record Evidence : Type 0 where
  pub evidence_id : String
  pub mission_id : String
  pub task_id : Option String
  pub attempt_id : String
  pub kind : String
  pub recovery_reason : String

pub record Continued : Type 0 where
  pub attempt_id : String
  pub summary : List ℕ

-- What a recovery calls: the store takes an evidence item, adding it to its list under a new id, or
-- throws; the calls of the Boss, of the assessor and of the worker return or throw. The work that is
-- continued may itself write to the store.
pub record Calls : Type 0 where
  pub accepts : List Evidence → Evidence → Bool
  pub fresh_id : List Evidence → String
  pub project : Result Thrown ℕ
  pub assess : ℕ → Result Thrown (Option RecoveryAssessment)
  pub decide : RecoveryAssessment → Result Thrown RawDecision
  pub continue_work : RecoveryAction → List Evidence → List Evidence × Result Thrown Continued

pub record RecoveryOptions : Type 0 where
  pub mission_id : String
  pub task_id : String
  pub failed_attempt_id : String
  pub failed_run : Run
  pub rollback_proven : Bool

pub data RecoveryOutcomeKind : Type 0 where
  continued human_required_outcome assessment_failed budget_exhausted : RecoveryOutcomeKind

pub record RecoveryResult : Type 0 where
  pub outcome : RecoveryOutcomeKind
  pub action : RecoveryAction
  pub summary : List ℕ
  pub mutation_class : MutationClass
  pub recovery_assessment_id : Option String
  pub continuation_attempt_id : Option String

abbrev pub Recovered : Type 0
Recovered = List Evidence × Result Thrown RecoveryResult

abbrev pub is_assessment : RecoveryOptions → Evidence → Bool
is_assessment options item =
    (item.mission_id === options.mission_id)
    && (item.kind === "recovery-assessment")
    && (or_else item.task_id "" === options.task_id)

unfoldable pub recovery_sequence_count : RecoveryOptions → List Evidence → ℕ
recovery_sequence_count options log = length (filter (is_assessment options) log)

module _ (calls : Calls) (options : RecoveryOptions) where
  abbrev pub mutation : MutationClass
  mutation = classify_mutation_from_run options.failed_run

  -- An end of the recovery that leaves the rest to a human.
  abbrev pub stopped : RecoveryOutcomeKind → List ℕ → Option String → RecoveryResult
  stopped outcome text assessment = record {
    outcome = outcome;
    action = request_human;
    summary = text;
    mutation_class = mutation;
    recovery_assessment_id = assessment;
    continuation_attempt_id = none;
  }

  abbrev pub evidence_item : List Evidence → (attempt kind reason : String) → Evidence
  evidence_item log attempt kind reason = record {
    evidence_id = calls.fresh_id log;
    mission_id = options.mission_id;
    task_id = some options.task_id;
    attempt_id = attempt;
    kind = kind;
    recovery_reason = reason;
  }

  abbrev pub admitted : List Evidence → Evidence → List Evidence
  admitted log item = if calls.accepts log item then log ++ (item ∷ []) else log

  abbrev pub noted :
      (assessment_id : String)
      → RecoveryAction
      → List Evidence × Result Thrown Continued
      → Recovered
  noted assessment_id action (log, err why) = (log, err why)
  noted assessment_id action (log, ok work) = (
    admitted log (evidence_item log work.attempt_id "other" "continued"),
    ok (record {
      outcome = continued;
      action = action;
      summary = take 2000 work.summary;
      mutation_class = mutation;
      recovery_assessment_id = some assessment_id;
      continuation_attempt_id = some work.attempt_id;
    }),
  )

  abbrev pub acted : List Evidence → (assessment_id : String) → RecoveryAction → List ℕ → Recovered
  acted log assessment_id request_human text =
      (log, ok (stopped human_required_outcome text (some assessment_id)))
  acted log assessment_id rollback_and_retry text =
      (log, ok (stopped human_required_outcome text (some assessment_id)))
  acted log assessment_id action text = noted assessment_id action (calls.continue_work action log)

  abbrev pub decided :
      List Evidence → (assessment_id : String) → Result Thrown RecoveryDecision → Recovered
  decided log assessment_id (err why) = (
    log,
    ok (
        stopped human_required_outcome (codes "Boss recovery decision was unavailable")
          (some assessment_id)),
  )
  decided log assessment_id (ok decision) = acted log assessment_id decision.action decision.summary

  abbrev pub recorded : List Evidence → (assessment_id : String) → RecoveryAssessment → Recovered
  recorded log assessment_id assessment =
      if assessment.human_required || not assessment.recoverable
      then (
        log,
        ok (
            stopped human_required_outcome (take 2000 assessment.recommended_plan)
              (some assessment_id)),
      )
      else decided log assessment_id (
          calls.decide assessment >>= λ raw.
          normalize_recovery_decision raw options.rollback_proven)

  abbrev pub assessed : List Evidence → Result Thrown (Option RecoveryAssessment) → Recovered
  assessed log (ok (some assessment)) =
      let item =
        evidence_item log options.failed_attempt_id "recovery-assessment"
          "local_observable_result_missing" in
      if calls.accepts log item
      then recorded (log ++ (item ∷ [])) item.evidence_id assessment
      else (log, err other_error)
  assessed log _ = (
    admitted log
        (evidence_item log options.failed_attempt_id "recovery-assessment" "assessment_failed"),
    ok (
        stopped assessment_failed
          (codes "Recovery inspection did not return a structured assessment") none),
  )

  abbrev pub projected : List Evidence → Result Thrown ℕ → Recovered
  projected log (err why) = (log, err why)
  projected log (ok changed) = assessed log (calls.assess changed)

  unfoldable pub recover_after_mutation : List Evidence → Recovered
  unfolding eligible recovery_sequence_count classify_mutation_from_run normalize_recovery_decision
  recover_after_mutation log =
      if not (eligible options.failed_run)
      then (
        log,
        ok (
            stopped human_required_outcome
              (if is_local_class mutation
                then codes "Autonomous recovery is not eligible for this terminal"
                else codes "Human review is required for this mutation class")
              none),
      )
      else if leb 1 (recovery_sequence_count options log)
      then (
        log,
        ok (
            stopped budget_exhausted
              (codes "Autonomous mutation recovery budget is exhausted for this Task") none),
      )
      else projected log calls.project
