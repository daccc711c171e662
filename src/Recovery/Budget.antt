-- ===== src/Recovery/Budget.antt =====
-- src/core/recovery/orchestrate.ts: what has to hold for work to be continued, and how often it is.
use pi_multi_orchestrator.Prelude.{
  ℕ, ◌≤◌, ◌≡◌, ◌≢◌, ◌⊎◌, inl, inr, refl, ap, ◌∙◌, subst, Bool, true, false, not, ◌||◌, Option, none,
  some, List, [], ◌∷◌, ◌++◌, String, leb, ===_refl, any, any-mem, Result, ok, err, arith,
  Bool-cases,
}
use mathlib.Core.List.{Memᴰ}
use pi_multi_orchestrator.Recovery.Classify.{
  local_observable, ToolObservation, is_unsafe, unsafe_code, is_local, classify_mutation, eligible,
}
use pi_multi_orchestrator.Recovery.Decision.{
  RecoveryAction, continue_existing_work, repair_existing_work, rollback_and_retry, request_human,
  RecoveryDecision, Thrown,
}
use pi_multi_orchestrator.Recovery.Orchestrate.{
  RecoveryAssessment, Evidence, Continued, Calls, RecoveryOptions, RecoveryResult,
  RecoveryOutcomeKind, continued, human_required_outcome, assessment_failed, budget_exhausted,
  Recovered, is_assessment, recovery_sequence_count, evidence_item, admitted, noted, acted, decided,
  recorded, assessed, projected, recover_after_mutation, stopped,
}

-- A mutation that is taken for local was observed, none of the observations and no safety block is
-- of an unsafe external effect, and one of them is a completed edit, write or bash.
pub classify_mutation-local :
    (observed : Bool) (observations : List ToolObservation) (code : Option String)
    → classify_mutation observed observations code ≡ local_observable
    → (observed ≡ true)
      × (any (λ item. is_unsafe item.effect_class) observations ≡ false)
      × (unsafe_code code ≡ false)
      × ((item : ToolObservation) × Memᴰ item observations × (is_local item ≡ true))
unfolding classify_mutation
classify_mutation-local observed observations code e =
    let found : any is_local observations ≡ true = ground arith in
    (ground arith, ground arith, ground arith, any-mem is_local observations found)

count_same :
    (options again : RecoveryOptions)
    → again.mission_id ≡ options.mission_id
    → again.task_id ≡ options.task_id
    → (log : List Evidence)
    → recovery_sequence_count again log ≡ recovery_sequence_count options log
unfolding recovery_sequence_count
count_same options again mission task log = rw (mission, task)

module _ (calls : Calls) (options : RecoveryOptions) where
  abbrev pub Acts : RecoveryAction → Type 0
  Acts action = (action ≡ continue_existing_work) ⊎ (action ≡ repair_existing_work)

  -- If the recovery continued, it took one of the two actions, and it is on record.
  abbrev Bounded : Recovered → Type 0
  Bounded recovered =
      (r : RecoveryResult)
      → recovered.1 ≡ ok r
      → r.outcome ≡ continued
      → Acts r.action × (1 ≤ recovery_sequence_count options recovered.0)

  -- The store is only added to by the work that is continued.
  abbrev pub Appends : Type 0
  Appends =
      (action : RecoveryAction) (log : List Evidence)
      → (more : List Evidence) × ((calls.continue_work action log).0 ≡ log ++ more)

  count-append_le :
      (log more : List Evidence)
      → recovery_sequence_count options log ≤ recovery_sequence_count options (log ++ more)
  unfolding recovery_sequence_count
  count-append_le [] more = omega arith
  count-append_le (item ∷ log) more = ground (arith, count-append_le log more)

  count-admitted_le :
      (log : List Evidence) (item : Evidence)
      → recovery_sequence_count options log
        ≤ recovery_sequence_count options (admitted calls options log item)
  count-admitted_le log item = elim (Bool-cases (calls.accepts log item)) [
    | inl t ↦ rw t (count-append_le log (item ∷ []))
    | inr f ↦ rw f (omega arith)
  ]

  noted-Bounded :
      (id : String) (action : RecoveryAction) (worked : List Evidence × Result Thrown Continued)
      → Acts action
      → 1 ≤ recovery_sequence_count options worked.0
      → Bounded (noted calls options id action worked)
  noted-Bounded id action (log, err why) acts h r e c = cc
  noted-Bounded id action (log, ok work) acts h r e c =
      let same : action ≡ r.action = ap action_of e in
      (
        subst Acts same acts,
        omega (
          arith,
          h,
          count-admitted_le log
              (evidence_item calls options log work.attempt_id "other" "continued"),
        ),
      )
    where
      action_of : Result Thrown RecoveryResult → RecoveryAction
      action_of (err why) = request_human
      action_of (ok result) = result.action

  stopped_never :
      (outcome : RecoveryOutcomeKind) (text : List ℕ) (id : Option String) (r : RecoveryResult)
      → outcome ≢ continued
      → ◌≡◌ {A = Result Thrown RecoveryResult} (ok (stopped calls options outcome text id)) (ok r)
      → r.outcome ≢ continued
  stopped_never outcome text id r differs e c = differs (ap outcome_of e ∙ c)
    where
      outcome_of : Result Thrown RecoveryResult → RecoveryOutcomeKind
      outcome_of (err why) = continued
      outcome_of (ok result) = result.outcome

  stopped-Bounded :
      (log : List Evidence) (outcome : RecoveryOutcomeKind) (text : List ℕ) (id : Option String)
      → outcome ≢ continued
      → Bounded (log, ok (stopped calls options outcome text id))
  stopped-Bounded log outcome text id differs r e c =
      absurd (stopped_never outcome text id r differs e c)

  acted-Bounded :
      Appends
      → (log : List Evidence) (id : String) (action : RecoveryAction) (text : List ℕ)
      → 1 ≤ recovery_sequence_count options log
      → Bounded (acted calls options log id action text)
  acted-Bounded appends log id request_human text h =
      stopped-Bounded log human_required_outcome text (some id) (λ q. cc)
  acted-Bounded appends log id rollback_and_retry text h =
      stopped-Bounded log human_required_outcome text (some id) (λ q. cc)
  acted-Bounded appends log id continue_existing_work text h =
      let (more, same) = appends continue_existing_work log in
      noted-Bounded id continue_existing_work (calls.continue_work continue_existing_work log)
        (inl refl) (rw same (omega (arith, h, count-append_le log more)))
  acted-Bounded appends log id repair_existing_work text h =
      let (more, same) = appends repair_existing_work log in
      noted-Bounded id repair_existing_work (calls.continue_work repair_existing_work log)
        (inr refl) (rw same (omega (arith, h, count-append_le log more)))

  decided-Bounded :
      Appends
      → (log : List Evidence) (id : String) (decision : Result Thrown RecoveryDecision)
      → 1 ≤ recovery_sequence_count options log
      → Bounded (decided calls options log id decision)
  decided-Bounded appends log id (err why) h =
      stopped-Bounded log human_required_outcome _ (some id) (λ q. cc)
  decided-Bounded appends log id (ok decision) h =
      acted-Bounded appends log id decision.action decision.summary h

  recorded-Bounded :
      Appends
      → (log : List Evidence) (id : String) (assessment : RecoveryAssessment)
      → 1 ≤ recovery_sequence_count options log
      → Bounded (recorded calls options log id assessment)
  recorded-Bounded appends log id assessment h =
      elim (Bool-cases (assessment.human_required || not assessment.recoverable)) [
        | inl t ↦ rw t (stopped-Bounded log human_required_outcome _ (some id) (λ q. cc))
        | inr f ↦ rw f (decided-Bounded appends log id _ h)
      ]

  count-append_item :
      (log : List Evidence) (item : Evidence)
      → is_assessment options item ≡ true
      → 1 ≤ recovery_sequence_count options (log ++ (item ∷ []))
  unfolding recovery_sequence_count
  count-append_item [] item t = rw t (omega arith)
  count-append_item (other ∷ log) item t = ground (arith, count-append_item log item t)

  counted_item :
      (log : List Evidence) (reason : String)
      → 1
        ≤ recovery_sequence_count options (
            log
            ++ (evidence_item calls options log options.failed_attempt_id "recovery-assessment"
                  reason
                ∷ []))
  counted_item log reason =
      count-append_item log
        (evidence_item calls options log options.failed_attempt_id "recovery-assessment" reason)
        (rw (===_refl options.mission_id, ===_refl options.task_id))

  assessed-Bounded :
      Appends
      → (log : List Evidence) (assessment : Result Thrown (Option RecoveryAssessment))
      → Bounded (assessed calls options log assessment)
  assessed-Bounded appends log (err why) =
      stopped-Bounded (admitted calls options log _) assessment_failed _ none (λ q. cc)
  assessed-Bounded appends log (ok none) =
      stopped-Bounded (admitted calls options log _) assessment_failed _ none (λ q. cc)
  assessed-Bounded appends log (ok (some assessment)) =
      let item =
        evidence_item calls options log options.failed_attempt_id "recovery-assessment"
          "local_observable_result_missing" in
      elim (Bool-cases (calls.accepts log item)) [
        | inl t ↦ rw t (
            recorded-Bounded appends (log ++ (item ∷ [])) item.evidence_id assessment
              (counted_item log "local_observable_result_missing"))
        | inr f ↦ rw f (λ r e c. cc)
      ]

  projected-Bounded :
      Appends
      → (log : List Evidence) (changed : Result Thrown ℕ)
      → Bounded (projected calls options log changed)
  projected-Bounded appends log (err why) = λ r e c. cc
  projected-Bounded appends log (ok changed) = assessed-Bounded appends log (calls.assess changed)

  spent_never :
      (log : List Evidence) (r : RecoveryResult)
      → 1 ≤ recovery_sequence_count options log
      → (recover_after_mutation calls options log).1 ≡ ok r
      → r.outcome ≢ continued
  unfolding recover_after_mutation
  spent_never log r h e c = elim (Bool-cases (eligible options.failed_run)) [
    | inr unfit ↦ stopped_never human_required_outcome _ none r (λ q. cc) (rw unfit at e) c
    | inl fit ↦
        let spent : leb 1 (recovery_sequence_count options log) ≡ true = ground arith in
        stopped_never budget_exhausted _ none r (λ q. cc) (rw (fit, spent) at e) c
  ]

  unfit_never :
      (log : List Evidence) (r : RecoveryResult)
      → eligible options.failed_run ≡ false
      → (recover_after_mutation calls options log).1 ≡ ok r
      → r.outcome ≢ continued
  unfolding recover_after_mutation
  unfit_never log r unfit e =
      stopped_never human_required_outcome _ none r (λ q. cc) (rw unfit at e)

  -- Work is continued only after a run whose local mutation is partial and unreported, for a task
  -- that has no recovery on record, by one of the two actions that keep the work (a rollback is never
  -- carried out); and the recovery is on record afterwards. The work that is continued is assumed to
  -- add to the mission's evidence only.
  pub recover_after_mutation-Bounded :
      Appends
      → (log : List Evidence) (r : RecoveryResult)
      → (recover_after_mutation calls options log).1 ≡ ok r
      → r.outcome ≡ continued
      → (eligible options.failed_run ≡ true)
        × (recovery_sequence_count options log ≡ 0)
        × Acts r.action
        × (1 ≤ recovery_sequence_count options (recover_after_mutation calls options log).0)
  unfolding recover_after_mutation
  recover_after_mutation-Bounded appends log r e c =
      elim (Bool-cases (eligible options.failed_run)) [
        | inr unfit ↦ absurd (unfit_never log r unfit e c)
        | inl fit ↦ elim (Bool-cases (leb 1 (recovery_sequence_count options log))) [
          | inl spent ↦ absurd (spent_never log r (ground arith) e c)
          | inr fresh ↦
              let (acts, on_record) =
                projected-Bounded appends log calls.project r (rw (fit, fresh) at e) c in
              (fit, ground arith, acts, rw (fit, fresh) on_record)
        ]
      ]

-- A task's work is continued at most once: on the evidence that a recovery which continued has
-- left, no recovery of the same task continues, whatever run it follows and whatever its calls
-- return. The work that the first one continued is assumed to add to the mission's evidence only.
pub recover_after_mutation-once :
    (calls : Calls) (options : RecoveryOptions)
    → Appends calls options
    → (log : List Evidence) (r : RecoveryResult)
    → (recover_after_mutation calls options log).1 ≡ ok r
    → r.outcome ≡ continued
    → (other_calls : Calls) (again : RecoveryOptions) → again.mission_id ≡ options.mission_id
    → again.task_id ≡ options.task_id
    → (s : RecoveryResult)
    → (recover_after_mutation other_calls again (recover_after_mutation calls options log).0).1
      ≡ ok s
    → s.outcome ≢ continued
recover_after_mutation-once calls options appends log r e c other_calls again mission task s f =
    let (fit, fresh, acts, on_record) =
      recover_after_mutation-Bounded calls options appends log r e c in
    spent_never other_calls again (recover_after_mutation calls options log).0 s
      (omega (
        arith,
        on_record,
        count_same options again mission task (recover_after_mutation calls options log).0,
      ))
      f
