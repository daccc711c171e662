-- ===== src/Quality/Align.antt =====
-- src/core/quality/gate.ts: what alignCriterionResults makes of the reviewer's results.
use mathlib.Core.List.{Memᴰ}
use pi_multi_orchestrator.Prelude.{
  ◌≡◌, ◌≢◌, refl, sym, ap, ◌∙◌, subst, ◌⊎◌, inl, inr, Bool, true, false, ◌&&◌, Option, none, some,
  List, [], ◌∷◌, map, false≢true, if◌then◌else◌, ◌==◌, length, is_some, any, All, All-mem,
  All-of_mem, find?, find?-eq-some, find?-eq-none, same, arith, Bool-cases,
}
use pi_multi_orchestrator.Quality.{
  Text, CriterionResult, CriterionStatus, not_verified, is_text, answer, positional, hit,
  aligned_to, aligned_or, trimmed, align_criterion_results,
}

-- What a result says.
abbrev pub Says : CriterionResult → Text → CriterionStatus → Bool → Type 0
Says a criterion status mandatory =
    (a.criterion ≡ criterion) × (a.status ≡ status) × (a.mandatory ≡ mandatory)

module _ (key : Text → Text) where
  -- The reviewer's result is of the criterion: their keys are the same, and not empty.
  abbrev pub reports : Text → CriterionResult → Bool
  reports criterion result = is_text (key criterion) && same (key result.criterion) (key criterion)

  -- The result is the first of the criterion.
  abbrev pub IsFirst : Text → List CriterionResult → CriterionResult → Type 0
  IsFirst criterion [] result = ⊥
  IsFirst criterion (r ∷ results) result =
      ((r ≡ result) × (reports criterion r ≡ true))
      ⊎ ((reports criterion r ≡ false) × IsFirst criterion results result)

  -- A criterion is answered by the first of the reviewer's results for it, or by `not_verified`, if there
  -- is none.
  abbrev pub Answers : List CriterionResult → Text → CriterionResult → Type 0
  Answers results criterion a =
      ((r : CriterionResult) × IsFirst criterion results r × Says a criterion r.status r.mandatory)
      ⊎ (All (λ r. reports criterion r ≡ false) results × Says a criterion not_verified false)

  abbrev pub Answered : List CriterionResult → List Text → List CriterionResult → Type 0
  Answered results [] [] = Unit
  Answered results (c ∷ cs) (a ∷ rest) = Answers results c a × Answered results cs rest
  Answered results _ _ = ⊥

  -- Each criterion is answered by the result at its position.
  abbrev pub Paired : List Text → List CriterionResult → List CriterionResult → Type 0
  Paired [] [] [] = Unit
  Paired (c ∷ cs) (r ∷ rs) (a ∷ rest) = Says a c r.status r.mandatory × Paired cs rs rest
  Paired _ _ _ = ⊥

  -- None of the results is of a criterion.
  abbrev pub NoneMatch : List Text → List CriterionResult → Type 0
  NoneMatch criteria results =
      All (λ criterion. All (λ r. reports criterion r ≡ false) results) criteria

  abbrev pub IsAligned : List Text → List CriterionResult → List CriterionResult → Type 0
  IsAligned criteria results aligned =
      (NoneMatch criteria results × Paired criteria results aligned)
      ⊎ (((length results ≢ length criteria) ⊎ (NoneMatch criteria results → ⊥))
          × Answered results criteria aligned)

  hit-find :
      (results : List CriterionResult) (criterion : Text)
      → hit key results criterion ≡ find? (reports criterion) results
  hit-find results criterion = by (is_text (key criterion))
    where
      never : (results : List CriterionResult) → none ≡ find? (λ r. false) results
      never [] = refl
      never (r ∷ results) = never results

      by :
          (b : Bool)
          → (if b then find? (λ r. same (key r.criterion) (key criterion)) results else none)
            ≡ find? (λ r. b && same (key r.criterion) (key criterion)) results
      by true = refl
      by false = never results

  find-IsFirst :
      (criterion : Text) (results : List CriterionResult) (r : CriterionResult)
      → find? (reports criterion) results ≡ some r
      → IsFirst criterion results r
  find-IsFirst criterion [] r e = cc
  find-IsFirst criterion (x ∷ results) r e = elim (Bool-cases (reports criterion x)) [
    | inl t ↦ inl (let made = rw t at e in cc, t)
    | inr f ↦ inr (f, find-IsFirst criterion results r (rw f at e))
  ]

  answer-Answers :
      (results : List CriterionResult) (criterion : Text) (found : Option CriterionResult)
      → find? (reports criterion) results ≡ found
      → Answers results criterion (answer criterion found)
  answer-Answers results criterion none e = inr (
    All-of_mem _ results (λ r m. find?-eq-none (reports criterion) results e m),
    (refl, refl, refl),
  )
  answer-Answers results criterion (some r) e =
      inl (r, find-IsFirst criterion results r e, (refl, refl, refl))

  named-Answered :
      (results : List CriterionResult) (criteria : List Text)
      → Answered results criteria
          (map (λ criterion. answer criterion (hit key results criterion)) criteria)
  named-Answered results [] = tt
  named-Answered results (criterion ∷ criteria) = (
    answer-Answers results criterion (hit key results criterion) (sym (hit-find results criterion)),
    named-Answered results criteria,
  )

  positional-Paired :
      (criteria : List Text) (results : List CriterionResult)
      → length results ≡ length criteria
      → Paired criteria results (positional criteria results)
  positional-Paired [] [] h = tt
  positional-Paired [] (r ∷ results) h = absurd (omega arith)
  positional-Paired (c ∷ criteria) [] h = absurd (omega arith)
  positional-Paired (c ∷ criteria) (r ∷ results) h =
      ((refl, refl, refl), positional-Paired criteria results (omega arith))

  none_hit :
      (results : List CriterionResult) (criteria : List Text)
      → any (λ criterion. is_some (hit key results criterion)) criteria ≡ false
      → NoneMatch criteria results
  none_hit results [] h = tt
  none_hit results (criterion ∷ criteria) h = (
    missing (hit key results criterion) refl (ground arith),
    none_hit results criteria (ground arith),
  )
    where
      missing :
          (found : Option CriterionResult)
          → hit key results criterion ≡ found
          → is_some found ≡ false
          → All (λ r. reports criterion r ≡ false) results
      missing none e h = All-of_mem _ results (λ r m.
          find?-eq-none (reports criterion) results (sym (hit-find results criterion) ∙ e) m)
      missing (some r) e h = cc

  some_hit :
      (results : List CriterionResult) (criteria : List Text)
      → any (λ criterion. is_some (hit key results criterion)) criteria ≡ true
      → NoneMatch criteria results
      → ⊥
  some_hit results [] h n = false≢true h
  some_hit results (criterion ∷ criteria) h (n, ns) =
      some_hit results criteria (rw (missing (hit key results criterion) refl) at h) ns
    where
      missing :
          (found : Option CriterionResult)
          → hit key results criterion ≡ found
          → is_some (hit key results criterion) ≡ false
      missing none e = rw e refl
      missing (some r) e =
          let (m, t) =
            find?-eq-some (reports criterion) results (sym (hit-find results criterion) ∙ e) in
          absurd (false≢true (sym (All-mem _ results n m) ∙ t))

  aligned_to-IsAligned :
      (criteria : List Text) (results : List CriterionResult)
      → IsAligned criteria results (aligned_to key criteria results)
  aligned_to-IsAligned criteria results =
      let hits = any (λ criterion. is_some (hit key results criterion)) criteria in
      elim (Bool-cases hits) [
        | inl t ↦ rw t (inr (inr (some_hit results criteria t), named-Answered results criteria))
        | inr f ↦ rw f (elim (Bool-cases (length results == length criteria)) [
          | inl s ↦
              rw s (
                inl
                  (none_hit results criteria f, positional-Paired criteria results (ground arith)))
          | inr n ↦ rw n (inr (inl (λ s. ground arith), named-Answered results criteria))
        ])
      ]

  -- With acceptance criteria, an aligned list answers them, trimmed and without the empty ones, each
  -- once and in their order: by the first of the reviewer's results for the criterion, or by
  -- `not_verified` if there is none; but if no result is for any criterion and there are as many results
  -- as criteria, by the results at their positions.
  pub align_criterion_results-answers :
      (acceptance : List Text) (results : List CriterionResult)
      → trimmed acceptance ≢ []
      → IsAligned (trimmed acceptance) results (align_criterion_results key acceptance results)
  unfolding align_criterion_results
  align_criterion_results-answers acceptance results some_criterion =
      aligned (trimmed acceptance) some_criterion
    where
      aligned :
          (criteria : List Text)
          → criteria ≢ []
          → IsAligned criteria results (aligned_or key results criteria)
      aligned [] none_there = absurd (none_there refl)
      aligned (criterion ∷ criteria) none_there =
          aligned_to-IsAligned (criterion ∷ criteria) results

  -- What an aligned result is made of.
  pub data IsFrom (criteria : List Text) (results : List CriterionResult) (a : CriterionResult)
      : Type 0 where
    of_result :
        (r : CriterionResult)
        → Memᴰ r results
        → a.status ≡ r.status
        → (reports a.criterion r ≡ true) ⊎ NoneMatch criteria results
        → IsFrom criteria results a
    of_none :
        All (λ r. reports a.criterion r ≡ false) results
        → a.status ≡ not_verified
        → IsFrom criteria results a

  IsFirst-mem :
      (criterion : Text) (results : List CriterionResult) (r : CriterionResult)
      → IsFirst criterion results r
      → Memᴰ r results × (reports criterion r ≡ true)
  IsFirst-mem criterion [] r h = absurd h
  IsFirst-mem criterion (x ∷ results) r (inl (e, t)) = (Memᴰ.head (sym e), rw (← e) t)
  IsFirst-mem criterion (x ∷ results) r (inr (f, h)) =
      let (m, t) = IsFirst-mem criterion results r h in (Memᴰ.tail m, t)

  Answers-IsFrom :
      (all : List Text) (results : List CriterionResult) (criterion : Text) (a : CriterionResult)
      → Answers results criterion a
      → IsFrom all results a
  Answers-IsFrom all results criterion a (inl (r, first, (named, status, mandatory))) =
      let (m, t) = IsFirst-mem criterion results r first in of_result r m status (inl (rw named t))
  Answers-IsFrom all results criterion a (inr (missing, (named, status, mandatory))) =
      of_none (subst (λ c. All (λ r. reports c r ≡ false) results) (sym named) missing) status

  Answered-IsFrom :
      (all : List Text) (results : List CriterionResult) (criteria : List Text)
      (aligned : List CriterionResult) (a : CriterionResult)
      → Answered results criteria aligned
      → Memᴰ a aligned
      → IsFrom all results a
  Answered-IsFrom all results [] [] a h m = elim m [ ]
  Answered-IsFrom all results [] (x ∷ aligned) a h m = absurd h
  Answered-IsFrom all results (c ∷ criteria) [] a h m = elim m [ ]
  Answered-IsFrom all results (c ∷ criteria) (x ∷ aligned) a (h, hs) (Memᴰ.head e) =
      Answers-IsFrom all results c a (subst (Answers results c) (sym e) h)
  Answered-IsFrom all results (c ∷ criteria) (x ∷ aligned) a (h, hs) (Memᴰ.tail m) =
      Answered-IsFrom all results criteria aligned a hs m

  Paired-IsFrom :
      (all : List Text) (reported : List CriterionResult) (none_match : NoneMatch all reported)
      (criteria : List Text) (results aligned : List CriterionResult) (a : CriterionResult)
      → ((r : CriterionResult) → Memᴰ r results → Memᴰ r reported)
      → Paired criteria results aligned
      → Memᴰ a aligned
      → IsFrom all reported a
  Paired-IsFrom all reported n [] [] [] a sub h m = elim m [ ]
  Paired-IsFrom all reported n (c ∷ criteria) (r ∷ results) (x ∷ aligned) a sub (h, hs)
        (Memᴰ.head e) =
      of_result r (sub r (Memᴰ.head refl)) (ap CriterionResult.status e ∙ h.1) (inr n)
  Paired-IsFrom all reported n (c ∷ criteria) (r ∷ results) (x ∷ aligned) a sub (h, hs)
        (Memᴰ.tail m) =
      Paired-IsFrom all reported n criteria results aligned a (λ y k. sub y (Memᴰ.tail k)) hs m
  Paired-IsFrom all reported n criteria results [] a sub h m = elim m [ ]
  Paired-IsFrom all reported n [] [] (x ∷ aligned) a sub h m = absurd h
  Paired-IsFrom all reported n [] (r ∷ results) (x ∷ aligned) a sub h m = absurd h
  Paired-IsFrom all reported n (c ∷ criteria) [] (x ∷ aligned) a sub h m = absurd h

  pub align-IsFrom :
      (acceptance : List Text) (results : List CriterionResult) (a : CriterionResult)
      → trimmed acceptance ≢ []
      → Memᴰ a (align_criterion_results key acceptance results)
      → IsFrom (trimmed acceptance) results a
  align-IsFrom acceptance results a some_criterion m =
      let criteria = trimmed acceptance in
      let aligned = align_criterion_results key acceptance results in
      elim (align_criterion_results-answers acceptance results some_criterion) [
        | inl (n, p) ↦ Paired-IsFrom criteria results n criteria results aligned a (λ r k. k) p m
        | inr (why, h) ↦ Answered-IsFrom criteria results criteria aligned a h m
      ]
