-- ===== src/Health/Record/Cooldown.antt =====
-- How long a failure keeps a route out of use.
use pi_multi_orchestrator.Prelude.{ℕ, ◌+◌, ◌≤◌, ◌<◌, ◌≡◌, refl, min, some, arith, sym, ◌∙◌, ap}
use pi_multi_orchestrator.Routing.Failure.{FailureClassification, instant}
use pi_multi_orchestrator.Health.Record.{
  calculate_cooldown_until, RecordFailureOptions, default_ms, authoritative, bounded_until, parsed,
}

pub bounded_until_bounds :
    (hint wait now most until : ℕ)
    → bounded_until hint wait now most ≡ some until
    → (now ≤ until) × (until ≤ now + most)
unfolding bounded_until
bounded_until_bounds hint wait now most until h = ground arith

calculate_lem :
    (c : FailureClassification) (now : ℕ) (options : RecordFailureOptions) (most : ℕ)
    → calculate_cooldown_until c now options most
      ≡ bounded_until
          (authoritative c now options most)
          (default_ms c.failure_class options.policy)
          now
          most
unfolding calculate_cooldown_until
calculate_lem c now options most = refl

-- A cooldown never ends before the failure, nor later than the configured maximum behind it,
-- whatever the retry hints of the provider and of the caller say.
pub calculate_cooldown_until_bounds :
    (c : FailureClassification) (now : ℕ) (options : RecordFailureOptions) (most until : ℕ)
    → calculate_cooldown_until c now options most ≡ some until
    → (now ≤ until) × (until ≤ now + most)
calculate_cooldown_until_bounds c now options most until h =
    bounded_until_bounds _ _ now most until (sym (calculate_lem c now options most) ∙ h)

bounded_until-hint :
    (hint wait now most : ℕ)
    → now < hint
    → bounded_until hint wait now most ≡ some (min hint (now + most))
unfolding bounded_until
bounded_until-hint hint wait now most h = ground arith

parsed-le_authoritative :
    (c : FailureClassification) (now : ℕ) (options : RecordFailureOptions) (most : ℕ)
    → parsed c.retry_after_at ≤ authoritative c now options most
unfolding authoritative
parsed-le_authoritative c now options most = omega arith

-- A retry instant of the failure that lies ahead is obeyed: there is a cooldown, and it lasts at
-- least until then, or as long as the maximum allows.
pub calculate_cooldown_until-obeys :
    (c : FailureClassification) (now : ℕ) (options : RecordFailureOptions) (most at : ℕ)
    → c.retry_after_at ≡ some (instant at)
    → now < at
    → (until : ℕ) × (calculate_cooldown_until c now options most ≡ some until)
      × (min at (now + most) ≤ until)
calculate_cooldown_until-obeys c now options most at e h =
    let hint = authoritative c now options most in
    let le : at ≤ hint = omega (arith, parsed-le_authoritative c now options most, ap parsed e) in
    (
      min hint (now + most),
      calculate_lem c now options most ∙ bounded_until-hint hint _ now most (omega arith),
      omega arith,
    )
