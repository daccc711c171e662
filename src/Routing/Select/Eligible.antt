-- ===== src/Routing/Select/Eligible.antt =====
-- When the evaluation of a candidate finds it eligible.
use pi_multi_orchestrator.Prelude.{
  ℕ, ◌≤◌, ◌<◌, ◌≡◌, refl, ◌≢◌, ◌↔◌, Bool, true, false, not, ◌&&◌, Option, none, some, List, [], ◌∷◌,
  sym, ◌∙◌, ◌++◌, String, includes, or_else, Number, nat, is_safe_integer, is_negative, trunc,
  arith,
}
use pi_multi_orchestrator.Routing.Failure.{Stamp, instant, unreadable}
use pi_multi_orchestrator.Routing.Eligibility.{
  has_diversity_conflict, reasons_against, evaluate_candidate, is_empty, cooldown_of, probe_of,
  when, availability_reasons, weighted_reasons, weight_reasons, cooldown_reasons, blocking_cooldown,
  health_blocks, requires,
}
use pi_multi_orchestrator.Routing.Request.{
  DiversityMode, require, RouteAvailability, missing, stale, unavailable, SchedulingPolicy,
  priority, weighted, RoutingCandidate, DiversityContext, Reason, health_not_ready,
}

-- What Weighted Rotation asks of a route beyond Priority: a fresh catalog, a circuit that is
-- closed or whose cooldown has passed, and a positive weight.
pub record IsRotatable (c : RoutingCandidate) (now : ℕ) : Type 0 where
  pub fresh : c.availability ≢ some stale
  pub closed : health_blocks c.health now ≡ false
  pub weight_safe : is_safe_integer (or_else c.weight (nat 1)) ≡ true
  pub weight_sign : is_negative (or_else c.weight (nat 1)) ≡ false
  pub weight_pos : 0 < trunc (or_else c.weight (nat 1))

pub record IsReady (c : RoutingCandidate) (now : ℕ) (attempted excluded : List String)
    (diversity : Option DiversityContext) (mode : DiversityMode) (policy : SchedulingPolicy)
    : Type 0 where
  pub pool_enabled : c.pool_enabled ≡ true
  pub global_enabled : c.global_enabled ≡ true
  pub present : c.availability ≢ some missing
  pub reachable : c.availability ≢ some unavailable
  pub known : c.availability ≢ some RouteAvailability.unknown
  pub not_refused : c.available ≢ some false
  pub rotatable : policy ≡ weighted → IsRotatable c now
  pub untried : includes attempted c.route_id ≡ false
  pub not_excluded : includes excluded c.route_id ≡ false
  pub cooled : (until : ℕ) → cooldown_of c.health ≡ some (instant until) → until ≤ now
  pub not_probing : probe_of c.health ≡ false
  pub diverse : mode ≡ require → has_diversity_conflict c diversity ≡ false

is_empty-append {ℓ} :
    {A : Type ℓ} (xs ys : List A) → is_empty (xs ++ ys) ≡ (is_empty xs && is_empty ys)
is_empty-append [] ys = refl
is_empty-append (x ∷ xs) ys = refl

-- Each group of reasons is empty exactly when its conditions hold.
abbrev IsPresent : Option RouteAvailability → Option Bool → SchedulingPolicy → Type 0
IsPresent a ok policy =
    (a ≢ some missing)
    × (a ≢ some unavailable)
    × (a ≢ some RouteAvailability.unknown)
    × (ok ≢ some false)
    × (policy ≡ weighted → a ≢ some stale)

availability_reasons-empty :
    (a : Option RouteAvailability) (ok : Option Bool) (policy : SchedulingPolicy)
    → is_empty (availability_reasons a ok policy) ≡ true
    → IsPresent a ok policy
availability_reasons-empty none none priority h = ground arith
availability_reasons-empty _ _ _ h = ground arith

availability_reasons_of_IsPresent :
    (a : Option RouteAvailability) (ok : Option Bool) (policy : SchedulingPolicy)
    → IsPresent a ok policy
    → availability_reasons a ok policy ≡ []
availability_reasons_of_IsPresent none none priority h = refl
availability_reasons_of_IsPresent _ _ _ h = ground arith

weight_reasons-empty :
    (w : Number)
    → is_empty (weight_reasons w) ≡ true
    → (is_safe_integer w ≡ true) × (is_negative w ≡ false) × (0 < trunc w)
weight_reasons-empty w h = ground arith

cooldown_reasons-empty :
    (o : Option Stamp) (now until : ℕ)
    → is_empty (cooldown_reasons (blocking_cooldown o now)) ≡ true
    → o ≡ some (instant until)
    → until ≤ now
cooldown_reasons-empty none now until h e = cc
cooldown_reasons-empty (some s) now until h e = ground arith

blocking_cooldown-eq-none :
    (o : Option Stamp) (now : ℕ)
    → ((until : ℕ) → o ≡ some (instant until) → until ≤ now)
    → blocking_cooldown o now ≡ none
blocking_cooldown-eq-none none now h = refl
blocking_cooldown-eq-none (some unreadable) now h = refl
blocking_cooldown-eq-none (some (instant t)) now h = ground (arith, h t refl)

is_empty-when : (b : Bool) (r : Reason) → is_empty (when b r) ≡ not b
is_empty-when true r = refl
is_empty-when false r = refl

eq-nil_of_is_empty {ℓ} : {A : Type ℓ} (xs : List A) → is_empty xs ≡ true → xs ≡ []
eq-nil_of_is_empty [] h = refl
eq-nil_of_is_empty (x ∷ xs) h = cc

weighted_reasons-empty :
    (c : RoutingCandidate) (now : ℕ) (policy : SchedulingPolicy)
    → is_empty (weighted_reasons policy c now) ≡ true
    → (policy ≡ weighted → c.availability ≢ some stale)
    → policy ≡ weighted
    → IsRotatable c now
weighted_reasons-empty c now priority h s e = cc
weighted_reasons-empty c now weighted h s e =
    let split : is_empty (when (health_blocks c.health now) health_not_ready)
          && is_empty (weight_reasons (or_else c.weight (nat 1)))
        ≡ true =
      sym (
        is_empty-append (when (health_blocks c.health now) health_not_ready)
          (weight_reasons (or_else c.weight (nat 1))))
      ∙ h in
    let (safe, sign, pos) = weight_reasons-empty (or_else c.weight (nat 1)) (ground arith) in
    record {
      fresh = s e;
      closed = ground (arith, is_empty-when (health_blocks c.health now) health_not_ready);
      weight_safe = safe;
      weight_sign = sign;
      weight_pos = pos;
    }

weighted_reasons_of_IsRotatable :
    (c : RoutingCandidate) (now : ℕ) (policy : SchedulingPolicy)
    → (policy ≡ weighted → IsRotatable c now)
    → weighted_reasons policy c now ≡ []
weighted_reasons_of_IsRotatable c now priority h = refl
weighted_reasons_of_IsRotatable c now weighted h =
    let r = h refl in rw (r.closed, r.weight_safe, r.weight_sign) (ground (arith, r.weight_pos))

conjuncts :
    (a b c d e f g h i : Bool)
    → (not (not a) && not (not b) && c && d && not e && not f && g && not h && not i) ≡ true
    → (a ≡ true)
      × (b ≡ true)
      × (c ≡ true)
      × (d ≡ true)
      × (e ≡ false)
      × (f ≡ false)
      × (g ≡ true)
      × (h ≡ false)
      × (i ≡ false)
conjuncts a b c d e f g h i t = ground arith

requires-conflict :
    (b : Bool) (mode : DiversityMode) → (b && requires mode) ≡ false → mode ≡ require → b ≡ false
requires-conflict b mode h e = ground arith

no-conflict :
    (b : Bool) (mode : DiversityMode) → (mode ≡ require → b ≡ false) → (b && requires mode) ≡ false
no-conflict true require h = h refl
no-conflict false require h = refl
no-conflict _ _ h = ground arith

module _ (c : RoutingCandidate) (now : ℕ) (attempted excluded : List String)
    (diversity : Option DiversityContext) (mode : DiversityMode) (policy : SchedulingPolicy) where
  reasons_against-IsReady :
      is_empty (reasons_against c now attempted excluded diversity mode policy) ≡ true
      → IsReady c now attempted excluded diversity mode policy
  unfolding reasons_against
  reasons_against-IsReady h =
      let (on, global, avail, rot, tried, ex, cool, probe, conflict) =
        conjuncts _ _ _ _ _ _ _ _ _ (simp (is_empty-append, is_empty-when) at h) in
      let (p, u, k, n, fresh) =
        availability_reasons-empty c.availability c.available policy avail in
      record {
        pool_enabled = on;
        global_enabled = global;
        present = p;
        reachable = u;
        known = k;
        not_refused = n;
        rotatable = weighted_reasons-empty c now policy rot fresh;
        untried = tried;
        not_excluded = ex;
        cooled = λ until. cooldown_reasons-empty (cooldown_of c.health) now until cool;
        not_probing = probe;
        diverse = requires-conflict _ mode conflict;
      }

  IsReady-reasons_against :
      IsReady c now attempted excluded diversity mode policy
      → is_empty (reasons_against c now attempted excluded diversity mode policy) ≡ true
  unfolding reasons_against
  IsReady-reasons_against r = simp (
    r.pool_enabled,
    r.global_enabled,
    availability_reasons_of_IsPresent c.availability c.available policy
        (r.present, r.reachable, r.known, r.not_refused, λ e. (r.rotatable e).fresh),
    weighted_reasons_of_IsRotatable c now policy r.rotatable,
    r.untried,
    r.not_excluded,
    blocking_cooldown-eq-none (cooldown_of c.health) now r.cooled,
    r.not_probing,
    no-conflict (has_diversity_conflict c diversity) mode r.diverse,
  )

  -- A candidate is eligible exactly when it is ready: enabled in its pool and globally, present,
  -- neither tried nor excluded, out of cooldown, with no probe in flight, without the conflict
  -- that a required diversity forbids, and, under Weighted Rotation, in a fresh catalog with a
  -- ready circuit and a positive safe weight.
  pub evaluate_candidate-eligible_iff :
      ((evaluate_candidate c now attempted excluded diversity mode policy).eligible ≡ true)
      ↔ IsReady c now attempted excluded diversity mode policy
  unfolding evaluate_candidate
  evaluate_candidate-eligible_iff = (reasons_against-IsReady, IsReady-reasons_against)
