-- ===== src/Routing/Chain/Bounds.antt =====
-- The retries of a route are bounded, and a chain keeps its record of attempts consistent.
use pi_multi_orchestrator.Prelude.{
  ℕ, suc, ◌+◌, ◌≤◌, ◌<◌, ◌≡◌, refl, ◌≢◌, ◌⊎◌, inl, inr, true, false, Option, none, some, List, [],
  ◌∷◌, ◌++◌, if◌then◌else◌, String, includes, get, arith, get-put, get-put_self, eq_iff, ◌===◌,
  ◌||◌, ap, ◌∙◌, Bool-cases, any, Bool,
}
use pi_multi_orchestrator.Routing.Failure.{FailureClassification, retry_same_route}
use pi_multi_orchestrator.Routing.Failure.Laws.{decide-eq-retry}
use pi_multi_orchestrator.Routing.Chain.{
  AttemptChain, RoutingPolicy, record_attempt, next_after_failure, count_or, create_attempt_chain,
  PoolId,
}

-- The failures of a route that a chain has counted.
abbrev pub failures : String → AttemptChain → ℕ
failures id chain = count_or 0 id chain.retry_counts

failures-record_attempt :
    (chain : AttemptChain) (id : String) (f : FailureClassification)
    → get (record_attempt chain id (some f)).retry_counts id ≡ some (failures id chain + 1)
unfolding record_attempt
failures-record_attempt chain id f = get-put_self chain.retry_counts id _

pub failures-record_step :
    (chain : AttemptChain) (id other : String) (f : FailureClassification)
    → failures id (record_attempt chain other (some f))
      ≡ (if other === id then failures id chain + 1 else failures id chain)
unfolding record_attempt
failures-record_step chain id other f =
    ground (arith, eq_iff other id, get-put chain.retry_counts other id (failures other chain + 1))

pub retry-lt-max_attempts :
    (chain : AttemptChain) (id : String) (f decided : FailureClassification)
    (policy : RoutingPolicy)
    → next_after_failure (record_attempt chain id (some f)) decided policy ≡ retry_same_route
    → failures id chain + 1 < policy.max_attempts
unfolding next_after_failure record_attempt
retry-lt-max_attempts chain id f decided policy h =
    ground (arith, decide-eq-retry _ h, failures-record_attempt chain id f)

-- A history of attempts, each with its failure, if it failed.
abbrev pub History : Type 0
History = List (String × Option FailureClassification)

unfoldable pub record_all : AttemptChain → History → AttemptChain
record_all chain [] = chain
record_all chain ((id, failure) ∷ rest) = record_all (record_attempt chain id failure) rest

abbrev pub failed : String → History → ℕ
failed id [] = 0
failed id ((other, none) ∷ rest) = failed id rest
failed id ((other, some f) ∷ rest) = if other === id then suc (failed id rest) else failed id rest

failures-record_skip :
    (chain : AttemptChain) (id other : String)
    → failures id (record_attempt chain other none) ≡ failures id chain
unfolding record_attempt
failures-record_skip chain id other = refl

failures-record_all :
    (id : String) (chain : AttemptChain) (history : History)
    → failures id (record_all chain history) ≡ failures id chain + failed id history
unfolding record_all
failures-record_all id chain [] = omega arith
failures-record_all id chain ((other, none) ∷ rest) =
    failures-record_all id (record_attempt chain other none) rest
    ∙ ap (λ n. n + failed id rest) (failures-record_skip chain id other)
failures-record_all id chain ((other, some f) ∷ rest) = ground (
  arith,
  failures-record_all id (record_attempt chain other (some f)) rest,
  failures-record_step chain id other f,
)

-- Whatever a run has tried, on this route and on others, once a route has failed as often as the
-- policy allows attempts it is never retried.
pub next_after_failure-ne-retry :
    (pool : PoolId) (started : ℕ) (history : History) (id : String) (f : FailureClassification)
    (policy : RoutingPolicy)
    → policy.max_attempts ≤ failed id history + 1
    → next_after_failure
        (record_attempt (record_all (create_attempt_chain pool started) history) id (some f))
        f
        policy
      ≢ retry_same_route
unfolding create_attempt_chain get
next_after_failure-ne-retry pool started history id f policy h e = omega (
  arith,
  retry-lt-max_attempts _ id f f policy e,
  failures-record_all id (create_attempt_chain pool started) history,
)

-- The record that a chain keeps: each route once, the current and every counted route among them.
abbrev pub Distinct : List String → Type 0
Distinct [] = Unit
Distinct (x ∷ xs) = (includes xs x ≡ false) × Distinct xs

pub record IsConsistent (chain : AttemptChain) : Type 0 where
  pub distinct : Distinct chain.attempted_route_ids
  pub current :
      (id : String)
      → chain.current_route_id ≡ some id
      → includes chain.attempted_route_ids id ≡ true
  pub counted : (id : String) → 0 < failures id chain → includes chain.attempted_route_ids id ≡ true

includes-snoc :
    (xs : List String) (x y : String) → includes (xs ++ x ∷ []) y ≡ (includes xs y || x === y)
includes-snoc [] x y = ground arith
includes-snoc (z ∷ xs) x y = ground (arith, includes-snoc xs x y)

Distinct-snoc :
    (xs : List String) (x : String) → Distinct xs → includes xs x ≡ false → Distinct (xs ++ x ∷ [])
Distinct-snoc [] x d h = (refl, tt)
Distinct-snoc (z ∷ xs) x (h, d) e = (
  ground (arith, includes-snoc xs x z, eq_iff x z, eq_iff z x),
  Distinct-snoc xs x d (ground arith),
)

includes_of_=== :
    (xs : List String) (x y : String) → (x === y) ≡ true → includes xs x ≡ includes xs y
includes_of_=== xs x y h = ap (includes xs) ((eq_iff x y).0 h)

module _ (chain : AttemptChain) (id : String) (f : Option FailureClassification) where
  includes-record_attempt :
      (y : String)
      → includes (record_attempt chain id f).attempted_route_ids y
        ≡ (includes chain.attempted_route_ids y || id === y)
  unfolding record_attempt
  includes-record_attempt y = elim (Bool-cases (includes chain.attempted_route_ids id)) [
    | inl old ↦ rw old (ground (arith, includes_of_=== chain.attempted_route_ids id y))
    | inr new ↦ rw new (includes-snoc chain.attempted_route_ids id y)
  ]

  Distinct-record_attempt :
      Distinct chain.attempted_route_ids → Distinct (record_attempt chain id f).attempted_route_ids
  unfolding record_attempt
  Distinct-record_attempt d = elim (Bool-cases (includes chain.attempted_route_ids id)) [
    | inl old ↦ rw old d
    | inr new ↦ rw new (Distinct-snoc chain.attempted_route_ids id d new)
  ]

current-record_attempt :
    (chain : AttemptChain) (id : String) (f : Option FailureClassification)
    → (record_attempt chain id f).current_route_id ≡ some id
unfolding record_attempt
current-record_attempt chain id f = refl

failures-pos :
    (chain : AttemptChain) (id y : String) (f : Option FailureClassification)
    → 0 < failures y (record_attempt chain id f)
    → (0 < failures y chain) ⊎ ((id === y) ≡ true)
failures-pos chain id y none h = inl (rw (failures-record_skip chain y id) at h)
failures-pos chain id y (some g) h = ground (arith, failures-record_step chain y id g)

pub record_attempt-IsConsistent :
    (chain : AttemptChain) (id : String) (f : Option FailureClassification)
    → IsConsistent chain
    → IsConsistent (record_attempt chain id f)
record_attempt-IsConsistent chain id f c = record {
  distinct = Distinct-record_attempt chain id f c.distinct;
  current = λ y e.
      ground (
        arith,
        includes-record_attempt chain id f y,
        current-record_attempt chain id f,
        eq_iff id y,
      );
  counted = λ y h.
      ground (arith, includes-record_attempt chain id f y, failures-pos chain id y f, c.counted y);
}

record_all-IsConsistent :
    (chain : AttemptChain) (history : History)
    → IsConsistent chain
    → IsConsistent (record_all chain history)
unfolding record_all
record_all-IsConsistent chain [] c = c
record_all-IsConsistent chain ((id, f) ∷ rest) c =
    record_all-IsConsistent (record_attempt chain id f) rest
      (record_attempt-IsConsistent chain id f c)

pub create-IsConsistent :
    (pool : PoolId) (started : ℕ) → IsConsistent (create_attempt_chain pool started)
unfolding create_attempt_chain get
create-IsConsistent pool started = record {
  distinct = tt;
  current = λ y e. cc;
  counted = λ y h. absurd (omega arith);
}

-- The history has an attempt on the route.
abbrev pub tried : String → History → Bool
tried id history = any (λ attempt. attempt.0 === id) history

record_all-tried :
    (chain : AttemptChain) (history : History) (id : String)
    → includes (record_all chain history).attempted_route_ids id
      ≡ (includes chain.attempted_route_ids id || tried id history)
unfolding record_all
record_all-tried chain [] id = ground arith
record_all-tried chain ((other, f) ∷ rest) id = ground (
  arith,
  record_all-tried (record_attempt chain other f) rest id,
  includes-record_attempt chain other f id,
)

-- After any history of attempts, from a new chain, the routes listed are exactly those that were tried,
-- each once, and the current route and every route with a counted failure are among them.
pub reachable-IsConsistent :
    (pool : PoolId) (started : ℕ) (history : History)
    → let chain = record_all (create_attempt_chain pool started) history in
      IsConsistent chain
      × ((id : String) → includes chain.attempted_route_ids id ≡ tried id history)
unfolding create_attempt_chain
reachable-IsConsistent pool started history = (
  record_all-IsConsistent _ history (create-IsConsistent pool started),
  λ id. record_all-tried (create_attempt_chain pool started) history id,
)
