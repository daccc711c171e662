-- ===== src/Mission/Attempt/Single.antt =====
-- src/core/mission/index.ts: at most one attempt of a task runs.
use pi_multi_orchestrator.Prelude.{
  some-injective, ℕ, ◌+◌, ◌≤◌, ◌≡◌, ◌≢◌, refl, sym, ap, ◌∙◌, subst, inl, inr, Bool, true, false,
  not, Option, none, some, List, [], ◌∷◌, ◌++◌, String, if◌then◌else◌, ◌===◌, eq_iff, length,
  or_else, any, is_some, get, Dict, Number, Result, ok, err, ◌>>◌, check, bind-eq-ok, check-eq-ok,
  seq-eq-ok, ok-injective, arith, Bool-cases, false≢true,
}
use pi_multi_orchestrator.Routing.Failure.{Stamp}
use pi_multi_orchestrator.Mission.{
  found-eq-ok, TaskRecord, AttemptRecord, LeaseRecord, Store, MissionError, validation, lease_error,
}
use pi_multi_orchestrator.Mission.Lease.{ttl_of, iso, runs_at}
use pi_multi_orchestrator.Mission.Attempt.{
  task_row, attempt_row, is_running, runs_for, running_attempts, excluded, started, create_attempt,
  AttemptEnd, status_of_end, finish_attempt, update, with_status, task_status_after,
}

-- What a start that succeeds has found, and what it leaves.
pub record Starts (store : Store) (task_id id : String) (owner : Option String) (packet : Option ℕ)
    (now : ℕ) (after : Store) : Type 0 where
  pub task : TaskRecord
  pub row : task_row store task_id ≡ ok task
  pub not_excluded : excluded (get store.leases task.mission_id) owner now ≡ false
  pub none_runs : any (runs_for task_id) store.attempts ≡ false
  pub fresh : is_some (get store.attempts id) ≡ false
  pub expires : Stamp
  pub written : started store task_id task id owner expires packet ≡ after

pub create_attempt-Starts :
    (store after : Store) (task_id id : String) (owner : Option String) (ttl : Number)
    (packet : Option ℕ) (now : ℕ)
    → create_attempt store task_id id owner ttl packet now ≡ ok after
    → Starts store task_id id owner packet now after
unfolding create_attempt
create_attempt-Starts store after task_id id owner ttl packet now e =
    let (task, row, rest) = bind-eq-ok (task_row store task_id) _ e in
    let (ms, timed, rest2) =
      bind-eq-ok
        (check (not (excluded (get store.leases task.mission_id) owner now)) lease_error
          >> check (not (any (runs_for task_id) store.attempts)) lease_error
          >> ttl_of ttl)
        _ rest in
    let (expires, dated, made) =
      bind-eq-ok _ (λ expires. ok (started store task_id task id owner expires packet)) rest2 in
    let (guards, given) = seq-eq-ok _ (ttl_of ttl) timed in
    let (first_guard, second) =
      seq-eq-ok (check (not (excluded (get store.leases task.mission_id) owner now)) lease_error) _
        guards in
    let (unused, at) =
      seq-eq-ok (check (not (is_some (get store.attempts id))) validation) (iso (now + ms)) dated in
    let a = check-eq-ok _ lease_error first_guard in
    let b = check-eq-ok _ lease_error second in
    let c = check-eq-ok _ validation unused in
    record {
      task = task;
      row = row;
      not_excluded = ground arith;
      none_runs = ground arith;
      fresh = ground arith;
      expires = expires;
      written = ok-injective made;
    }

-- No task has two attempts that run.
abbrev pub IsSingle : Dict AttemptRecord → Type 0
IsSingle attempts = (task : String) → length (running_attempts attempts task) ≤ 1

length-running_append :
    (attempts : Dict AttemptRecord) (entry : String × AttemptRecord) (task : String)
    → length (running_attempts (attempts ++ (entry ∷ [])) task)
      ≡ length (running_attempts attempts task) + (if runs_for task entry then 1 else 0)
unfolding running_attempts
length-running_append [] entry task = ground arith
length-running_append (other ∷ attempts) entry task =
    ground (arith, length-running_append attempts entry task)

length-running_none :
    (attempts : Dict AttemptRecord) (task : String)
    → any (runs_for task) attempts ≡ false
    → length (running_attempts attempts task) ≡ 0
unfolding running_attempts
length-running_none [] task h = refl
length-running_none (entry ∷ attempts) task h = ground (arith, length-running_none attempts task)

append-IsSingle :
    (attempts : Dict AttemptRecord) (id task_id : String) (attempt : AttemptRecord)
    → attempt.task_id ≡ task_id
    → any (runs_for task_id) attempts ≡ false
    → IsSingle attempts
    → IsSingle (attempts ++ ((id, attempt) ∷ []))
append-IsSingle attempts id task_id attempt named h single task =
    elim (Bool-cases (runs_for task (id, attempt))) [
      | inr idle ↦
          rw (length-running_append attempts (id, attempt) task, idle) (omega (arith, single task))
      | inl runs ↦
          let same : attempt.task_id ≡ task = (eq_iff attempt.task_id task).0 (ground arith) in
          let here : task_id ≡ task = sym named ∙ same in
          rw (length-running_append attempts (id, attempt) task, runs)
            (omega (arith, length-running_none attempts task (rw (← here) h)))
    ]

update-running_le :
    (change : AttemptRecord → AttemptRecord) (attempts : Dict AttemptRecord) (id task : String)
    → ((attempt : AttemptRecord) → is_running (change attempt).status ≡ false)
    → length (running_attempts (update attempts id change) task)
      ≤ length (running_attempts attempts task)
unfolding running_attempts
update-running_le change [] id task ends = omega arith
update-running_le change ((name, attempt) ∷ attempts) id task ends =
    ground (arith, update-running_le change attempts id task ends, ends attempt)

ended : (end : AttemptEnd) → is_running (status_of_end end) ≡ false
ended AttemptEnd.end_succeeded = refl
ended AttemptEnd.end_failed = refl
ended AttemptEnd.end_interrupted = refl
ended AttemptEnd.end_cancelled = refl
ended AttemptEnd.end_timed_out = refl
ended AttemptEnd.end_unknown = refl

abbrev pub ended_as : AttemptEnd → (mutation : Bool) → AttemptRecord → AttemptRecord
ended_as end mutation attempt = record attempt {
  status = status_of_end end;
  mutation_observed = mutation;
}

pub record Ends (store : Store) (id : String) (end : AttemptEnd) (after : Store) : Type 0 where
  pub current : AttemptRecord
  pub row : attempt_row store id ≡ ok current
  pub ran : is_running current.status ≡ true
  pub mutation : Bool
  pub attempts_after : update store.attempts id (ended_as end mutation) ≡ after.attempts
  pub tasks_after :
      update store.tasks current.task_id (λ task. with_status task (task_status_after end))
      ≡ after.tasks

pub finish_attempt-Ends :
    (store after : Store) (id : String) (end : AttemptEnd) (mutation : Option Bool)
    → finish_attempt store id end mutation ≡ ok after
    → Ends store id end after
unfolding finish_attempt
finish_attempt-Ends store after id end mutation e =
    let (current, row, rest) = bind-eq-ok (attempt_row store id) _ e in
    let (checked, made) = seq-eq-ok (check (is_running current.status) validation) _ rest in
    record {
      current = current;
      row = row;
      ran = check-eq-ok _ validation checked;
      mutation = or_else mutation current.mutation_observed;
      attempts_after = ap Store.attempts (ok-injective made);
      tasks_after = ap Store.tasks (ok-injective made);
    }

-- The calls that start and end attempts; one that throws leaves the store.
pub data AttemptCall : Type 0 where
  create_call :
      (task id : String)
      → (owner : Option String) → (ttl : Number) → (packet : Option ℕ) → (now : ℕ) → AttemptCall
  finish_call : String → AttemptEnd → (mutation : Option Bool) → AttemptCall

abbrev pub result_of : Store → AttemptCall → Result MissionError Store
result_of store (create_call task id owner ttl packet now) =
    create_attempt store task id owner ttl packet now
result_of store (finish_call id end mutation) = finish_attempt store id end mutation

abbrev pub committed : Store → Result MissionError Store → Store
committed store (ok after) = after
committed store (err why) = store

abbrev pub after_attempts : Store → List AttemptCall → Store
after_attempts store [] = store
after_attempts store (call ∷ calls) = after_attempts (committed store (result_of store call)) calls

result_of-IsSingle :
    (store after : Store) (call : AttemptCall)
    → result_of store call ≡ ok after
    → IsSingle store.attempts
    → IsSingle after.attempts
result_of-IsSingle store after (create_call task id owner ttl packet now) e single =
    let s = create_attempt-Starts store after task id owner ttl packet now e in
    subst (λ st. IsSingle (Store.attempts st)) s.written
      (append-IsSingle store.attempts id task _ refl s.none_runs single)
result_of-IsSingle store after (finish_call id end mutation) e single = λ task.
    let s = finish_attempt-Ends store after id end mutation e in
    rw (← s.attempts_after) (
      omega (
        arith,
        update-running_le (ended_as end s.mutation) store.attempts id task (λ attempt. ended end),
        single task,
      ))

committed-IsSingle :
    (store : Store) (result : Result MissionError Store)
    → ((after : Store) → result ≡ ok after → IsSingle after.attempts)
    → IsSingle store.attempts
    → IsSingle (committed store result).attempts
committed-IsSingle store (ok after) h single = h after refl
committed-IsSingle store (err why) h single = single

-- Whatever attempts are started and ended, in whatever order and whether or not the calls throw, no
-- task has two attempts that run.
pub after_attempts-IsSingle :
    (store : Store) (calls : List AttemptCall)
    → IsSingle store.attempts
    → IsSingle (after_attempts store calls).attempts
after_attempts-IsSingle store [] h = h
after_attempts-IsSingle store (call ∷ calls) h =
    after_attempts-IsSingle (committed store (result_of store call)) calls (
      committed-IsSingle store (result_of store call)
        (λ after e. result_of-IsSingle store after call e h) h)

get-update_self {ℓ} :
    {V : Type ℓ} (dict : Dict V) (key : String) (change : V → V) (value : V)
    → get dict key ≡ some value
    → get (update dict key change) key ≡ some (change value)
unfolding get
get-update_self [] key change value e = cc
get-update_self ((name, old) ∷ dict) key change value e = elim (Bool-cases (name === key)) [
  | inl here ↦ let same = rw here at e in rw here cc
  | inr apart ↦ rw apart (get-update_self dict key change value (rw apart at e))
]

-- In the store that the end of an attempt leaves, the attempt cannot be ended again, in whatever
-- way.
pub finish_attempt-once :
    (store after : Store) (id : String) (end : AttemptEnd) (mutation : Option Bool)
    → finish_attempt store id end mutation ≡ ok after
    → (again : AttemptEnd) (observed : Option Bool) (next : Store)
    → finish_attempt after id again observed ≢ ok next
finish_attempt-once store after id end mutation e again observed next f =
    let s = finish_attempt-Ends store after id end mutation e in
    let t = finish_attempt-Ends after next id again observed f in
    let ended_there : get after.attempts id ≡ some (ended_as end s.mutation s.current) =
      rw (← s.attempts_after) (
        get-update_self store.attempts id (ended_as end s.mutation) s.current
          (found-eq-ok (get store.attempts id) s.row)) in
    let same : ended_as end s.mutation s.current ≡ t.current =
      some-injective (sym ended_there ∙ found-eq-ok (get after.attempts id) t.row) in
    false≢true
      (sym (ended end) ∙ ap (λ attempt. is_running (AttemptRecord.status attempt)) same ∙ t.ran)

-- While a mission has a lease that runs, its tasks' attempts are started by the owner of the lease only.
pub create_attempt-leased :
    (store after : Store) (task_id id : String) (owner : Option String) (ttl : Number)
    (packet : Option ℕ) (now : ℕ)
    → create_attempt store task_id id owner ttl packet now ≡ ok after
    → (task : TaskRecord) × (task_row store task_id ≡ ok task)
      × ((lease : LeaseRecord)
          → get store.leases task.mission_id ≡ some lease
          → runs_at lease.expires_at now ≡ true
          → owner ≡ some lease.owner)
create_attempt-leased store after task_id id owner ttl packet now e =
    let s = create_attempt-Starts store after task_id id owner ttl packet now e in
    (s.task, s.row, λ lease there runs. by_owner owner lease runs (rw there at s.not_excluded))
  where
    by_owner :
        (owner : Option String) (lease : LeaseRecord)
        → runs_at lease.expires_at now ≡ true
        → excluded (some lease) owner now ≡ false
        → owner ≡ some lease.owner
    by_owner none lease runs h = absurd (false≢true (sym h ∙ runs))
    by_owner (some name) lease runs h = ap some (sym ((eq_iff lease.owner name).0 (ground arith)))
