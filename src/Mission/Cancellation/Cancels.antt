-- ===== src/Mission/Cancellation/Cancels.antt =====
-- src/core/mission/mission-cancel.ts: a cancelled mission has no task that goes on.
use mathlib.Core.List.{Memᴰ}
use pi_multi_orchestrator.Prelude.{
  some-injective, ℕ, ◌≡◌, refl, sym, ap, ◌∙◌, subst, inl, inr, true, false, Option, none, some,
  List, [], ◌∷◌, String, get, Dict, ===_refl, ◌===◌, ok, err, Result, bind-eq-ok, seq-eq-ok,
  ok-injective, arith, Bool-cases, filter, includes, false≢true, check, map, filter-mem, sort-mem,
}
use pi_multi_orchestrator.Mission.{
  TaskStatus, task_cancelled, TaskRecord, Store, Host, MissionError, conflict, list_tasks,
  task_order, values, revision_matches,
}
use pi_multi_orchestrator.Mission.Attempt.Keyed.{IsKeyed}
use pi_multi_orchestrator.Mission.Attempt.{task_row, set_task, update, with_status}
use pi_multi_orchestrator.Mission.Attempt.Rows.{update-kept, update-cases}
use pi_multi_orchestrator.Mission.Creation.{finish_task}
use pi_multi_orchestrator.Mission.Cancellation.{
  Outcome, proceed, and_then, is_open, ended_task, cancel_tasks,
}

module _ {A : Type 0} where
  pub returned :
      {s t : Store} {r : Result MissionError A} {a : A}
      → ◌≡◌ {A = Outcome A} (s, r) (t, ok a)
      → (s ≡ t) × (r ≡ ok a)
  returned e = (ap (λ o. o.0) e, ap (λ o. o.1) e)

  pub proceed-returned :
      (store after : Store) (result : Result MissionError Store) (next : Store → Outcome A) (a : A)
      → proceed store result next ≡ (after, ok a)
      → (made : Store) × (result ≡ ok made) × (next made ≡ (after, ok a))
  proceed-returned store after (ok made) next a e = (made, refl, e)
  proceed-returned store after (err why) next a e = let thrown = (returned e).1 in absurd (cc)

  pub and_then-returned :
      (after : Store) (first : Outcome (Unit {0})) (next : Store → Outcome A) (a : A)
      → and_then first next ≡ (after, ok a)
      → (made : Store) × (first ≡ (made, ok tt)) × (next made ≡ (after, ok a))
  and_then-returned after (made, ok u) next a e = (made, refl, e)
  and_then-returned after (made, err why) next a e = let thrown = (returned e).1 in absurd (cc)

-- The open tasks of the mission are among those that are still to be ended.
unfoldable pub OpenIn : String → Store → List String → Type 0
OpenIn mission store ids =
    (id : String) (task : TaskRecord)
    → get store.tasks id ≡ some task
    → (task.mission_id === mission) ≡ true
    → is_open task.status ≡ true
    → includes ids id ≡ true

pub open_ids : List TaskRecord → List String
open_ids tasks = map (λ task. task.task_id) (filter (λ task. is_open task.status) tasks)

abbrev pub SameButTasks : Store → Store → Type 0
SameButTasks store after =
    (store.missions ≡ after.missions) × (store.verifications ≡ after.verifications)

set_task-written :
    (store after : Store) (id : String) (status : TaskStatus) (expected : Option ℕ)
    → set_task store id status expected ≡ ok after
    → (task : TaskRecord) × ((record store {
      tasks = update store.tasks id (λ row. with_status task status);
    })
        ≡ after)
unfolding set_task
set_task-written store after id status expected e =
    let (task, row, e1) = bind-eq-ok (task_row store id) _ e in
    let (t, made) = seq-eq-ok (check (revision_matches expected task.revision) conflict) _ e1 in
    (task, ok-injective made)

ended_task-OpenIn :
    (mission : String) (store : Store) (id : String) (ids : List String) (read : TaskRecord)
    → OpenIn mission store (id ∷ ids)
    → OpenIn mission
        (record store { tasks = update store.tasks id (λ row. with_status read task_cancelled) })
        ids
unfolding OpenIn
ended_task-OpenIn mission store id ids read h key task there of_mission opened =
    let (old, before, how) =
      update-cases store.tasks id key (λ row. with_status read task_cancelled) task there in
    let kept = update-kept store.tasks id key (λ row. with_status read task_cancelled) old before in
    elim (Bool-cases (id === key)) [
      | inl here ↦
          let now : some task ≡ some (with_status read task_cancelled) =
            sym there ∙ kept ∙ rw here refl in
          let closed : is_open task.status ≡ false =
            ap (λ row. is_open (TaskRecord.status row)) (some-injective now) in
          absurd (false≢true (sym closed ∙ opened))
      | inr apart ↦
          let now : some task ≡ some old = sym there ∙ kept ∙ rw apart refl in
          let same : task ≡ old = some-injective now in
          let left =
            h key old before
              (subst (λ row. (TaskRecord.mission_id row === mission) ≡ true) same of_mission)
              (subst (λ row. is_open (TaskRecord.status row) ≡ true) same opened) in
          ground arith
    ]

pub cancel_tasks-OpenIn :
    (mission : String) (tasks : List TaskRecord) (store after : Store)
    → cancel_tasks store tasks ≡ (after, ok tt)
    → OpenIn mission store (open_ids tasks)
    → OpenIn mission after [] × SameButTasks store after
unfolding cancel_tasks open_ids finish_task
cancel_tasks-OpenIn mission [] store after e h =
    let same = (returned e).0 in
    (
      subst (λ st. OpenIn mission st []) same h,
      (ap Store.missions same, ap Store.verifications same),
    )
cancel_tasks-OpenIn mission (task ∷ tasks) store after e h =
    let (next, made, rest) =
      proceed-returned store after (ended_task store task) (λ next. cancel_tasks next tasks) tt e in
    elim (Bool-cases (is_open task.status)) [
      | inl t ↦
          let (read, written) =
            set_task-written store next task.task_id task_cancelled none (rw t at made) in
          let h' : OpenIn mission store (task.task_id ∷ open_ids tasks) = rw t at h in
          let (none_open, (m, v)) = cancel_tasks-OpenIn mission tasks next after rest (
            subst (λ st. OpenIn mission st (open_ids tasks)) written
              (ended_task-OpenIn mission store task.task_id (open_ids tasks) read h')) in
          (none_open, (ap Store.missions written ∙ m, ap Store.verifications written ∙ v))
      | inr f ↦
          let same : store ≡ next = ok-injective (rw f at made) in
          let h' : OpenIn mission store (open_ids tasks) = rw f at h in
          let (none_open, (m, v)) =
            cancel_tasks-OpenIn mission tasks next after rest
              (subst (λ st. OpenIn mission st (open_ids tasks)) same h') in
          (none_open, (ap Store.missions same ∙ m, ap Store.verifications same ∙ v))
    ]

get-values {ℓ} :
    {V : Type ℓ} (dict : Dict V) (key : String) (value : V)
    → get dict key ≡ some value
    → Memᴰ value (values dict)
unfolding get
get-values [] key value e = absurd (cc)
get-values ((name, old) ∷ dict) key value e = elim (Bool-cases (name === key)) [
  | inl here ↦ Memᴰ.head (some-injective (sym (rw here at e)))
  | inr apart ↦ Memᴰ.tail (get-values dict key value (rw apart at e))
]

includes_ids :
    (task : TaskRecord) (tasks : List TaskRecord)
    → Memᴰ task tasks
    → includes (map (λ row. TaskRecord.task_id row) tasks) task.task_id ≡ true
includes_ids task [] m = elim m [ ]
includes_ids task (first ∷ tasks) (Memᴰ.head e) =
    let named : (first.task_id === task.task_id) ≡ true =
      subst (λ key. (key === task.task_id) ≡ true) (ap TaskRecord.task_id e)
        (===_refl task.task_id) in
    rw named
includes_ids task (first ∷ tasks) (Memᴰ.tail m) = rw (includes_ids task tasks m) (ground arith)

-- At first these are the open tasks that the store lists.
pub list_tasks-OpenIn :
    (host : Host) (mission : String) (store : Store)
    → IsKeyed store.tasks
    → OpenIn mission store (open_ids (list_tasks host store mission))
unfolding OpenIn open_ids list_tasks
list_tasks-OpenIn host mission store keyed id task there of_mission opened =
    let listed = sort-mem (task_order host) _ (
      filter-mem (λ row. TaskRecord.mission_id row === mission) (values store.tasks)
        (get-values store.tasks id task there) of_mission) in
    subst (λ key. includes (open_ids (list_tasks host store mission)) key ≡ true)
      (keyed id task there)
      (includes_ids task _ (filter-mem (λ row. is_open (TaskRecord.status row)) _ listed opened))
