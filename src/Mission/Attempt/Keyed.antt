-- ===== src/Mission/Attempt/Keyed.antt =====
-- src/core/mission/index.ts: the rows of the tasks stand under their ids.
use pi_multi_orchestrator.Prelude.{
  some-injective, ◌≡◌, refl, sym, ap, ◌∙◌, subst, inl, inr, Bool, true, false, some, [], ◌∷◌,
  String, ◌===◌, eq_iff, if◌then◌else◌, get, put, put-cases, Dict, Bool-cases, ok,
}
use pi_multi_orchestrator.Mission.{found-eq-ok, TaskRecord, Store}
use pi_multi_orchestrator.Mission.Attempt.{update, task_row}

-- Each row of the tasks stands under the id of its task.
abbrev pub IsKeyed : Dict TaskRecord → Type 0
IsKeyed tasks = (id : String) (task : TaskRecord) → get tasks id ≡ some task → task.task_id ≡ id

update-keeps :
    (dict : Dict TaskRecord) (key other : String) (change : TaskRecord → TaskRecord)
    (P : TaskRecord → Type 0)
    → (key ≡ other → (task : TaskRecord) → P task → P (change task))
    → ((task : TaskRecord) → get dict other ≡ some task → P task)
    → (task : TaskRecord) → get (update dict key change) other ≡ some task
    → P task
unfolding get
update-keeps [] key other change P kept h task e = absurd (cc)
update-keeps ((name, old) ∷ dict) key other change P kept h task e =
    elim (Bool-cases (name === other)) [
      | inl here ↦
          let holds = h old (rw here refl) in by here (name === key) refl holds (rw here at e)
      | inr apart ↦
          update-keeps dict key other change P kept (λ found there. h found (rw apart there)) task
            (rw apart at e)
    ]
  where
    by :
        (name === other) ≡ true
        → (b : Bool) → (name === key) ≡ b
        → P old
        → some (if b then change old else old) ≡ some task
        → P task
    by here true same holds e =
        let key_here = sym ((eq_iff name key).0 same) ∙ (eq_iff name other).0 here in
        subst P (some-injective e) (kept key_here old holds)
    by here false apart holds e = subst P (some-injective e) holds

pub update-IsKeyed :
    (tasks : Dict TaskRecord) (id : String) (change : TaskRecord → TaskRecord)
    → ((task : TaskRecord) → task.task_id ≡ id → (change task).task_id ≡ id)
    → IsKeyed tasks
    → IsKeyed (update tasks id change)
update-IsKeyed tasks id change same h other task e =
    update-keeps tasks id other change (λ row. row.task_id ≡ other)
      (λ here row named. same row (named ∙ sym here) ∙ here) (h other) task e

pub put-IsKeyed :
    (tasks : Dict TaskRecord) (id : String) (row : TaskRecord)
    → row.task_id ≡ id
    → IsKeyed tasks
    → IsKeyed (put tasks id row)
put-IsKeyed tasks id row named h other task e = elim (put-cases tasks id other row task e) [
  | inl (here, same) ↦ ap TaskRecord.task_id (sym same) ∙ named ∙ here
  | inr (apart, there) ↦ h other task there
]

pub task_row-IsKeyed :
    (store : Store) (id : String) (task : TaskRecord)
    → task_row store id ≡ ok task
    → IsKeyed store.tasks
    → task.task_id ≡ id
task_row-IsKeyed store id task e h = h id task (found-eq-ok (get store.tasks id) e)
