-- ===== src/Mission/Completion.antt =====
-- src/core/mission/index.ts: `transitionMission`, and what the completion of a mission takes.
use mathlib.Core.List.{Memᴰ}
use pi_multi_orchestrator.Prelude.{
  ℕ, ◌+◌, ◌≡◌, ◌≢◌, refl, sym, ap, ◌∙◌, true, false, not, ◌||◌, Option, some, [], String, ◌===◌,
  all, all-mem, get, get-put_self, get-put_other, ok, ◌>>◌, check, bind-eq-ok, check-eq-ok,
  seq-eq-ok, arith, false≢true,
}
use pi_multi_orchestrator.Mission.{
  MissionStatus, draft, planned, active, paused, running, awaiting_review, blocked, failed,
  cancelled, completed, Actor, boss, is_boss, MissionRecord, TaskRecord, Store, validation,
  conflict, unauthorized, mission_row, Host, transition_mission, can_transition, is_completable,
  active_mission_tasks, task_done, is_completed, revision_matches, same_status, with_mission,
}

-- What a transition that succeeds has found, and what it leaves.
pub record Moves (host : Host) (store : Store) (id : String) (status : MissionStatus)
    (actor : Actor) (expected : Option ℕ) (after : Store) : Type 0 where
  pub current : MissionRecord
  pub row : mission_row store id ≡ ok current
  pub expected_met : revision_matches expected current.revision ≡ true
  pub by_boss : not (is_completed status) || is_boss actor ≡ true
  pub completable : not (is_completed status) || is_completable host store id ≡ true
  pub allowed_next : can_transition current.status status ≡ true
  pub written :
      with_mission store id (record { status = status; revision = current.revision + 1 }) ≡ after

pub transition_mission-Moves :
    (host : Host) (store after : Store) (id : String) (status : MissionStatus) (actor : Actor)
    (expected : Option ℕ)
    → transition_mission host store id status actor expected ≡ ok after
    → Moves host store id status actor expected after
unfolding transition_mission
transition_mission-Moves host store after id status actor expected e =
    let (current, row, rest) = bind-eq-ok (mission_row store id) _ e in
    let (five, made) =
      seq-eq-ok
        (check (revision_matches expected current.revision) conflict
          >> check (not (is_completed status) || is_boss actor) unauthorized
          >> check (not (is_completed status) || is_completable host store id) validation
          >> check (not (same_status current.status status)) validation
          >> check (can_transition current.status status) validation)
        _ rest in
    let (four, can) = seq-eq-ok _ (check (can_transition current.status status) validation) five in
    let (three, differs) =
      seq-eq-ok _ (check (not (same_status current.status status)) validation) four in
    let (two, complete) =
      seq-eq-ok _ (check (not (is_completed status) || is_completable host store id) validation)
        three in
    let (one, bossy) =
      seq-eq-ok (check (revision_matches expected current.revision) conflict) _ two in
    record {
      current = current;
      row = row;
      expected_met = check-eq-ok _ conflict one;
      by_boss = check-eq-ok _ unauthorized bossy;
      completable = check-eq-ok _ validation complete;
      allowed_next = check-eq-ok _ validation can;
      written = cc;
    }

from_review :
    (status : MissionStatus) → can_transition status completed ≡ true → status ≡ awaiting_review
unfolding can_transition
from_review awaiting_review t = refl
from_review draft t = absurd (false≢true t)
from_review planned t = absurd (false≢true t)
from_review active t = absurd (false≢true t)
from_review paused t = absurd (false≢true t)
from_review running t = absurd (false≢true t)
from_review blocked t = absurd (false≢true t)
from_review failed t = absurd (false≢true t)
from_review cancelled t = absurd (false≢true t)
from_review completed t = absurd (false≢true t)

-- A mission is completed by the Boss only, from the review only, and only when it has active tasks
-- and each of them has been executed and has passed its quality review by a recorded decision.
pub transition_mission-completed :
    (host : Host) (store after : Store) (id : String) (actor : Actor) (expected : Option ℕ)
    → transition_mission host store id completed actor expected ≡ ok after
    → (actor ≡ boss)
      × ((revision : ℕ) × (mission_row store id
            ≡ ok (record { status = awaiting_review; revision = revision })))
      × (active_mission_tasks host store id ≢ [])
      × ((task : TaskRecord)
          → Memᴰ task (active_mission_tasks host store id)
          → task_done store id task ≡ true)
unfolding is_completable
transition_mission-completed host store after id actor expected e =
    let moves = transition_mission-Moves host store after id completed actor expected e in
    (
      only_boss actor moves.by_boss,
      (
        moves.current.revision,
        moves.row
            ∙ ap (λ status. ok (record { status = status; revision = moves.current.revision }))
                (from_review moves.current.status moves.allowed_next),
      ),
      (λ none_active. false≢true (sym (empty none_active moves.completable))),
      λ task m.
          all-mem (task_done store id) (active_mission_tasks host store id)
            (all_done moves.completable) m,
    )
  where
    only_boss : (actor : Actor) → is_boss actor ≡ true → actor ≡ boss
    only_boss boss t = refl
    only_boss _ t = cc

    all_done :
        is_completable host store id ≡ true
        → all (task_done store id) (active_mission_tasks host store id) ≡ true
    all_done t = ground arith

    empty :
        active_mission_tasks host store id ≡ [] → is_completable host store id ≡ true → true ≡ false
    empty none_active t = let t' = rw none_active at t in ground arith

not_final :
    (from to : MissionStatus)
    → can_transition from to ≡ true
    → (from ≢ cancelled) × (from ≢ completed)
unfolding can_transition
not_final cancelled to t = absurd (false≢true t)
not_final completed to t = absurd (false≢true t)
not_final draft to t = (λ q. cc, λ q. cc)
not_final planned to t = (λ q. cc, λ q. cc)
not_final active to t = (λ q. cc, λ q. cc)
not_final paused to t = (λ q. cc, λ q. cc)
not_final running to t = (λ q. cc, λ q. cc)
not_final awaiting_review to t = (λ q. cc, λ q. cc)
not_final blocked to t = (λ q. cc, λ q. cc)
not_final failed to t = (λ q. cc, λ q. cc)

-- A transition that succeeds starts from a status that is not final, by a step that the table
-- allows, sets the status with the next revision, and leaves the other missions.
pub transition_mission-advances :
    (host : Host) (store after : Store) (id : String) (status : MissionStatus) (actor : Actor)
    (expected : Option ℕ)
    → transition_mission host store id status actor expected ≡ ok after
    → (current : MissionRecord) × (mission_row store id ≡ ok current)
      × (can_transition current.status status ≡ true)
      × (current.status ≢ cancelled)
      × (current.status ≢ completed)
      × (get after.missions id ≡ some (record { status = status; revision = current.revision + 1 }))
      × ((other : String)
          → (id === other) ≡ false
          → get after.missions other ≡ get store.missions other)
transition_mission-advances host store after id status actor expected e =
    let moves = transition_mission-Moves host store after id status actor expected e in
    let next : MissionRecord = record { status = status; revision = moves.current.revision + 1 } in
    let (live, unfinished) = not_final moves.current.status status moves.allowed_next in
    (
      moves.current,
      moves.row,
      moves.allowed_next,
      live,
      unfinished,
      rw (← moves.written) (get-put_self store.missions id next),
      λ other apart. rw (← moves.written) (get-put_other store.missions id other next apart),
    )
