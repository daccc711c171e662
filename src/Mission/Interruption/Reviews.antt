-- ===== src/Mission/Interruption/Reviews.antt =====
-- src/core/mission/index.ts: the missions that a recovery brings to the review.
use pi_multi_orchestrator.Prelude.{
  some-injective, ℕ, ◌+◌, ◌≡◌, refl, sym, ap, ◌∙◌, subst, inl, inr, true, false, Option, none, some,
  List, [], ◌∷◌, String, get, eq_iff, ◌===◌, ok, bind-eq-ok, ok-injective, Bool-cases, filter,
  false≢true, get-put_self, get-put_other, All,
}
use pi_multi_orchestrator.Mission.{
  MissionStatus, awaiting_review, MissionRecord, Store, Host, mission_row, system,
  transition_mission, can_transition, with_mission,
}
use pi_multi_orchestrator.Mission.Completion.{transition_mission-Moves}
use pi_multi_orchestrator.Mission.Interruption.{
  interrupt_attempts, keys, is_interruptible, is_lost, is_lost_run, brought_to_review,
  review_missions, recovered, recovery_reason,
}
use pi_multi_orchestrator.Mission.Interruption.Stops.{
  SameTables, interrupt_attempts-SameTables, interrupt_runs-SameTables,
}
use pi_multi_orchestrator.Mission.Interruption.Shutdown.{moved_returns}
use pi_multi_orchestrator.Mission.Interruption.Stopped.{idle_unstuck, is_stuck, stuck}

-- The mission, if it is there, is not planned, paused or blocked.
abbrev pub Unstuck : Store → String → Type 0
Unstuck store id =
    (mission : MissionRecord)
    → get store.missions id ≡ some mission
    → is_stuck mission.status ≡ false

-- One mission that was brought to the review.
record Reviews (store : Store) (id : String) (after : Store) : Type 0 where
  before : Unstuck store id
  since : Unstuck after id
  others :
      (other : String)
      → (id === other) ≡ false
      → get store.missions other ≡ get after.missions other
  attempts : store.attempts ≡ after.attempts
  verifications : store.verifications ≡ after.verifications
  leases : store.leases ≡ after.leases

mission_row-put :
    (store : Store) (id : String) (mission current : MissionRecord)
    → mission_row (with_mission store id mission) id ≡ ok current
    → mission ≡ current
mission_row-put store id mission current e =
    let there = rw (get-put_self store.missions id mission) at e in cc

untouched :
    (store : Store) (id : String) (mission : MissionRecord)
    → get store.missions id ≡ some mission
    → is_stuck mission.status ≡ false
    → Reviews store id store
untouched store id mission there free = record {
  before = still;
  since = still;
  others = λ other apart. refl;
  attempts = refl;
  verifications = refl;
  leases = refl;
}
  where
    still : Unstuck store id
    still other there' =
        subst (λ m. is_stuck (MissionRecord.status m) ≡ false) (some-injective (sym there ∙ there'))
          free

bumped : Store → String → MissionRecord → Store
bumped store id mission = with_mission store id (record mission { revision = mission.revision + 1 })

moved-Reviews :
    (host : Host) (store after : Store) (id : String) (mission : MissionRecord)
    → get store.missions id ≡ some mission
    → transition_mission host (bumped store id mission) id awaiting_review system none ≡ ok after
    → Reviews store id after
unfolding bumped
moved-Reviews host store after id mission there e =
    let moves =
      transition_mission-Moves host (bumped store id mission) after id awaiting_review system none
        e in
    let same =
      mission_row-put store id (record mission { revision = mission.revision + 1 }) moves.current
        moves.row in
    let next : MissionRecord = record {
      status = awaiting_review;
      revision = moves.current.revision + 1;
    } in
    record {
      before = λ other there'.
          subst (λ m. is_stuck (MissionRecord.status m) ≡ false)
            (some-injective (sym there ∙ there'))
            (free mission.status (
              ap (λ r. can_transition (MissionRecord.status r) awaiting_review) same
              ∙ moves.allowed_next));
      since = λ other there'.
          let now_there =
            subst (λ st. get (Store.missions st) id ≡ some next) moves.written
              (get-put_self (bumped store id mission).missions id next) in
          ap (λ r. is_stuck (MissionRecord.status r))
            (sym (some-injective (sym now_there ∙ there')));
      others = λ other apart.
          sym (get-put_other store.missions id other _ apart)
          ∙ sym (get-put_other (bumped store id mission).missions id other next apart)
          ∙ ap (λ st. get (Store.missions st) other) moves.written;
      attempts = ap Store.attempts moves.written;
      verifications = ap Store.verifications moves.written;
      leases = ap Store.leases moves.written;
    }
  where
    free :
        (status : MissionStatus)
        → can_transition status awaiting_review ≡ true
        → is_stuck status ≡ false
    free status t = elim (Bool-cases (is_stuck status)) [
      | inl h ↦ absurd (false≢true (sym (stuck status h) ∙ t))
      | inr h ↦ h
    ]

brought_to_review-Reviews :
    (host : Host) (store after : Store) (id : String) (found : Option MissionRecord)
    → get store.missions id ≡ found
    → brought_to_review host store id found ≡ ok after
    → Reviews store id after
unfolding bumped
brought_to_review-Reviews host store after id none there e =
    subst (Reviews store id) (ok-injective e) (record {
      before = missing;
      since = missing;
      others = λ other apart. refl;
      attempts = refl;
      verifications = refl;
      leases = refl;
    })
  where
    missing : Unstuck store id
    missing mission there' = let clash = sym there ∙ there' in absurd (cc)
brought_to_review-Reviews host store after id (some mission) there e =
    elim (Bool-cases (is_interruptible mission.status)) [
      | inl t ↦ moved-Reviews host store after id mission there (rw t at e)
      | inr f ↦
          subst (Reviews store id) (ok-injective (rw f at e))
            (untouched store id mission there (idle_unstuck mission.status f))
    ]

Unstuck-before :
    (store after : Store) (id : String)
    → Reviews store id after
    → (other : String) → Unstuck after other
    → Unstuck store other
Unstuck-before store after id r other u = elim (Bool-cases (id === other)) [
  | inl here ↦ subst (Unstuck store) ((eq_iff id other).0 here) r.before
  | inr apart ↦ λ mission there. u mission (sym (r.others other apart) ∙ there)
]

Unstuck-after :
    (store after : Store) (id : String)
    → Reviews store id after
    → (other : String) → Unstuck store other
    → Unstuck after other
Unstuck-after store after id r other u = elim (Bool-cases (id === other)) [
  | inl here ↦ subst (Unstuck after) ((eq_iff id other).0 here) r.since
  | inr apart ↦ λ mission there. u mission (r.others other apart ∙ there)
]

pub All-map :
    (P Q : String → Type 0) (ids : List String)
    → ((id : String) → P id → Q id)
    → All P ids
    → All Q ids
All-map P Q [] f h = tt
All-map P Q (id ∷ ids) f h = (f id h.0, All-map P Q ids f h.1)

pub record ReviewsAll (store : Store) (ids : List String) (after : Store) : Type 0 where
  pub before : All (Unstuck store) ids
  pub attempts : store.attempts ≡ after.attempts
  pub verifications : store.verifications ≡ after.verifications
  pub leases : store.leases ≡ after.leases

pub review_missions-ReviewsAll :
    (host : Host) (ids : List String) (store after : Store)
    → review_missions host store ids ≡ ok after
    → ReviewsAll store ids after
unfolding review_missions
review_missions-ReviewsAll host [] store after e =
    let same : store ≡ after = ok-injective e in
    record {
      before = tt;
      attempts = ap Store.attempts same;
      verifications = ap Store.verifications same;
      leases = ap Store.leases same;
    }
review_missions-ReviewsAll host (id ∷ ids) store after e =
    let (next, moved, rest) =
      bind-eq-ok (brought_to_review host store id (get store.missions id)) _ e in
    let r = brought_to_review-Reviews host store next id (get store.missions id) refl moved in
    let more = review_missions-ReviewsAll host ids next after rest in
    record {
      before = (
        r.before,
        All-map (Unstuck next) (Unstuck store) ids (Unstuck-before store next id r) more.before,
      );
      attempts = r.attempts ∙ more.attempts;
      verifications = r.verifications ∙ more.verifications;
      leases = r.leases ∙ more.leases;
    }

mission_row-bumped :
    (store : Store) (id : String) (mission : MissionRecord)
    → mission_row (bumped store id mission) id
      ≡ ok (record mission { revision = mission.revision + 1 })
unfolding bumped
mission_row-bumped store id mission =
    rw (get-put_self store.missions id (record mission { revision = mission.revision + 1 })) refl

brought_to_review-returns :
    (host : Host) (store : Store) (id : String) (found : Option MissionRecord)
    → get store.missions id ≡ found
    → Unstuck store id
    → (after : Store) × (brought_to_review host store id found ≡ ok after)
unfolding bumped
brought_to_review-returns host store id none there u = (store, refl)
brought_to_review-returns host store id (some mission) there u =
    elim (Bool-cases (is_interruptible mission.status)) [
      | inl t ↦
          let (after, e) =
            moved_returns host (bumped store id mission) id mission.status (mission.revision + 1)
              (mission_row-bumped store id mission) t (u mission there) in
          (after, rw t e)
      | inr f ↦ (store, rw f refl)
    ]

pub review_missions-returns :
    (host : Host) (ids : List String) (store : Store)
    → All (Unstuck store) ids
    → (after : Store) × (review_missions host store ids ≡ ok after)
unfolding review_missions
review_missions-returns host [] store u = (store, refl)
review_missions-returns host (id ∷ ids) store u =
    let (next, e) = brought_to_review-returns host store id (get store.missions id) refl u.0 in
    let r = brought_to_review-Reviews host store next id (get store.missions id) refl e in
    let (after, rest) =
      review_missions-returns host ids next
        (All-map (Unstuck store) (Unstuck next) ids (Unstuck-after store next id r) u.1) in
    (after, rw e rest)

pub recovered-SameTables :
    (host : Host) (store : Store) (owner : Option String) (now : ℕ)
    → SameTables store (recovered host store owner now)
recovered-SameTables host store owner now =
    let ids = keys (filter (is_lost host store owner now) store.attempts) in
    let (a, v) = interrupt_attempts-SameTables store ids in
    let (r, t) =
      interrupt_runs-SameTables (interrupt_attempts store ids) recovery_reason
        (filter (is_lost_run host store owner now) store.verifications) in
    record { missions = a.missions ∙ r.missions; leases = a.leases ∙ r.leases }
