-- ===== src/Health/Store/Coherent.antt =====
-- src/core/health/index.ts: what holds of the records that the store writes.
use pi_multi_orchestrator.Prelude.{
  leb, ℕ, ◌≤◌, ◌<◌, ◌≡◌, refl, ◌≢◌, inl, inr, Bool, true, false, ◌||◌, Option, none, some, List, [],
  ◌∷◌, String, ◌===◌, get, get-put, arith, Bool-cases, is_some, sym, ◌∙◌, subst,
}
use pi_multi_orchestrator.Routing.Failure.{
  FailureClassification, Stamp, instant, is_infrastructure_health_failure,
}
use pi_multi_orchestrator.Health.Record.{
  RouteHealthRecord, CircuitState, healthy, degraded, open_circuit, probing, RecordFailureOptions,
  is_stable_id, later_than,
}
use pi_multi_orchestrator.Health.Store.{
  HealthSnapshot, max_bytes, HealthFile, decoded, missing_file, unreadable_file, damaged_file, Disk,
  HealthConfig, Outcome, validate_snapshot, load_for_write, load_file, save, saveable, with_record,
  failed_record, cleared_record, record_failure, record_success, reset, begin_probe, recover,
  recover_file, write_loaded, probe_loaded, probe_record, for_route, last_success, empty_snapshot,
  read_file, routes_of, get_record,
}

module _ (config : HealthConfig) where
  -- The circuit tells how many failures there were in a row; a cooldown has a reason and a failure
  -- behind it; a probe is in flight exactly while the circuit is being probed.
  pub record IsCoherent (r : RouteHealthRecord) : Type 0 where
    pub healthy_clear :
        r.circuit ≡ healthy → (r.consecutive_failures ≡ 0) × (r.cooldown_until ≡ none)
    pub degraded_below :
        r.circuit ≡ degraded
        → (0 < r.consecutive_failures) × (r.consecutive_failures < config.failure_threshold)
    pub open_above : r.circuit ≡ open_circuit → config.failure_threshold ≤ r.consecutive_failures
    pub probe_marked : r.probe_in_flight ≡ true → r.circuit ≡ probing
    pub probe_flies : r.circuit ≡ probing → r.probe_in_flight ≡ true
    pub never_unknown : r.circuit ≢ CircuitState.unknown
    pub reasoned : is_some r.cooldown_until ≡ is_some r.cooldown_reason
    pub earned : is_some r.cooldown_until ≡ true → 0 < r.consecutive_failures

  failed_record-IsCoherent :
      (id : String) (previous : Option RouteHealthRecord) (c : FailureClassification) (now : ℕ)
      (options : RecordFailureOptions)
      → IsCoherent (failed_record config id previous c now options)
  unfolding failed_record
  failed_record-IsCoherent id previous c now options = ground arith

  cleared_record-IsCoherent :
      (id : String) (success : Option Stamp) (previous : Option RouteHealthRecord)
      → IsCoherent (cleared_record id success previous)
  unfolding cleared_record
  cleared_record-IsCoherent id success previous = ground arith

  probe_record-IsCoherent : (r : RouteHealthRecord) → IsCoherent r → IsCoherent (probe_record r)
  probe_record-IsCoherent r h = ground arith

  abbrev AllCoherent : HealthSnapshot → Type 0
  AllCoherent s = (id : String) (r : RouteHealthRecord) → get s.routes id ≡ some r → IsCoherent r

  abbrev FileCoherent : HealthFile → Type 0
  FileCoherent (decoded s) = AllCoherent s
  FileCoherent _ = Unit

  empty_snapshot-AllCoherent : (now : ℕ) → AllCoherent (empty_snapshot now)
  unfolding empty_snapshot get
  empty_snapshot-AllCoherent now id r e = cc

  load_file-FileCoherent :
      (file : HealthFile) (disk : Disk) (now : ℕ)
      → FileCoherent file
      → FileCoherent disk.file
      → FileCoherent (load_file file disk now).0.file × AllCoherent (load_file file disk now).1
  load_file-FileCoherent missing_file disk now h k = (k, empty_snapshot-AllCoherent now)
  load_file-FileCoherent unreadable_file disk now h k = (k, empty_snapshot-AllCoherent now)
  load_file-FileCoherent damaged_file disk now h k = (k, empty_snapshot-AllCoherent now)
  load_file-FileCoherent (decoded s) disk now h k = elim (Bool-cases (validate_snapshot s)) [
    | inl t ↦ rw t (k, h)
    | inr f ↦ rw f (k, empty_snapshot-AllCoherent now)
  ]

  load_for_write-FileCoherent :
      (disk : Disk) (now : ℕ)
      → FileCoherent disk.file
      → FileCoherent (load_for_write disk now).0.file × AllCoherent (load_for_write disk now).1
  unfolding load_for_write
  load_for_write-FileCoherent disk now h = load_file-FileCoherent disk.file disk now h h

  save-FileCoherent :
      {A : Type 0} (disk : Disk) (s : HealthSnapshot) (result : A)
      → FileCoherent disk.file
      → AllCoherent s
      → FileCoherent (save disk s result).0.file
  unfolding save
  save-FileCoherent disk s result h k = elim (Bool-cases (saveable s)) [
    | inl t ↦ rw t (elim (Bool-cases (leb (disk.size s) max_bytes)) [
      | inl small ↦ rw small k
      | inr large ↦ rw large tt
    ])
    | inr f ↦ rw f h
  ]

  with_record-AllCoherent :
      (s : HealthSnapshot) (now : ℕ) (id : String) (r : RouteHealthRecord)
      → AllCoherent s
      → IsCoherent r
      → AllCoherent (with_record s now id r)
  with_record-AllCoherent s now id r h k other q e =
      let f = sym (get-put s.routes id other r) ∙ e in
      elim (Bool-cases (id === other)) [
        | inl t ↦ let k' = rw t at f in let g : r ≡ q = cc in subst IsCoherent g k
        | inr t ↦ h other q (rw t at f)
      ]

  write_loaded-FileCoherent :
      (now : ℕ) (id : String) (make : Option RouteHealthRecord → RouteHealthRecord)
      (loaded : Disk × HealthSnapshot)
      → FileCoherent loaded.0.file × AllCoherent loaded.1
      → ((previous : Option RouteHealthRecord) → IsCoherent (make previous))
      → FileCoherent (write_loaded now id make loaded).0.file
  write_loaded-FileCoherent now id make (disk, s) (h, k) made =
      save-FileCoherent disk (with_record s now id (make (get s.routes id)))
        (make (get s.routes id)) h
        (with_record-AllCoherent s now id (make (get s.routes id)) k (made (get s.routes id)))

  for_route-FileCoherent :
      {A : Type 0} (id : String) (disk : Disk) (outcome : Outcome A)
      → FileCoherent disk.file
      → FileCoherent outcome.0.file
      → FileCoherent (for_route id disk outcome).0.file
  for_route-FileCoherent id disk outcome h k = elim (Bool-cases (is_stable_id id)) [
    | inl t ↦ rw t k
    | inr f ↦ rw f h
  ]

  probe_loaded-FileCoherent :
      (id : String) (now : ℕ) (found : Option RouteHealthRecord) (disk : Disk) (s : HealthSnapshot)
      → get s.routes id ≡ found
      → FileCoherent disk.file
      → AllCoherent s
      → FileCoherent (probe_loaded id now found (disk, s)).0.file
  probe_loaded-FileCoherent id now none disk s e h k = h
  probe_loaded-FileCoherent id now (some r) disk s e h k =
      elim (Bool-cases (r.probe_in_flight || later_than r.cooldown_until now)) [
        | inl t ↦ rw t h
        | inr f ↦ rw f (
            save-FileCoherent disk (with_record s now id (probe_record r)) true h (
              with_record-AllCoherent s now id (probe_record r) k
                (probe_record-IsCoherent r (k id r e))))
      ]

-- A call of the store that may change its file.
pub data HealthCall : Type 0 where
  failure_call : String → FailureClassification → ℕ → RecordFailureOptions → HealthCall
  success_call reset_call probe_call : String → ℕ → HealthCall
  recover_call : HealthCall

module _ (config : HealthConfig) where
  abbrev pub called : Disk → HealthCall → Disk
  called disk (failure_call id c now options) = (record_failure config disk id c now options).0
  called disk (success_call id now) = (record_success disk id now).0
  called disk (reset_call id now) = (reset disk id now).0
  called disk (probe_call id now) = (begin_probe disk id now).0
  called disk recover_call = recover disk

  abbrev pub after_calls : Disk → List HealthCall → Disk
  after_calls disk [] = disk
  after_calls disk (call ∷ calls) = after_calls (called disk call) calls

  recover_file-FileCoherent :
      (file : HealthFile) (valid : Bool) (disk : Disk)
      → FileCoherent config disk.file
      → FileCoherent config (recover_file file valid disk).file
  recover_file-FileCoherent missing_file valid disk h = h
  recover_file-FileCoherent unreadable_file valid disk h = h
  recover_file-FileCoherent damaged_file valid disk h = h
  recover_file-FileCoherent (decoded s) true disk h = h
  recover_file-FileCoherent (decoded s) false disk h = h

  called-FileCoherent :
      (disk : Disk) (call : HealthCall)
      → FileCoherent config disk.file
      → FileCoherent config (called disk call).file
  unfolding record_failure record_success reset begin_probe recover
  called-FileCoherent disk (failure_call id c now options) h =
      for_route-FileCoherent config id disk _ h
        (elim (Bool-cases (is_infrastructure_health_failure c.failure_class)) [
          | inl t ↦ rw t (
              write_loaded-FileCoherent config now id
                (λ previous. failed_record config id previous c now options)
                (load_for_write disk now) (load_for_write-FileCoherent config disk now h)
                (λ previous. failed_record-IsCoherent config id previous c now options))
          | inr f ↦ rw f h
        ])
  called-FileCoherent disk (success_call id now) h = for_route-FileCoherent config id disk _ h (
      write_loaded-FileCoherent config now id (cleared_record id (some (instant now)))
        (load_for_write disk now) (load_for_write-FileCoherent config disk now h)
        (cleared_record-IsCoherent config id (some (instant now))))
  called-FileCoherent disk (reset_call id now) h = for_route-FileCoherent config id disk _ h (
      write_loaded-FileCoherent config now id
        (λ previous. cleared_record id (last_success previous) previous) (load_for_write disk now)
        (load_for_write-FileCoherent config disk now h)
        (λ previous. cleared_record-IsCoherent config id (last_success previous) previous))
  called-FileCoherent disk (probe_call id now) h =
      let (k, all_ok) = load_for_write-FileCoherent config disk now h in
      for_route-FileCoherent config id disk _ h (
        probe_loaded-FileCoherent config id now _ (load_for_write disk now).0
          (load_for_write disk now).1 refl k all_ok)
  called-FileCoherent disk recover_call h = recover_file-FileCoherent disk.file _ disk h

  after_calls-FileCoherent :
      (disk : Disk) (calls : List HealthCall)
      → FileCoherent config disk.file
      → FileCoherent config (after_calls disk calls).file
  after_calls-FileCoherent disk [] h = h
  after_calls-FileCoherent disk (call ∷ calls) h =
      after_calls-FileCoherent (called disk call) calls (called-FileCoherent disk call h)

  read_file-FileCoherent :
      (file : HealthFile) (id : String) (r : RouteHealthRecord)
      → FileCoherent config file
      → get (routes_of (read_file file)) id ≡ some r
      → IsCoherent config r
  unfolding get
  read_file-FileCoherent missing_file id r h e = cc
  read_file-FileCoherent unreadable_file id r h e = cc
  read_file-FileCoherent damaged_file id r h e = cc
  read_file-FileCoherent (decoded s) id r h e = elim (Bool-cases (validate_snapshot s)) [
    | inl t ↦ h id r (rw t at e)
    | inr f ↦ let none_some = rw f at e in cc
  ]

  -- Whatever the calls on a store that starts without a file, a record read back is coherent: with
  -- a healthy circuit it has no failures in a row and no cooldown, with a degraded one fewer than
  -- the threshold, with an open one at least as many; a probe is in flight exactly while the
  -- circuit is probing; a cooldown has a reason and a failure behind it.
  pub get_record-IsCoherent :
      (quarantined : List HealthFile) (size : HealthSnapshot → ℕ) (calls : List HealthCall)
      (id : String) (r : RouteHealthRecord)
      → get_record
          (after_calls
            (record { file = missing_file; quarantined = quarantined; size = size })
            calls)
          id
        ≡ some r
      → IsCoherent config r
  unfolding get_record
  get_record-IsCoherent quarantined size calls id r e =
      let start : Disk = record { file = missing_file; quarantined = quarantined; size = size } in
      read_file-FileCoherent (after_calls start calls).file id r
        (after_calls-FileCoherent start calls tt) e
