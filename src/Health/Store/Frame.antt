-- ===== src/Health/Store/Frame.antt =====
-- src/core/health/index.ts: an operation on one route leaves what is read of the others.
use pi_multi_orchestrator.Prelude.{
  ℕ, ◌≡◌, refl, ◌∙◌, inl, inr, Bool, true, false, ◌||◌, Option, none, some, String, if◌then◌else◌,
  ◌===◌, get, get-put_other, ok, leb, ◌⊎◌, ◌<◌, arith, or_else, Bool-cases,
}
use pi_multi_orchestrator.Routing.Failure.{
  FailureClassification, is_infrastructure_health_failure, instant,
}
use pi_multi_orchestrator.Health.Record.{
  RouteHealthRecord, RecordFailureOptions, is_stable_id, later_than,
}
use pi_multi_orchestrator.Health.Store.{
  HealthSnapshot, max_bytes, HealthFile, decoded, missing_file, unreadable_file, damaged_file, Disk,
  HealthConfig, Outcome, validate_snapshot, load_for_write, load_file, empty_snapshot, save,
  saveable, with_record, failed_record, cleared_record, get_record, routes_of, read_file,
  record_failure, record_success, reset, begin_probe, write_loaded, probe_loaded, probe_record,
  for_route, last_success,
}
use pi_multi_orchestrator.Health.Store.Written.{get_record-save, get_record-save_large}

refused_lem :
    {A : Type 0} (disk : Disk) (s : HealthSnapshot) (result : A)
    → saveable s ≡ false
    → (save disk s result).0 ≡ disk
unfolding save
refused_lem disk s result f = rw f

module _ (other : String) where
  -- A file's records, read as they are, as one that does not decode or is not valid, or once loaded.
  abbrev Reads : Option RouteHealthRecord → Disk × HealthSnapshot → Type 0
  Reads found (disk, s) = (get_record disk other ≡ found) × (get s.routes other ≡ found)

  load_file-Reads :
      (file : HealthFile) (disk : Disk) (now : ℕ)
      → disk.file ≡ file
      → Reads (get (routes_of (read_file file)) other) (load_file file disk now)
  unfolding get_record empty_snapshot get
  load_file-Reads missing_file disk now e = (rw e, refl)
  load_file-Reads unreadable_file disk now e = (rw e, refl)
  load_file-Reads damaged_file disk now e = (rw e, refl)
  load_file-Reads (decoded s) disk now e = elim (Bool-cases (validate_snapshot s)) [
    | inl t ↦ rw (t, e) (rw t, refl)
    | inr f ↦ rw (f, e) (rw f, refl)
  ]

  load_for_write-Reads :
      (disk : Disk) (now : ℕ) → Reads (get_record disk other) (load_for_write disk now)
  unfolding load_for_write get_record
  load_for_write-Reads disk now = load_file-Reads disk.file disk now refl

  -- The route's record is read as before, or the operation has written a snapshot that holds it, but has
  -- too many bytes to be read.
  abbrev pub Keeps : Option RouteHealthRecord → Disk → Type 0
  Keeps found after =
      (get_record after other ≡ found)
      ⊎ ((s : HealthSnapshot) × (after.file ≡ damaged_file)
          × (max_bytes < after.size s)
          × (get s.routes other ≡ found))

  save_lem :
      {A : Type 0} (disk : Disk) (s : HealthSnapshot) (result : A)
      (found : Option RouteHealthRecord)
      → Reads found (disk, s)
      → Keeps found (save disk s result).0
  unfolding save
  save_lem disk s result found (on_disk, loaded) = elim (Bool-cases (saveable s)) [
    | inl t ↦ elim (Bool-cases (leb (disk.size s) max_bytes)) [
      | inl small ↦ inl (get_record-save disk s result other t small ∙ loaded)
      | inr large ↦
          inr
            (s, (get_record-save_large disk s result other t large).0, rw t (ground arith), loaded)
    ]
    | inr f ↦ inl (rw (refused_lem disk s result f) on_disk)
  ]

  with_record-Reads :
      (disk : Disk) (s : HealthSnapshot) (now : ℕ) (id : String) (r : RouteHealthRecord)
      (found : Option RouteHealthRecord)
      → (id === other) ≡ false
      → Reads found (disk, s)
      → Reads found (disk, with_record s now id r)
  with_record-Reads disk s now id r found apart (on_disk, loaded) =
      (on_disk, get-put_other s.routes id other r apart ∙ loaded)

  write_loaded_lem :
      (now : ℕ) (id : String) (make : Option RouteHealthRecord → RouteHealthRecord)
      (loaded : Disk × HealthSnapshot) (found : Option RouteHealthRecord)
      → (id === other) ≡ false
      → Reads found loaded
      → Keeps found (write_loaded now id make loaded).0
  write_loaded_lem now id make (disk, s) found apart h =
      let made = make (get s.routes id) in
      save_lem disk (with_record s now id made) made found
        (with_record-Reads disk s now id made found apart h)

  probe_loaded_lem :
      (id : String) (now : ℕ) (record_ : Option RouteHealthRecord) (disk : Disk)
      (s : HealthSnapshot) (found : Option RouteHealthRecord)
      → (id === other) ≡ false
      → Reads found (disk, s)
      → Keeps found (probe_loaded id now record_ (disk, s)).0
  probe_loaded_lem id now none disk s found apart (on_disk, loaded) = inl on_disk
  probe_loaded_lem id now (some r) disk s found apart (on_disk, loaded) =
      elim (Bool-cases (r.probe_in_flight || later_than r.cooldown_until now)) [
        | inl t ↦ rw t (inl on_disk)
        | inr f ↦ rw f (
            save_lem disk (with_record s now id (probe_record r)) true found
              (with_record-Reads disk s now id (probe_record r) found apart (on_disk, loaded)))
      ]

  for_route_lem :
      {A : Type 0} (id : String) (disk : Disk) (outcome : Outcome A)
      → Keeps (get_record disk other) outcome.0
      → Keeps (get_record disk other) (for_route id disk outcome).0
  for_route_lem id disk outcome h = elim (Bool-cases (is_stable_id id)) [
    | inl t ↦ rw t h
    | inr f ↦ rw f (inl refl)
  ]

-- What is read of the other route is kept.
abbrev pub IsKept : Disk → (other : String) → (after : Disk) → Type 0
IsKept disk other after = Keeps other (get_record disk other) after

-- Whatever the disk holds and whether or not the call throws, a failure, a success, a reset or a probe
-- of one route leaves what is read of every other route; unless it has written the file, with the record
-- of that route in it, with more than 1,048,576 bytes, and so with too many to be read.
pub operations-frame :
    (config : HealthConfig) (disk : Disk) (id other : String) (now : ℕ) (c : FailureClassification)
    (options : RecordFailureOptions)
    → (id === other) ≡ false
    → IsKept disk other (record_failure config disk id c now options).0
      × IsKept disk other (record_success disk id now).0
      × IsKept disk other (reset disk id now).0
      × IsKept disk other (begin_probe disk id now).0
unfolding record_failure record_success reset begin_probe
operations-frame config disk id other now c options apart =
    let loaded = load_for_write disk now in
    let h = load_for_write-Reads other disk now in
    (
      for_route_lem other id disk _
          (failure_lem (is_infrastructure_health_failure c.failure_class)),
      for_route_lem other id disk _
          (write_loaded_lem other now id (cleared_record id (some (instant now))) loaded _ apart h),
      for_route_lem other id disk _ (
          write_loaded_lem other now id
            (λ previous. cleared_record id (last_success previous) previous) loaded _ apart h),
      for_route_lem other id disk _
          (probe_loaded_lem other id now (get loaded.1.routes id) loaded.0 loaded.1 _ apart h),
    )
  where
    failure_lem :
        (counts : Bool)
        → IsKept disk other
            (if counts
              then write_loaded now id
                  (λ previous. failed_record config id previous c now options)
                  (load_for_write disk now)
              else (disk, ok (or_else (get_record disk id) (cleared_record id none none)))).0
    failure_lem true =
        write_loaded_lem other now id (λ previous. failed_record config id previous c now options)
          (load_for_write disk now) _ apart (load_for_write-Reads other disk now)
    failure_lem false = inl refl
