-- ===== src/Health/Store/Quarantine.antt =====
-- src/core/health/index.ts: `recover` on a corrupt file.
use pi_multi_orchestrator.Prelude.{◌≡◌, refl, Bool, true, false, not, none, String, ◌∷◌, get, arith}
use pi_multi_orchestrator.Health.Store.{
  HealthFile, missing_file, unreadable_file, damaged_file, decoded, Disk, validate_snapshot,
  recover, recover_file, is_valid_file, get_record, read_file, routes_of,
}

-- Bytes that were read and are no valid snapshot.
abbrev pub is_corrupt : HealthFile → Bool
is_corrupt (decoded s) = not (validate_snapshot s)
is_corrupt damaged_file = true
is_corrupt _ = false

recover_corrupt :
    (disk : Disk)
    → is_corrupt disk.file ≡ true
    → recover disk ≡ record disk { quarantined = disk.file ∷ disk.quarantined }
unfolding recover
recover_corrupt disk h = copied disk.file h
  where
    copied :
        (file : HealthFile)
        → is_corrupt file ≡ true
        → recover_file file (is_valid_file file) disk
          ≡ record disk { quarantined = file ∷ disk.quarantined }
    copied missing_file h = cc
    copied unreadable_file h = cc
    copied damaged_file h = refl
    copied (decoded s) h = let invalid : validate_snapshot s ≡ false = ground arith in rw invalid

-- A recovery of a corrupt file leaves it where it is, still corrupt: nothing can be read of any route
-- afterwards, and a second recovery copies the same file into the quarantine again.
pub recover-repeats :
    (disk : Disk)
    → is_corrupt disk.file ≡ true
    → (is_corrupt (recover disk).file ≡ true)
      × ((id : String) → get_record (recover disk) id ≡ none)
      × ((recover (recover disk)).quarantined ≡ disk.file ∷ disk.file ∷ disk.quarantined)
unfolding get_record get
recover-repeats disk h =
    let once = recover_corrupt disk h in
    let still : is_corrupt (recover disk).file ≡ true = rw once h in
    (
      still,
      (λ id. nothing (recover disk).file id still),
      rw (recover_corrupt (recover disk) still, once),
    )
  where
    nothing :
        (file : HealthFile) (id : String)
        → is_corrupt file ≡ true
        → get (routes_of (read_file file)) id ≡ none
    nothing missing_file id h = refl
    nothing unreadable_file id h = refl
    nothing damaged_file id h = refl
    nothing (decoded s) id h =
        let invalid : validate_snapshot s ≡ false = ground arith in rw invalid
