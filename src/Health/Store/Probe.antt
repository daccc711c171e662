-- ===== src/Health/Store/Probe.antt =====
-- src/core/health/index.ts: `beginProbe` lets one probe through.
use pi_multi_orchestrator.Prelude.{ℕ, ◌≡◌, false, String, ok}
use pi_multi_orchestrator.Health.Store.{damaged_file, quarantine, Disk, begin_probe}

-- The file that was written has too many bytes. It is copied aside by a probe, which is refused.
abbrev pub Lost : Disk → String → ℕ → Type 0
Lost disk id later =
    (disk.file ≡ damaged_file)
    × (begin_probe disk id later ≡ (quarantine damaged_file disk, ok false))
