-- ===== src/Shared/Selection/Order.antt =====
-- The order behind the choice of the NTP master.
use brewster.Common.{◌≡◌, ◌⊎◌, true, false, not, ◌&&◌, ◌||◌, arith}
use brewster.Shared.Selection.{NtpSelectionSample, should_replace_master}

-- Both samples agree in every field.
abbrev pub SameSample : NtpSelectionSample → NtpSelectionSample → Type 0
SameSample a b =
    (a.stratum ≡ b.stratum) × (a.latency_ms ≡ b.latency_ms) × (a.jitter_ms ≡ b.jitter_ms)

-- "Replaces" is a strict total order on samples: no sample replaces itself, one that replaces a
-- replacement replaces the first, and of two samples one replaces the other unless they agree in
-- every field. So a master is never swapped back and forth between two fixed samples.
pub should_replace_master_lem :
    (a b c : NtpSelectionSample)
    → (should_replace_master a a ≡ false)
      × ((should_replace_master a b && should_replace_master b c && not (should_replace_master a c))
          ≡ false)
      × ((should_replace_master a b && should_replace_master b a) ≡ false)
      × (SameSample a b ⊎ ((should_replace_master a b || should_replace_master b a) ≡ true))
unfolding should_replace_master
should_replace_master_lem a b c = (ground arith, ground arith, ground arith, ground arith)
