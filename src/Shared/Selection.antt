-- ===== src/Shared/Selection.antt =====
-- `should_replace_master`
pub mod Order
use brewster.Common.{ℕ, Bool, ◌&&◌, ◌||◌, ltb, ◌==◌}

-- `NtpSelectionSample`
pub record NtpSelectionSample : Type 0 where
  pub stratum : ℕ
  pub latency_ms : ℕ
  pub jitter_ms : ℕ

pub should_replace_master : NtpSelectionSample → NtpSelectionSample → Bool
should_replace_master current candidate =
    ltb candidate.stratum current.stratum
    || (candidate.stratum == current.stratum && ltb candidate.latency_ms current.latency_ms)
    || (candidate.stratum == current.stratum
        && candidate.latency_ms == current.latency_ms
        && ltb candidate.jitter_ms current.jitter_ms)
