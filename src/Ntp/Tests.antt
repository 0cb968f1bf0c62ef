-- ===== src/Ntp/Tests.antt =====
-- The theorems on NTP at concrete inputs.
use brewster.Common.{◌*◌, ◌+◌, ◌<◌}
use brewster.Common.{ℕ, ◌≤◌, ◌≡◌, refl, Bool, true, false, some, [], ◌∷◌, arith}
use brewster.Ntp.{ntp_poll_interval_secs_after_sync, PendingQuery, match_response}
use brewster.Ntp.Interval.{ntp_poll_interval_secs_after_sync_lem}
use brewster.Ntp.Matching.{match_response_lem, Taken}

ntp_poll_interval_secs_after_sync_example :
    (ntp_poll_interval_secs_after_sync 0 ≡ 60)
    × (ntp_poll_interval_secs_after_sync 900 ≡ 1800)
    × (ntp_poll_interval_secs_after_sync 300 ≤ ntp_poll_interval_secs_after_sync 700)
    × (600 * ntp_poll_interval_secs_after_sync 300 ≤ 600 * 60 + 1740 * 300 + 300)
    × (600 * 60 + 1740 * 300 < 600 * ntp_poll_interval_secs_after_sync 300 + 300)
ntp_poll_interval_secs_after_sync_example =
    ntp_poll_interval_secs_after_sync_lem 300 700 (omega arith)

-- A query to 10.0.0.`host`.
abbrev query_to : ℕ → Bool → PendingQuery Bool
query_to host done = record {
  ip = 10 ∷ 0 ∷ 0 ∷ host ∷ [];
  token = 0 ∷ 0 ∷ 0 ∷ host ∷ 0 ∷ 0 ∷ 0 ∷ 0 ∷ [];
  t1_ticks = 1000;
  source = true;
  done = done;
}

taken :
    match_response (0 ∷ 0 ∷ 0 ∷ 2 ∷ 0 ∷ 0 ∷ 0 ∷ 0 ∷ []) (query_to 1 true ∷ query_to 2 false ∷ [])
    ≡ some (query_to 2 false, query_to 1 true ∷ query_to 2 true ∷ [])
unfolding match_response
taken = refl

match_response_example :
    Taken
      (0 ∷ 0 ∷ 0 ∷ 2 ∷ 0 ∷ 0 ∷ 0 ∷ 0 ∷ [])
      (query_to 1 true ∷ query_to 2 false ∷ [])
      (query_to 2 false, query_to 1 true ∷ query_to 2 true ∷ [])
match_response_example =
    match_response_lem (0 ∷ 0 ∷ 0 ∷ 2 ∷ 0 ∷ 0 ∷ 0 ∷ 0 ∷ [])
      (query_to 1 true ∷ query_to 2 false ∷ []) (query_to 1 true ∷ query_to 2 true ∷ [])
      (query_to 2 false) taken
