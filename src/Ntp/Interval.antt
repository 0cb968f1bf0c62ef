-- ===== src/Ntp/Interval.antt =====
-- How often the device polls.
use brewster.Common.{ℕ, ◌+◌, ◌*◌, ◌≤◌, ◌<◌, ◌≡◌, min, refl, arith}
use brewster.Ntp.{ntp_poll_interval_secs_after_sync}

-- The interval is 60 seconds right after the first synchronisation and 1800 from 600 seconds after
-- it on. In between it is the nearest whole second on the straight line from the one to the other;
-- so it does not go down with the age.
pub ntp_poll_interval_secs_after_sync_lem :
    (age later : ℕ)
    → age ≤ later
    → (ntp_poll_interval_secs_after_sync 0 ≡ 60)
      × (ntp_poll_interval_secs_after_sync (600 + age) ≡ 1800)
      × (ntp_poll_interval_secs_after_sync age ≤ ntp_poll_interval_secs_after_sync later)
      × (600 * ntp_poll_interval_secs_after_sync age ≤ 600 * 60 + 1740 * min age 600 + 300)
      × (600 * 60 + 1740 * min age 600 < 600 * ntp_poll_interval_secs_after_sync age + 300)
ntp_poll_interval_secs_after_sync_lem age later h =
    (refl, ground arith, ground arith, ground arith, ground arith)
