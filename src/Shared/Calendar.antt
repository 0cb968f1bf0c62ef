-- ===== src/Shared/Calendar.antt =====
-- `days_to_ymd` and the fields of `unix_to_iso8601`. Days are counted from 1970-01-01, and the
-- argument is a `u32`, so the intermediate values are not negative.
use brewster.Common.{ℕ, ◌+◌, ◌-◌, ◌*◌, ◌/◌, ◌%◌, ltb, leb, if◌then◌else◌}

pub record Ymd : Type 0 where
  pub year : ℕ
  pub month : ℕ
  pub day : ℕ

unfoldable pub days_to_ymd : ℕ → Ymd
days_to_ymd days =
    let z = days + 719468 in
    let era = z / 146097 in
    let doe = z - era * 146097 in
    let yoe = (doe - doe / 1460 + doe / 36524 - doe / 146096) / 365 in
    let doy = doe - (365 * yoe + yoe / 4 - yoe / 100) in
    let mp = (5 * doy + 2) / 153 in
    let d = doy - (153 * mp + 2) / 5 + 1 in
    let m = if ltb mp 10 then mp + 3 else mp - 9 in
    let y = yoe + era * 400 + (if leb m 2 then 1 else 0) in record { year = y; month = m; day = d }

-- The fields of `unix_to_iso8601`: the date, the hour, the minute and the second.
unfoldable pub iso8601_fields : ℕ → Ymd × ℕ × ℕ × ℕ
iso8601_fields secs =
    let day_secs = secs % 86400 in
    (days_to_ymd (secs / 86400), day_secs / 3600, day_secs % 3600 / 60, day_secs % 60)
