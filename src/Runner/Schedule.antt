-- ===== src/Runner/Schedule.antt =====
-- nextScheduleDelay of internal/runner/loops.go. A time is its nanosecond since the zero time, from
-- which Truncate counts.
pub mod Delays
use node_box.Prelude.{
  ℕ, ◌+◌, ◌-◌, ◌%◌, String, Bool, true, false, not, ◌&&◌, ◌||◌, Option, none, some, ◌==◌,
  if◌then◌else◌, ℤ, pos, is_zero, is_negative,
}
use node_box.Model.{Schedule, Duration}

abbrev pub hour : ℕ
hour = 3600000000000

-- now.Truncate(time.Hour).Add(time.Hour).Sub(now)
unfoldable pub until_next_hour : ℕ → ℕ
until_next_hour now = (now - now % hour + hour) - now

next_delay_of : Schedule → ℕ → Duration
next_delay_of s now =
    if s.type == "hourly"
    then pos (until_next_hour now)
    else if s.type == "interval" && not (is_zero s.every) && not (is_negative s.every)
    then s.every
    else pos hour

unfoldable pub next_schedule_delay : Option Schedule → ℕ → Duration
unfolding next_delay_of until_next_hour
next_schedule_delay none now = pos hour
next_schedule_delay (some s) now = next_delay_of s now
