-- ===== src/Examples/Sleeping.antt =====
-- The sleep scheduler at concrete inputs.
use flamenco_manager.Common.{
  ℕ, ◌+◌, ◌*◌, ◌≤◌, ◌<◌, ◌≡◌, ◌≢◌, ◌↔◌, inl, inr, refl, true, Option, none, some, List, [], ◌∷◌,
  arith,
}
use flamenco_manager.Manager.TimeOfDay.{TimeOfDay, per_minute, on_date, is_before}
use flamenco_manager.Manager.Sleep.{
  Schedule, time_based_status, calculate_next_check, calc_next, is_sleep_day, cleanup_days_of_week,
  contains, weekday_name, fields, earliest_time,
}
use flamenco_manager.Manager.Sleep.NextCheck.{time_based_status-stable}
use flamenco_manager.Manager.Sleep.Missed.{
  time_based_status-asleep_iff, time_based_status-overnight, next_check-ne-asleep,
}
use flamenco_manager.Manager.Sleep.Days.{cleanup_days_of_week-contains, names_weekday}

abbrev time_of : ℕ → ℕ → TimeOfDay
time_of h m = record { hour = h; minute = m }

abbrev from_to : Option TimeOfDay → Option TimeOfDay → Schedule
from_to s e = record {
  schedule_active = true;
  days_of_week = [];
  time_start = s;
  time_end = e;
  next_check = none;
}

-- Nine to half past five.
abbrev daytime : Schedule
daytime = from_to (some (time_of 9 0)) (some (time_of 17 30))

-- Ten and eleven in the morning of the third day.
abbrev ten : ℕ
ten = (2 * 1440 + 600) * per_minute

abbrev eleven : ℕ
eleven = (2 * 1440 + 660) * per_minute

time_based_status-stable_example : time_based_status daytime eleven ≡ time_based_status daytime ten
unfolding calculate_next_check calc_next on_date earliest_time
time_based_status-stable_example =
    time_based_status-stable daytime ten eleven
      (inr (time_of 9 0, time_of 17 30, refl, refl, omega arith, omega arith)) (omega arith)
      (omega arith)

time_based_status-asleep_iff_example : (time_based_status daytime ten ≡ "asleep") ↔ (
    (is_sleep_day daytime ten ≡ true)
    × (on_date (time_of 9 0) ten ≤ ten)
    × (ten < on_date (time_of 17 30) ten))
time_based_status-asleep_iff_example =
    time_based_status-asleep_iff daytime (time_of 9 0) (time_of 17 30) ten refl refl (omega arith)
      (omega arith)

-- From ten in the evening to six.
abbrev overnight : Schedule
overnight = from_to (some (time_of 22 0)) (some (time_of 6 0))

time_based_status-overnight_example : time_based_status overnight ten ≢ "asleep"
unfolding is_before
time_based_status-overnight_example =
    time_based_status-overnight overnight (time_of 22 0) (time_of 6 0) ten refl refl refl

-- From nine to the end of the day.
abbrev open_end : Schedule
open_end = from_to (some (time_of 9 0)) none

-- One minute past the midnight of the fourth day.
abbrev past_midnight : ℕ
past_midnight = (3 * 1440 + 1) * per_minute

next_check-ne-asleep_example : time_based_status open_end past_midnight ≢ "asleep"
unfolding calculate_next_check calc_next on_date
next_check-ne-asleep_example =
    next_check-ne-asleep open_end ten past_midnight
      (inl (time_of 9 0, refl, refl, omega arith, omega arith)) (omega arith) (omega arith)

-- "Mo  Tues".
abbrev typed_days : List ℕ
typed_days = b'M' ∷ b'o' ∷ b' ' ∷ b' ' ∷ b'T' ∷ b'u' ∷ b'e' ∷ b's' ∷ []

abbrev cleaned_days : List ℕ
cleaned_days = b'm' ∷ b'o' ∷ b' ' ∷ b't' ∷ b'u' ∷ []

cleanup_days_of_week-contains_example :
    contains cleaned_days (weekday_name ten) ≡ names_weekday (fields typed_days) (weekday_name ten)
unfolding cleanup_days_of_week
cleanup_days_of_week-contains_example =
    cleanup_days_of_week-contains typed_days cleaned_days ten refl
