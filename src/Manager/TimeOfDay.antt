-- ===== src/Manager/TimeOfDay.antt =====
-- flamenco/time_of_day.go: a time of the day, and when it is on a date. A time.Time is the number of
-- nanoseconds since a midnight of the local time zone; the days are taken to have 24 hours each.
use flamenco_manager.Common.{
  ℕ, ◌+◌, ◌*◌, ◌/◌, ◌%◌, ◌<◌, ◌≡◌, ◌↔◌, Bool, true, ltb, nat_eq, not, ◌&&◌, if◌then◌else◌, arith,
}

abbrev pub per_minute : ℕ
per_minute = 60000000000

abbrev pub per_day : ℕ
per_day = 86400000000000

-- The fields are read from "HH:MM" and are not negative here.
pub record TimeOfDay : Type 0 where
  pub hour : ℕ
  pub minute : ℕ

-- `MakeTimeOfDay`.
unfoldable pub make_time_of_day : ℕ → TimeOfDay
make_time_of_day some_time = record {
  hour = some_time % per_day / (60 * per_minute);
  minute = some_time % per_day / per_minute % 60;
}

-- `Equals`.
unfoldable pub equals : TimeOfDay → TimeOfDay → Bool
equals ot other = nat_eq ot.hour other.hour && nat_eq ot.minute other.minute

-- `IsBefore`.
unfoldable pub is_before : TimeOfDay → TimeOfDay → Bool
is_before ot other =
    if not (nat_eq ot.hour other.hour) then ltb ot.hour other.hour else ltb ot.minute other.minute

-- `IsAfter`.
unfoldable pub is_after : TimeOfDay → TimeOfDay → Bool
is_after ot other =
    if not (nat_eq ot.hour other.hour) then ltb other.hour ot.hour else ltb other.minute ot.minute

-- `OnDate`: `time.Date` carries hours past 24 over to the days that follow.
unfoldable pub on_date : TimeOfDay → ℕ → ℕ
on_date ot date = date / per_day * per_day + (ot.hour * 60 + ot.minute) * per_minute

-- Where the minutes are minutes, the order of the times of day is that of the times on a date.
pub is_before_iff :
    (now : ℕ) (x : TimeOfDay)
    → x.minute < 60
    → (is_before (make_time_of_day now) x ≡ true) ↔ (now < on_date x now)
unfolding is_before make_time_of_day on_date
is_before_iff now x h = ground arith
