-- ===== src/Manager/Sleep/Missed.antt =====
-- When a schedule asks a worker to sleep, and schedules by which no worker is ever asked to.
use flamenco_manager.Common.{
  ℕ, ◌+◌, ◌*◌, ◌/◌, ◌≤◌, ◌<◌, String, ◌≡◌, ◌≢◌, ◌⊎◌, inl, inr, ◌↔◌, true, false, not, none, some,
  arith, ap, eq_iff,
}
use flamenco_manager.Manager.TimeOfDay.{
  TimeOfDay, make_time_of_day, is_before, on_date, per_day, per_minute, is_before_iff,
}
use flamenco_manager.Manager.Sleep.{
  Schedule, before_start, after_end, is_sleep_day, time_based_status, calc_next, midnight,
  calculate_next_check,
}

awake-ne-asleep : ◌≢◌ {A = String} "awake" "asleep"
awake-ne-asleep e = ground (arith, eq_iff "awake" "asleep")

empty-ne-asleep : ◌≢◌ {A = String} "" "asleep"
empty-ne-asleep e = ground (arith, eq_iff "" "asleep")

-- A worker is to sleep just on sleep days, outside the two exclusions.
asleep_iff :
    (sched : Schedule) (t : ℕ)
    → (time_based_status sched t ≡ "asleep") ↔ (
        (is_sleep_day sched t ≡ true)
        × (before_start sched (make_time_of_day t) ≡ false)
        × (after_end sched (make_time_of_day t) ≡ false))
unfolding time_based_status
asleep_iff sched t = ground (arith, eq_iff "awake" "asleep", eq_iff "" "asleep")

-- For a schedule with a start and an end, with minutes below 60: at a time, it asks the worker to sleep
-- just when the day is one of its days, or it has no days, and the time is not before the start on
-- that date and before the end on that date.
pub time_based_status-asleep_iff :
    (sched : Schedule) (s e : TimeOfDay) (t : ℕ)
    → sched.time_start ≡ some s
    → sched.time_end ≡ some e
    → s.minute < 60
    → e.minute < 60
    → (time_based_status sched t ≡ "asleep")
      ↔ ((is_sleep_day sched t ≡ true) × (on_date s t ≤ t) × (t < on_date e t))
unfolding before_start after_end
time_based_status-asleep_iff sched s e t start end p q =
    ground (arith, asleep_iff sched t, is_before_iff t s, is_before_iff t e)

excluded-ne-asleep :
    (sched : Schedule) (t : ℕ)
    → (before_start sched (make_time_of_day t) ≡ true)
      ⊎ (after_end sched (make_time_of_day t) ≡ true)
    → time_based_status sched t ≢ "asleep"
excluded-ne-asleep sched t (inl b) h = let (day, start, end) = (asleep_iff sched t).0 h in cc
excluded-ne-asleep sched t (inr a) h = let (day, start, end) = (asleep_iff sched t).0 h in cc

-- A schedule whose start does not lie before its end on the same day, such as one for the night, asks
-- the worker to sleep at no time at all.
pub time_based_status-overnight :
    (sched : Schedule) (s e : TimeOfDay) (t : ℕ)
    → sched.time_start ≡ some s
    → sched.time_end ≡ some e
    → is_before s e ≡ false
    → time_based_status sched t ≢ "asleep"
unfolding before_start after_end is_before
time_based_status-overnight sched s e t start end h = excluded-ne-asleep sched t (ground arith)

-- The end's check is at the end, on some day, so that the end is past.
past_end :
    (now t : ℕ) (e : TimeOfDay)
    → e.hour < 24
    → e.minute < 60
    → calc_next now e ≤ t
    → t / per_day ≡ calc_next now e / per_day
    → is_before (make_time_of_day t) e ≡ false
unfolding calc_next on_date
past_end now t e h m k day = ground (arith, is_before_iff t e)

-- The check of a start alone is at midnight.
before_next_start :
    (now t : ℕ) (s : TimeOfDay)
    → calc_next now midnight ≤ t
    → t / per_day ≡ calc_next now midnight / per_day
    → t < calc_next now midnight + (s.hour * 60 + s.minute) * per_minute
    → t < on_date s t
unfolding calc_next on_date
before_next_start now t s k day early = ground arith

-- Let a schedule have only a start, or only an end before midnight, with minutes below 60. On the day of
-- its next check, from that check on, and, where there is a start, for as long as the start is after
-- midnight, the schedule does not ask the worker to sleep.
pub next_check-ne-asleep :
    (sched : Schedule) (now t : ℕ)
    → ((s : TimeOfDay) × (sched.time_start ≡ some s)
        × (sched.time_end ≡ none)
        × (s.minute < 60)
        × (t < calculate_next_check sched now + (s.hour * 60 + s.minute) * per_minute))
      ⊎ ((e : TimeOfDay) × (sched.time_start ≡ none)
          × (sched.time_end ≡ some e)
          × (e.hour < 24)
          × (e.minute < 60))
    → calculate_next_check sched now ≤ t
    → t / per_day ≡ calculate_next_check sched now / per_day
    → time_based_status sched t ≢ "asleep"
unfolding before_start after_end calculate_next_check
next_check-ne-asleep sched now t (inl (s, start, end, m, early)) k day =
    let first =
      before_next_start now t s (rw (start, end) at k) (rw (start, end) at day)
        (rw (start, end) at early) in
    excluded-ne-asleep sched t (inl (rw start ((is_before_iff t s m).1 first)))
next_check-ne-asleep sched now t (inr (e, start, end, h, m)) k day =
    excluded-ne-asleep sched t
      (inr (rw end (ap not (past_end now t e h m (rw (start, end) at k) (rw (start, end) at day)))))
