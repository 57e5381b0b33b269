-- ===== src/Manager/Sleep/NextCheck.antt =====
-- The next check comes before the schedule asks for another status.
use flamenco_manager.Common.{
  ℕ, ◌/◌, ◌≤◌, ◌<◌, ◌≡◌, refl, ◌⊎◌, inl, inr, none, some, [], ◌∷◌, arith, ap, not,
}
use flamenco_manager.Manager.TimeOfDay.{
  TimeOfDay, make_time_of_day, is_before, on_date, per_day, is_before_iff,
}
use flamenco_manager.Manager.Sleep.{
  Schedule, before_start, after_end, is_sleep_day, weekday_name, time_based_status, calc_next,
  midnight, earliest_time, calculate_next_check,
}

module _ (now t : ℕ) (later : now ≤ t) where
  pub same_day : t < calc_next now midnight → t / per_day ≡ now / per_day
  unfolding calc_next on_date
  same_day h = ground arith

  limit_stable :
      (x : TimeOfDay)
      → x.minute < 60
      → t / per_day ≡ now / per_day
      → t < calc_next now x
      → is_before (make_time_of_day t) x ≡ is_before (make_time_of_day now) x
  unfolding calc_next on_date
  limit_stable x h day k = ground (arith, is_before_iff now x, is_before_iff t x)

  is_sleep_day_stable :
      (sched : Schedule)
      → t / per_day ≡ now / per_day
      → is_sleep_day sched t ≡ is_sleep_day sched now
  unfolding is_sleep_day weekday_name
  is_sleep_day_stable sched day = rw day refl

earliest_below : (t a b c : ℕ) → t < earliest_time a (b ∷ c ∷ []) → (t < a) × (t < b) × (t < c)
unfolding earliest_time
earliest_below t a b c h = (ground arith, ground arith, ground arith)

status_stable :
    (sched : Schedule) (now t : ℕ)
    → is_sleep_day sched t ≡ is_sleep_day sched now
    → before_start sched (make_time_of_day t) ≡ before_start sched (make_time_of_day now)
    → after_end sched (make_time_of_day t) ≡ after_end sched (make_time_of_day now)
    → time_based_status sched t ≡ time_based_status sched now
unfolding time_based_status
status_stable sched now t d s e = rw (d, s, e) refl

-- Let a schedule have both a start and an end, with minutes below 60, or neither. From the time at
-- which its next check is calculated until that check, the schedule asks for the same status.
pub time_based_status-stable :
    (sched : Schedule) (now t : ℕ)
    → ((sched.time_start ≡ none) × (sched.time_end ≡ none))
      ⊎ ((s e : TimeOfDay) × (sched.time_start ≡ some s)
          × (sched.time_end ≡ some e)
          × (s.minute < 60)
          × (e.minute < 60))
    → now ≤ t
    → t < calculate_next_check sched now
    → time_based_status sched t ≡ time_based_status sched now
unfolding calculate_next_check before_start after_end
time_based_status-stable sched now t (inl (no_start, no_end)) later k =
    let day = same_day now t later (rw (no_start, no_end) at k) in
    status_stable sched now t (is_sleep_day_stable now t later sched day) (rw no_start refl)
      (rw no_end refl)
time_based_status-stable sched now t (inr (s, e, start, end, p, q)) later k =
    let (a, b, c) = earliest_below t _ _ _ (rw (start, end) at k) in
    let day = same_day now t later c in
    status_stable sched now t (is_sleep_day_stable now t later sched day)
      (rw start (limit_stable now t later s p day a))
      (rw end (ap not (limit_stable now t later e q day b)))
