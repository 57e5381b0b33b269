-- ===== src/Dashboard/TimeDiff/Rounding.antt =====
-- How exact the ages of `time_diff` are.
use flamenco_manager.Common.{ℕ, ◌+◌, ◌*◌, ◌≤◌, ◌<◌, arith}
use flamenco_manager.Common.Int.{ℤ, pos, negsuc}
use flamenco_manager.Dashboard.TimeDiff.{
  Age, never, just_now, seconds, minutes, hours, on_date, age, round_div,
}

-- The age that a text states, in milliseconds.
abbrev pub stated : Age → ℕ
stated never = 0
stated just_now = 0
stated (seconds n) = n * 1000
stated (minutes n) = n * 60000
stated (hours n) = n * 3600000
stated on_date = 172800000

-- Half a unit of the text: how far the stated age may be off.
abbrev pub tolerance : Age → ℕ
tolerance never = 0
tolerance just_now = 999
tolerance (seconds n) = 500
tolerance (minutes n) = 30000
tolerance (hours n) = 1800000
tolerance on_date = 0

-- The numbers stay within what the next unit takes over.
abbrev pub InRange : Age → Type 0
InRange never = Unit
InRange just_now = Unit
InRange (seconds n) = (1 ≤ n) × (n ≤ 60)
InRange (minutes n) = (1 ≤ n) × (n ≤ 60)
InRange (hours n) = (1 ≤ n) × (n ≤ 48)
InRange on_date = Unit

-- For a difference from zero on and below two days, the age that the text states is at most half a unit of
-- the text away from the true difference, and less than a second away for "just now".
pub age_exact :
    (ms : ℕ)
    → ms < 172800000
    → (ms ≤ stated (age (pos ms)) + tolerance (age (pos ms)))
      × (stated (age (pos ms)) ≤ ms + tolerance (age (pos ms)))
unfolding age round_div
age_exact ms h = ground arith

-- For every difference, negative ones included, the seconds and minutes shown lie from 1 to 60 and
-- the hours from 1 to 48.
pub age-InRange : (d : ℤ) → InRange (age d)
unfolding age round_div
age-InRange (negsuc n) = tt
age-InRange (pos ms) = ground arith

-- Of two timestamps in the past, the later never states the greater age, across all the units.
pub stated-age_mono : (a b : ℕ) → a ≤ b → stated (age (pos a)) ≤ stated (age (pos b))
unfolding age round_div
stated-age_mono a b h = ground arith
