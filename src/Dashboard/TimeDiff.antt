-- ===== src/Dashboard/TimeDiff.antt =====
-- static/dashboard.js, `time_diff`: how long ago a timestamp is. A time is a whole number of
-- milliseconds since 1970, and `none` is the invalid date, whose every comparison is false.
pub mod Rounding
use flamenco_manager.Common.{
  ℕ, ◌+◌, ◌*◌, ◌/◌, String, ◌≡◌, refl, Option, none, some, [], ◌∷◌, if◌then◌else◌, ltb,
}
use flamenco_manager.Common.Decimal.{decimal, join}
use flamenco_manager.Common.Int.{ℤ, pos, negsuc, ◌-ℤ◌}

-- `Math.round(ms / unit)` for whole numbers and an even unit: a half goes up.
unfoldable pub round_div : ℕ → ℕ → ℕ
round_div ms unit = (ms + unit / 2) / unit

-- The text forms of `time_diff`.
pub data Age : Type 0 where
  never just_now : Age
  seconds minutes hours : ℕ → Age
  on_date : Age

-- The ladder of tests on the difference in milliseconds. A negative difference is below a second.
unfoldable pub age : ℤ → Age
unfolding round_div
age (negsuc n) = just_now
age (pos ms) =
    if ltb ms 1000
    then just_now
    else if ltb ms 60000
    then seconds (round_div ms 1000)
    else if ltb ms 3600000
    then minutes (round_div ms 60000)
    else if ltb ms (2 * 24 * 3600000)
    then hours (round_div ms 3600000)
    else on_date

-- `new Date(…)` of a text, and `toLocaleString` of a date with the options that `time_diff` gives.
module _ (parse_date : String → Option ℤ) (locale_date : Option ℤ → String) where
  unfoldable pub age_text : Option ℤ → Age → String
  unfolding decimal join
  age_text as_date never = "-nevah-"
  age_text as_date just_now = "just now"
  age_text as_date (seconds n) = join (decimal n ∷ " sec ago" ∷ [])
  age_text as_date (minutes n) = join (decimal n ∷ " min ago" ∷ [])
  age_text as_date (hours n) = join (decimal n ∷ " hours ago" ∷ [])
  age_text as_date on_date = locale_date as_date

  unfoldable pub since : ℤ → Option ℤ → String
  unfolding age age_text
  since now none = age_text none on_date
  since now (some t) = age_text (some t) (age (now -ℤ t))

  -- `time_diff(timestamp)` at the time `now`; `none` is an undefined timestamp.
  unfoldable pub time_diff : ℤ → Option String → String
  unfolding since age_text
  time_diff now none = age_text none never
  time_diff now (some timestamp) = since now (parse_date timestamp)
