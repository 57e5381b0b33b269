-- ===== src/Manager/Sleep.antt =====
-- flamenco/sleep_scheduler.go: the status that a worker's sleep schedule asks for, and when the schedule
-- is looked at again. A text of days is the list of its bytes,
-- which are those of ASCII.
pub mod NextCheck
pub mod Days
pub mod Missed
use flamenco_manager.Common.{
  ℕ, ◌+◌, ◌/◌, ◌%◌, String, Bool, true, false, not, ◌&&◌, ◌||◌, Option, none, some, List, [], ◌∷◌,
  ◌++◌, leb, ltb, nat_eq, if◌then◌else◌, ◌==◌,
}
use mathlib.Core.Option
use flamenco_manager.Common.ParseInt.{is_space}
use flamenco_manager.Manager.TimeOfDay.{TimeOfDay, make_time_of_day, is_before, on_date, per_day}

-- `ScheduleInfo`; a nil pointer is `none`.
pub record Schedule : Type 0 where
  pub schedule_active : Bool
  pub days_of_week : List ℕ
  pub time_start : Option TimeOfDay
  pub time_end : Option TimeOfDay
  pub next_check : Option ℕ

-- `forTime.Weekday().String()[:2]` in lower case; the first day is a Sunday.
unfoldable pub day_name : ℕ → List ℕ
day_name n =
    if nat_eq n 0
    then b's' ∷ b'u' ∷ []
    else if nat_eq n 1
    then b'm' ∷ b'o' ∷ []
    else if nat_eq n 2
    then b't' ∷ b'u' ∷ []
    else if nat_eq n 3
    then b'w' ∷ b'e' ∷ []
    else if nat_eq n 4
    then b't' ∷ b'h' ∷ []
    else if nat_eq n 5
    then b'f' ∷ b'r' ∷ []
    else b's' ∷ b'a' ∷ []

unfoldable pub weekday_name : ℕ → List ℕ
unfolding day_name
weekday_name for_time = day_name (for_time / per_day % 7)

-- `strings.Contains`.
unfoldable pub has_prefix : List ℕ → List ℕ → Bool
has_prefix s [] = true
has_prefix [] (c ∷ t) = false
has_prefix (d ∷ s) (c ∷ t) = nat_eq d c && has_prefix s t

unfoldable pub contains : List ℕ → List ℕ → Bool
unfolding has_prefix
contains [] t = has_prefix [] t
contains (c ∷ s) t = has_prefix (c ∷ s) t || contains s t

unfoldable pub is_empty : List ℕ → Bool
is_empty [] = true
is_empty (c ∷ s) = false

-- `strings.Fields`: the words between white space; `word` is the one that is being read.
unfoldable pub add_word : List ℕ → List (List ℕ) → List (List ℕ)
add_word [] words = words
add_word (c ∷ cs) words = (c ∷ cs) ∷ words

unfoldable pub fields_from : List ℕ → List ℕ → List (List ℕ)
unfolding add_word is_space
fields_from word [] = add_word word []
fields_from word (c ∷ cs) =
    let ended = add_word word (fields_from [] cs) in
    let longer = fields_from (word ++ c ∷ []) cs in if is_space c then ended else longer

unfoldable pub fields : List ℕ → List (List ℕ)
unfolding fields_from
fields cs = fields_from [] cs

-- `strings.ToLower` of a byte.
unfoldable pub to_lower : ℕ → ℕ
to_lower c = if leb b'A' c && leb c b'Z' then c + 32 else c

-- `strings.ToLower(…)[:2]`; `none` is the panic at a word of one byte.
unfoldable pub day_of_field : List ℕ → Option (List ℕ)
unfolding to_lower
day_of_field [] = none
day_of_field (a ∷ []) = none
day_of_field (a ∷ b ∷ cs) = some (to_lower a ∷ to_lower b ∷ [])

unfoldable pub days_of_fields : List (List ℕ) → Option (List (List ℕ))
unfolding day_of_field
days_of_fields [] = some []
days_of_fields (f ∷ fs) = elim (day_of_field f) [
  | none ↦ none
  | some d ↦ Option.map (λ ds. d ∷ ds) (days_of_fields fs)
]

-- `strings.Join(daynames, " ")`.
unfoldable pub join_days : List (List ℕ) → List ℕ
join_days [] = []
join_days (d ∷ []) = d
join_days (d ∷ e ∷ ds) = d ++ b' ' ∷ join_days (e ∷ ds)

-- `cleanupDaysOfWeek`. The trimming at its start removes nothing that `Fields` keeps.
unfoldable pub cleanup_days_of_week : List ℕ → Option (List ℕ)
unfolding days_of_fields join_days fields
cleanup_days_of_week days = Option.map join_days (days_of_fields (fields days))

-- The inner function of `scheduledWorkerStatus`; a limit that is not set does not exclude.
unfoldable pub before_start : Schedule → TimeOfDay → Bool
before_start sched tod = elim sched.time_start [ none ↦ false | some s ↦ is_before tod s ]

unfoldable pub after_end : Schedule → TimeOfDay → Bool
after_end sched tod = elim sched.time_end [ none ↦ false | some e ↦ not (is_before tod e) ]

unfoldable pub is_sleep_day : Schedule → ℕ → Bool
unfolding is_empty contains weekday_name
is_sleep_day sched for_time =
    is_empty sched.days_of_week || contains sched.days_of_week (weekday_name for_time)

unfoldable pub time_based_status : Schedule → ℕ → String
unfolding before_start after_end is_sleep_day
time_based_status sched for_time =
    let tod = make_time_of_day for_time in
    if not (is_sleep_day sched for_time)
    then ""
    else if before_start sched tod || after_end sched tod
    then "awake"
    else "asleep"

-- `scheduledWorkerStatus` of a worker in `status`.
unfoldable pub scheduled_worker_status : Schedule → String → ℕ → String
unfolding time_based_status
scheduled_worker_status sched status for_time =
    if not sched.schedule_active
    then ""
    else if time_based_status sched for_time == status
    then ""
    else time_based_status sched for_time

-- `calcNext`.
unfoldable pub calc_next : ℕ → TimeOfDay → ℕ
unfolding on_date
calc_next for_time tod =
    if ltb (on_date tod for_time) for_time
    then on_date tod for_time + per_day
    else on_date tod for_time

-- `TimeOfDay{24, 0}`.
abbrev pub midnight : TimeOfDay
midnight = record { hour = 24; minute = 0 }

-- `earliestTime`.
unfoldable pub earliest_time : ℕ → List ℕ → ℕ
earliest_time earliest [] = earliest
earliest_time earliest (t ∷ ts) = earliest_time (if ltb t earliest then t else earliest) ts

-- `calculateNextCheck`.
unfoldable pub calculate_next_check : Schedule → ℕ → ℕ
unfolding calc_next earliest_time
calculate_next_check si for_time = elim si.time_start [
  | none ↦ elim si.time_end [ none ↦ calc_next for_time midnight | some e ↦ calc_next for_time e ]
  | some s ↦ elim si.time_end [
    | none ↦ calc_next for_time midnight
    | some e ↦
        earliest_time (calc_next for_time s)
          (calc_next for_time e ∷ calc_next for_time midnight ∷ [])
  ]
]
