-- ===== src/Manager/Tasks/LogTail.antt =====
-- flamenco/task_updates.go, `trimLogForTaskUpdate`: the last lines of a log. A log is the list of its bytes,
-- which are those of ASCII.
use flamenco_manager.Common.{ℕ, ◌-◌, List, [], ◌∷◌, ◌++◌, length, drop, ltb, nat_eq, if◌then◌else◌}
use flamenco_manager.Common.ParseInt.{is_space}

-- `strings.TrimSpace`: `trim_left` at the start, `trim_right` at the end.
unfoldable pub trim_left : List ℕ → List ℕ
unfolding is_space
trim_left [] = []
trim_left (c ∷ cs) = let rest = trim_left cs in if is_space c then rest else c ∷ cs

-- A byte before what is left of the rest.
unfoldable pub keep : ℕ → List ℕ → List ℕ
unfolding is_space
keep c [] = if is_space c then [] else c ∷ []
keep c (d ∷ ds) = c ∷ d ∷ ds

unfoldable pub trim_right : List ℕ → List ℕ
unfolding keep
trim_right [] = []
trim_right (c ∷ cs) = keep c (trim_right cs)

unfoldable pub trim_space : List ℕ → List ℕ
unfolding trim_left trim_right
trim_space cs = trim_right (trim_left cs)

-- `strings.Split(…, "\n")`: `line` is the line that is being read.
unfoldable pub split_from : List ℕ → List ℕ → List (List ℕ)
split_from line [] = line ∷ []
split_from line (c ∷ cs) =
    let ended = split_from [] cs in
    let longer = split_from (line ++ c ∷ []) cs in if nat_eq c b'\n' then line ∷ ended else longer

unfoldable pub split_lines : List ℕ → List (List ℕ)
unfolding split_from
split_lines cs = split_from [] cs

-- `strings.Join(…, "\n")`.
unfoldable pub join_lines : List (List ℕ) → List ℕ
join_lines [] = []
join_lines (l ∷ []) = l
join_lines (l ∷ m ∷ ls) = l ++ b'\n' ∷ join_lines (m ∷ ls)

-- `taskQueueRetainLogLines`.
abbrev pub retained_lines : ℕ
retained_lines = 10

-- `lines[fromLine:]`.
unfoldable pub last_lines : List (List ℕ) → List (List ℕ)
last_lines lines =
    drop (if ltb retained_lines (length lines) then length lines - retained_lines else 0) lines

-- `trimLogForTaskUpdate`.
unfoldable pub trim_log_for_task_update : List ℕ → List ℕ
unfolding trim_space split_lines join_lines last_lines
trim_log_for_task_update [] = []
trim_log_for_task_update (c ∷ cs) =
    join_lines (last_lines (split_lines (trim_space (c ∷ cs)))) ++ b'\n' ∷ []
