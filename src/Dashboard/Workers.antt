-- ===== src/Dashboard/Workers.antt =====
-- static/dashboard.js: the answer of `/as-json` and how `loadWorkers` takes it over.
pub mod Split
use flamenco_manager.Common.{
  ℕ, ◌*◌, String, ◌≡◌, refl, Bool, true, false, ◌&&◌, Option, none, some, List, [], ◌∷◌, ◌++◌, map,
  if◌then◌else◌, ltb, ◌==◌, filter,
}
use flamenco_manager.Common.Decimal.{join}
use flamenco_manager.Common.Int.{ℤ, pos, negsuc, ◌-ℤ◌}
use flamenco_manager.Common.StringSet.{has, add}

-- What the page reads of a worker; an undefined field is `none`.
pub record Worker : Type 0 where
  pub id : String
  pub nickname : String
  pub last_activity : Option String
  pub status : Option String
  pub status_requested : Option String
  pub current_task : String
  pub current_job : String
  pub software : Option String

-- `timediff > too_long`, fourteen days in milliseconds. NaN is not greater.
unfoldable pub is_too_long : Option ℤ → Bool
is_too_long none = false
is_too_long (some (negsuc n)) = false
is_too_long (some (pos ms)) = ltb (14 * 24 * 3600000) ms

-- The three collections that the loop fills.
pub record Buckets : Type 0 where
  pub idle : List Worker
  pub current : List Worker
  pub selectable : List String

module _ (parse_date : String → Option ℤ) (now : ℤ) where
  difference : Option ℤ → Option ℤ
  difference none = none
  difference (some t) = some (now -ℤ t)

  -- Whether the worker goes to `idle_workers`.
  unfoldable pub is_idle : Option String → Bool
  unfolding is_too_long difference
  is_idle none = true
  is_idle (some last_activity) = is_too_long (difference (parse_date last_activity))

  -- The loop over `info.workers`.
  unfoldable pub split_from : Buckets → List Worker → Buckets
  split_from s [] = s
  split_from s (w ∷ ws) =
      split_from
        (if is_idle w.last_activity
          then record s { idle = s.idle ++ w ∷ [] }
          else record s { current = s.current ++ w ∷ []; selectable = add s.selectable w.id })
        ws

  -- A missing or null list leaves the collections empty.
  unfoldable pub split_workers : Option (List Worker) → Buckets
  unfolding split_from
  split_workers none = record { idle = []; current = []; selectable = [] }
  split_workers (some ws) = split_from (record { idle = []; current = []; selectable = [] }) ws
