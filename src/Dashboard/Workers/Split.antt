-- ===== src/Dashboard/Workers/Split.antt =====
-- The split of the workers into current and idle ones.
use flamenco_manager.Common.{
  none, arith, refl, String, ◌≡◌, Bool, not, Option, some, List, [], ◌∷◌, ◌++◌, map, filter,
  Bool-cases, inl, inr,
}
use mathlib.Core.List.{append-nil, append_assoc}
use flamenco_manager.Common.Int.{ℤ}
use flamenco_manager.Common.StringSet.{
  has, IsDistinct, IsSubset, has-of_array, add, add_all, of_array,
}
use flamenco_manager.Dashboard.Workers.{Worker, Buckets, is_idle, split_from, split_workers}

abbrev pub ids : List Worker → List String
ids = map λ w. w.id

filter-ids-IsSubset : (p : Worker → Bool) (ws : List Worker) → IsSubset (ids (filter p ws)) (ids ws)
unfolding has
filter-ids-IsSubset p [] y h = h
filter-ids-IsSubset p (w ∷ ws) y h = ground (arith, filter-ids-IsSubset p ws y)

filter-ids-IsDistinct :
    (p : Worker → Bool) (ws : List Worker) → IsDistinct (ids ws) → IsDistinct (ids (filter p ws))
filter-ids-IsDistinct p [] d = tt
filter-ids-IsDistinct p (w ∷ ws) d =
    ground (arith, filter-ids-IsDistinct p ws d.1, filter-ids-IsSubset p ws w.id)

module _ (parse_date : String → Option ℤ) (now : ℤ) where
  abbrev pub idle_test : Worker → Bool
  idle_test w = is_idle parse_date now w.last_activity

  abbrev pub current_test : Worker → Bool
  current_test w = not (is_idle parse_date now w.last_activity)

  split_from-filter :
      (s : Buckets) (ws : List Worker)
      → split_from parse_date now s ws ≡ record {
        idle = s.idle ++ filter idle_test ws;
        current = s.current ++ filter current_test ws;
        selectable = add_all s.selectable (ids (filter current_test ws));
      }
  unfolding split_from add_all
  split_from-filter s [] = simp append-nil
  split_from-filter s (w ∷ ws) = elim (Bool-cases (is_idle parse_date now w.last_activity)) [
    | inl e ↦
        rw e (simp (split_from-filter (record s { idle = s.idle ++ w ∷ [] }) ws, append_assoc))
    | inr e ↦ rw e (
        simp (
          split_from-filter
              (record s { current = s.current ++ w ∷ []; selectable = add s.selectable w.id }) ws,
          append_assoc,
        ))
  ]

  -- The loop over the reported workers leaves in the idle list exactly the idle workers and in the
  -- current list exactly the others, both in the order of the report, and in the set of selectable
  -- ids exactly the ids of the current ones.
  pub split_workers-filter :
      (ws : List Worker)
      → split_workers parse_date now (some ws) ≡ record {
        idle = filter idle_test ws;
        current = filter current_test ws;
        selectable = of_array (ids (filter current_test ws));
      }
  unfolding split_workers of_array
  split_workers-filter ws =
      split_from-filter (record { idle = []; current = []; selectable = [] }) ws

  -- The selectable ids are those of the current workers.
  pub has-selectable :
      (ws : Option (List Worker)) (y : String)
      → has (split_workers parse_date now ws).selectable y
        ≡ has (ids (split_workers parse_date now ws).current) y
  has-selectable none y = unfold split_workers in refl
  has-selectable (some ws) y =
      rw (split_workers-filter ws) (has-of_array (ids (filter current_test ws)) y)

  -- Different ids stay different.
  pub current-IsDistinct :
      (ws : List Worker)
      → IsDistinct (ids ws)
      → IsDistinct (ids (split_workers parse_date now (some ws)).current)
  current-IsDistinct ws d = rw (split_workers-filter ws) (filter-ids-IsDistinct current_test ws d)
