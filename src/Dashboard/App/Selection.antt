-- ===== src/Dashboard/App/Selection.antt =====
-- The selection of workers: what each handler leaves selected, and when all are selected.
use flamenco_manager.Common.{
  suc, String, ◌≡◌, refl, ◌∙◌, ap, Bool, true, false, ◌&&◌, Option, some, List, [], ◌∷◌,
  if◌then◌else◌, arith, eq_iff, ◌==◌, length, ◌↔◌, ◌≢◌, inl, inr, Bool-cases,
}
use flamenco_manager.Common.Int.{ℤ}
use flamenco_manager.Common.StringSet.{
  has, of_array, IsDistinct, IsSubset, has-add, has-delete, has-of_array, has-filter,
  add-IsDistinct, delete-IsDistinct, of_array-IsDistinct, length-le_of_IsSubset, IsSubset-of_length,
  filter-IsDistinct,
}
use flamenco_manager.Dashboard.Workers.{Worker}
use flamenco_manager.Dashboard.Workers.Split.{ids, has-selectable, current-IsDistinct}
use flamenco_manager.Dashboard.App.{
  App, Info, load_done, on_worker_selected, toggle_select_all_workers, all_workers_selected,
}

-- Between two events: nothing is selected twice, only current workers are selected, and the
-- current workers have different ids.
pub record IsConsistent {V : Type 0} (app : App V) : Type 0 where
  pub distinct : IsDistinct app.selected_worker_ids
  pub selectable : IsSubset app.selected_worker_ids (ids app.current_workers)
  pub keyed : IsDistinct (ids app.current_workers)

length-ids : (ws : List Worker) → length (ids ws) ≡ length ws
length-ids [] = refl
length-ids (w ∷ ws) = ap suc (length-ids ws)

length-zero : (ws : List Worker) → length ws ≡ 0 → ws ≡ []
length-zero [] e = refl
length-zero (w ∷ ws) e = absurd (omega arith)

module _ {V : Type 0} where
  -- A click on a worker's checkbox sets that worker's selection to the given value and leaves the
  -- selection of every other worker as it was.
  pub has-on_worker_selected :
      (is_selected : Bool) (id y : String) (app : App V)
      → has (on_worker_selected is_selected id app).selected_worker_ids y
        ≡ (if id == y then is_selected else has app.selected_worker_ids y)
  unfolding on_worker_selected
  has-on_worker_selected is_selected id y app = ground (
    arith,
    has-add (of_array app.selected_worker_ids) id y,
    has-delete (of_array app.selected_worker_ids) id y,
    has-of_array app.selected_worker_ids y,
  )

  -- A click on the checkbox of a current worker keeps the data consistent: no id is selected twice,
  -- and only ids of current workers are.
  pub on_worker_selected-IsConsistent :
      (is_selected : Bool) (id : String) (app : App V)
      → IsConsistent app
      → has (ids app.current_workers) id ≡ true
      → IsConsistent (on_worker_selected is_selected id app)
  on_worker_selected-IsConsistent is_selected id app c known = record {
    distinct = distinct is_selected;
    selectable = λ y h. unfold on_worker_selected in selectable y h;
    keyed = unfold on_worker_selected in c.keyed;
  }
    where
      selectable :
          IsSubset
            (on_worker_selected is_selected id app).selected_worker_ids
            (ids app.current_workers)
      selectable y h = ground (
        arith,
        has-on_worker_selected is_selected id y app,
        eq_iff id y,
        (λ (k : has app.selected_worker_ids y ≡ true). c.selectable y k),
      )

      distinct : (b : Bool) → IsDistinct (on_worker_selected b id app).selected_worker_ids
      distinct true =
          unfold on_worker_selected in
          add-IsDistinct _ id (of_array-IsDistinct app.selected_worker_ids)
      distinct false =
          unfold on_worker_selected in
          delete-IsDistinct _ id (of_array-IsDistinct app.selected_worker_ids)

  -- Toggling the selection of all workers keeps the data consistent: no id twice, only ids of current
  -- workers, different ids.
  pub toggle_select_all_workers-IsConsistent :
      (app : App V) → IsConsistent app → IsConsistent (toggle_select_all_workers app)
  unfolding toggle_select_all_workers
  toggle_select_all_workers-IsConsistent app c = elim (Bool-cases (all_workers_selected app)) [
    | inl e ↦ record {
      distinct = rw e tt;
      selectable = rw e (λ y h. unfold has in cc);
      keyed = c.keyed;
    }
    | inr e ↦ record { distinct = rw e c.keyed; selectable = rw e (λ y h. h); keyed = c.keyed }
  ]

  -- Between two events with consistent data, the header's checkbox, which compares two lengths, is
  -- checked exactly when there is a current worker and every current worker is selected.
  pub all_workers_selected_iff :
      (app : App V)
      → IsConsistent app
      → (all_workers_selected app ≡ true)
        ↔ ((app.current_workers ≢ []) × IsSubset (ids app.current_workers) app.selected_worker_ids)
  unfolding all_workers_selected
  all_workers_selected_iff app c = (
    λ h. (
      λ e. ground (arith, ap length e),
      IsSubset-of_length app.selected_worker_ids (ids app.current_workers) c.distinct c.selectable
          (ground (arith, length-ids app.current_workers)),
    ),
    λ k. ground (
      arith,
      length-ids app.current_workers,
      length-zero app.current_workers,
      length-le_of_IsSubset (ids app.current_workers) app.selected_worker_ids c.keyed k.1,
      length-le_of_IsSubset app.selected_worker_ids (ids app.current_workers) c.distinct
          c.selectable,
    ),
  )

  module _ (parse_date : String → Option ℤ) (text_of : Option V → String) where
    -- After a status report, whatever it lists, an id is selected exactly if it was selected before and
    -- belongs to a worker that is now current.
    pub has-load_done :
        (now : ℤ) (info : Info V) (app : App V) (y : String)
        → has (load_done parse_date text_of now info app).selected_worker_ids y ≡ (
            has (ids (load_done parse_date text_of now info app).current_workers) y
            && has app.selected_worker_ids y)
    unfolding load_done
    has-load_done now info app y =
        has-filter _ app.selected_worker_ids y
        ∙ ap (λ b. b && has app.selected_worker_ids y)
            (has-selectable parse_date now info.workers y)

    -- A status report whose workers have different ids makes the data consistent, if no id was
    -- selected twice before: every selected id then belongs to a current worker.
    pub load_done-IsConsistent :
        (now : ℤ) (info : Info V) (app : App V) (ws : List Worker)
        → info.workers ≡ some ws
        → IsDistinct (ids ws)
        → IsDistinct app.selected_worker_ids
        → IsConsistent (load_done parse_date text_of now info app)
    unfolding load_done
    load_done-IsConsistent now info app ws e keyed d = record {
      distinct = filter-IsDistinct _ app.selected_worker_ids d;
      selectable = λ y h. ground (arith, has-load_done now info app y);
      keyed = rw e (current-IsDistinct parse_date now ws keyed);
    }
