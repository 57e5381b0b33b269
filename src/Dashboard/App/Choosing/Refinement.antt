-- ===== src/Dashboard/App/Choosing/Refinement.antt =====
-- The page's handlers implement the choice.
use mathlib.Core.Path.{fun_ext}
use flamenco_manager.Common.{
  String, ◌≡◌, refl, ◌≢◌, ◌∙◌, inl, inr, Bool, true, false, ◌&&◌, Option, none, List, [], ◌∷◌,
  if◌then◌else◌, ◌==◌, Bool-cases, some, ap, subst, filter,
}
use flamenco_manager.Common.Http.{HttpError, needs_token}
use flamenco_manager.Common.Int.{ℤ}
use flamenco_manager.Common.StringSet.{has, has_head}
use flamenco_manager.Dashboard.Workers.{Worker}
use flamenco_manager.Dashboard.Workers.Split.{ids, current_test, split_workers-filter}
use flamenco_manager.Dashboard.App.{
  App, Info, load_workers, load_done, load_failed, on_worker_selected, toggle_select_all_workers,
  all_workers_selected, on_jwt_server_error, on_jwt_manager_error, on_new_token,
}
use flamenco_manager.Dashboard.App.Selection.{
  IsConsistent, has-on_worker_selected, on_worker_selected-IsConsistent,
  toggle_select_all_workers-IsConsistent, all_workers_selected_iff, has-load_done,
  load_done-IsConsistent,
}
use flamenco_manager.Dashboard.App.Choosing.{
  Deed, toggling, AllChosen, ChoiceStep, chose, let_all_go, chose_all, reported, kept, ChoiceRun,
  start, then_step, view, Handled, clicked, toggled, answered, asked, failed, renewed,
  server_refused, manager_refused, Run, here, next,
}

some_current : (ws : List Worker) → ws ≢ [] → (y : String) × (has (ids ws) y ≡ true)
some_current [] n = absurd (n refl)
some_current (w ∷ ws) n = (w.id, has_head w.id (ids ws))

none_current : (ws : List Worker) (y : String) → has (ids ws) y ≡ true → ws ≢ []
unfolding has
none_current [] y h e = cc
none_current (w ∷ ws) y h e = cc

abbrev no_error : HttpError
no_error = record { status = none; response_text = none }

module _ {V : Type 0} where
  -- The workers and the selection are left alone.
  abbrev Leaves : App V → App V → Type 0
  Leaves s t =
      (t.current_workers ≡ s.current_workers) × (t.selected_worker_ids ≡ s.selected_worker_ids)

  Leaves-view : (s t : App V) → Leaves s t → view t ≡ view s
  unfolding view
  Leaves-view s t h = λ i. record { current = has (ids (h.0 i)); selected = has (h.1 i) }

  Leaves-IsConsistent : (s t : App V) → Leaves s t → IsConsistent s → IsConsistent t
  Leaves-IsConsistent s t h c = record {
    distinct = rw h.1 c.distinct;
    selectable = rw (h.0, h.1) c.selectable;
    keyed = rw h.0 c.keyed;
  }

  load_failed-Leaves : (error : HttpError) (s : App V) → Leaves s (load_failed error s).0
  unfolding load_failed
  load_failed-Leaves error s = elim (Bool-cases (needs_token error)) [
    | inl e ↦ (rw e, rw e)
    | inr e ↦ (rw e, rw e)
  ]

  -- The handlers that leave them alone.
  quiet_handlers :
      (error : HttpError) (s : App V)
      → Leaves s (load_workers s)
        × Leaves s (on_new_token s)
        × Leaves s (on_jwt_server_error error s)
        × Leaves s (on_jwt_manager_error error s)
  unfolding load_workers on_new_token on_jwt_server_error on_jwt_manager_error
  quiet_handlers error s = ((refl, refl), (refl, refl), (refl, refl), (refl, refl))

  AllChosen-view :
      (app : App V) → IsConsistent app → all_workers_selected app ≡ true → AllChosen (view app)
  unfolding view
  AllChosen-view app c h =
      let (n, sub) = (all_workers_selected_iff app c).0 h in
      (some_current app.current_workers n, sub)

  not-AllChosen-view :
      (app : App V) → IsConsistent app → all_workers_selected app ≡ false → ¬ AllChosen (view app)
  unfolding view
  not-AllChosen-view app c h ((y, m), sub) =
      let k = (all_workers_selected_iff app c).1 (none_current app.current_workers y m, sub) in cc

  toggle_select_all_workers-ids :
      (app : App V)
      → (toggle_select_all_workers app).selected_worker_ids
        ≡ (if all_workers_selected app then [] else ids app.current_workers)
  unfolding toggle_select_all_workers
  toggle_select_all_workers-ids app = refl

  toggle_select_all_workers-view :
      (app : App V)
      → view (toggle_select_all_workers app) ≡ record (view app) {
        selected = has (if all_workers_selected app then [] else ids app.current_workers);
      }
  unfolding view toggle_select_all_workers
  toggle_select_all_workers-view app = refl

  toggled-ChoiceStep :
      (app : App V)
      → IsConsistent app
      → ChoiceStep (view app) (view (toggle_select_all_workers app)) toggling
  toggled-ChoiceStep app c = elim (Bool-cases (all_workers_selected app)) [
    | inl e ↦
        let_all_go (AllChosen-view app c e)
          (toggle_select_all_workers-view app ∙ rw e (unfold view has in refl))
    | inr e ↦
        chose_all (not-AllChosen-view app c e)
          (toggle_select_all_workers-view app ∙ rw e (unfold view in refl))
  ]

  on_worker_selected-current :
      (flag : Bool) (id : String) (app : App V)
      → (on_worker_selected flag id app).current_workers ≡ app.current_workers
  unfolding on_worker_selected
  on_worker_selected-current flag id app = refl

  clicked-view :
      (flag : Bool) (id : String) (app : App V)
      → view (on_worker_selected flag id app)
        ≡ record (view app) { selected = λ y. if id == y then flag else (view app).selected y }
  unfolding view
  clicked-view flag id app = λ i. record {
    current = has (ids (on_worker_selected-current flag id app i));
    selected = fun_ext (λ y. has-on_worker_selected flag id y app) i;
  }

  module _ (parse_date : String → Option ℤ) (text_of : Option V → String) where
    reported-view :
        (now : ℤ) (info : Info V) (app : App V)
        → let after = load_done parse_date text_of now info app in
          view after ≡ record {
            current = has (ids after.current_workers);
            selected = λ y. has (ids after.current_workers) y && (view app).selected y;
          }
    unfolding view
    reported-view now info app = λ i. record {
      current = has (ids (load_done parse_date text_of now info app).current_workers);
      selected = fun_ext (λ y. has-load_done parse_date text_of now info app y) i;
    }

    -- The workers that a report makes the current ones.
    load_done-current :
        (now : ℤ) (info : Info V) (app : App V) (ws : List Worker)
        → info.workers ≡ some ws
        → (load_done parse_date text_of now info app).current_workers
          ≡ filter (current_test parse_date now) ws
    unfolding load_done
    load_done-current now info app ws w =
        rw w (ap (λ b. b.current) (split_workers-filter parse_date now ws))

    answered-view :
        (now : ℤ) (info : Info V) (app : App V) (ws : List Worker)
        → info.workers ≡ some ws
        → let current : String → Bool = has (ids (filter (current_test parse_date now) ws)) in
          view (load_done parse_date text_of now info app)
          ≡ record { current = current; selected = λ y. current y && (view app).selected y }
    answered-view now info app ws w =
        subst
          (λ cs. view (load_done parse_date text_of now info app) ≡ record {
            current = has (ids cs);
            selected = λ y. has (ids cs) y && (view app).selected y;
          })
          (load_done-current now info app ws w) (reported-view now info app)

    Handled-IsConsistent :
        {s t : App V} {d : Deed}
        → Handled parse_date text_of s t d
        → IsConsistent s
        → IsConsistent t
    Handled-IsConsistent {s} (clicked flag id known e) c =
        rw e (on_worker_selected-IsConsistent flag id s c known)
    Handled-IsConsistent {s} (toggled e) c = rw e (toggle_select_all_workers-IsConsistent s c)
    Handled-IsConsistent {s} (answered now info ws w d e) c =
        rw e (load_done-IsConsistent parse_date text_of now info s ws w d c.distinct)
    Handled-IsConsistent {s} (asked e) c =
        rw e (Leaves-IsConsistent s _ (quiet_handlers no_error s).0 c)
    Handled-IsConsistent {s} (failed error e) c =
        rw e (Leaves-IsConsistent s _ (load_failed-Leaves error s) c)
    Handled-IsConsistent {s} (renewed e) c =
        rw e (Leaves-IsConsistent s _ (quiet_handlers no_error s).1 c)
    Handled-IsConsistent {s} (server_refused error e) c =
        rw e (Leaves-IsConsistent s _ (quiet_handlers error s).2 c)
    Handled-IsConsistent {s} (manager_refused error e) c =
        rw e (Leaves-IsConsistent s _ (quiet_handlers error s).3 c)

    Handled-ChoiceStep :
        {s t : App V} {d : Deed}
        → Handled parse_date text_of s t d
        → IsConsistent s
        → ChoiceStep (view s) (view t) d
    Handled-ChoiceStep {s} (clicked flag id known e) c =
        rw e (chose flag id (unfold view in known) (clicked-view flag id s))
    Handled-ChoiceStep {s} (toggled e) c = rw e (toggled-ChoiceStep s c)
    Handled-ChoiceStep {s} {t} (answered now info ws w d e) c =
        rw e (reported _ (answered-view now info s ws w))
    Handled-ChoiceStep {s} (asked e) c = rw e (kept (Leaves-view s _ (quiet_handlers no_error s).0))
    Handled-ChoiceStep {s} (failed error e) c =
        rw e (kept (Leaves-view s _ (load_failed-Leaves error s)))
    Handled-ChoiceStep {s} (renewed e) c =
        rw e (kept (Leaves-view s _ (quiet_handlers no_error s).1))
    Handled-ChoiceStep {s} (server_refused error e) c =
        rw e (kept (Leaves-view s _ (quiet_handlers error s).2))
    Handled-ChoiceStep {s} (manager_refused error e) c =
        rw e (kept (Leaves-view s _ (quiet_handlers error s).3))

    -- From consistent data on, whatever handlers of the page run, in any order (reports, failures, token
    -- events, clicks on the checkboxes of current workers and on the header's), the page is an
    -- implementation of the choice: the choice of the ids that are current and selected takes one step for
    -- each handler that has run, in their order, and it is the step for this handler: the choice of the
    -- clicked worker, the toggling of all, the report of the workers that are not idle, or no change; and
    -- the data stay consistent.
    pub Run-ChoiceRun :
        (s t : App V) (ds : List Deed)
        → IsConsistent s
        → Run parse_date text_of s ds t
        → ChoiceRun (view s) ds (view t) × IsConsistent t
    Run-ChoiceRun s t _ c here = (start, c)
    Run-ChoiceRun s t _ c (next r h) =
        let (run, d) = Run-ChoiceRun s _ _ c r in
        (then_step run (Handled-ChoiceStep h d), Handled-IsConsistent h d)
