-- ===== src/Dashboard/App/Choosing.antt =====
-- What choosing workers promises, and that the handlers of the page keep the promise. The abstract view
-- forgets the order of the lists, the workers' other data and everything else that the page holds.
pub mod Refinement
use mathlib.Core.Path.{fun_ext}
use flamenco_manager.Common.{
  ℕ, String, ◌≡◌, refl, ◌≢◌, ◌∙◌, sym, inl, inr, Bool, true, false, ◌&&◌, Option, none, some, List,
  [], ◌∷◌, filter, ap, if◌then◌else◌, ◌==◌, arith, Bool-cases,
}
use flamenco_manager.Common.Http.{HttpError}
use flamenco_manager.Common.Int.{ℤ}
use flamenco_manager.Common.StringSet.{has, has_head, IsDistinct}
use flamenco_manager.Dashboard.Workers.{Worker}
use flamenco_manager.Dashboard.Workers.Split.{ids, current_test}
use flamenco_manager.Dashboard.App.{
  App, Info, load_workers, load_done, load_failed, on_worker_selected, toggle_select_all_workers,
  all_workers_selected, on_jwt_server_error, on_jwt_manager_error, on_new_token,
}
use flamenco_manager.Dashboard.App.Selection.{
  IsConsistent, has-on_worker_selected, on_worker_selected-IsConsistent,
  toggle_select_all_workers-IsConsistent, all_workers_selected_iff, has-load_done,
  load_done-IsConsistent,
}

-- Which ids are those of current workers, and which are selected.
pub record Choice : Type 0 where
  pub current : String → Bool
  pub selected : String → Bool

-- There is a current worker, and all of them are selected.
abbrev pub AllChosen : Choice → Type 0
AllChosen a =
    ((y : String) × (a.current y ≡ true))
    × ((y : String) → a.current y ≡ true → a.selected y ≡ true)

-- What is done to the choice: a worker is chosen or let go, all are toggled, other workers are reported as the
-- current ones, or it is something else.
pub data Deed : Type 0 where
  choosing : Bool → String → Deed
  toggling : Deed
  reporting : (String → Bool) → Deed
  another : Deed

-- What each deed makes of the choice: one current worker is chosen or let go, and no other; all are let go
-- if all were chosen, and else all are chosen; the reported workers become current, of which those stay
-- selected that were; or nothing changes.
pub data ChoiceStep (a b : Choice) : Deed → Type 0 where
  chose :
      (flag : Bool) (id : String)
      → a.current id ≡ true
      → b ≡ record a { selected = λ y. if id == y then flag else a.selected y }
      → ChoiceStep a b (choosing flag id)
  let_all_go : AllChosen a → b ≡ record a { selected = λ y. false } → ChoiceStep a b toggling
  chose_all : ¬ AllChosen a → b ≡ record a { selected = a.current } → ChoiceStep a b toggling
  reported :
      (current : String → Bool)
      → b ≡ record { current = current; selected = λ y. current y && a.selected y }
      → ChoiceStep a b (reporting current)
  kept : b ≡ a → ChoiceStep a b another

-- One step for each deed, the latest first.
pub data ChoiceRun (a : Choice) : List Deed → Choice → Type 0 where
  start : ChoiceRun a [] a
  then_step :
      {b c : Choice} {ds : List Deed} {d : Deed}
      → ChoiceRun a ds b
      → ChoiceStep b c d
      → ChoiceRun a (d ∷ ds) c

module _ {V : Type 0} where
  unfoldable pub view : App V → Choice
  view app = record {
    current = has (ids app.current_workers);
    selected = has app.selected_worker_ids;
  }

  module _ (parse_date : String → Option ℤ) (text_of : Option V → String) where
    -- A handler of the page runs, with what it does to the choice. Only current workers have
    -- checkboxes, and a report lists no id twice; of its workers those are current that are not idle.
    pub data Handled (s t : App V) : Deed → Type 0 where
      clicked :
          (flag : Bool) (id : String)
          → has (ids s.current_workers) id ≡ true
          → t ≡ on_worker_selected flag id s
          → Handled s t (choosing flag id)
      toggled : t ≡ toggle_select_all_workers s → Handled s t toggling
      answered :
          (now : ℤ) (info : Info V) (ws : List Worker)
          → info.workers ≡ some ws
          → IsDistinct (ids ws)
          → t ≡ load_done parse_date text_of now info s
          → Handled s t (reporting (has (ids (filter (current_test parse_date now) ws))))
      asked : t ≡ load_workers s → Handled s t another
      failed : (error : HttpError) → t ≡ (load_failed error s).0 → Handled s t another
      renewed : t ≡ on_new_token s → Handled s t another
      server_refused : (error : HttpError) → t ≡ on_jwt_server_error error s → Handled s t another
      manager_refused : (error : HttpError) → t ≡ on_jwt_manager_error error s → Handled s t another

    -- The handlers that have run, by what they do to the choice, the latest first.
    pub data Run (s : App V) : List Deed → App V → Type 0 where
      here : Run s [] s
      next :
          {t u : App V} {ds : List Deed} {d : Deed} → Run s ds t → Handled t u d → Run s (d ∷ ds) u
