-- ===== src/Examples/Choosing.antt =====
-- Choosing workers at a concrete page.
use flamenco_manager.Common.{String, refl, true, none, some, List, [], ◌∷◌, filter}
use flamenco_manager.Common.StringSet.{has}
use flamenco_manager.Dashboard.Workers.Split.{ids, current_test}
use flamenco_manager.Common.Http.{HttpError}
use flamenco_manager.Common.Int.{pos}
use flamenco_manager.Dashboard.App.{
  App, load_done, load_failed, on_worker_selected, toggle_select_all_workers,
}
use flamenco_manager.Dashboard.App.Selection.{IsConsistent}
use flamenco_manager.Dashboard.App.Choosing.{
  Deed, choosing, toggling, reporting, another, ChoiceRun, view, clicked, toggled, answered, failed,
  Run, here, next,
}
use flamenco_manager.Dashboard.App.Choosing.Refinement.{Run-ChoiceRun}
use flamenco_manager.Examples.Dashboard.{
  parse_date, text_of, report, reported, reported-IsDistinct, loaded, loaded-IsConsistent,
  w1_is_current,
}

abbrev no_answer : HttpError
no_answer = record { status = some 0; response_text = none }

-- The checkbox of "w1" is clicked, a report fails, the next one arrives, and all are toggled.
abbrev clicked_once : App String
clicked_once = on_worker_selected true "w1" loaded

abbrev after_failure : App String
after_failure = (load_failed no_answer clicked_once).0

abbrev after_report : App String
after_report = load_done parse_date text_of (pos 7) report after_failure

abbrev all_toggled : App String
all_toggled = toggle_select_all_workers after_report

-- The latest first; of the report's workers only those that are not idle become current.
abbrev deeds : List Deed
deeds =
    toggling
    ∷ reporting (has (ids (filter (current_test parse_date (pos 7)) reported)))
    ∷ another
    ∷ choosing true "w1"
    ∷ []

run : Run parse_date text_of loaded deeds all_toggled
run =
    next
      (next (next (next here (clicked true "w1" w1_is_current refl)) (failed no_answer refl))
        (answered (pos 7) report reported refl reported-IsDistinct refl))
      (toggled refl)

Run-ChoiceRun_example : ChoiceRun (view loaded) deeds (view all_toggled) × IsConsistent all_toggled
Run-ChoiceRun_example =
    Run-ChoiceRun parse_date text_of loaded all_toggled deeds loaded-IsConsistent run
