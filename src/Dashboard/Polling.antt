-- ===== src/Dashboard/Polling.antt =====
-- static/dashboard.js: the polling loop as a step relation. The page, the requests for the status
-- report that have not been answered, and whether the page waits for `obtainJWTToken` to report.
pub mod Alive
use mathlib.Core.List.{Memᴰ}
use flamenco_manager.Common.{ℕ, suc, String, ◌≡◌, Bool, true, false, ◌||◌, Option, none, some, []}
use flamenco_manager.Common.Handles.{end, no_handles}
use flamenco_manager.Common.Http.{HttpError}
use flamenco_manager.Common.Int.{ℤ}
use flamenco_manager.Dashboard.App.{
  App, Info, load_workers, load_done, load_failed, on_new_token, on_jwt_server_error,
  on_jwt_manager_error, on_worker_selected, toggle_select_all_workers,
}

pub record System (V : Type 0) : Type 0 where
  pub app : App V
  pub in_flight : ℕ
  pub awaiting : Bool

module _ {V : Type 0} where
  -- `loadWorkers`: the timeout is cleared and a request goes out.
  unfoldable pub request : System V → System V
  unfolding load_workers
  request s = record s { app = load_workers s.app; in_flight = suc s.in_flight }

  -- A timeout fires and calls `loadWorkers`.
  unfoldable pub fire : ℕ → System V → System V
  unfolding request
  fire h s = request (record s { app = record (s.app) { timers = end h s.app.timers } })

  -- The page as it is created, with the selection that the local storage held.
  unfoldable pub created : App V → System V
  unfolding request
  created app = request (record { app = app; in_flight = 0; awaiting = false })

  -- A request fails; after 401 and 498 `obtainJWTToken` has been called.
  unfoldable pub fail : HttpError → ℕ → System V → System V
  unfolding load_failed
  fail error left s = record s {
    app = (load_failed error s.app).0;
    in_flight = left;
    awaiting = s.awaiting || (load_failed error s.app).1;
  }

  -- The token turns out not to be needed: `/jwt/token-urls` answers 404 and `obtainJWTToken` resolves
  -- without an event.
  unfoldable pub settle_silently : System V → System V
  settle_silently s = record s { awaiting = false }

  module _ (parse_date : String → Option ℤ) (text_of : Option V → String) where
    -- What the browser may do next.
    pub data Step (s t : System V) : Type 0 where
      fires : (h ms : ℕ) → Memᴰ (h, ms) s.app.timers.live → t ≡ fire h s → Step s t
      called : t ≡ request s → Step s t
      answered :
          (left : ℕ) (now : ℤ) (info : Info V)
          → s.in_flight ≡ suc left
          → t ≡ record s { app = load_done parse_date text_of now info s.app; in_flight = left }
          → Step s t
      failed :
          (left : ℕ) (error : HttpError) → s.in_flight ≡ suc left → t ≡ fail error left s → Step s t
      token_renewed : t ≡ record s { app = on_new_token s.app; awaiting = false } → Step s t
      server_refused :
          (error : HttpError)
          → t ≡ record s { app = on_jwt_server_error error s.app; awaiting = false }
          → Step s t
      manager_refused :
          (error : HttpError)
          → t ≡ record s { app = on_jwt_manager_error error s.app; awaiting = false }
          → Step s t
      selected :
          (is_selected : Bool) (id : String)
          → t ≡ record s { app = on_worker_selected is_selected id s.app }
          → Step s t
      toggled : t ≡ record s { app = toggle_select_all_workers s.app } → Step s t

    pub data Reach (s : System V) : System V → Type 0 where
      here : Reach s s
      next : {t u : System V} → Reach s t → Step t u → Reach s u
