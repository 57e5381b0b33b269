-- ===== src/Dashboard/Remembered.antt =====
-- static/dashboard.js: the page with what the browser's local storage holds under `selected_worker_ids`.
-- Vue runs the watcher once a handler has assigned the selection, which is the same step here.
pub mod Reload
use flamenco_manager.Common.{String, ◌≡◌, Bool, Option}
use flamenco_manager.Common.Http.{HttpError}
use flamenco_manager.Common.Int.{ℤ}
use flamenco_manager.Dashboard.Storage.{Json, store_selected_workers, load_selected_workers}
use flamenco_manager.Dashboard.App.{
  App, Info, load_workers, load_done, load_failed, on_worker_selected, toggle_select_all_workers,
  on_jwt_server_error, on_jwt_manager_error, on_new_token,
}

pub record Tab (V : Type 0) : Type 0 where
  pub page : App V
  pub stored : Option String

module _ (json : Json) {V : Type 0} where
  -- The page is loaded, with `app` for the data that do not come from the storage.
  unfoldable pub opened : App V → Option String → Tab V
  opened app stored = record {
    page = record app { selected_worker_ids = (load_selected_workers json stored).0 };
    stored = (load_selected_workers json stored).1;
  }

  -- A handler has assigned the selection, and the watcher stores it.
  unfoldable pub watched : App V → Tab V
  watched page = record {
    page = page;
    stored = store_selected_workers json page.selected_worker_ids;
  }

  module _ (parse_date : String → Option ℤ) (text_of : Option V → String) where
    pub data Step (s t : Tab V) : Type 0 where
      clicked :
          (is_selected : Bool) (id : String)
          → t ≡ watched (on_worker_selected is_selected id s.page)
          → Step s t
      toggled : t ≡ watched (toggle_select_all_workers s.page) → Step s t
      arrives :
          (now : ℤ) (info : Info V)
          → t ≡ watched (load_done parse_date text_of now info s.page)
          → Step s t
      asked : t ≡ record s { page = load_workers s.page } → Step s t
      fails : (error : HttpError) → t ≡ record s { page = (load_failed error s.page).0 } → Step s t
      renewed : t ≡ record s { page = on_new_token s.page } → Step s t
      server_refused :
          (error : HttpError) → t ≡ record s { page = on_jwt_server_error error s.page } → Step s t
      manager_refused :
          (error : HttpError) → t ≡ record s { page = on_jwt_manager_error error s.page } → Step s t
      reloaded : (app : App V) → t ≡ opened app s.stored → Step s t

    pub data Reach (s : Tab V) : Tab V → Type 0 where
      here : Reach s s
      next : {t u : Tab V} → Reach s t → Step t u → Reach s u
