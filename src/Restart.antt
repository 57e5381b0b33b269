-- ===== src/Restart.antt =====
-- static/restart.js: the request that restarts the manager.
pub mod Outcomes
use flamenco_manager.Common.{String, List, [], ◌∷◌, if◌then◌else◌}
use flamenco_manager.Common.Decimal.{join}
use flamenco_manager.Common.Http.{HttpError, status_is, status_text, shown}
use flamenco_manager.Auth.Ajax.{Result, resolved, rejected, pending}

-- What the script asks of toastr, and the page's next location once the last notification is hidden.
pub data Effect : Type 0 where
  remove_toasts : Effect
  toast_info : String → Effect
  toast_success toast_error : (message title : String) → Effect
  post : (url : String) → Effect
  go_when_hidden : (url : String) → Effect

-- `restartOK`.
unfoldable pub restart_ok : List Effect
restart_ok =
    go_when_hidden "/setup"
    ∷ remove_toasts
    ∷ toast_success "Flamenco Server is restarting" "Restarting"
    ∷ []

-- `restart(restartURL)`, up to the request by `$.jwtAjax`.
unfoldable pub restart : String → List Effect
restart restart_url = remove_toasts ∷ toast_info "Requesting restart" ∷ post restart_url ∷ []

-- The `.catch`: without an answer the manager is likely to be restarting already.
unfoldable pub restart_failed : HttpError → List Effect
unfolding status_is status_text shown join restart_ok
restart_failed error =
    if status_is 0 error.status
    then restart_ok
    else toast_error (shown error.response_text)
        (join ("Error " ∷ status_text error.status ∷ " requesting a restart" ∷ []))
      ∷ []

-- What follows when the promise of `$.jwtAjax` is settled.
unfoldable pub restart_ended : {R : Type 0} → Result R → List Effect
unfolding restart_failed
restart_ended (resolved response) = restart_ok
restart_ended (rejected error stage) = restart_failed error
restart_ended pending = []
