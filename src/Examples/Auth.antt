-- ===== src/Examples/Auth.antt =====
-- static/jwtauth.js at concrete inputs.
use flamenco_manager.Common.{
  ℕ, zero, suc, ◌≤◌, ◌<◌, String, ◌≡◌, refl, inl, inr, Option, none, some, [], if◌then◌else◌, ◌==◌,
  arith,
}
use flamenco_manager.Common.Http.{HttpError, needs_token, status_is}
use text.Mathlib.TextPositions.{eq_refl}
use flamenco_manager.Auth.Cookies.{Cookies}
use flamenco_manager.Auth.Token.{
  TokenInfo, rejected, pending, Promise, Step, Session, obtain_jwt_token, token_urls_failed,
  answered, obtains, urls_fail, Reach, here, next, loaded,
}
use flamenco_manager.Auth.Token.Laws.{IsSingle, Reach-loaded-IsSingle}
use flamenco_manager.Auth.Token.Fetch.{fetch}
use flamenco_manager.Auth.Token.Fetch.Ending.{IsIdle, EndsAs, fetch-EndsAs}
use flamenco_manager.Auth.Ajax.{
  Answer, done, failed, Renewal, renewed, Result, resolved, loop_error, jwt_ajax,
}
use flamenco_manager.Auth.Ajax.Attempts.{IsRenewed, jwt_ajax-Ends, jwt_ajax-loop, jwt_ajax_total}

-- A jar as a function of the cookie's name.
abbrev jar_set : (String → Option String) → String → Option String → String → Option String
jar_set j k v k' = if k == k' then v else j k'

pub jar_set-same :
    (j : String → Option String) (k : String) (v : Option String) → jar_set j k v k ≡ v
jar_set-same j k v = rw (eq_refl k) refl

abbrev pub cookies : Cookies
cookies = record {
  Jar = String → Option String;
  get = λ j k. j k;
  set = λ j k v o. jar_set j k (some v);
  remove = λ j k o. jar_set j k none;
  get-set = λ j k v o. jar_set-same j k (some v);
  get-remove = λ j k o. jar_set-same j k none;
}

abbrev pub no_cookies : String → Option String
no_cookies k = none

abbrev unreachable : HttpError
unreachable = record { status = some 0; response_text = none }

abbrev start : Session cookies
start = loaded cookies no_cookies

abbrev asked : Session cookies
asked = obtain_jwt_token cookies start

abbrev after_failure : Session cookies
after_failure = token_urls_failed cookies unreachable (answered cookies [] asked)

run_failure : Reach cookies start after_failure
unfolding loaded obtain_jwt_token
run_failure = next (next here (obtains refl)) (urls_fail [] [] unreachable refl refl)

Reach-loaded-IsSingle_example : IsSingle cookies after_failure
Reach-loaded-IsSingle_example = Reach-loaded-IsSingle cookies no_cookies after_failure run_failure

failure_is_rejected : after_failure.promise ≡ rejected unreachable
unfolding token_urls_failed answered status_is
failure_is_rejected = refl

abbrev expired : HttpError
expired = record { status = some 498; response_text = none }

-- The first request finds the token expired, the second is answered.
abbrev ajax_once : ℕ → Answer String
ajax_once zero = failed expired
ajax_once (suc n) = done "ok"

abbrev ajax_never : ℕ → Answer String
ajax_never n = failed expired

abbrev all_renewed : ℕ → Renewal
all_renewed n = renewed

once-IsRenewed : (i : ℕ) → i < 1 → IsRenewed ajax_once all_renewed i
unfolding needs_token status_is
once-IsRenewed zero h = (expired, refl, refl, refl)
once-IsRenewed (suc i) h = absurd (omega arith)

jwt_ajax-Ends_example : jwt_ajax ajax_once all_renewed ≡ some (resolved "ok", 2)
jwt_ajax-Ends_example =
    jwt_ajax-Ends ajax_once all_renewed 1 (resolved "ok") (omega arith) once-IsRenewed refl

never-IsRenewed : (i : ℕ) → i < 6 → IsRenewed ajax_never all_renewed i
unfolding needs_token status_is
never-IsRenewed i h = (expired, refl, refl, refl)

jwt_ajax-loop_example : jwt_ajax ajax_never all_renewed ≡ some (Result.rejected loop_error none, 6)
jwt_ajax-loop_example = jwt_ajax-loop ajax_never all_renewed never-IsRenewed

jwt_ajax_total_example :
    (x : Result String × ℕ) × (jwt_ajax ajax_never all_renewed ≡ some x) × (x.1 ≤ 6)
jwt_ajax_total_example = jwt_ajax_total ajax_never all_renewed

-- The manager has security disabled.
abbrev no_security : HttpError
no_security = record { status = some 404; response_text = none }

abbrev settled_without_token : Session cookies
settled_without_token = token_urls_failed cookies no_security (answered cookies [] asked)

settles_step : Step cookies asked settled_without_token
unfolding loaded obtain_jwt_token
settles_step = urls_fail [] [] no_security refl refl

asked_is_pending : asked.promise ≡ pending
unfolding loaded obtain_jwt_token
asked_is_pending = refl

settled_is_resolved : settled_without_token.promise ≡ Promise.resolved
unfolding token_urls_failed answered status_is
settled_is_resolved = refl

start-IsIdle : IsIdle cookies start
unfolding loaded
start-IsIdle = (refl, refl)

-- The manager tells where the token is, and the server sends the page to the login.
abbrev token_info : TokenInfo
token_info = record { token_url = "/token"; login_url = "/login" }

abbrev forbidden : HttpError
forbidden = record { status = some 403; response_text = none }

fetch-EndsAs_example :
    let f = fetch cookies (inl token_info) (λ i. inr forbidden) start in
    Reach cookies start f.1 × EndsAs cookies (inl token_info) (λ i. inr forbidden) start f.0 f.1
fetch-EndsAs_example = fetch-EndsAs cookies (inl token_info) (λ i. inr forbidden) start start-IsIdle
