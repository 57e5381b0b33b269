-- ===== src/Auth/Ajax.antt =====
-- static/jwtauth.js, `$.jwtAjax`: the request is repeated with a new token, six times at most.
pub mod Attempts
use flamenco_manager.Common.{
  ℕ, zero, suc, ◌+◌, String, ◌≡◌, refl, Bool, true, false, Option, none, some, if◌then◌else◌, ltb,
}
use flamenco_manager.Common.Http.{HttpError, needs_token}

-- How one `$.ajax(options)` ends.
pub data Answer (R : Type 0) : Type 0 where
  done : R → Answer R
  failed : HttpError → Answer R

-- How one `obtainJWTToken()` ends: resolved (with a new token, or as the manager has security disabled),
-- rejected, or not settled as the page leaves for the login.
pub data Renewal : Type 0 where
  renewed : Renewal
  refused : HttpError → Renewal
  never : Renewal

-- `error.requestStage`.
pub data Stage : Type 0 where
  jwt request : Stage

-- The promise of `$.jwtAjax`; a rejection without a stage is the loop's own error.
pub data Result (R : Type 0) : Type 0 where
  resolved : R → Result R
  rejected : HttpError → Option Stage → Result R
  pending : Result R

-- The error of a loop that is cut.
abbrev pub loop_error : HttpError
loop_error = record { status = none; response_text = some "infinite loop detected" }

module _ {R : Type 0} (ajax : ℕ → Answer R) (renewal : ℕ → Renewal) where
  -- `performRequest` with the value of `requestCounter`, under fuel: the outcome and the number of
  -- requests made so far. The n-th request and renewal end as the functions say.
  unfoldable pub perform_request : ℕ → ℕ → Option (Result R × ℕ)
  perform_request zero counter = none
  perform_request (suc fuel) counter =
      let again = perform_request fuel (suc counter) in
      if ltb 5 counter then some (rejected loop_error none, counter) else elim (ajax counter) [
        | done response ↦ some (resolved response, suc counter)
        | failed error ↦
            if needs_token error
            then elim (renewal counter) [
              | renewed ↦ again
              | refused jwt_error ↦ some (rejected jwt_error (some jwt), suc counter)
              | never ↦ some (pending, suc counter)
            ]
            else some (rejected error (some request), suc counter)
      ]

  -- `$.jwtAjax(options)`.
  unfoldable pub jwt_ajax : Option (Result R × ℕ)
  jwt_ajax = perform_request 7 0
