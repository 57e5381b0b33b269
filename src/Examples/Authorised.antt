-- ===== src/Examples/Authorised.antt =====
-- static/jwtauth.js at a manager that responds to one token.
use flamenco_manager.Common.{
  ℕ, String, ◌≡◌, refl, ◌⊎◌, inl, true, Option, none, some, if◌then◌else◌, ◌==◌,
}
use flamenco_manager.Common.Http.{HttpError, needs_token, status_is}
use flamenco_manager.Auth.Ajax.{Answer, done, failed, resolved}
use flamenco_manager.Auth.Token.{TokenInfo, Session, set_jwt_token, Reach, loaded}
use flamenco_manager.Auth.Token.Fetch.Ending.{IsIdle}
use flamenco_manager.Auth.Authorised.{cookie, authorised_ajax}
use flamenco_manager.Auth.Authorised.Renewing.{authorised_ajax-renewed}
use flamenco_manager.Examples.Auth.{cookies, no_cookies}

abbrev expired : HttpError
expired = record { status = some 498; response_text = none }

abbrev respond : Option String → Answer ℕ
respond none = failed expired
respond (some t) = if t == "fresh" then done 7 else failed expired

abbrev server : TokenInfo → String ⊎ HttpError
server info = inl "fresh"

abbrev info : TokenInfo
info = record { token_url = "/token"; login_url = "/login" }

-- The page has a token that has expired.
abbrev stale : Session cookies
stale = set_jwt_token cookies "old" (loaded cookies no_cookies)

stale-IsIdle : IsIdle cookies stale
unfolding set_jwt_token loaded
stale-IsIdle = (refl, refl)

stale_is_refused : respond (cookie cookies stale) ≡ failed expired
unfolding set_jwt_token loaded cookie
stale_is_refused = refl

expired-needs_token : needs_token expired ≡ true
unfolding needs_token status_is
expired-needs_token = refl

authorised_ajax-renewed_example :
    (t : Session cookies) × (authorised_ajax cookies respond (inl info) server stale
      ≡ some (resolved 7, 2, t))
    × (t.cache ≡ some "fresh")
    × (cookie cookies t ≡ some "fresh")
    × IsIdle cookies t
    × Reach cookies stale t
authorised_ajax-renewed_example =
    authorised_ajax-renewed cookies respond server expired info "fresh" 7 stale stale_is_refused
      expired-needs_token refl refl stale-IsIdle
