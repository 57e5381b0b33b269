-- ===== src/Auth/Authorised.antt =====
-- static/jwtauth.js: `$.jwtAjax` together with `obtainJWTToken`. The manager reads the token from the
-- cookie that each request brings.
pub mod Renewing
use flamenco_manager.Common.{ℕ, zero, suc, String, ◌⊎◌, Option, none, some, if◌then◌else◌, ltb}
use flamenco_manager.Common.Http.{HttpError, needs_token}
use flamenco_manager.Auth.Cookies.{Cookies}
use flamenco_manager.Auth.Ajax.{
  Answer, done, failed, Renewal, renewed, refused, never, jwt, request, Result, resolved, rejected,
  pending, loop_error,
}
use flamenco_manager.Auth.Token.{TokenInfo, Session, jwt_token_cookie_name}
use flamenco_manager.Auth.Token.Fetch.{fetch}

-- What the promise of `$.jwtAjax` becomes, the number of requests, and the session after them.
abbrev pub Outcome : Cookies → Type 0 → Type 0
Outcome c R = Result R × ℕ × Session c

module _ (c : Cookies) where
  unfoldable pub cookie : Session c → Option String
  cookie s = c.get s.jar jwt_token_cookie_name

  -- The session after each renewal.
  unfoldable pub sessions :
      TokenInfo ⊎ HttpError → (TokenInfo → String ⊎ HttpError) → Session c → ℕ → Session c
  sessions manager server s zero = s
  sessions manager server s (suc n) = (fetch c manager server (sessions manager server s n)).1

module _ (c : Cookies) {R : Type 0} where
  -- The promise of `obtainJWTToken` has ended; `again` is `performRequest`.
  unfoldable pub after_renewal :
      ℕ → Renewal → Session c → Option (Outcome c R) → Option (Outcome c R)
  after_renewal counter renewed after again = again
  after_renewal counter (refused error) after again =
      some (rejected error (some jwt), suc counter, after)
  after_renewal counter never after again = some (pending, suc counter, after)

  -- The request is answered; `after` is the session after a renewal.
  unfoldable pub after_answer :
      ℕ → Answer R → Renewal → Session c → Session c → Option (Outcome c R) → Option (Outcome c R)
  unfolding after_renewal
  after_answer counter (done response) ended s after again =
      some (resolved response, suc counter, s)
  after_answer counter (failed error) ended s after again =
      if needs_token error
      then after_renewal counter ended after again
      else some (rejected error (some request), suc counter, s)

  module _ (respond : Option String → Answer R) (manager : TokenInfo ⊎ HttpError)
      (server : TokenInfo → String ⊎ HttpError) where
    -- `performRequest`, under fuel.
    unfoldable pub perform : ℕ → ℕ → Session c → Option (Outcome c R)
    unfolding after_answer cookie
    perform zero counter s = none
    perform (suc fuel) counter s =
        let f = fetch c manager server s in
        let again = perform fuel (suc counter) f.1 in
        if ltb 5 counter
        then some (rejected loop_error none, counter, s)
        else after_answer counter (respond (cookie c s)) f.0 s f.1 again

    -- `$.jwtAjax(options)`.
    unfoldable pub authorised_ajax : Session c → Option (Outcome c R)
    unfolding perform
    authorised_ajax s = perform 7 0 s
