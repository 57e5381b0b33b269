-- ===== src/Auth/Token/Fetch.antt =====
-- static/jwtauth.js: `obtainJWTToken` from its call to the end, at given answers of the manager and of the
-- server.
pub mod Ending
use flamenco_manager.Common.{String, ◌⊎◌, inl, inr, []}
use flamenco_manager.Common.Http.{HttpError}
use flamenco_manager.Auth.Cookies.{Cookies}
use flamenco_manager.Auth.Ajax.{Renewal, renewed, refused, never}
use flamenco_manager.Auth.Token.{
  TokenInfo, Promise, null, pending, resolved, rejected, Session, obtain_jwt_token,
  token_urls_failed, token_urls_done, token_failed, token_done, forget_promise, answered,
}

-- What one who waits for the promise sees of it.
unfoldable pub renewal_of : Promise → Renewal
renewal_of null = never
renewal_of pending = never
renewal_of resolved = renewed
renewal_of (rejected e) = refused e

module _ (c : Cookies) where
  -- `.finally`, which does not run while the promise is pending.
  unfoldable pub finally : Promise → Session c → Session c
  unfolding forget_promise
  finally null s = s
  finally pending s = s
  finally resolved s = forget_promise c s
  finally (rejected e) s = forget_promise c s

  -- The handlers of `/jwt/token-urls` and of the token's URL, up to `.finally`.
  unfoldable pub answer_token : TokenInfo → String ⊎ HttpError → Session c → Session c
  unfolding token_failed token_done
  answer_token info (inl token) s = token_done c token s
  answer_token info (inr error) s = token_failed c info error s

  unfoldable pub answer_urls :
      TokenInfo ⊎ HttpError → (TokenInfo → String ⊎ HttpError) → Session c → Session c
  unfolding token_urls_failed token_urls_done answer_token answered
  answer_urls (inl info) server s =
      answer_token info (server info) (answered c [] (token_urls_done c info s))
  answer_urls (inr error) server s = token_urls_failed c error s

  -- The call on a page where no other is in progress.
  unfoldable pub fetch :
      TokenInfo ⊎ HttpError → (TokenInfo → String ⊎ HttpError) → Session c → Renewal × Session c
  unfolding answer_urls renewal_of finally answered obtain_jwt_token
  fetch manager server s =
      let t = answer_urls manager server (answered c [] (obtain_jwt_token c s)) in
      (renewal_of t.promise, finally t.promise t)
