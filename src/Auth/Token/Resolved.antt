-- ===== src/Auth/Token/Resolved.antt =====
-- How the promise of `obtainJWTToken` comes to be resolved.
use flamenco_manager.Common.{
  String, ◌≡◌, ◌⊎◌, inl, inr, true, false, some, ◌∷◌, arith, Bool-cases, ◌==◌, eq_iff,
}
use flamenco_manager.Common.Http.{HttpError, status_is}
use flamenco_manager.Auth.Cookies.{Cookies}
use flamenco_manager.Auth.Token.{
  new_jwt_token, pending, resolved, Session, jwt_token, set_jwt_token, remove_jwt_token,
  obtain_jwt_token, token_urls_failed, token_urls_done, token_failed, token_done, forget_promise,
  answered, Step, obtains, reads, urls_fail, urls_arrive, token_fails, token_arrives, settles,
  forgets,
}

module _ (c : Cookies) where
  jwt_token-promise : (s : Session c) → (jwt_token c s).1.promise ≡ s.promise
  unfolding jwt_token
  jwt_token-promise s = ground arith

  -- Whenever a step resolves the pending promise, one of three things has happened: a token that is not
  -- empty is in the cache and newJWTToken has been dispatched; an empty token is in the cache; or
  -- `/jwt/token-urls` answered 404, and neither the token nor the events have changed.
  pub Step-resolved :
      (s t : Session c)
      → Step c s t
      → s.promise ≡ pending
      → t.promise ≡ resolved
      → ((token : String) × (t.cache ≡ some token)
          × ((token == "") ≡ false)
          × (t.events ≡ new_jwt_token ∷ s.events))
        ⊎ ((t.cache ≡ some "") × (t.events ≡ s.events))
        ⊎ ((error : HttpError) × (status_is 404 error.status ≡ true)
            × (t.cache ≡ s.cache)
            × (t.events ≡ s.events))
  unfolding obtain_jwt_token token_urls_failed token_urls_done token_failed token_done
      forget_promise answered remove_jwt_token set_jwt_token
  Step-resolved s t (obtains e) p q = absurd (ground arith)
  Step-resolved s t (reads e) p q = absurd (ground (arith, jwt_token-promise s))
  Step-resolved s t (urls_fail b a error k e) p q = elim (Bool-cases (status_is 404 error.status)) [
    | inl y ↦ inr (inr (error, y, ground arith, ground arith))
    | inr n ↦ absurd (ground arith)
  ]
  Step-resolved s t (urls_arrive b a info k e) p q = absurd (ground arith)
  Step-resolved s t (token_fails b a info error k e) p q = absurd (ground arith)
  Step-resolved s t (token_arrives b a info token k e) p q = elim (Bool-cases (token == "")) [
    | inl y ↦ inr (inl (ground (arith, eq_iff token ""), ground arith))
    | inr n ↦ inl (token, ground arith, n, ground arith)
  ]
  Step-resolved s t (settles h e) p q = absurd (ground arith)
  Step-resolved s t (forgets e) p q = absurd (ground arith)
