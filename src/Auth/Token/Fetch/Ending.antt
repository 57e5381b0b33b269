-- ===== src/Auth/Token/Fetch/Ending.antt =====
-- How the fetching of a token ends.
use flamenco_manager.Common.{
  String, ◌≡◌, refl, ◌⊎◌, inl, inr, true, false, some, [], ◌∷◌, Bool-cases,
}
use flamenco_manager.Common.Http.{HttpError, status_is}
use flamenco_manager.Auth.Cookies.{Cookies}
use flamenco_manager.Auth.Ajax.{Renewal, renewed, refused, never}
use flamenco_manager.Auth.Token.{
  TokenInfo, Promise, token_urls, token_of, null, pending, resolved, rejected, Session,
  set_jwt_token, obtain_jwt_token, token_urls_failed, token_urls_done, token_failed, token_done,
  forget_promise, answered, obtains, urls_fail, urls_arrive, token_fails, token_arrives, settles,
  Reach, here, next,
}
use flamenco_manager.Auth.Token.Fetch.{renewal_of, finally, answer_token, answer_urls, fetch}

module _ (c : Cookies) where
  -- No token is being fetched.
  abbrev pub IsIdle : Session c → Type 0
  IsIdle s = (s.promise ≡ null) × (s.outstanding ≡ [])

  -- What the answers say of the end: why it is what it is, and what it leaves.
  abbrev pub EndsAs :
      TokenInfo ⊎ HttpError
      → (TokenInfo → String ⊎ HttpError)
      → Session c
      → Renewal
      → Session c
      → Type 0
  EndsAs manager server s renewed t =
      IsIdle t
      × (((error : HttpError) × (manager ≡ inr error)
            × (status_is 404 error.status ≡ true)
            × (t.cache ≡ s.cache)
            × (t.events ≡ s.events))
          ⊎ ((info : TokenInfo) × (token : String) × (manager ≡ inl info)
              × (server info ≡ inl token)
              × (t.cache ≡ some token)))
  EndsAs manager server s (refused error) t =
      IsIdle t
      × (t.cache ≡ s.cache)
      × (((manager ≡ inr error) × (status_is 404 error.status ≡ false))
          ⊎ ((info : TokenInfo) × (manager ≡ inl info)
              × (server info ≡ inr error)
              × (status_is 403 error.status ≡ false)))
  EndsAs manager server s never t =
      (info : TokenInfo) × (error : HttpError) × (manager ≡ inl info)
      × (server info ≡ inr error)
      × (status_is 403 error.status ≡ true)
      × (t.location ≡ some info.login_url)
      × (t.outstanding ≡ [])
      × (t.promise ≡ pending)

  asked_outstanding :
      (s : Session c) → IsIdle s → (obtain_jwt_token c s).outstanding ≡ token_urls ∷ []
  unfolding obtain_jwt_token
  asked_outstanding s (free, none_out) = rw (free, none_out) refl

  -- The steps of the session by which the fetching goes on.
  finally-Reach :
      (s t : Session c) (p : Promise) → t.promise ≡ p → Reach c s t → Reach c s (finally c p t)
  unfolding finally
  finally-Reach s t null e r = r
  finally-Reach s t pending e r = r
  finally-Reach s t resolved e r = next r (settles (inl e) refl)
  finally-Reach s t (rejected x) e r = next r (settles (inr (x, e)) refl)

  answer_token-Reach :
      (s t : Session c) (info : TokenInfo) (answer : String ⊎ HttpError)
      → t.outstanding ≡ token_of info ∷ []
      → Reach c s t
      → Reach c s (answer_token c info answer (answered c [] t))
  unfolding answer_token
  answer_token-Reach s t info (inl token) e r = next r (token_arrives [] [] info token e refl)
  answer_token-Reach s t info (inr error) e r = next r (token_fails [] [] info error e refl)

  answer_urls-Reach :
      (manager : TokenInfo ⊎ HttpError) (server : TokenInfo → String ⊎ HttpError) (s : Session c)
      → IsIdle s
      → Reach c s (answer_urls c manager server (answered c [] (obtain_jwt_token c s)))
  unfolding answer_urls
  answer_urls-Reach (inr error) server s idle =
      next (next here (obtains refl)) (urls_fail [] [] error (asked_outstanding s idle) refl)
  answer_urls-Reach (inl info) server s idle =
      answer_token-Reach s _ info (server info) (unfold token_urls_done answered in refl)
        (next (next here (obtains refl)) (urls_arrive [] [] info (asked_outstanding s idle) refl))

  -- The request for the URLs, or for the token, is out and nothing else has changed.
  abbrev Waits : Session c → Session c → Type 0
  Waits s t =
      (t.promise ≡ pending) × (t.outstanding ≡ []) × (t.cache ≡ s.cache) × (t.events ≡ s.events)

  asked-Waits : (s : Session c) → IsIdle s → Waits s (answered c [] (obtain_jwt_token c s))
  unfolding obtain_jwt_token answered
  asked-Waits s (free, none_out) = rw free (refl, refl, refl, refl)

  token_urls_failed-EndsAs :
      (error : HttpError) (server : TokenInfo → String ⊎ HttpError) (s t : Session c)
      → Waits s t
      → let u = token_urls_failed c error t in
        EndsAs (inr error) server s (renewal_of u.promise) (finally c u.promise u)
  unfolding token_urls_failed renewal_of finally forget_promise
  token_urls_failed-EndsAs error server s t (wait, none_out, cache, events) =
      elim (Bool-cases (status_is 404 error.status)) [
        | inl y ↦ rw y ((refl, none_out), inl (error, refl, y, cache, events))
        | inr n ↦ rw n ((refl, none_out), cache, inl (refl, n))
      ]

  answer_token-EndsAs :
      (info : TokenInfo) (server : TokenInfo → String ⊎ HttpError) (answer : String ⊎ HttpError)
      (s t : Session c)
      → server info ≡ answer
      → Waits s t
      → let u = answer_token c info answer t in
        EndsAs (inl info) server s (renewal_of u.promise) (finally c u.promise u)
  unfolding answer_token token_failed token_done renewal_of finally forget_promise set_jwt_token
  answer_token-EndsAs info server (inl token) s t k (wait, none_out, cache, events) =
      ((refl, none_out), inr (info, token, refl, k, refl))
  answer_token-EndsAs info server (inr error) s t k (wait, none_out, cache, events) =
      elim (Bool-cases (status_is 403 error.status)) [
        | inl y ↦ rw y (rw wait (info, error, refl, k, y, refl, none_out, refl))
        | inr n ↦ rw n ((refl, none_out), cache, inr (info, refl, k, n))
      ]

  answer_urls-EndsAs :
      (manager : TokenInfo ⊎ HttpError) (server : TokenInfo → String ⊎ HttpError) (s t : Session c)
      → Waits s t
      → let u = answer_urls c manager server t in
        EndsAs manager server s (renewal_of u.promise) (finally c u.promise u)
  unfolding answer_urls
  answer_urls-EndsAs (inr error) server s t w = token_urls_failed-EndsAs error server s t w
  answer_urls-EndsAs (inl info) server s t (wait, none_out, cache, events) =
      answer_token-EndsAs info server (server info) s _ refl
        (unfold token_urls_done answered in (wait, refl, cache, events))

  -- On a page where no token is being fetched, a call of `obtainJWTToken` comes, by steps of the session,
  -- to one of three ends, whatever the manager and the server answer. It is resolved: the manager has
  -- answered 404, and the cached token and the events are as they were, or the server has given a
  -- token, which is then the cached one. It is rejected with an error: the manager's, other than 404,
  -- or the server's, other than 403, and the cached token is as it was. In both cases no token is being
  -- fetched any more. Or it stays pending: the server has answered 403, and the page goes to the
  -- login's URL with no request out.
  pub fetch-EndsAs :
      (manager : TokenInfo ⊎ HttpError) (server : TokenInfo → String ⊎ HttpError) (s : Session c)
      → IsIdle s
      → let f = fetch c manager server s in Reach c s f.1 × EndsAs manager server s f.0 f.1
  unfolding fetch
  fetch-EndsAs manager server s idle = (
    finally-Reach s _ _ refl (answer_urls-Reach manager server s idle),
    answer_urls-EndsAs manager server s _ (asked-Waits s idle),
  )
