-- ===== src/Auth/Authorised/Renewing.antt =====
-- Requests with a token that is renewed on the way.
use mathlib.Core.Option
use flamenco_manager.Common.{
  ℕ, zero, suc, String, ◌≡◌, refl, ◌⊎◌, inl, inr, true, false, Option, some, ltb, Bool-cases,
}
use flamenco_manager.Common.Http.{HttpError, needs_token}
use flamenco_manager.Auth.Cookies.{Cookies}
use flamenco_manager.Auth.Ajax.{
  Answer, done, failed, Renewal, renewed, refused, never, jwt, Result, resolved, rejected, pending,
  perform_request, jwt_ajax,
}
use flamenco_manager.Auth.Token.{
  TokenInfo, Session, Reach, token_urls_done, token_done, set_jwt_token, answered, forget_promise,
}
use flamenco_manager.Auth.Token.Fetch.{fetch, answer_urls, answer_token, renewal_of, finally}
use flamenco_manager.Auth.Token.Fetch.Ending.{IsIdle, fetch-EndsAs}
use flamenco_manager.Auth.Authorised.{
  cookie, Outcome, after_renewal, after_answer, perform, authorised_ajax, sessions,
}

-- The outcome without the session.
abbrev pub forget : {c : Cookies} {R : Type 0} → Outcome c R → Result R × ℕ
forget (result, n, s) = (result, n)

module _ (c : Cookies) {R : Type 0} (respond : Option String → Answer R)
    (manager : TokenInfo ⊎ HttpError) (server : TokenInfo → String ⊎ HttpError) where
  -- How the n-th request and the n-th renewal end.
  abbrev pub answer_at : Session c → ℕ → Answer R
  answer_at s n = respond (cookie c (sessions c manager server s n))

  module _ (ajax : ℕ → Answer R) (renewal : ℕ → Renewal) where
    forget-after_renewal :
        (fuel n : ℕ) (t : Session c) (again : Option (Outcome c R)) (w : Renewal)
        → renewal n ≡ w
        → Option.map forget again ≡ perform_request ajax renewal fuel (suc n)
        → Option.map forget (after_renewal c n w t again) ≡ elim (renewal n) [
          | renewed ↦ perform_request ajax renewal fuel (suc n)
          | refused e ↦ some (rejected e (some jwt), suc n)
          | never ↦ some (pending, suc n)
        ]
    unfolding after_renewal
    forget-after_renewal fuel n t again renewed k ih = rw k ih
    forget-after_renewal fuel n t again (refused e) k ih = rw k refl
    forget-after_renewal fuel n t again never k ih = rw k refl

    forget-after_answer :
        (fuel n : ℕ) (s t : Session c) (again : Option (Outcome c R))
        → (x : Answer R) (w : Renewal) → ajax n ≡ x
        → renewal n ≡ w
        → ltb 5 n ≡ false
        → Option.map forget again ≡ perform_request ajax renewal fuel (suc n)
        → Option.map forget (after_answer c n x w s t again)
          ≡ perform_request ajax renewal (suc fuel) n
    unfolding after_answer perform_request
    forget-after_answer fuel n s t again (done r) w a k low ih = rw (low, a) refl
    forget-after_answer fuel n s t again (failed e) w a k low ih =
        elim (Bool-cases (needs_token e)) [
          | inl y ↦ rw (low, a, y) (forget-after_renewal fuel n t again w k ih)
          | inr d ↦ rw (low, a, d) refl
        ]

  abbrev pub renewal_at : Session c → ℕ → Renewal
  renewal_at s n = (fetch c manager server (sessions c manager server s n)).0

  forget-perform :
      (fuel n : ℕ) (s : Session c)
      → Option.map forget (perform c respond manager server fuel n (sessions c manager server s n))
        ≡ perform_request (answer_at s) (renewal_at s) fuel n
  unfolding perform sessions
  forget-perform zero n s = unfold perform_request in refl
  forget-perform (suc fuel) n s = elim (Bool-cases (ltb 5 n)) [
    | inl y ↦ unfold perform_request in rw y refl
    | inr low ↦ rw low (
        forget-after_answer (answer_at s) (renewal_at s) fuel n _ _ _ (answer_at s n)
          (renewal_at s n) refl refl low (forget-perform fuel (suc n) s))
  ]

  -- `$.jwtAjax` with the token, its cookie and `obtainJWTToken` is, once the session is forgotten,
  -- `$.jwtAjax` as such, where each request is answered as the manager responds to the cookie that the
  -- renewals so far have left, and each renewal ends as that fetching of a token does.
  pub authorised_ajax-jwt_ajax :
      (s : Session c)
      → Option.map forget (authorised_ajax c respond manager server s)
        ≡ jwt_ajax (answer_at s) (renewal_at s)
  unfolding authorised_ajax
  authorised_ajax-jwt_ajax s = unfold jwt_ajax sessions in forget-perform 7 0 s

module _ (c : Cookies) (server : TokenInfo → String ⊎ HttpError) where
  -- A fetching that gets a token, which the next request brings.
  fetch-token :
      (info : TokenInfo) (token : String) (s : Session c)
      → server info ≡ inl token
      → let f = fetch c (inl info) server s in
        (f.0 ≡ renewed) × (cookie c f.1 ≡ some token) × (f.1.cache ≡ some token) × IsIdle c f.1
  unfolding fetch answer_urls answer_token token_urls_done token_done set_jwt_token answered cookie
      renewal_of finally forget_promise
  fetch-token info token s gives = rw gives (refl, c.get-set _ _ token _, refl, (refl, refl))

module _ (c : Cookies) {R : Type 0} (respond : Option String → Answer R)
    (server : TokenInfo → String ⊎ HttpError) where
  -- Let the manager refuse what the cookie holds, with 401 or 498, let it tell where a token is, let the
  -- server give one, and let the manager respond to that one with data. Then `$.jwtAjax`, called while
  -- no token is being fetched, is resolved with the data by its second request; the token is the cached
  -- one and the cookie's, no token is being fetched any more, and all the steps of the session are
  -- ones that it may take.
  pub authorised_ajax-renewed :
      (error : HttpError) (info : TokenInfo) (token : String) (r : R) (s : Session c)
      → respond (cookie c s) ≡ failed error
      → needs_token error ≡ true
      → server info ≡ inl token
      → respond (some token) ≡ done r
      → IsIdle c s
      → (t : Session c) × (authorised_ajax c respond (inl info) server s ≡ some (resolved r, 2, t))
        × (t.cache ≡ some token)
        × (cookie c t ≡ some token)
        × IsIdle c t
        × Reach c s t
  authorised_ajax-renewed error info token r s refuses needs gives accepts idle =
      let t = (fetch c (inl info) server s).1 in
      let (ended, brings, caches, idle_again) = fetch-token c server info token s gives in
      (
        t,
        unfold authorised_ajax perform after_answer after_renewal in
            rw (refuses, needs, ended, brings, accepts) refl,
        caches,
        brings,
        idle_again,
        (fetch-EndsAs c (inl info) server s idle).0,
      )
