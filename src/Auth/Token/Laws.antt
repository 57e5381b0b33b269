-- ===== src/Auth/Token/Laws.antt =====
-- One token request at a time, and where the token is found.
use flamenco_manager.Common.{
  String, ◌≡◌, refl, ◌⊎◌, inl, inr, some, List, [], ◌∷◌, ◌++◌, arith, Bool-cases,
}
use flamenco_manager.Common.Http.{HttpError, status_is}
use flamenco_manager.Auth.Cookies.{Cookies}
use flamenco_manager.Auth.Token.{
  Event, jwt_token_manager_error, jwt_token_server_error, Request, token_urls, token_of, pending,
  rejected, Session, jwt_token, set_jwt_token, remove_jwt_token, obtain_jwt_token,
  token_urls_failed, token_urls_done, token_failed, token_done, forget_promise, answered, Step,
  obtains, reads, urls_fail, urls_arrive, token_fails, token_arrives, settles, forgets, Reach, here,
  next, loaded,
}

-- A list with one element, split at an element, has nothing before and after it.
split_single :
    (before after : List Request) (r q : Request)
    → before ++ q ∷ after ≡ r ∷ []
    → before ++ after ≡ []
split_single [] after r q e = ground arith
split_single (x ∷ []) after r q e = cc
split_single (x ∷ y ∷ before) after r q e = cc

split_nil : (before after : List Request) (q : Request) → before ++ q ∷ after ≡ [] → ⊥
split_nil [] after q e = cc
split_nil (x ∷ before) after q e = cc

module _ (c : Cookies) where
  -- No request is out, or one is and its promise is pending.
  abbrev pub IsSingle : Session c → Type 0
  IsSingle s =
      (s.outstanding ≡ []) ⊎ ((r : Request) × (s.outstanding ≡ r ∷ []) × (s.promise ≡ pending))

  pub rest-nil :
      (before after : List Request) (q : Request) (s : Session c)
      → IsSingle s
      → s.outstanding ≡ before ++ q ∷ after
      → (before ++ after ≡ []) × (s.promise ≡ pending)
  rest-nil before after q s (inl e) k = absurd (split_nil before after q (cc))
  rest-nil before after q s (inr (r, e, p)) k = (split_single before after r q (cc), p)

  Step-IsSingle : {s t : Session c} → Step c s t → IsSingle s → IsSingle t
  unfolding obtain_jwt_token jwt_token token_urls_failed token_urls_done token_failed token_done
      forget_promise answered remove_jwt_token
  Step-IsSingle {s} (obtains e) v = ground arith
  Step-IsSingle {s} (reads e) v = ground arith
  Step-IsSingle {s} (urls_fail b a error k e) v = ground (arith, rest-nil b a token_urls s v k)
  Step-IsSingle {s} (urls_arrive b a info k e) v = inr (
    token_of info,
    ground (arith, rest-nil b a token_urls s v k),
    ground (arith, rest-nil b a token_urls s v k),
  )
  Step-IsSingle {s} (token_fails b a info error k e) v =
      ground (arith, rest-nil b a (token_of info) s v k)
  Step-IsSingle {s} (token_arrives b a info token k e) v =
      ground (arith, rest-nil b a (token_of info) s v k)
  Step-IsSingle {s} (settles (inl p) e) v = ground arith
  Step-IsSingle {s} (settles (inr (x, p)) e) v = ground arith
  Step-IsSingle {s} (forgets e) v = ground arith

  -- However `obtainJWTToken` is called, answered and settled, and `jwtToken` and `removeJWTToken` are
  -- called, from a page that has been loaded on: at most one token request is out, and while one is,
  -- the shared promise is pending, so that every call of `obtainJWTToken` gets that one.
  pub Reach-loaded-IsSingle : (jar : c.Jar) (t : Session c) → Reach c (loaded c jar) t → IsSingle t
  Reach-loaded-IsSingle jar t here = inl (unfold loaded in refl)
  Reach-loaded-IsSingle jar t (next r st) = Step-IsSingle st (Reach-loaded-IsSingle jar _ r)

  -- A rejected promise has been announced by the latest event, with the same error.
  abbrev IsAnnounced : Session c → Type 0
  IsAnnounced s =
      (e : HttpError)
      → s.promise ≡ rejected e
      → (rest : List Event) × ((s.events ≡ jwt_token_manager_error e ∷ rest)
          ⊎ (s.events ≡ jwt_token_server_error e ∷ rest))

  jwt_token-keeps :
      (s : Session c)
      → ((jwt_token c s).1.promise ≡ s.promise) × ((jwt_token c s).1.events ≡ s.events)
  unfolding jwt_token
  jwt_token-keeps s = ground arith

  Step-IsAnnounced : {s t : Session c} → Step c s t → IsAnnounced s → IsAnnounced t
  unfolding obtain_jwt_token token_urls_failed token_urls_done token_failed token_done
      forget_promise answered remove_jwt_token
  Step-IsAnnounced {s} (obtains e) v x p =
      let (rest, k) = v x (ground arith) in (rest, ground arith)
  Step-IsAnnounced {s} (reads e) v x p =
      let (rest, k) = v x (ground (arith, jwt_token-keeps s)) in
      (rest, ground (arith, jwt_token-keeps s))
  Step-IsAnnounced {s} (urls_fail b a error k e) v x p = (s.events, ground arith)
  Step-IsAnnounced {s} (urls_arrive b a info k e) v x p =
      let (rest, k) = v x (ground arith) in (rest, ground arith)
  Step-IsAnnounced {s} (token_fails b a info error k e) v x p =
      elim (Bool-cases (status_is 403 error.status)) [
        | inl y ↦ let (rest, k) = v x (ground arith) in (rest, ground arith)
        | inr y ↦ (s.events, ground arith)
      ]
  Step-IsAnnounced {s} (token_arrives b a info token k e) v x p = absurd (ground arith)
  Step-IsAnnounced {s} (settles h e) v x p = absurd (ground arith)
  Step-IsAnnounced {s} (forgets e) v x p =
      let (rest, k) = v x (ground arith) in (rest, ground arith)

  Reach-IsAnnounced : (jar : c.Jar) (t : Session c) → Reach c (loaded c jar) t → IsAnnounced t
  Reach-IsAnnounced jar t here = unfold loaded in λ e p. absurd (ground arith)
  Reach-IsAnnounced jar t (next r st) = Step-IsAnnounced st (Reach-IsAnnounced jar _ r)

  -- On every page that is reached from one that has been loaded, if the shared promise is rejected with
  -- an error, the latest event that was dispatched is JWTTokenManagerError or JWTTokenServerError with
  -- that error.
  pub Reach-loaded-announced :
      (jar : c.Jar) (t : Session c) (e : HttpError)
      → Reach c (loaded c jar) t
      → t.promise ≡ rejected e
      → (rest : List Event) × ((t.events ≡ jwt_token_manager_error e ∷ rest)
          ⊎ (t.events ≡ jwt_token_server_error e ∷ rest))
  Reach-loaded-announced jar t e r p = Reach-IsAnnounced jar t r e p

  -- A token that was set is what `jwtToken` returns, from the cache at once and from the cookie on the
  -- next page, provided that a cookie is read as it was set.
  pub jwt_token-set_jwt_token :
      (token : String) (s : Session c)
      → ((jwt_token c (set_jwt_token c token s)).0 ≡ some token)
        × ((jwt_token c (loaded c (set_jwt_token c token s).jar)).0 ≡ some token)
  unfolding jwt_token set_jwt_token loaded
  jwt_token-set_jwt_token token s = (refl, c.get-set s.jar "jwtToken" token _)
