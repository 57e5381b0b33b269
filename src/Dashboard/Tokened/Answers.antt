-- ===== src/Dashboard/Tokened/Answers.antt =====
-- What the answers to the requests for a token do, and how the page hears of it.
use flamenco_manager.Common.{
  ℕ, suc, String, ◌≡◌, refl, ◌≢◌, ◌⊎◌, inl, inr, true, false, List, [], ◌∷◌, ◌++◌, length, nat_eq,
  nat_eq_iff, ◌==◌, arith, Bool-cases,
}
use flamenco_manager.Common.Http.{HttpError, status_is}
use flamenco_manager.Auth.Cookies.{Cookies}
use flamenco_manager.Auth.Token.{
  Event, new_jwt_token, jwt_token_manager_error, jwt_token_server_error, TokenInfo, Request,
  token_urls, token_of, null, pending, resolved, rejected, Session, set_jwt_token, obtain_jwt_token,
  token_urls_failed, token_urls_done, token_failed, token_done, forget_promise, answered,
}
use flamenco_manager.Auth.Token.Laws.{rest-nil}
use flamenco_manager.Dashboard.Timers.{load_workers_soon}
use flamenco_manager.Dashboard.App.{App, on_new_token, on_jwt_server_error, on_jwt_manager_error}
use flamenco_manager.Dashboard.Polling.Alive.{load_workers_after_ms-ne-nil}
use flamenco_manager.Dashboard.Tokened.{dispatch, hear, settle}

pub nat_eq_same : (n : ℕ) → nat_eq n n ≡ true
nat_eq_same n = (nat_eq_iff n n).1 refl

nat_eq-suc : (n : ℕ) → nat_eq n (suc n) ≡ false
nat_eq-suc n = ground (arith, nat_eq_iff n (suc n))

module _ {V : Type 0} where
  pub dispatch-ne-nil : (e : Event) (app : App V) → (dispatch e app).timers.live ≢ []
  unfolding dispatch on_new_token on_jwt_server_error on_jwt_manager_error load_workers_soon
  dispatch-ne-nil new_jwt_token app = load_workers_after_ms-ne-nil 250 app.timers
  dispatch-ne-nil (jwt_token_manager_error e) app = load_workers_after_ms-ne-nil 5000 app.timers
  dispatch-ne-nil (jwt_token_server_error e) app = load_workers_after_ms-ne-nil 5000 app.timers

  pub hear-same : (events : List Event) (app : App V) → hear events events app ≡ app
  unfolding hear
  hear-same [] app = refl
  hear-same (e ∷ events) app = rw (nat_eq-suc (length events)) refl

  pub hear-new :
      (e : Event) (events : List Event) (app : App V)
      → hear events (e ∷ events) app ≡ dispatch e app
  unfolding hear
  hear-new e events app = rw (nat_eq_same (length events)) refl

module _ (c : Cookies) where
  -- No token is being fetched, or one request for it is out.
  abbrev pub IsOrderly : Session c → Type 0
  IsOrderly s =
      ((s.promise ≡ null) × (s.outstanding ≡ []))
      ⊎ ((r : Request) × (s.outstanding ≡ r ∷ []) × (s.promise ≡ pending))

  -- What the answer to the only request does: another request, an event, or nothing more.
  abbrev pub Outcome : List Event → Session c → Type 0
  Outcome before s =
      ((s.events ≡ before) × ((r : Request) × (s.outstanding ≡ r ∷ [])) × (s.promise ≡ pending))
      ⊎ (((e : Event) × (s.events ≡ e ∷ before))
          × (s.outstanding ≡ [])
          × ((s.promise ≡ resolved) ⊎ ((x : HttpError) × (s.promise ≡ rejected x))))
      ⊎ ((s.events ≡ before) × (s.outstanding ≡ []))

  module _ (s : Session c) (none_out : s.outstanding ≡ []) (wait : s.promise ≡ pending) where
    pub token_urls_failed-Outcome :
        (error : HttpError) → Outcome s.events (token_urls_failed c error s)
    unfolding token_urls_failed
    token_urls_failed-Outcome error = elim (Bool-cases (status_is 404 error.status)) [
      | inl y ↦ inr (inr (rw y refl, rw y none_out))
      | inr y ↦
          inr (
            inl ((jwt_token_manager_error error, rw y refl), rw y none_out, inr (error, rw y refl)))
    ]

    pub token_urls_done-Outcome : (info : TokenInfo) → Outcome s.events (token_urls_done c info s)
    unfolding token_urls_done
    token_urls_done-Outcome info = inl (refl, (token_of info, rw none_out refl), wait)

    pub token_failed-Outcome :
        (info : TokenInfo) (error : HttpError) → Outcome s.events (token_failed c info error s)
    unfolding token_failed
    token_failed-Outcome info error = elim (Bool-cases (status_is 403 error.status)) [
      | inl y ↦ inr (inr (rw y refl, rw y none_out))
      | inr y ↦
          inr
            (inl ((jwt_token_server_error error, rw y refl), rw y none_out, inr (error, rw y refl)))
    ]

    pub token_done-Outcome : (token : String) → Outcome s.events (token_done c token s)
    unfolding token_done set_jwt_token
    token_done-Outcome token = elim (Bool-cases (token == "")) [
      | inl y ↦ inr (inr (rw y refl, none_out))
      | inr y ↦ inr (inl ((new_jwt_token, rw y refl), none_out, inl refl))
    ]

  -- After a call of `obtainJWTToken` a request is out.
  pub obtain_jwt_token-out :
      (s : Session c)
      → IsOrderly s
      → (r : Request) × ((obtain_jwt_token c s).outstanding ≡ r ∷ [])
        × ((obtain_jwt_token c s).promise ≡ pending)
  unfolding obtain_jwt_token
  obtain_jwt_token-out s (inl (free, none_out)) =
      (token_urls, rw (free, none_out) refl, rw free refl)
  obtain_jwt_token-out s (inr (r, out, wait)) = (r, rw wait out, rw wait refl)

  -- An answered request was the only one.
  pub answered-none :
      (s : Session c) (before after : List Request) (q : Request)
      → IsOrderly s
      → s.outstanding ≡ before ++ q ∷ after
      → ((answered c (before ++ after) s).outstanding ≡ [])
        × ((answered c (before ++ after) s).promise ≡ pending)
  unfolding answered
  answered-none s before after q (inl (free, none_out)) k =
      rest-nil c before after q s (inl none_out) k
  answered-none s before after q (inr single) k = rest-nil c before after q s (inr single) k

module _ (c : Cookies) (s : Session c) where
  pub settle-pending : s.promise ≡ pending → settle c s ≡ s
  unfolding settle
  settle-pending e = rw e refl

  pub settle-done :
      (s.promise ≡ resolved) ⊎ ((x : HttpError) × (s.promise ≡ rejected x))
      → settle c s ≡ forget_promise c s
  unfolding settle
  settle-done (inl e) = rw e refl
  settle-done (inr (x, e)) = rw e refl
