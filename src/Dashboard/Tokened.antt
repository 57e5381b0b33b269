-- ===== src/Dashboard/Tokened.antt =====
-- static/dashboard.js with static/jwtauth.js: the polling loop together with the token that it waits for. The
-- listeners run while an event is dispatched, and `.finally` of the promise runs before the browser
-- does anything else, so a step of the token's promise is one step here.
pub mod Alive
pub mod Answers
pub mod Stops
use mathlib.Core.List.{Memᴰ}
use flamenco_manager.Common.{
  ℕ, zero, suc, String, ◌≡◌, Bool, true, false, ◌&&◌, ◌||◌, Option, none, some, List, [], ◌∷◌, ◌++◌,
  length, nat_eq, if◌then◌else◌,
}
use flamenco_manager.Common.Handles.{end}
use flamenco_manager.Common.Http.{HttpError, needs_token}
use flamenco_manager.Common.Int.{ℤ}
use flamenco_manager.Auth.Cookies.{Cookies}
use flamenco_manager.Auth.Token.{
  Event, new_jwt_token, jwt_token_manager_error, jwt_token_server_error, TokenInfo, Request,
  token_urls, token_of, null, pending, resolved, rejected, Session, remove_jwt_token,
  obtain_jwt_token, token_urls_failed, token_urls_done, token_failed, token_done, forget_promise,
  answered,
}
use flamenco_manager.Dashboard.App.{
  App, Info, load_workers, load_done, load_failed, on_new_token, on_jwt_server_error,
  on_jwt_manager_error, on_worker_selected, toggle_select_all_workers,
}

-- The page, its requests that are out, and the token's session. `is_silenced` records that fetching a
-- token has ended without an event: security is disabled, the token is empty, or the page leaves for
-- the login.
pub record Joint (c : Cookies) (V : Type 0) : Type 0 where
  pub page : App V
  pub in_flight : ℕ
  pub session : Session c
  pub is_silenced : Bool

abbrev pub is_none_out : List Request → Bool
is_none_out [] = true
is_none_out (r ∷ rs) = false

module _ {V : Type 0} where
  -- The page's listener of an event.
  unfoldable pub dispatch : Event → App V → App V
  dispatch new_jwt_token app = on_new_token app
  dispatch (jwt_token_manager_error e) app = on_jwt_manager_error e app
  dispatch (jwt_token_server_error e) app = on_jwt_server_error e app

  -- The events before and after a step of the session: a new one is heard.
  unfoldable pub hear : List Event → List Event → App V → App V
  unfolding dispatch
  hear before [] app = app
  hear before (e ∷ events) app =
      if nat_eq (length events) (length before) then dispatch e app else app

module _ (c : Cookies) where
  -- The microtask `.finally`, where the promise is settled.
  unfoldable pub settle : Session c → Session c
  unfolding forget_promise
  settle s = elim s.promise [
    | null ↦ s
    | pending ↦ s
    | resolved ↦ forget_promise c s
    | rejected e ↦ forget_promise c s
  ]

module _ (c : Cookies) {V : Type 0} where
  -- The session has become `s` by the answer to a token request.
  unfoldable pub advance : Session c → Joint c V → Joint c V
  unfolding hear settle
  advance s j = record j {
    page = hear j.session.events s.events j.page;
    session = settle c s;
    is_silenced =
        j.is_silenced
        || (nat_eq (length s.events) (length j.session.events) && is_none_out s.outstanding);
  }

  -- `loadWorkers`.
  unfoldable pub request : Joint c V → Joint c V
  unfolding load_workers
  request j = record j { page = load_workers j.page; in_flight = suc j.in_flight }

  unfoldable pub fire : ℕ → Joint c V → Joint c V
  unfolding request
  fire h j = request (record j { page = record (j.page) { timers = end h j.page.timers } })

  -- A status report fails: `obtainJWTToken` is called where `load_failed` asks for it.
  unfoldable pub fail : HttpError → ℕ → Joint c V → Joint c V
  unfolding load_failed
  fail error left j = record j {
    page = (load_failed error j.page).0;
    in_flight = left;
    session = if (load_failed error j.page).1 then obtain_jwt_token c j.session else j.session;
  }

  -- The page as it is created, with a session that has just been loaded.
  unfoldable pub created : App V → Session c → Joint c V
  unfolding request
  created app s = request (record { page = app; in_flight = 0; session = s; is_silenced = false })

  module _ (parse_date : String → Option ℤ) (text_of : Option V → String) where
    pub data Step (j k : Joint c V) : Type 0 where
      fires : (h ms : ℕ) → Memᴰ (h, ms) j.page.timers.live → k ≡ fire h j → Step j k
      called : k ≡ request j → Step j k
      arrives :
          (left : ℕ) (now : ℤ) (info : Info V)
          → j.in_flight ≡ suc left
          → k ≡ record j { page = load_done parse_date text_of now info j.page; in_flight = left }
          → Step j k
      fails :
          (left : ℕ) (error : HttpError) → j.in_flight ≡ suc left → k ≡ fail error left j → Step j k
      selected :
          (is_selected : Bool) (id : String)
          → k ≡ record j { page = on_worker_selected is_selected id j.page }
          → Step j k
      toggled : k ≡ record j { page = toggle_select_all_workers j.page } → Step j k
      -- Another script of the page calls `obtainJWTToken` or `removeJWTToken`.
      obtains : k ≡ record j { session = obtain_jwt_token c j.session } → Step j k
      forgets : k ≡ record j { session = remove_jwt_token c j.session } → Step j k
      urls_fail :
          (before after : List Request) (error : HttpError)
          → j.session.outstanding ≡ before ++ token_urls ∷ after
          → k ≡ advance (token_urls_failed c error (answered c (before ++ after) j.session)) j
          → Step j k
      urls_arrive :
          (before after : List Request) (info : TokenInfo)
          → j.session.outstanding ≡ before ++ token_urls ∷ after
          → k ≡ advance (token_urls_done c info (answered c (before ++ after) j.session)) j
          → Step j k
      token_fails :
          (before after : List Request) (info : TokenInfo) (error : HttpError)
          → j.session.outstanding ≡ before ++ token_of info ∷ after
          → k ≡ advance (token_failed c info error (answered c (before ++ after) j.session)) j
          → Step j k
      token_arrives :
          (before after : List Request) (info : TokenInfo) (token : String)
          → j.session.outstanding ≡ before ++ token_of info ∷ after
          → k ≡ advance (token_done c token (answered c (before ++ after) j.session)) j
          → Step j k

    pub data Reach (j : Joint c V) : Joint c V → Type 0 where
      here : Reach j j
      next : {k l : Joint c V} → Reach j k → Step k l → Reach j l
