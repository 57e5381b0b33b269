-- ===== src/Auth/Token.antt =====
-- static/jwtauth.js: the cached token, its cookie, and `obtainJWTToken` as a step relation.
pub mod Laws
pub mod Resolved
pub mod Fetch
use flamenco_manager.Common.{
  ℕ, String, ◌≡◌, ◌⊎◌, Bool, true, false, Option, none, some, List, [], ◌∷◌, ◌++◌, if◌then◌else◌,
  ◌==◌,
}
use flamenco_manager.Common.Http.{HttpError, status_is}
use flamenco_manager.Auth.Cookies.{Cookies, CookieOptions}

abbrev pub jwt_token_cookie_name : String
jwt_token_cookie_name = "jwtToken"

abbrev pub jwt_token_cookie_options : CookieOptions
jwt_token_cookie_options = record { expires = 1; path = "/" }

-- The events that the script dispatches on the window.
pub data Event : Type 0 where
  new_jwt_token : Event
  jwt_token_manager_error jwt_token_server_error : HttpError → Event

-- The answer of `/jwt/token-urls`.
pub record TokenInfo : Type 0 where
  pub token_url : String
  pub login_url : String

-- A request that `obtainJWTToken` has made and that is not answered.
pub data Request : Type 0 where
  token_urls : Request
  token_of : TokenInfo → Request

-- `jwtTokenObtainingPromise`.
pub data Promise : Type 0 where
  null pending resolved : Promise
  rejected : HttpError → Promise

module _ (c : Cookies) where
  open c use {Jar, get, set, remove}

  pub record Session : Type 0 where
    -- `_jwtToken`; null and undefined are `none`.
    pub cache : Option String
    pub jar : Jar
    pub promise : Promise
    pub outstanding : List Request
    -- Newest first.
    pub events : List Event
    pub location : Option String

  -- `jwtToken()`: the token and what the call leaves.
  unfoldable pub jwt_token : Session → Option String × Session
  jwt_token s = elim s.cache [
    | some token ↦ (some token, s)
    | none ↦ let token = get s.jar jwt_token_cookie_name in (token, record s { cache = token })
  ]

  -- `setJWTToken(newToken)`: the event is dispatched for a token that is not empty.
  unfoldable pub set_jwt_token : String → Session → Session
  set_jwt_token new_token s = record s {
    cache = some new_token;
    jar = set s.jar jwt_token_cookie_name new_token jwt_token_cookie_options;
    events = if new_token == "" then s.events else new_jwt_token ∷ s.events;
  }

  -- `removeJWTToken()`.
  unfoldable pub remove_jwt_token : Session → Session
  remove_jwt_token s = record s {
    cache = none;
    jar = remove s.jar jwt_token_cookie_name jwt_token_cookie_options;
  }

  -- The call of `obtainJWTToken`: a promise that is there already is returned as it is.
  unfoldable pub obtain_jwt_token : Session → Session
  obtain_jwt_token s = elim s.promise [
    | null ↦ record s { promise = pending; outstanding = s.outstanding ++ token_urls ∷ [] }
    | _ ↦ s
  ]

  -- `.fail` of `/jwt/token-urls`; 404 tells that security is disabled.
  unfoldable pub token_urls_failed : HttpError → Session → Session
  unfolding status_is
  token_urls_failed error s =
      if status_is 404 error.status
      then record s { promise = resolved }
      else record s { promise = rejected error; events = jwt_token_manager_error error ∷ s.events }

  -- `.done` of `/jwt/token-urls`: the token is asked for.
  unfoldable pub token_urls_done : TokenInfo → Session → Session
  token_urls_done info s = record s { outstanding = s.outstanding ++ token_of info ∷ [] }

  -- `.fail` of the token's URL: after 403 the page goes to the login and the promise stays pending.
  unfoldable pub token_failed : TokenInfo → HttpError → Session → Session
  unfolding status_is
  token_failed info error s =
      if status_is 403 error.status
      then record s { location = some info.login_url }
      else record s { promise = rejected error; events = jwt_token_server_error error ∷ s.events }

  -- `.done` of the token's URL.
  unfoldable pub token_done : String → Session → Session
  unfolding set_jwt_token
  token_done token_response s = record (set_jwt_token token_response s) { promise = resolved }

  -- `.finally`.
  unfoldable pub forget_promise : Session → Session
  forget_promise s = record s { promise = null }

  -- A request of those outstanding is answered.
  unfoldable pub answered : List Request → Session → Session
  answered rest s = record s { outstanding = rest }

  pub data Step (s t : Session) : Type 0 where
    obtains : t ≡ obtain_jwt_token s → Step s t
    reads : t ≡ (jwt_token s).1 → Step s t
    urls_fail :
        (before after : List Request) (error : HttpError)
        → s.outstanding ≡ before ++ token_urls ∷ after
        → t ≡ token_urls_failed error (answered (before ++ after) s)
        → Step s t
    urls_arrive :
        (before after : List Request) (info : TokenInfo)
        → s.outstanding ≡ before ++ token_urls ∷ after
        → t ≡ token_urls_done info (answered (before ++ after) s)
        → Step s t
    token_fails :
        (before after : List Request) (info : TokenInfo) (error : HttpError)
        → s.outstanding ≡ before ++ token_of info ∷ after
        → t ≡ token_failed info error (answered (before ++ after) s)
        → Step s t
    token_arrives :
        (before after : List Request) (info : TokenInfo) (token : String)
        → s.outstanding ≡ before ++ token_of info ∷ after
        → t ≡ token_done token (answered (before ++ after) s)
        → Step s t
    settles :
        (s.promise ≡ resolved) ⊎ ((e : HttpError) × (s.promise ≡ rejected e))
        → t ≡ forget_promise s
        → Step s t
    forgets : t ≡ remove_jwt_token s → Step s t

  pub data Reach (s : Session) : Session → Type 0 where
    here : Reach s s
    next : {t u : Session} → Reach s t → Step t u → Reach s u

  -- A page that has just been loaded, with the cookies that it finds.
  unfoldable pub loaded : Jar → Session
  loaded jar = record {
    cache = none;
    jar = jar;
    promise = null;
    outstanding = [];
    events = [];
    location = none;
  }
