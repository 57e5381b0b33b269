-- ===== src/Auth/Cookies.antt =====
-- js.cookie.min.js is a library: what static/jwtauth.js relies on of it.
use flamenco_manager.Common.{ℕ, String, ◌≡◌, Option, none, some}

-- `jwtTokenCookieOptions`: `expires` in days, and the path.
pub record CookieOptions : Type 0 where
  pub expires : ℕ
  pub path : String

-- A cookie that was set under a name, with options, is read under that name until it is removed with
-- the same options.
pub record Cookies : Type 1 where
  pub Jar : Type 0
  pub get : Jar → String → Option String
  pub set : Jar → String → String → CookieOptions → Jar
  pub remove : Jar → String → CookieOptions → Jar
  pub get-set : (j : Jar) (k v : String) (o : CookieOptions) → get (set j k v o) k ≡ some v
  pub get-remove : (j : Jar) (k : String) (o : CookieOptions) → get (remove j k o) k ≡ none
