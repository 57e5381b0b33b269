-- ===== src/Common/Http.antt =====
-- What the scripts read of a failed request: jQuery's `jqXHR`, or an object made by the scripts.
use Prim.Native.Nat.{ℕ, zero, suc}
use Prim.Native.String.{String}
use mathlib.Core.Bool.{Bool, true, false, ◌||◌}
use mathlib.Core.Option.{Option, none, some}
use flamenco_manager.Common.Tests.{nat_eq}
use flamenco_manager.Common.Decimal.{decimal}

-- A field that is not there is `undefined`. jQuery's status is 0 when no answer came.
pub record HttpError : Type 0 where
  pub status : Option ℕ
  pub response_text : Option String

truthy : Option ℕ → Bool
truthy none = false
truthy (some zero) = false
truthy (some (suc n)) = true

-- `if (error.status)`: neither undefined nor 0.
unfoldable pub has_status : HttpError → Bool
unfolding truthy
has_status e = truthy e.status

-- `error.status == n`.
unfoldable pub status_is : ℕ → Option ℕ → Bool
status_is n none = false
status_is n (some m) = nat_eq m n

-- `error.status == 401 || error.status == 498`: the token is missing or has expired.
unfoldable pub needs_token : HttpError → Bool
unfolding status_is
needs_token e = status_is 401 e.status || status_is 498 e.status

-- A value joined to a text: `undefined` is spelled out.
unfoldable pub status_text : Option ℕ → String
unfolding decimal
status_text none = "undefined"
status_text (some n) = decimal n

unfoldable pub shown : Option String → String
shown none = "undefined"
shown (some t) = t
