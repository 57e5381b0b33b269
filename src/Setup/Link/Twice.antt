-- ===== src/Setup/Link/Twice.antt =====
-- The link check after a new token.
use flamenco_manager.Common.{ℕ, ◌+◌, ◌≡◌, true, arith}
use flamenco_manager.Common.Http.{HttpError, needs_token}
use flamenco_manager.Setup.Link.{LinkPage, check_failed, on_new_token, token_obtained}

-- After a check that failed for want of a token, a new token starts two checks instead of one: one by
-- the event of the token and one when the promise is resolved.
pub on_new_token-check_failed :
    (error : HttpError) (left : ℕ) (p : LinkPage)
    → needs_token error ≡ true
    → (token_obtained p.waiting (on_new_token (check_failed error left p))).checks ≡ left + 2
unfolding on_new_token check_failed token_obtained
on_new_token-check_failed error left p h = rw h (omega arith)
