-- ===== src/Setup/Link/Rounds.antt =====
-- The link check where each answer asks for a token, and each token is obtained.
use flamenco_manager.Common.{ℕ, zero, suc, ◌+◌, ◌<◌, ◌≡◌, refl, true, arith}
use flamenco_manager.Common.Http.{HttpError, needs_token}
use flamenco_manager.Setup.Link.{
  LinkPage, link_required, check_failed, on_new_token, token_obtained,
}

-- All the checks that are out fail, one after the other.
unfoldable pub all_fail : HttpError → ℕ → LinkPage → LinkPage
unfolding check_failed
all_fail error zero p = p
all_fail error (suc left) p = all_fail error left (check_failed error left p)

-- The shared promise is resolved: every `.then(linkRequired)` that waits for it runs.
unfoldable pub all_obtained : ℕ → LinkPage → LinkPage
unfolding token_obtained
all_obtained zero p = p
all_obtained (suc left) p = all_obtained left (token_obtained left p)

-- The new token is announced first, and then the promise is resolved.
unfoldable pub token_arrives : LinkPage → LinkPage
unfolding on_new_token all_obtained
token_arrives p = let q = on_new_token p in all_obtained q.waiting q

-- The checks fail, a token arrives, and so on, `n` times.
unfoldable pub rounds : HttpError → ℕ → LinkPage → LinkPage
unfolding all_fail token_arrives
rounds error zero p = p
rounds error (suc n) p = rounds error n (token_arrives (all_fail error p.checks p))

module _ (error : HttpError) (needs : needs_token error ≡ true) where
  check_failed-counts :
      (left : ℕ) (p : LinkPage)
      → let q = check_failed error left p in
        (q.checks ≡ left) × (q.waiting ≡ suc p.waiting) × (q.listening ≡ true)
  unfolding check_failed
  check_failed-counts left p = rw needs (refl, refl, refl)

  all_fail-counts :
      (n : ℕ) (p : LinkPage)
      → p.checks ≡ n
      → let q = all_fail error n p in (q.checks ≡ 0) × (q.waiting ≡ p.waiting + n)
  unfolding all_fail
  all_fail-counts zero p k = (k, omega arith)
  all_fail-counts (suc n) p k =
      let (checks, waiting, listening) = check_failed-counts n p in
      let (none_out, all_wait) = all_fail-counts n (check_failed error n p) checks in
      (none_out, omega arith)

  all_fail-listening : (n : ℕ) (p : LinkPage) → 0 < n → (all_fail error n p).listening ≡ true
  unfolding all_fail
  all_fail-listening zero p k = absurd (omega arith)
  all_fail-listening (suc zero) p k = (check_failed-counts zero p).2
  all_fail-listening (suc (suc n)) p k =
      all_fail-listening (suc n) (check_failed error (suc n) p) (omega arith)

all_obtained-counts :
    (n : ℕ) (p : LinkPage)
    → p.waiting ≡ n
    → let q = all_obtained n p in (q.checks ≡ p.checks + n) × (q.waiting ≡ 0)
unfolding all_obtained token_obtained link_required
all_obtained-counts zero p k = (omega arith, k)
all_obtained-counts (suc n) p k =
    let (checks, waiting) = all_obtained-counts n (token_obtained n p) refl in
    (omega arith, waiting)

on_new_token-listening : (p : LinkPage) → p.listening ≡ true → on_new_token p ≡ link_required p
unfolding on_new_token
on_new_token-listening p listens = rw listens refl

token_arrives-counts :
    (p : LinkPage)
    → p.listening ≡ true
    → let q = token_arrives p in (q.checks ≡ p.checks + p.waiting + 1) × (q.waiting ≡ 0)
unfolding token_arrives link_required
token_arrives-counts p listens = rw (on_new_token-listening p listens) (
    let (checks, waiting) = all_obtained-counts p.waiting (link_required p) refl in
    (omega arith, waiting))

module _ (error : HttpError) (needs : needs_token error ≡ true) where
  one_round :
      (p : LinkPage)
      → 0 < p.checks
      → p.waiting ≡ 0
      → let q = token_arrives (all_fail error p.checks p) in
        (q.checks ≡ p.checks + 1) × (q.waiting ≡ 0)
  one_round p out none_wait =
      let (none_out, all_wait) = all_fail-counts error needs p.checks p refl in
      let listens = all_fail-listening error needs p.checks p out in
      let (checks, waiting) = token_arrives-counts (all_fail error p.checks p) listens in
      (omega arith, waiting)

  -- Let checks be out and none wait for a token, and let every check fail for want of a token and the
  -- token then be obtained, `n` times: each time one check more goes out than had failed, since the
  -- event and the promise of the one token both start checks; and no check waits for a token.
  pub rounds-checks :
      (n : ℕ) (p : LinkPage)
      → 0 < p.checks
      → p.waiting ≡ 0
      → ((rounds error n p).checks ≡ p.checks + n) × ((rounds error n p).waiting ≡ 0)
  unfolding rounds
  rounds-checks zero p out none_wait = (omega arith, none_wait)
  rounds-checks (suc n) p out none_wait =
      let (checks, waiting) = one_round p out none_wait in
      let (more, none_waits) =
        rounds-checks n (token_arrives (all_fail error p.checks p)) (omega arith) waiting in
      (omega arith, none_waits)
