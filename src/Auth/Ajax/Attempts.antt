-- ===== src/Auth/Ajax/Attempts.antt =====
-- How often `$.jwtAjax` asks, and what it answers.
use flamenco_manager.Common.{
  ℕ, zero, suc, ◌+◌, ◌≤◌, ◌<◌, ◌≡◌, refl, inl, inr, true, false, none, some, ltb, arith, ◌∙◌,
  Bool-cases, ◌-◌,
}
use flamenco_manager.Common.Http.{HttpError, needs_token}
use flamenco_manager.Auth.Ajax.{
  Answer, done, failed, Renewal, renewed, refused, never, jwt, request, Result, resolved, rejected,
  pending, loop_error, perform_request, jwt_ajax,
}

module _ {R : Type 0} (ajax : ℕ → Answer R) (renewal : ℕ → Renewal) where
  -- The n-th request asks for a new token and the renewal is resolved.
  abbrev pub IsRenewed : ℕ → Type 0
  IsRenewed n =
      (e : HttpError) × (ajax n ≡ failed e) × (needs_token e ≡ true) × (renewal n ≡ renewed)

  -- How the n-th round ends the whole, if it does.
  abbrev pub Ends : ℕ → Result R → Type 0
  Ends n (resolved r) = ajax n ≡ done r
  Ends n (rejected e none) = ⊥
  Ends n (rejected e (some request)) = (ajax n ≡ failed e) × (needs_token e ≡ false)
  Ends n (rejected e (some jwt)) =
      (e' : HttpError) × (ajax n ≡ failed e') × (needs_token e' ≡ true) × (renewal n ≡ refused e)
  Ends n pending =
      (e : HttpError) × (ajax n ≡ failed e) × (needs_token e ≡ true) × (renewal n ≡ never)

  perform_request-renewed :
      (fuel n : ℕ)
      → n ≤ 5
      → IsRenewed n
      → perform_request ajax renewal (suc fuel) n ≡ perform_request ajax renewal fuel (suc n)
  unfolding perform_request
  perform_request-renewed fuel n h (e, a, k, r) = ground arith

  perform_request-Ends :
      (fuel n : ℕ) (x : Result R)
      → n ≤ 5
      → Ends n x
      → perform_request ajax renewal (suc fuel) n ≡ some (x, suc n)
  unfolding perform_request
  perform_request-Ends fuel n (resolved r) h e = ground arith
  perform_request-Ends fuel n (rejected e none) h k = absurd k
  perform_request-Ends fuel n (rejected e (some request)) h k = ground arith
  perform_request-Ends fuel n (rejected e (some jwt)) h (e', a, k, r) = ground arith
  perform_request-Ends fuel n pending h (e, a, k, r) = ground arith

  Returns : ℕ → ℕ → Type 0
  Returns fuel n = (x : Result R × ℕ) × (perform_request ajax renewal fuel n ≡ some x) × (x.1 ≤ 6)

  renewal_within :
      (fuel n : ℕ) (e : HttpError) (r : Renewal)
      → n ≤ 5
      → ajax n ≡ failed e
      → needs_token e ≡ true
      → renewal n ≡ r
      → Returns fuel (suc n)
      → Returns (suc fuel) n
  unfolding perform_request Returns
  renewal_within fuel n e renewed h a t q (x, k, le) = (x, ground arith, le)
  renewal_within fuel n e (refused j) h a t q ih =
      ((rejected j (some jwt), suc n), ground arith, omega arith)
  renewal_within fuel n e never h a t q ih = ((pending, suc n), ground arith, omega arith)

  answer_within :
      (fuel n : ℕ) (a : Answer R) → n ≤ 5 → ajax n ≡ a → Returns fuel (suc n) → Returns (suc fuel) n
  unfolding perform_request Returns
  answer_within fuel n (done r) h a ih = ((resolved r, suc n), ground arith, omega arith)
  answer_within fuel n (failed e) h a ih = elim (Bool-cases (needs_token e)) [
    | inl t ↦ renewal_within fuel n e (renewal n) h a t refl ih
    | inr t ↦ ((rejected e (some request), suc n), ground arith, omega arith)
  ]

  -- After `k` renewals the counter has grown by `k`.
  skip_renewed :
      (k fuel n f m : ℕ)
      → f ≡ k + fuel
      → m ≡ n + k
      → m ≤ 6
      → ((i : ℕ) → n ≤ i → i < m → IsRenewed i)
      → perform_request ajax renewal f n ≡ perform_request ajax renewal fuel m
  skip_renewed zero fuel n f m ef em h all =
      let e₁ : f ≡ fuel = omega arith in let e₂ : m ≡ n = omega arith in rw (e₁, e₂)
  skip_renewed (suc k) fuel n zero m ef em h all = absurd (omega arith)
  skip_renewed (suc k) fuel n (suc f) m ef em h all =
      perform_request-renewed f n (omega arith) (all n (omega arith) (omega arith))
      ∙ skip_renewed k fuel (suc n) f m (omega arith) (omega arith) h
          (λ i a b. all i (omega arith) b)

  -- The first round that does not end in a resolved renewal decides: with at most five renewals before it,
  -- the promise is resolved with its response, rejected with the request's own error (stage
  -- "request") or with the error of the renewal (stage "JWT"), or left pending where the page leaves
  -- for the login; and exactly one request more than the renewals has been made.
  pub jwt_ajax-Ends :
      (k : ℕ) (x : Result R)
      → k ≤ 5
      → ((i : ℕ) → i < k → IsRenewed i)
      → Ends k x
      → jwt_ajax ajax renewal ≡ some (x, suc k)
  unfolding jwt_ajax
  jwt_ajax-Ends k x h all e =
      skip_renewed k (suc (6 - k)) 0 7 k (omega arith) (omega arith) (omega arith)
        (λ i a b. all i b)
      ∙ perform_request-Ends (6 - k) k x h e

  -- If six requests in a row ask for a new token and each renewal is resolved, the promise is rejected with
  -- "infinite loop detected", without a stage, and no seventh request is made.
  pub jwt_ajax-loop :
      ((i : ℕ) → i < 6 → IsRenewed i) → jwt_ajax ajax renewal ≡ some (rejected loop_error none, 6)
  unfolding jwt_ajax perform_request
  jwt_ajax-loop all =
      skip_renewed 6 1 0 7 6 (omega arith) (omega arith) (omega arith) (λ i a b. all i b)

  perform_request_total : (fuel n : ℕ) → 6 < fuel + n → n ≤ 6 → Returns fuel n
  unfolding perform_request Returns
  perform_request_total zero n h k = absurd (omega arith)
  perform_request_total (suc fuel) n h k = elim (Bool-cases (ltb 5 n)) [
    | inl y ↦ ((rejected loop_error none, n), ground arith, k)
    | inr y ↦
        answer_within fuel n (ajax n) (ground arith) refl
          (perform_request_total fuel (suc n) (omega arith) (ground arith))
  ]

  -- Whatever the answers and renewals are, the fuel is enough: there is an outcome, after at most six
  -- requests.
  pub jwt_ajax_total : (x : Result R × ℕ) × (jwt_ajax ajax renewal ≡ some x) × (x.1 ≤ 6)
  unfolding jwt_ajax Returns
  jwt_ajax_total = perform_request_total 7 0 (omega arith) (omega arith)
