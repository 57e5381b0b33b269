-- ===== src/Dashboard/Tokened/Alive.antt =====
-- The polling loop does not stop while it waits for a token.
use flamenco_manager.Common.{
  ℕ, suc, ◌<◌, String, ◌≡◌, refl, ◌≢◌, ◌∙◌, ◌⊎◌, inl, inr, true, false, Option, List, [], ◌∷◌, ◌++◌,
  length, arith, Bool-cases,
}
use flamenco_manager.Common.Handles.{end}
use flamenco_manager.Common.Http.{HttpError, needs_token}
use flamenco_manager.Common.Int.{ℤ}
use flamenco_manager.Auth.Cookies.{Cookies}
use flamenco_manager.Auth.Token.{
  Event, Request, token_urls, token_of, pending, Session, remove_jwt_token, obtain_jwt_token,
  token_urls_failed, token_urls_done, token_failed, token_done, forget_promise, answered, loaded,
}
use flamenco_manager.Dashboard.App.{
  App, load_workers, load_done, load_failed, on_worker_selected, toggle_select_all_workers,
}
use flamenco_manager.Dashboard.Polling.Alive.{load_workers_after_ms-ne-nil}
use flamenco_manager.Dashboard.Tokened.{
  Joint, settle, advance, request, fire, fail, created, Step, fires, called, arrives, fails,
  selected, toggled, obtains, forgets, urls_fail, urls_arrive, token_fails, token_arrives, Reach,
  here, next,
}
use flamenco_manager.Dashboard.Tokened.Answers.{
  dispatch-ne-nil, nat_eq_same, hear-new, IsOrderly, Outcome, token_urls_failed-Outcome,
  token_urls_done-Outcome, token_failed-Outcome, token_done-Outcome, obtain_jwt_token-out,
  answered-none, settle-pending, settle-done,
}

module _ (c : Cookies) {V : Type 0} where
  -- A timeout is pending, a status request is out or a token request is.
  abbrev pub IsPolling : Joint c V → Type 0
  IsPolling j =
      (j.page.timers.live ≢ [])
      ⊎ (0 < j.in_flight)
      ⊎ ((r : Request) × (j.session.outstanding ≡ r ∷ []))

  abbrev IsSteady : Joint c V → Type 0
  IsSteady j = (j.is_silenced ≡ true) ⊎ (IsOrderly c j.session × IsPolling j)

  advance-session : (s : Session c) (j : Joint c V) → (advance c s j).session ≡ settle c s
  unfolding advance
  advance-session s j = refl

  -- The page after an answer, when the events are the same and when there is a new one.
  advance-heard :
      (s : Session c) (j : Joint c V) (e : Event)
      → s.events ≡ e ∷ j.session.events
      → (advance c s j).page.timers.live ≢ []
  unfolding advance
  advance-heard s j e new = rw (new, hear-new e j.session.events j.page) (dispatch-ne-nil e j.page)

  advance-silenced :
      (s : Session c) (j : Joint c V)
      → s.events ≡ j.session.events
      → s.outstanding ≡ []
      → (advance c s j).is_silenced ≡ true
  unfolding advance
  advance-silenced s j same none_out =
      rw (same, none_out, nat_eq_same (length j.session.events)) (ground arith)

  advance-IsSteady :
      (s : Session c) (j : Joint c V) → Outcome c j.session.events s → IsSteady (advance c s j)
  unfolding forget_promise
  advance-IsSteady s j (inl (same, (r, out), wait)) =
      let e = advance-session s j ∙ settle-pending c s wait in
      inr (inr (r, rw e out, rw e wait), inr (inr (r, rw e out)))
  advance-IsSteady s j (inr (inl ((e, new), none_out, done))) =
      let k = advance-session s j ∙ settle-done c s done in
      inr (inl (rw k refl, rw k none_out), inl (advance-heard s j e new))
  advance-IsSteady s j (inr (inr (same, none_out))) = inl (advance-silenced s j same none_out)

  advance-keeps :
      (s : Session c) (j : Joint c V) → j.is_silenced ≡ true → (advance c s j).is_silenced ≡ true
  unfolding advance
  advance-keeps s j e = rw e refl

  -- A step of the page after which a timeout or a status request is out.
  page-IsSteady :
      (page : App V) (n : ℕ) (j : Joint c V)
      → (page.timers.live ≢ []) ⊎ (0 < n)
      → IsSteady j
      → IsSteady (record j { page = page; in_flight = n })
  page-IsSteady page n j polls (inl silent) = inl silent
  page-IsSteady page n j (inl live) (inr (o, alive)) = inr (o, inl live)
  page-IsSteady page n j (inr out) (inr (o, alive)) = inr (o, inr (inl out))

  obtains-IsSteady :
      (j : Joint c V) → IsSteady j → IsSteady (record j { session = obtain_jwt_token c j.session })
  obtains-IsSteady j (inl silent) = inl silent
  obtains-IsSteady j (inr (o, alive)) =
      let (r, out, wait) = obtain_jwt_token-out c j.session o in
      inr (inr (r, out, wait), inr (inr (r, out)))

  fail-IsSteady :
      (error : HttpError) (left : ℕ) (j : Joint c V) → IsSteady j → IsSteady (fail c error left j)
  unfolding fail load_failed
  fail-IsSteady error left j (inl q) = inl q
  fail-IsSteady error left j (inr (o, alive)) = elim (Bool-cases (needs_token error)) [
    | inl y ↦
        let (r, out, wait) = obtain_jwt_token-out c j.session o in
        inr (inr (r, rw y out, rw y wait), inr (inr (r, rw y out)))
    | inr y ↦ inr (rw y o, inl (rw y (load_workers_after_ms-ne-nil 10000 j.page.timers)))
  ]

  answer-IsSteady :
      (j : Joint c V) (before after : List Request) (q : Request) (s : Session c)
      → j.session.outstanding ≡ before ++ q ∷ after
      → (((answered c (before ++ after) j.session).outstanding ≡ [])
          → ((answered c (before ++ after) j.session).promise ≡ pending)
          → Outcome c j.session.events s)
      → IsSteady j
      → IsSteady (advance c s j)
  answer-IsSteady j before after q s k out (inl silent) = inl (advance-keeps s j silent)
  answer-IsSteady j before after q s k out (inr (o, alive)) =
      let (none_out, wait) = answered-none c j.session before after q o k in
      advance-IsSteady s j (out none_out wait)

  module _ (parse_date : String → Option ℤ) (text_of : Option V → String) where
    Step-IsSteady : {j k : Joint c V} → Step c parse_date text_of j k → IsSteady j → IsSteady k
    unfolding fire request load_done on_worker_selected toggle_select_all_workers remove_jwt_token
        answered
    Step-IsSteady {j} (fires h ms m e) v = rw e (
        page-IsSteady (load_workers (record (j.page) { timers = end h j.page.timers }))
          (suc j.in_flight) j (inr (omega arith)) v)
    Step-IsSteady {j} (called e) v =
        rw e (page-IsSteady (load_workers j.page) (suc j.in_flight) j (inr (omega arith)) v)
    Step-IsSteady {j} (arrives left now info k e) v = rw e (
        page-IsSteady (load_done parse_date text_of now info j.page) left j
          (inl (load_workers_after_ms-ne-nil 2000 j.page.timers)) v)
    Step-IsSteady {j} (fails left error k e) v = rw e (fail-IsSteady error left j v)
    Step-IsSteady {j} (selected b id e) v = rw e v
    Step-IsSteady {j} (toggled e) v = rw e v
    Step-IsSteady {j} (obtains e) v = rw e (obtains-IsSteady j v)
    Step-IsSteady {j} (forgets e) v = rw e v
    Step-IsSteady {j} (urls_fail b a error k e) v = rw e (
        answer-IsSteady j b a token_urls (token_urls_failed c error (answered c (b ++ a) j.session))
          k (λ n w. token_urls_failed-Outcome c (answered c (b ++ a) j.session) n w error) v)
    Step-IsSteady {j} (urls_arrive b a info k e) v = rw e (
        answer-IsSteady j b a token_urls (token_urls_done c info (answered c (b ++ a) j.session)) k
          (λ n w. token_urls_done-Outcome c (answered c (b ++ a) j.session) n w info) v)
    Step-IsSteady {j} (token_fails b a info error k e) v = rw e (
        answer-IsSteady j b a (token_of info)
          (token_failed c info error (answered c (b ++ a) j.session)) k
          (λ n w. token_failed-Outcome c (answered c (b ++ a) j.session) n w info error) v)
    Step-IsSteady {j} (token_arrives b a info token k e) v = rw e (
        answer-IsSteady j b a (token_of info) (token_done c token (answered c (b ++ a) j.session)) k
          (λ n w. token_done-Outcome c (answered c (b ++ a) j.session) n w token) v)

    Reach-IsSteady : {j k : Joint c V} → IsSteady j → Reach c parse_date text_of j k → IsSteady k
    Reach-IsSteady v here = v
    Reach-IsSteady v (next r st) = Step-IsSteady st (Reach-IsSteady v r)

    created-IsSteady : (app : App V) (jar : c.Jar) → IsSteady (created c app (loaded c jar))
    unfolding created request loaded
    created-IsSteady app jar = inr (inl (refl, refl), inr (inl (omega arith)))

    -- On a page whose scripts have just been loaded, after any sequence of timeouts, calls of
    -- `loadWorkers`, status reports and their failures, clicks, calls of `obtainJWTToken` and
    -- `removeJWTToken`, and answers to the requests for a token (the listeners run at once, and
    -- `.finally` when the promise is settled): unless a fetching of a token has ended without an event, a
    -- timeout of the dashboard is pending, a status request is out, or exactly one request for a token
    -- is; and either the shared promise is null and no request for a token is out, or the promise is
    -- pending and exactly one is.
    pub Reach-created-IsPolling :
        (app : App V) (jar : c.Jar) (k : Joint c V)
        → Reach c parse_date text_of (created c app (loaded c jar)) k
        → k.is_silenced ≡ false
        → IsOrderly c k.session × IsPolling k
    Reach-created-IsPolling app jar k r audible =
        elim (Reach-IsSteady (created-IsSteady app jar) r) [ inl silent ↦ absurd (cc) | inr v ↦ v ]
