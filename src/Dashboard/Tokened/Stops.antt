-- ===== src/Dashboard/Tokened/Stops.antt =====
-- Where security is disabled, the polling loop may stop.
use flamenco_manager.Common.{
  String, ◌≡◌, refl, ◌∙◌, ap, none, some, inl, inr, Option, [], ◌∷◌, arith,
}
use flamenco_manager.Common.Http.{HttpError, needs_token, status_is}
use flamenco_manager.Common.Int.{ℤ}
use flamenco_manager.Auth.Cookies.{Cookies}
use flamenco_manager.Auth.Token.{
  token_urls, obtain_jwt_token, token_urls_failed, forget_promise, answered, loaded,
}
use flamenco_manager.Dashboard.App.{App, load_workers, load_failed}
use flamenco_manager.Dashboard.Tokened.{
  Joint, hear, settle, advance, request, fail, created, fails, urls_fail, Reach, here, next,
}
use flamenco_manager.Dashboard.Tokened.Alive.{IsPolling}
use flamenco_manager.Common.Handles.{close_latest-live, close_latest}

abbrev pub unauthorized : HttpError
unauthorized = record { status = some 401; response_text = none }

abbrev pub missing : HttpError
missing = record { status = some 404; response_text = none }

module _ (c : Cookies) {V : Type 0} where
  -- The page after its first report failed with 401, and after the request for the token's URLs, which that
  -- led to, failed with 404.
  abbrev pub asked : App V → c.Jar → Joint c V
  asked app jar = fail c unauthorized 0 (created c app (loaded c jar))

  abbrev pub stopped : App V → c.Jar → Joint c V
  stopped app jar =
      advance c (token_urls_failed c missing (answered c [] (asked app jar).session))
        (asked app jar)

  asked-outstanding :
      (app : App V) (jar : c.Jar) → (asked app jar).session.outstanding ≡ token_urls ∷ []
  unfolding created request fail load_failed needs_token status_is loaded obtain_jwt_token
  asked-outstanding app jar = refl

  stopped-quiet :
      (app : App V) (jar : c.Jar)
      → ((stopped app jar).page.timers ≡ close_latest app.timers)
        × ((stopped app jar).in_flight ≡ 0)
        × ((stopped app jar).session.outstanding ≡ [])
  unfolding created request fail load_failed load_workers needs_token status_is loaded
      obtain_jwt_token advance hear settle token_urls_failed answered forget_promise
  stopped-quiet app jar = (refl, refl, refl)

  stopped-not-IsPolling :
      (app : App V) (jar : c.Jar) → app.timers.live ≡ [] → ¬ IsPolling c (stopped app jar)
  stopped-not-IsPolling app jar none_live (inl h) =
      h (ap (λ t. t.live) (stopped-quiet app jar).0 ∙ close_latest-live app.timers (inl none_live))
  stopped-not-IsPolling app jar none_live (inr (inl h)) = ground (arith, stopped-quiet app jar)
  stopped-not-IsPolling app jar none_live (inr (inr (r, h))) = ground (arith, stopped-quiet app jar)

  module _ (parse_date : String → Option ℤ) (text_of : Option V → String) where
    -- When no timeout is pending as a page whose scripts have just been loaded is created, the status
    -- report may fail with 401 and the request for the token's URLs then with 404, as when security is
    -- disabled, and the page then polls no longer: no timeout is pending, no status request is out, and
    -- no request for a token.
    pub Reach-created-stops :
        (app : App V) (jar : c.Jar)
        → app.timers.live ≡ []
        → Reach c parse_date text_of (created c app (loaded c jar)) (stopped app jar)
          × ((stopped app jar).page.timers.live ≡ [])
          × ((stopped app jar).in_flight ≡ 0)
          × ((stopped app jar).session.outstanding ≡ [])
          × ¬ IsPolling c (stopped app jar)
    Reach-created-stops app jar none_live = (
      next (next here (fails 0 unauthorized (unfold created request in refl) refl))
          (urls_fail [] [] missing (asked-outstanding app jar) refl),
      ap (λ t. t.live) (stopped-quiet app jar).0 ∙ close_latest-live app.timers (inl none_live),
      (stopped-quiet app jar).1,
      (stopped-quiet app jar).2,
      stopped-not-IsPolling app jar none_live,
    )
