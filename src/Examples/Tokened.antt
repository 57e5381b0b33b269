-- ===== src/Examples/Tokened.antt =====
-- static/dashboard.js with static/jwtauth.js at concrete inputs.
use flamenco_manager.Common.{String, ◌≡◌, refl, false, []}
use flamenco_manager.Common.Http.{needs_token, status_is}
use flamenco_manager.Auth.Token.{
  TokenInfo, obtain_jwt_token, token_urls_done, token_done, set_jwt_token, answered, loaded,
}
use flamenco_manager.Dashboard.App.{load_failed}
use flamenco_manager.Dashboard.Tokened.{
  Joint, advance, request, fail, created, fails, urls_arrive, token_arrives, Reach, here, next,
  settle,
}
use flamenco_manager.Dashboard.Tokened.Answers.{IsOrderly}
use flamenco_manager.Dashboard.Tokened.Alive.{IsPolling, Reach-created-IsPolling}
use flamenco_manager.Dashboard.Tokened.Stops.{unauthorized, stopped, Reach-created-stops}
use flamenco_manager.Examples.Auth.{cookies, no_cookies}
use flamenco_manager.Examples.Dashboard.{parse_date, text_of, page}

abbrev info : TokenInfo
info = record { token_url = "/token"; login_url = "/login" }

abbrev start : Joint cookies String
start = created cookies (page [] []) (loaded cookies no_cookies)

-- The first report fails with 401, and a token is fetched.
abbrev refused : Joint cookies String
refused = fail cookies unauthorized 0 start

abbrev asked : Joint cookies String
asked = advance cookies (token_urls_done cookies info (answered cookies [] refused.session)) refused

abbrev renewed : Joint cookies String
renewed = advance cookies (token_done cookies "token" (answered cookies [] asked.session)) asked

run : Reach cookies parse_date text_of start renewed
unfolding created request fail load_failed needs_token status_is loaded obtain_jwt_token advance
    token_urls_done answered settle
run =
    next (next (next here (fails 0 unauthorized refl refl)) (urls_arrive [] [] info refl refl))
      (token_arrives [] [] info "token" refl refl)

renewed_is_heard : renewed.is_silenced ≡ false
unfolding created request fail load_failed needs_token status_is loaded obtain_jwt_token advance
    token_urls_done token_done set_jwt_token answered settle
renewed_is_heard = refl

Reach-created-IsPolling_example : IsOrderly cookies renewed.session × IsPolling cookies renewed
Reach-created-IsPolling_example =
    Reach-created-IsPolling cookies parse_date text_of (page [] []) no_cookies renewed run
      renewed_is_heard

Reach-created-stops_example :
    Reach cookies parse_date text_of start (stopped cookies (page [] []) no_cookies)
    × ((stopped cookies (page [] []) no_cookies).page.timers.live ≡ [])
    × ((stopped cookies (page [] []) no_cookies).in_flight ≡ 0)
    × ((stopped cookies (page [] []) no_cookies).session.outstanding ≡ [])
    × ¬ IsPolling cookies (stopped cookies (page [] []) no_cookies)
Reach-created-stops_example =
    Reach-created-stops cookies parse_date text_of (page [] []) no_cookies refl
