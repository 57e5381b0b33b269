-- ===== src/Setup/Link.antt =====
-- static/websetup/websetup.js: linking the manager to a server (`linkRequired`, `linkButtonClicked`,
-- `showLinkButton`, `hideLinkButton`).
pub mod Twice
pub mod Rounds
use flamenco_manager.Common.{
  ℕ, suc, String, Bool, true, false, not, ◌&&◌, Option, none, some, List, [], ◌∷◌, if◌then◌else◌,
  ◌==◌,
}
use flamenco_manager.Common.Decimal.{join}
use flamenco_manager.Common.Http.{HttpError, needs_token, shown}

-- The answer of `/setup/api/link-required`.
pub record LinkAnswer : Type 0 where
  pub link_required : Bool
  pub server_url : String

-- What the page shows of the link, whether `linkRequired` listens to `newJWTToken` (a listener is added
-- once at most), the checks that are not answered, and how many wait for `obtainJWTToken()`.
pub record LinkPage : Type 0 where
  pub link_button : Bool
  pub link_form : Bool
  pub relink_action : Bool
  pub in_progress : Bool
  -- The text of `#link-check-result`, and whether it is put there as HTML.
  pub check_result : String
  pub check_is_html : Bool
  -- `#link-start-result`, and whether it has been shown.
  pub start_result : String
  pub start_shown : Bool
  pub listening : Bool
  pub checks : ℕ
  pub waiting : ℕ
  pub location : Option String

-- `showLinkButton`.
unfoldable pub show_link_button : LinkPage → LinkPage
show_link_button p = record p { link_button = true; link_form = true; relink_action = false }

-- `hideLinkButton`.
unfoldable pub hide_link_button : LinkPage → LinkPage
hide_link_button p = record p { link_button = false; link_form = false; relink_action = true }

-- `linkRequired`.
unfoldable pub link_required : LinkPage → LinkPage
link_required p = record p { checks = suc p.checks }

-- Its `.fail`, with `.always`; `left` checks remain.
unfoldable pub check_failed : HttpError → ℕ → LinkPage → LinkPage
unfolding needs_token show_link_button shown join
check_failed error left p =
    if needs_token error
    then record p { listening = true; waiting = suc p.waiting; checks = left; in_progress = false }
    else record (show_link_button p) {
      check_result = join ("Link check failed: " ∷ shown error.response_text ∷ []);
      check_is_html = false;
      checks = left;
      in_progress = false;
    }

-- Its `.done`, with `.always`.
unfoldable pub check_done : LinkAnswer → ℕ → LinkPage → LinkPage
unfolding show_link_button join
check_done answer left p =
    let q = record p { listening = false; checks = left; in_progress = false } in
    if answer.link_required
    then record (show_link_button q) {
      check_result = "You need to link this Flamenco Manager to a Flamenco Server.";
      check_is_html = false;
    }
    else record q {
      check_result =
          join
            ("This Flamenco Manager is linked to a Flamenco Server at " ∷ answer.server_url ∷ []);
      check_is_html = false;
      relink_action = true;
    }

-- The listener of `newJWTToken`.
unfoldable pub on_new_token : LinkPage → LinkPage
unfolding link_required
on_new_token p = if p.listening then link_required p else p

-- `.then(linkRequired)` of one call of `obtainJWTToken()`; `left` still wait.
unfoldable pub token_obtained : ℕ → LinkPage → LinkPage
unfolding link_required
token_obtained left p = link_required (record p { waiting = left })

unfoldable pub auth_failed_text : String → String
unfolding join
auth_failed_text reason = join ("Link check failed auth check: " ∷ reason ∷ [])

unfoldable pub has_text : Option String → Bool
has_text none = false
has_text (some t) = not (t == "")

unfoldable pub reason : Option String → String
unfolding has_text shown
reason o = if has_text o then shown o else "unable to connect to Flamenco Server"

-- The `.catch` of `obtainJWTToken()`: an answer's text is put in as HTML if the answer says that it is
-- HTML (`is_html`). Without a Content-Type header (`none`) the handler fails after the button is shown.
unfoldable pub token_not_obtained : Option Bool → Option String → ℕ → LinkPage → LinkPage
unfolding show_link_button reason auth_failed_text has_text
token_not_obtained none response_text left p = record (show_link_button p) { waiting = left }
token_not_obtained (some is_html) response_text left p = record (show_link_button p) {
  check_result = auth_failed_text (reason response_text);
  check_is_html = is_html && has_text response_text;
  waiting = left;
}

-- `linkButtonClicked` at the text of `#link-server-url`: the server that the manager is asked, by
-- `/setup/api/link-start`, to link to.
unfoldable pub link_button_clicked : String → LinkPage → LinkPage × String
link_button_clicked server p = (record p { start_result = "" }, server)

-- Its `.done` and `.fail`.
unfoldable pub link_started : String → LinkPage → LinkPage
link_started location p = record p {
  start_result = "Redirecting to your Flamenco Server";
  start_shown = true;
  location = some location;
}

unfoldable pub link_not_started : HttpError → LinkPage → LinkPage
unfolding shown join
link_not_started err p = record p {
  start_result = join ("Linking could not start: " ∷ shown err.response_text ∷ []);
  start_shown = true;
}
