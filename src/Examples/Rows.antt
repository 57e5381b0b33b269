-- ===== src/Examples/Rows.antt =====
-- static/dashboard.js at concrete inputs: schedules, rows, pools and the local storage.
use Prim.Native.Char.{code}
use Prim.Native.String
use mathlib.Core.Option
use text.Mathlib.TextLemmas.{nil-append, cons-append, cons-ne-nil}
use flamenco_manager.Common.{
  ap, ◌∙◌, String, ◌≡◌, refl, true, false, Option, none, some, List, [], ◌∷◌, if◌then◌else◌, nat_eq,
}
use flamenco_manager.Dashboard.Storage.{Json}
use flamenco_manager.Common.Http.{HttpError}
use flamenco_manager.Dashboard.App.{on_worker_selected, load_failed}
use flamenco_manager.Dashboard.Remembered.{Tab, opened, watched, clicked, fails, Reach, here, next}
use flamenco_manager.Dashboard.Remembered.Reload.{Reach-opened-reload}
use flamenco_manager.Examples.Dashboard.{parse_date, text_of, page}
use flamenco_manager.Common.ParseInt.{parse_int}
use flamenco_manager.Common.Int.{negsuc}
use flamenco_manager.Dashboard.Schedule.{Schedule}
use flamenco_manager.Dashboard.Pools.{Pool}

abbrev schedule : Schedule
schedule = record {
  schedule_active = some false;
  days_of_week = some "mo tu";
  time_start = some "09:00";
  time_end = some "";
}

abbrev pool : Pool
pool = record {
  id = "pool-1";
  allocation_state = "steady";
  current_size = record { dedicated_nodes = 1; low_priority_nodes = 2 };
  desired_size = record { dedicated_nodes = 1; low_priority_nodes = 5 };
}

-- A coding of lists of texts: every character stands behind a quote, every text ends in a semicolon.
abbrev code_text : String → String → String
code_text String.[] rest = String.◌∷◌ ";" rest
code_text (String.◌∷◌ c s) rest = String.◌∷◌ "'" (String.◌∷◌ c (code_text s rest))

abbrev code_list : List String → String
code_list [] = ""
code_list (s ∷ ss) = code_text s (code_list ss)

abbrev new_text : Option (List String) → Option (List String)
new_text none = none
new_text (some ss) = some ("" ∷ ss)

abbrev quoted : String → Option (List String) → Option (List String)
quoted c none = none
quoted c (some []) = none
quoted c (some (s ∷ ss)) = some (String.◌++◌ c s ∷ ss)

abbrev decode : String → Option (List String)
decode String.[] = some []
decode (String.◌∷◌ a String.[]) = if nat_eq (code a) b';' then some ("" ∷ []) else none
decode (String.◌∷◌ a (String.◌∷◌ c s)) =
    let whole = decode (String.◌∷◌ c s) in
    let rest = decode s in
    if nat_eq (code a) b';' then new_text whole else quoted (String.◌∷◌ c "") rest

decode-semicolon : (r : String) → decode (String.◌∷◌ ";" r) ≡ new_text (decode r)
decode-semicolon String.[] = refl
decode-semicolon (String.◌∷◌ c r) = refl

decode-code_text :
    (s r : String) (ss : List String) → decode r ≡ some ss → decode (code_text s r) ≡ some (s ∷ ss)
decode-code_text String.[] r ss e = decode-semicolon r ∙ rw e
decode-code_text (String.◌∷◌ c s) r ss e =
    let w : String.◌++◌ (String.◌∷◌ c "") s ≡ String.◌∷◌ c s =
      cons-append c "" s ∙ ap (String.◌∷◌ c) (nil-append s) in
    rw (decode-code_text s r ss e, w)

decode-code_list : (ss : List String) → decode (code_list ss) ≡ some ss
decode-code_list [] = refl
decode-code_list (s ∷ ss) = decode-code_text s (code_list ss) ss (decode-code_list ss)

abbrev parse : String → Option (Option (List String))
parse String.[] = none
parse (String.◌∷◌ c s) = Option.map some (decode s)

parse-code : (ss : List String) → parse (String.◌∷◌ "[" (code_list ss)) ≡ some (some ss)
parse-code ss = ap (Option.map some) (decode-code_list ss)

abbrev json : Json
json = record {
  stringify = λ ss. String.◌∷◌ "[" (code_list ss);
  parse = parse;
  parse-stringify = parse-code;
  stringify-ne-empty = λ ss e. cons-ne-nil "[" (code_list ss) e;
}

parse_int_test : (parse_int " -17px" ≡ some (negsuc 16)) × (parse_int "px" ≡ none)
unfolding parse_int
parse_int_test = (refl, refl)

abbrev no_answer : HttpError
no_answer = record { status = some 0; response_text = none }

-- A page without a selection, on which the checkbox of "w1" has been clicked and a report has failed.
abbrev opened_tab : Tab String
opened_tab = opened json (page [] []) none

abbrev clicked_tab : Tab String
clicked_tab = watched json (on_worker_selected true "w1" opened_tab.page)

abbrev failed_tab : Tab String
failed_tab = record clicked_tab { page = (load_failed no_answer clicked_tab.page).0 }

run : Reach json parse_date text_of opened_tab failed_tab
run = next (next here (clicked true "w1" refl)) (fails no_answer refl)

Reach-opened-reload_example : opened json (page ("w9" ∷ []) []) failed_tab.stored ≡ record {
  page = record (page ("w9" ∷ []) []) { selected_worker_ids = failed_tab.page.selected_worker_ids };
  stored = failed_tab.stored;
}
Reach-opened-reload_example =
    Reach-opened-reload json parse_date text_of (page [] []) (page ("w9" ∷ []) []) none failed_tab
      run
