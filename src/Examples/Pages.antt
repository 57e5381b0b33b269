-- ===== src/Examples/Pages.antt =====
-- static/restart.js, static/imagewatch.js and the flashing of static/dashboard.js at concrete inputs.
use flamenco_manager.Common.{refl, String, ◌≡◌, some, none, List, [], ◌∷◌}
use flamenco_manager.Auth.Ajax.{Result, rejected, request}
use flamenco_manager.Dashboard.Feedback.{
  Element, new_element, flash_once, run_task, delay, fade, to_clean, flashed, ran, Reach, here,
  next,
}
use flamenco_manager.Images.{Event, new_jwt_token, image, run, start}
use flamenco_manager.Images.Sources.{IsListening, run-start-IsListening}

abbrev answer : Result String
answer = rejected (record { status = some 0; response_text = none }) (some request)

abbrev happened : List Event
happened = image 12 "last.jpg" ∷ new_jwt_token ∷ image 13 "last.jpg" ∷ []

run-start-IsListening_example : IsListening (run happened (start "/first.jpg" "none"))
run-start-IsListening_example = run-start-IsListening "/first.jpg" "none" happened

abbrev flashed_once : Element
flashed_once = flash_once new_element

abbrev after_delay : Element
after_delay = run_task (delay 500) (fade ∷ delay 1000 ∷ to_clean ∷ []) flashed_once

abbrev after_fade : Element
after_fade = run_task fade (delay 1000 ∷ to_clean ∷ []) after_delay

abbrev after_flash : Element
after_flash = run_task to_clean [] (run_task (delay 1000) (to_clean ∷ []) after_fade)

run_flash : Reach new_element after_flash
unfolding new_element flash_once run_task
run_flash =
    next
      (next
        (next
          (next (next here (flashed refl))
            (ran (delay 500) (fade ∷ delay 1000 ∷ to_clean ∷ []) refl refl))
          (ran fade (delay 1000 ∷ to_clean ∷ []) refl refl))
        (ran (delay 1000) (to_clean ∷ []) refl refl))
      (ran to_clean [] refl refl)

flash_has_ended : after_flash.queue ≡ []
unfolding run_task
flash_has_ended = refl
