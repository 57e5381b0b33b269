-- ===== src/Dashboard/Feedback.antt =====
-- static/dashboard.js: `flashOnce` on jQuery's queue of an element, and the button that `downloadkick`
-- listens to.
pub mod Flashing
use flamenco_manager.Common.{ℕ, String, ◌≡◌, Bool, true, false, List, [], ◌∷◌, ◌++◌}

-- What `flashOnce` puts into the queue.
pub data Task : Type 0 where
  delay : (ms : ℕ) → Task
  fade to_clean : Task

-- The two classes of an element, and its queue.
pub record Element : Type 0 where
  pub flash_on : Bool
  pub flash_off : Bool
  pub queue : List Task

-- `flashOnce`.
unfoldable pub flash_once : Element → Element
flash_once e = record e {
  flash_on = true;
  queue = e.queue ++ delay 500 ∷ fade ∷ delay 1000 ∷ to_clean ∷ [];
}

-- The head of the queue is run; `rest` is what follows it.
unfoldable pub run_task : Task → List Task → Element → Element
run_task (delay ms) rest e = record e { queue = rest }
run_task fade rest e = record e { flash_on = false; flash_off = true; queue = rest }
run_task to_clean rest e = record e { flash_on = false; flash_off = false; queue = rest }

unfoldable pub new_element : Element
new_element = record { flash_on = false; flash_off = false; queue = [] }

-- The element is flashed again, or its queue goes on.
pub data Step (e f : Element) : Type 0 where
  flashed : f ≡ flash_once e → Step e f
  ran : (t : Task) (rest : List Task) → e.queue ≡ t ∷ rest → f ≡ run_task t rest e → Step e f

pub data Reach (e : Element) : Element → Type 0 where
  here : Reach e e
  next : {f g : Element} → Reach e f → Step f g → Reach e g

-- The button of `downloadkick`: whether it is shown, its text, and the requests that are out.
pub record Button : Type 0 where
  pub shown : Bool
  pub text : String
  pub requests : ℕ

-- `downloadkick` up to the request, and its `.done` and `.fail` where `left` requests remain.
unfoldable pub download_kick : Button → Button
download_kick b = record b { shown = false; requests = ℕ.suc b.requests }

unfoldable pub kick_done : ℕ → Button → Button
kick_done left b = record b { shown = true; requests = left }

unfoldable pub kick_failed : ℕ → Button → Button
kick_failed left b = record b { shown = true; text = "Error, see console."; requests = left }

-- The toastr options that are set when the page is ready.
pub record ToastrOptions : Type 0 where
  pub close_button : Bool
  pub progress_bar : Bool
  pub position_class : String
  pub hide_method : String

unfoldable pub ready_options : ToastrOptions
ready_options = record {
  close_button = true;
  progress_bar = true;
  position_class = "toast-bottom-left";
  hide_method = "slideUp";
}
