-- ===== src/Dashboard/Remembered/Reload.antt =====
-- The selection is still there when the page is loaded again.
use flamenco_manager.Common.{
  String, ◌≡◌, refl, Option, none, some, List, inl, false, inr, Bool-cases, ◌==◌,
}
use flamenco_manager.Common.Http.{HttpError, needs_token}
use flamenco_manager.Common.Int.{ℤ}
use flamenco_manager.Dashboard.Storage.{
  Json, parse_selected, load_selected_workers, load_selected_workers-store_selected_workers,
}
use flamenco_manager.Dashboard.App.{
  App, load_workers, load_failed, on_jwt_server_error, on_jwt_manager_error, on_new_token,
}
use flamenco_manager.Dashboard.Remembered.{
  Tab, opened, watched, Step, clicked, toggled, arrives, asked, fails, renewed, server_refused,
  manager_refused, reloaded, Reach, here, next,
}

module _ (json : Json) where
  parse_selected-again :
      (text : String) (parsed : Option (Option (List String)))
      → json.parse text ≡ parsed
      → (text == "") ≡ false
      → load_selected_workers json (parse_selected json text parsed).1
        ≡ parse_selected json text parsed
  unfolding load_selected_workers parse_selected
  parse_selected-again text none k n = refl
  parse_selected-again text (some none) k n = rw (n, k) refl
  parse_selected-again text (some (some ids)) k n = rw (n, k) refl

  -- Loading the selection twice is loading it once.
  load_selected_workers-again :
      (stored : Option String)
      → load_selected_workers json (load_selected_workers json stored).1
        ≡ load_selected_workers json stored
  unfolding load_selected_workers parse_selected
  load_selected_workers-again none = refl
  load_selected_workers-again (some text) = elim (Bool-cases (text == "")) [
    | inl e ↦ rw e (rw e refl)
    | inr n ↦ rw n (parse_selected-again text (json.parse text) refl n)
  ]

module _ (json : Json) {V : Type 0} where
  -- The storage holds what the page would be loaded with.
  abbrev IsRemembered : Tab V → Type 0
  IsRemembered s = load_selected_workers json s.stored ≡ (s.page.selected_worker_ids, s.stored)

  opened-IsRemembered :
      (app : App V) (stored : Option String) → IsRemembered (opened json app stored)
  unfolding opened
  opened-IsRemembered app stored = load_selected_workers-again json stored

  watched-IsRemembered : (page : App V) → IsRemembered (watched json page)
  unfolding watched
  watched-IsRemembered page =
      load_selected_workers-store_selected_workers json page.selected_worker_ids

  load_failed-selected :
      (error : HttpError) (app : App V)
      → (load_failed error app).0.selected_worker_ids ≡ app.selected_worker_ids
  unfolding load_failed
  load_failed-selected error app = elim (Bool-cases (needs_token error)) [
    | inl e ↦ rw e refl
    | inr e ↦ rw e refl
  ]

  module _ (parse_date : String → Option ℤ) (text_of : Option V → String) where
    Step-IsRemembered :
        {s t : Tab V} → Step json parse_date text_of s t → IsRemembered s → IsRemembered t
    unfolding load_workers on_jwt_server_error on_jwt_manager_error on_new_token
    Step-IsRemembered (clicked flag id e) v = rw e (watched-IsRemembered _)
    Step-IsRemembered (toggled e) v = rw e (watched-IsRemembered _)
    Step-IsRemembered (arrives now info e) v = rw e (watched-IsRemembered _)
    Step-IsRemembered (asked e) v = rw e v
    Step-IsRemembered {s} (fails error e) v = rw (e, load_failed-selected error s.page) v
    Step-IsRemembered (renewed e) v = rw e v
    Step-IsRemembered (server_refused error e) v = rw e v
    Step-IsRemembered (manager_refused error e) v = rw e v
    Step-IsRemembered {s} (reloaded app e) v = rw e (opened-IsRemembered app s.stored)

    Reach-IsRemembered :
        {s t : Tab V} → IsRemembered s → Reach json parse_date text_of s t → IsRemembered t
    Reach-IsRemembered v here = v
    Reach-IsRemembered v (next r st) = Step-IsRemembered st (Reach-IsRemembered v r)

    -- Whatever the storage held when a page was loaded, after any sequence of clicks on checkboxes,
    -- reports and their failures, token events and further loads of the page, in which nothing else
    -- writes to the storage: when the page is loaded once more, it starts with exactly the selection
    -- that it had, in the same order, and the storage is left as it is.
    pub Reach-opened-reload :
        (app again : App V) (stored : Option String) (t : Tab V)
        → Reach json parse_date text_of (opened json app stored) t
        → opened json again t.stored ≡ record {
          page = record again { selected_worker_ids = t.page.selected_worker_ids };
          stored = t.stored;
        }
    unfolding opened
    Reach-opened-reload app again stored t r =
        rw (Reach-IsRemembered (opened-IsRemembered app stored) r) refl
