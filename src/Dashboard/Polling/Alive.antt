-- ===== src/Dashboard/Polling/Alive.antt =====
-- The polling loop does not stop, and there is one timeout at most.
use flamenco_manager.Common.{
  ℕ, ◌<◌, String, ◌≡◌, ◌≢◌, ◌⊎◌, inl, inr, true, Option, [], arith, Bool-cases,
}
use flamenco_manager.Common.Handles.{
  IsExclusive, close_latest, end-IsExclusive, replace-IsExclusive, close_latest-IsExclusive,
  open_new-ne-nil,
}
use flamenco_manager.Common.Http.{HttpError, needs_token}
use flamenco_manager.Common.Int.{ℤ}
use flamenco_manager.Dashboard.Timers.{Timers, load_workers_after_ms, load_workers_soon}
use flamenco_manager.Dashboard.App.{
  App, load_done, on_new_token, on_jwt_server_error, on_jwt_manager_error, on_worker_selected,
  toggle_select_all_workers,
}
use flamenco_manager.Dashboard.Polling.{
  System, request, fire, created, fail, settle_silently, Step, fires, called, answered, failed,
  token_renewed, server_refused, manager_refused, selected, toggled, Reach, here, next,
}

module _ (ms : ℕ) (t : Timers) where
  pub load_workers_after_ms-IsExclusive : IsExclusive t → IsExclusive (load_workers_after_ms ms t)
  unfolding load_workers_after_ms
  load_workers_after_ms-IsExclusive v = replace-IsExclusive ms t v

  pub load_workers_after_ms-ne-nil : (load_workers_after_ms ms t).live ≢ []
  unfolding load_workers_after_ms
  load_workers_after_ms-ne-nil = open_new-ne-nil ms (close_latest t)

module _ {V : Type 0} where
  -- A timeout is set, a request is out, or a token is being fetched.
  abbrev pub IsAlive : System V → Type 0
  IsAlive s = (s.app.timers.live ≢ []) ⊎ (0 < s.in_flight) ⊎ (s.awaiting ≡ true)

  -- One timeout and one clipboard at most, each the one that its variable names.
  pub record IsSound (s : System V) : Type 0 where
    pub alive : IsAlive s
    pub one_timer : IsExclusive s.app.timers
    pub one_clipboard : IsExclusive s.app.clipboards

  request-IsSound :
      (s : System V) → IsExclusive s.app.timers → IsExclusive s.app.clipboards → IsSound (request s)
  unfolding request
  request-IsSound s one clip = record {
    alive = inr (inl (omega arith));
    one_timer = close_latest-IsExclusive s.app.timers one;
    one_clipboard = clip;
  }

  created-IsSound :
      (app : App V) → IsExclusive app.timers → IsExclusive app.clipboards → IsSound (created app)
  unfolding created
  created-IsSound app one clip = request-IsSound _ one clip

  fail-IsSound :
      (error : HttpError) (left : ℕ) (s : System V) → IsSound s → IsSound (fail error left s)
  unfolding fail
  fail-IsSound error left s v = elim (Bool-cases (needs_token error)) [
    | inl e ↦ record {
      alive = inr (inr (rw e (ground arith)));
      one_timer = rw e v.one_timer;
      one_clipboard = rw e (replace-IsExclusive tt s.app.clipboards v.one_clipboard);
    }
    | inr e ↦ record {
      alive = inl (rw e (load_workers_after_ms-ne-nil 10000 s.app.timers));
      one_timer = rw e (load_workers_after_ms-IsExclusive 10000 s.app.timers v.one_timer);
      one_clipboard = rw e (replace-IsExclusive tt s.app.clipboards v.one_clipboard);
    }
  ]

  module _ (parse_date : String → Option ℤ) (text_of : Option V → String) where
    Step-IsSound : {s t : System V} → Step parse_date text_of s t → IsSound s → IsSound t
    unfolding fire load_done on_new_token on_jwt_server_error on_jwt_manager_error
        on_worker_selected toggle_select_all_workers load_workers_soon
    Step-IsSound {s} (fires h ms m e) v =
        rw e (request-IsSound _ (end-IsExclusive h s.app.timers v.one_timer) v.one_clipboard)
    Step-IsSound {s} (called e) v = rw e (request-IsSound s v.one_timer v.one_clipboard)
    Step-IsSound {s} (answered left now info k e) v = rw e (record {
      alive = inl (load_workers_after_ms-ne-nil 2000 s.app.timers);
      one_timer = load_workers_after_ms-IsExclusive 2000 s.app.timers v.one_timer;
      one_clipboard = replace-IsExclusive tt s.app.clipboards v.one_clipboard;
    })
    Step-IsSound {s} (failed left error k e) v = rw e (fail-IsSound error left s v)
    Step-IsSound {s} (token_renewed e) v = rw e (record {
      alive = inl (load_workers_after_ms-ne-nil 250 s.app.timers);
      one_timer = load_workers_after_ms-IsExclusive 250 s.app.timers v.one_timer;
      one_clipboard = v.one_clipboard;
    })
    Step-IsSound {s} (server_refused error e) v = rw e (record {
      alive = inl (load_workers_after_ms-ne-nil 5000 s.app.timers);
      one_timer = load_workers_after_ms-IsExclusive 5000 s.app.timers v.one_timer;
      one_clipboard = v.one_clipboard;
    })
    Step-IsSound {s} (manager_refused error e) v = rw e (record {
      alive = inl (load_workers_after_ms-ne-nil 5000 s.app.timers);
      one_timer = load_workers_after_ms-IsExclusive 5000 s.app.timers v.one_timer;
      one_clipboard = v.one_clipboard;
    })
    Step-IsSound {s} (selected b id e) v =
        rw e (record { alive = v.alive; one_timer = v.one_timer; one_clipboard = v.one_clipboard })
    Step-IsSound {s} (toggled e) v =
        rw e (record { alive = v.alive; one_timer = v.one_timer; one_clipboard = v.one_clipboard })

    -- Polling.
    pub Reach-IsSound : {s t : System V} → IsSound s → Reach parse_date text_of s t → IsSound t
    Reach-IsSound h here = h
    Reach-IsSound h (next r st) = Step-IsSound st (Reach-IsSound h r)

    -- From the page's creation on, after any sequence of timeouts, calls of `loadWorkers`, answers,
    -- failures, token events and selections, in which no awaited token is settled without an event,
    -- the page still polls (a timeout is pending, a request
    -- is out or a token is awaited), at most one timeout is pending, at most one clipboard is live,
    -- and each is the one its variable names; if this exclusiveness held before creation.
    pub Reach-created-IsSound :
        (app : App V) (t : System V)
        → IsExclusive app.timers
        → IsExclusive app.clipboards
        → Reach parse_date text_of (created app) t
        → IsSound t
    Reach-created-IsSound app t one clip r = Reach-IsSound (created-IsSound app one clip) r

  -- If the only request fails with 401 or 498 while no timeout is pending, and the token promise is
  -- then resolved without an event, the page polls no longer: no timeout, no request, no token
  -- awaited.
  pub settle_silently-fail-not-IsAlive :
      (error : HttpError) (s : System V)
      → needs_token error ≡ true
      → s.app.timers.live ≡ []
      → s.in_flight ≡ 1
      → ¬ IsAlive (settle_silently (fail error 0 s))
  unfolding settle_silently fail
  settle_silently-fail-not-IsAlive error s e none_live one (inl h) = h (rw e none_live)
  settle_silently-fail-not-IsAlive error s e none_live one (inr (inl h)) = omega arith
  settle_silently-fail-not-IsAlive error s e none_live one (inr (inr h)) = cc
