-- ===== src/Dashboard/Timers.antt =====
-- static/dashboard.js: `load_workers_timeout_handle`, `loadWorkersSoon` and `loadWorkersAfterMs`.
use flamenco_manager.Common.{ℕ}
use flamenco_manager.Common.Handles.{Handles, close_latest, open_new}

-- Pending timeouts with their delays, and the script's variable for the latest handle.
abbrev pub Timers : Type 0
Timers = Handles ℕ

-- `loadWorkersAfterMs`: `clearTimeout`, then `setTimeout(vueApp.loadWorkers, milliseconds)`.
unfoldable pub load_workers_after_ms : ℕ → Timers → Timers
load_workers_after_ms milliseconds t = open_new milliseconds (close_latest t)

-- `loadWorkersSoon`.
unfoldable pub load_workers_soon : Timers → Timers
unfolding load_workers_after_ms
load_workers_soon t = load_workers_after_ms 250 t
