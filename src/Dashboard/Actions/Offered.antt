-- ===== src/Dashboard/Actions/Offered.antt =====
-- Which buttons a worker's row offers, and what the action bar sends.
use flamenco_manager.Common.{String, ◌≡◌, refl, ap, Bool, Option, none, some, List, [], ◌∷◌, map}
use flamenco_manager.Common.Decimal.{join}
use flamenco_manager.Dashboard.Requests.{post}
use flamenco_manager.Dashboard.Actions.{
  ActionKey, offline_lazy, asleep_lazy, asleep_immediate, wakeup, ack_timeout, testjob, all_keys,
  key_text, Status, available, payload, actions_for_worker, action_named, for_each_worker,
  perform_bulk_action,
}

-- The statuses of a worker, as the manager names them (flamenco/documents.go).
pub data WorkerStatus : Type 0 where
  starting offline shutdown awake testing timeout asleep error : WorkerStatus

abbrev pub status_name : WorkerStatus → String
status_name starting = "starting"
status_name offline = "offline"
status_name shutdown = "shutdown"
status_name awake = "awake"
status_name testing = "testing"
status_name timeout = "timeout"
status_name asleep = "asleep"
status_name error = "error"

abbrev pub requested_name : Option WorkerStatus → Option String
requested_name none = none
requested_name (some r) = some (status_name r)

-- A worker in a status of the manager's, with such a request or none.
abbrev pub known_status : WorkerStatus → Option WorkerStatus → Status
known_status s r = record { status = some (status_name s); requested = requested_name r }

-- The button that a worker which does not sleep is offered for sleeping.
abbrev pub sleep_button : Option WorkerStatus → ActionKey
sleep_button (some asleep) = asleep_immediate
sleep_button _ = asleep_lazy

-- The buttons by the worker's status.
abbrev pub buttons : WorkerStatus → Option WorkerStatus → List ActionKey
buttons asleep r = wakeup ∷ []
buttons timeout (some asleep) = asleep_immediate ∷ ack_timeout ∷ []
buttons timeout r = ack_timeout ∷ []
buttons testing r = sleep_button r ∷ testjob ∷ []
buttons _ r = sleep_button r ∷ []

-- For every status that the manager gives a worker and every status it may have requested, or none, a
-- row offers exactly these buttons: to wake up if asleep; to acknowledge if timed out; a test job if
-- testing; to sleep lazily if neither asleep nor timed out and sleep is not requested yet; to sleep
-- at once if it is requested. So a sleep that is requested cannot be taken back, and none shuts down.
pub actions_for_worker-eq-buttons :
    (s : WorkerStatus) (r : Option WorkerStatus)
    → actions_for_worker (known_status s r) ≡ buttons s r
unfolding actions_for_worker available
actions_for_worker-eq-buttons asleep none = refl
actions_for_worker-eq-buttons asleep (some starting) = refl
actions_for_worker-eq-buttons _ (some asleep) = refl
actions_for_worker-eq-buttons _ _ = refl

module _ (confirm : String → Bool) where
  for_each_worker-map :
      (k : ActionKey) (ids : List String)
      → for_each_worker confirm k ids
        ≡ map (λ id. post (join ("/worker-action/" ∷ id ∷ [])) (payload k)) ids
  unfolding for_each_worker
  for_each_worker-map k [] = refl
  for_each_worker-map k (id ∷ ids) = rw (for_each_worker-map k ids)

  action_named-key_text : (k : ActionKey) → action_named all_keys (key_text k) ≡ some k
  unfolding action_named
  action_named-key_text offline_lazy = refl
  action_named-key_text _ = refl

  -- For every action of the drop-down, the action bar sends to each selected worker, in order, one
  -- request with the action's payload and does nothing else; it never asks for confirmation.
  pub perform_bulk_action-map :
      (k : ActionKey) (ids : List String)
      → perform_bulk_action confirm (key_text k) ids
        ≡ some (map (λ id. post (join ("/worker-action/" ∷ id ∷ [])) (payload k)) ids)
  unfolding perform_bulk_action
  perform_bulk_action-map k ids =
      rw (action_named-key_text k, perform_bulk_action) (ap some (for_each_worker-map k ids))
