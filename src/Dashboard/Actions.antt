-- ===== src/Dashboard/Actions.antt =====
-- static/dashboard.js: `WORKER_ACTIONS`, the buttons of a worker's row (`actions_for_worker`) and the
-- bulk actions of the action bar. The icons of the actions are left out.
pub mod Offered
use flamenco_manager.Common.{
  String, Bool, true, false, not, ◌&&◌, ◌||◌, Option, none, some, List, [], ◌∷◌, ◌++◌,
  if◌then◌else◌, ◌==◌,
}
use flamenco_manager.Dashboard.Requests.{Payload, plain, Effect, worker_action}

-- The keys of `WORKER_ACTIONS`.
pub data ActionKey : Type 0 where
  offline_lazy offline_immediate asleep_lazy asleep_immediate wakeup ack_timeout testjob : ActionKey

unfoldable pub key_text : ActionKey → String
key_text offline_lazy = "offline_lazy"
key_text offline_immediate = "offline_immediate"
key_text asleep_lazy = "asleep_lazy"
key_text asleep_immediate = "asleep_immediate"
key_text wakeup = "wakeup"
key_text ack_timeout = "ack_timeout"
key_text testjob = "testjob"

-- The keys in the order of `for … in`.
abbrev pub all_keys : List ActionKey
all_keys =
    offline_lazy ∷ offline_immediate ∷ asleep_lazy ∷ asleep_immediate ∷ wakeup ∷ ack_timeout
    ∷ testjob ∷ []

-- `a == b` where `a` may be undefined.
unfoldable pub is : Option String → String → Bool
is none t = false
is (some s) t = s == t

-- A worker's status and the status that was requested of it.
pub record Status : Type 0 where
  pub status : Option String
  pub requested : Option String

-- `a == b` where both may be undefined.
unfoldable pub same_status : Option String → Option String → Bool
same_status none none = true
same_status none (some b) = false
same_status (some a) none = false
same_status (some a) (some b) = a == b

-- The `available` functions.
unfoldable pub available : ActionKey → Status → Bool
unfolding is same_status
available offline_lazy s = false
available offline_immediate s = false
available asleep_lazy s =
    not (is s.status "timeout") && not (is s.status "asleep") && not (is s.requested "asleep")
available asleep_immediate s =
    is s.requested "asleep" && not (same_status s.requested s.status) && not (is s.status "asleep")
available wakeup s =
    is s.status "asleep" || is s.requested "asleep_immediate" || is s.requested "asleep_lazy"
available ack_timeout s = is s.status "timeout"
available testjob s = is s.status "testing"

-- What an action sends.
unfoldable pub payload : ActionKey → Payload
unfolding plain
payload offline_lazy = record (plain "shutdown") { lazy = some true }
payload offline_immediate = record (plain "shutdown") { lazy = some false }
payload asleep_lazy = record (plain "set-status") { status = some "asleep"; lazy = some true }
payload asleep_immediate = record (plain "set-status") { status = some "asleep"; lazy = some false }
payload wakeup = record (plain "set-status") { status = some "awake" }
payload ack_timeout = plain "ack-timeout"
payload testjob = plain "send-test-job"

unfoldable pub label : ActionKey → String
label offline_lazy = "Shut Down (after task is finished)"
label offline_immediate = "Shut Down (immediately)"
label asleep_lazy = "Send to Sleep (after task is finished)"
label asleep_immediate = "Send to Sleep (immediately)"
label wakeup = "Wake Up"
label ack_timeout = "Acknowledge Timeout"
label testjob = "Send a Test Job"

-- The loop of `actions_for_worker`: a key that is one of the statuses is skipped, and so is an
-- action that is not available.
unfoldable pub offered_from : Status → List ActionKey → List ActionKey
unfolding key_text is
offered_from s [] = []
offered_from s (k ∷ ks) =
    let rest = offered_from s ks in
    if is s.status (key_text k) || is s.requested (key_text k)
    then rest
    else if not (available k s)
    then rest
    else k ∷ rest

-- `actions_for_worker`.
unfoldable pub actions_for_worker : Status → List ActionKey
unfolding offered_from
actions_for_worker s = offered_from s all_keys

-- `performWorkerAction` of a row.
unfoldable pub perform_row_action : (String → Bool) → String → ActionKey → List Effect
unfolding worker_action
perform_row_action confirm worker_id k = worker_action confirm worker_id (payload k) none

-- `this.actions[this.selected_action]`, at the values that the drop-down offers and at "".
unfoldable pub action_named : List ActionKey → String → Option ActionKey
unfolding key_text
action_named [] t = none
action_named (k ∷ ks) t = if key_text k == t then some k else action_named ks t

unfoldable pub for_each_worker : (String → Bool) → ActionKey → List String → List Effect
unfolding perform_row_action
for_each_worker confirm k [] = []
for_each_worker confirm k (id ∷ ids) =
    worker_action confirm id (payload k) none ++ for_each_worker confirm k ids

-- `performWorkerAction` of the action bar: `none` is the TypeError of `undefined.payload`.
unfoldable pub perform_bulk_action : (String → Bool) → String → List String → Option (List Effect)
unfolding action_named for_each_worker
perform_bulk_action confirm selected_action ids = elim (action_named all_keys selected_action) [
  | none ↦ none
  | some k ↦ some (for_each_worker confirm k ids)
]
