-- ===== src/Dashboard/Modal.antt =====
-- static/dashboard.js: `bootstrap-modal`, and how the window of a dynamic pool is opened through it.
pub mod Opening
use flamenco_manager.Common.{
  String, Bool, true, false, Option, none, some, List, [], ◌∷◌, if◌then◌else◌, ◌==◌,
}
use flamenco_manager.Dashboard.Pools.{Button, Resize, on_show_modal}

-- The props of a modal, and whether it listens to Bootstrap's `show.bs.modal`.
pub record Modal : Type 0 where
  pub title : String
  pub label_ok : String
  pub label_cancel : String
  pub is_processing : Bool
  pub listening : Bool

-- The value of a prop: its default where the tag does not set it.
unfoldable pub prop_value : String → Option String → String
prop_value default none = default
prop_value default (some given) = given

-- The props at a tag, before `mounted`.
unfoldable pub new_modal : Option String → Option String → Option String → Bool → Modal
unfolding prop_value
new_modal title label_ok label_cancel is_processing = record {
  title = prop_value "Modal Title" title;
  label_ok = prop_value "Ok" label_ok;
  label_cancel = prop_value "Cancel" label_cancel;
  is_processing = is_processing;
  listening = false;
}

-- `mounted`.
unfoldable pub mounted : Modal → Modal
mounted m = record m { listening = true }

module _ {E : Type 0} where
  -- `onShowModal`: the events that are emitted, with what each carries.
  unfoldable pub emit_show : E → List (String × E)
  emit_show event = ("show-bs-modal", event) ∷ []

  -- Bootstrap shows the modal and triggers `show.bs.modal`.
  unfoldable pub bootstrap_shows : E → Modal → List (String × E)
  unfolding emit_show
  bootstrap_shows event m = if m.listening then emit_show event else []

-- The tag of the modal in `dynamic-pool-resize`.
unfoldable pub resize_modal : Bool → Modal
unfolding new_modal
resize_modal is_processing =
    new_modal (some "Resize Dynamic Pool") (some "Resize") (some "Close") is_processing

-- Its listener `@show-bs-modal='onShowModal'`, where the event's `relatedTarget` is the button.
unfoldable pub on_emitted : List (String × Button) → Resize → Resize
unfolding on_show_modal
on_emitted [] r = r
on_emitted ((name, button) ∷ events) r =
    on_emitted events (if name == "show-bs-modal" then on_show_modal button r else r)
