-- ===== src/Dashboard/Pools.antt =====
-- static/dashboard.js: the dynamic pools' sizes and the window that asks for another size.
pub mod Resizing
use flamenco_manager.Common.{
  ℕ, ◌+◌, String, Bool, true, false, Option, none, some, List, [], ◌∷◌, ◌++◌, if◌then◌else◌,
}
use flamenco_manager.Common.Decimal.{decimal, join}
use flamenco_manager.Common.Http.{HttpError, status_text, shown}
use flamenco_manager.Common.Int.{ℤ, pos}
use flamenco_manager.Common.ParseInt.{parse_int}

pub record PoolSize : Type 0 where
  pub dedicated_nodes : ℕ
  pub low_priority_nodes : ℕ

pub record Pool : Type 0 where
  pub id : String
  pub allocation_state : String
  pub current_size : PoolSize
  pub desired_size : PoolSize

-- `currentNodeCount`.
unfoldable pub current_node_count : Pool → ℕ
current_node_count p = p.current_size.dedicated_nodes + p.current_size.low_priority_nodes

-- `desiredNodeCount`.
unfoldable pub desired_node_count : Pool → ℕ
desired_node_count p = p.desired_size.dedicated_nodes + p.desired_size.low_priority_nodes

-- `nodeCountExplicit`.
unfoldable pub node_count_explicit : PoolSize → String
unfolding decimal join
node_count_explicit s = join (
    decimal s.dedicated_nodes
    ∷ " dedicated + "
    ∷ decimal s.low_priority_nodes
    ∷ " low-priority nodes"
    ∷ [])

-- What a field of the form holds: the number that was put there, or a text that was typed.
pub data Field : Type 0 where
  number : ℕ → Field
  typed : String → Field

-- `parseInt(field)`; `none` is NaN. `parseInt` of a whole number is that number.
unfoldable pub field_int : Field → Option ℤ
field_int (number n) = some (pos n)
field_int (typed t) = parse_int t

-- The button that was clicked, after `onResizeButtonClick`: a copy of the pool and the platform's name.
pub record Button : Type 0 where
  pub dynamic_pool : Pool
  pub dynamic_pool_platform_name : String

unfoldable pub on_resize_button_click : String → Pool → Button
on_resize_button_click name pool = record { dynamic_pool = pool; dynamic_pool_platform_name = name }

-- The data of `dynamic-pool-resize`, and whether its window is open.
pub record Resize : Type 0 where
  pub platform_name : String
  pub pool_id : String
  pub allocation_state : String
  pub dedicated_nodes : Field
  pub low_priority_nodes : Field
  pub is_processing : Bool
  pub open_window : Bool

-- `data`.
abbrev pub new_resize : Resize
new_resize = record {
  platform_name = "";
  pool_id = "";
  allocation_state = "";
  dedicated_nodes = number 0;
  low_priority_nodes = number 0;
  is_processing = false;
  open_window = false;
}

-- `POST /dynamic-pool-resize`; a size that is NaN is sent as null.
pub record ResizeRequest : Type 0 where
  pub platform_name : String
  pub pool_id : String
  pub dedicated_nodes : Option ℤ
  pub low_priority_nodes : Option ℤ

pub data Effect : Type 0 where
  post_resize : ResizeRequest → Effect
  pool_resize_requested : Effect
  toast_error : (message title : String) → Effect

-- `onShowModal`, when the window opens.
unfoldable pub on_show_modal : Button → Resize → Resize
on_show_modal button r = record {
  platform_name = button.dynamic_pool_platform_name;
  pool_id = button.dynamic_pool.id;
  allocation_state = button.dynamic_pool.allocation_state;
  dedicated_nodes = number button.dynamic_pool.desired_size.dedicated_nodes;
  low_priority_nodes = number button.dynamic_pool.desired_size.low_priority_nodes;
  is_processing = false;
  open_window = true;
}

-- `closeModal`.
unfoldable pub close_modal : Resize → Resize
close_modal r = record r { open_window = false }

-- `onButtonOK`.
unfoldable pub on_button_ok : Resize → Resize × Effect
unfolding field_int
on_button_ok r = (
  record r { is_processing = true },
  post_resize (record {
    platform_name = r.platform_name;
    pool_id = r.pool_id;
    dedicated_nodes = field_int r.dedicated_nodes;
    low_priority_nodes = field_int r.low_priority_nodes;
  }),
)

-- The first `.then`, and the last, which ends the processing.
unfoldable pub resize_done : Resize → Resize × List Effect
unfolding close_modal
resize_done r = (record (close_modal r) { is_processing = false }, pool_resize_requested ∷ [])

-- `.catch`, and the last `.then`.
unfoldable pub resize_failed : HttpError → Resize → Resize × List Effect
unfolding shown status_text join
resize_failed error r = (
  record r { is_processing = false },
  toast_error (shown error.response_text)
        (join ("Error " ∷ status_text error.status ∷ " requesting a pool resize" ∷ []))
      ∷ [],
)
