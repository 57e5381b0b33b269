-- ===== src/Dashboard/Modal/Opening.antt =====
-- From the click on a pool's button to the request for another size.
use flamenco_manager.Common.{ℕ, String, ◌≡◌, refl, Bool, true, some}
use flamenco_manager.Common.Decimal.{decimal}
use flamenco_manager.Common.Int.{pos}
use flamenco_manager.Dashboard.Pools.{
  Pool, Resize, typed, post_resize, on_resize_button_click, on_show_modal, on_button_ok,
}
use flamenco_manager.Dashboard.Pools.Resizing.{on_button_ok-decimal}
use flamenco_manager.Dashboard.Modal.{mounted, bootstrap_shows, resize_modal, on_emitted}

-- A click on a pool's button opens, through the mounted modal, the window on that pool, whatever the window
-- showed before; sizes that are typed there as decimal numerals are sent as these numbers for that
-- pool, and the window shows that it is processing.
pub on_button_ok-on_emitted :
    (name : String) (pool : Pool) (r : Resize) (is_processing : Bool) (dedicated low_priority : ℕ)
    → let button = on_resize_button_click name pool in
      let shown = on_emitted (bootstrap_shows button (mounted (resize_modal is_processing))) r in
      let sent = on_button_ok (record shown {
        dedicated_nodes = typed (decimal dedicated);
        low_priority_nodes = typed (decimal low_priority);
      }) in
      (sent.1
        ≡ post_resize (record {
          platform_name = name;
          pool_id = pool.id;
          dedicated_nodes = some (pos dedicated);
          low_priority_nodes = some (pos low_priority);
        }))
      × (shown.allocation_state ≡ pool.allocation_state)
      × (sent.0.is_processing ≡ true)
unfolding on_emitted bootstrap_shows mounted on_button_ok
on_button_ok-on_emitted name pool r is_processing dedicated low_priority = (
  on_button_ok-decimal name pool r dedicated low_priority,
  unfold on_show_modal on_resize_button_click in refl,
  refl,
)
