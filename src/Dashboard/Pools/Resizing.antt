-- ===== src/Dashboard/Pools/Resizing.antt =====
-- What the resize window sends, and how it ends.
use flamenco_manager.Common.Decimal.{decimal}
use flamenco_manager.Common.Decimal.ReadBack.{parse_int-decimal}
use flamenco_manager.Common.{ℕ, String, ◌≡◌, refl, some}
use flamenco_manager.Common.Int.{pos}
use flamenco_manager.Dashboard.Pools.{
  Pool, Resize, typed, field_int, post_resize, on_resize_button_click, on_show_modal, on_button_ok,
}

-- Sizes that are typed as decimal numerals, into a window that a pool's button has opened, are sent as
-- these numbers, with the platform and the id of that pool.
pub on_button_ok-decimal :
    (name : String) (pool : Pool) (r : Resize) (dedicated low_priority : ℕ)
    → let shown = on_show_modal (on_resize_button_click name pool) r in
      (on_button_ok (record shown {
        dedicated_nodes = typed (decimal dedicated);
        low_priority_nodes = typed (decimal low_priority);
      })).1
      ≡ post_resize (record {
        platform_name = name;
        pool_id = pool.id;
        dedicated_nodes = some (pos dedicated);
        low_priority_nodes = some (pos low_priority);
      })
unfolding on_button_ok on_show_modal on_resize_button_click field_int
on_button_ok-decimal name pool r dedicated low_priority =
    rw (parse_int-decimal dedicated, parse_int-decimal low_priority) refl
