-- ===== src/Images.antt =====
-- static/imagewatch.js: the image that was rendered last, and the event source that announces a new one.
pub mod Sources
use flamenco_manager.Common.{ℕ, String, Option, none, some, List, [], ◌∷◌}
use flamenco_manager.Common.Decimal.{decimal, join}
use flamenco_manager.Common.Handles.{Handles, no_handles, close_latest, open_new, end}

-- The event sources, with `latestImageSource`; the sources that `beforeunload` listeners close; and
-- what the page shows.
pub record Viewer : Type 0 where
  pub sources : Handles (Unit {0})
  pub closed_on_unload : List ℕ
  pub image_src : String
  pub background : String

-- `loadLatestImage`, at a time in milliseconds.
unfoldable pub load_latest_image : ℕ → String → Viewer → Viewer
unfolding decimal join
load_latest_image now filename v =
    let url = join ("/" ∷ filename ∷ "?" ∷ decimal now ∷ []) in
    record v { image_src = url; background = join ("url(" ∷ url ∷ ")" ∷ []) }

-- `reloadLatestImage`: each attribute is set to what it is.
unfoldable pub reload_latest_image : Viewer → Viewer
reload_latest_image v = record v { image_src = v.image_src; background = v.background }

-- `createLatestImageListener`.
unfoldable pub create_latest_image_listener : Viewer → Viewer
unfolding reload_latest_image
create_latest_image_listener v =
    let closed = close_latest v.sources in
    reload_latest_image (record v {
      sources = open_new tt closed;
      closed_on_unload = closed.next ∷ v.closed_on_unload;
    })

-- `beforeunload`: every listener closes its source.
unfoldable pub close_all : List ℕ → Handles (Unit {0}) → Handles (Unit {0})
close_all [] t = t
close_all (h ∷ hs) t = close_all hs (end h t)

unfoldable pub before_unload : Viewer → Viewer
unfolding close_all
before_unload v = record v { sources = close_all v.closed_on_unload v.sources }

-- What happens to the page.
pub data Event : Type 0 where
  new_jwt_token : Event
  image : (now : ℕ) (filename : String) → Event

-- The listener of `newJWTToken` and the one of `image`.
unfoldable pub on_event : Event → Viewer → Viewer
unfolding create_latest_image_listener load_latest_image
on_event new_jwt_token v = create_latest_image_listener v
on_event (image now filename) v = load_latest_image now filename v

unfoldable pub run : List Event → Viewer → Viewer
unfolding on_event
run [] v = v
run (e ∷ es) v = run es (on_event e v)

-- The page that has been loaded, with what it shows at first.
unfoldable pub start : String → String → Viewer
unfolding create_latest_image_listener
start image_src background = create_latest_image_listener (record {
  sources = no_handles;
  closed_on_unload = [];
  image_src = image_src;
  background = background;
})
