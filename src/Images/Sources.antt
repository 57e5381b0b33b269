-- ===== src/Images/Sources.antt =====
-- One event source at a time, and none when the page is left.
use flamenco_manager.Common.{ℕ, String, ◌≡◌, refl, some, List, [], ◌∷◌, arith, inl, inr, nat_eq_iff}
use flamenco_manager.Common.Handles.{
  Handles, close_latest, open_new, end, open_new-close_latest, IsExclusive,
}
use flamenco_manager.Images.{
  Viewer, load_latest_image, create_latest_image_listener, close_all, before_unload, Event,
  new_jwt_token, image, on_event, run, start,
}

-- Exactly one source is open: the one that `latestImageSource` names, and it is the latest of those
-- that are closed when the page is left.
pub record IsListening (v : Viewer) : Type 0 where
  pub handle : ℕ
  pub older : List ℕ
  pub one : v.sources.live ≡ (handle, tt) ∷ []
  pub latest : v.sources.latest ≡ some handle
  pub guarded : v.closed_on_unload ≡ handle ∷ older

create-IsListening :
    (v : Viewer) → IsExclusive v.sources → IsListening (create_latest_image_listener v)
unfolding create_latest_image_listener
create-IsListening v x = record {
  handle = (close_latest v.sources).next;
  older = v.closed_on_unload;
  one = open_new-close_latest tt v.sources x;
  latest = unfold open_new in refl;
  guarded = refl;
}

on_event-IsListening : (e : Event) (v : Viewer) → IsListening v → IsListening (on_event e v)
unfolding on_event load_latest_image
on_event-IsListening new_jwt_token v l = create-IsListening v (inr (l.handle, tt, l.one, l.latest))
on_event-IsListening (image now filename) v l = record {
  handle = l.handle;
  older = l.older;
  one = l.one;
  latest = l.latest;
  guarded = l.guarded;
}

run-IsListening : (es : List Event) (v : Viewer) → IsListening v → IsListening (run es v)
unfolding run
run-IsListening [] v l = l
run-IsListening (e ∷ es) v l = run-IsListening es (on_event e v) (on_event-IsListening e v l)

-- Whatever tokens and images arrive, exactly one event source is open, it is the one that
-- `latestImageSource` names, and it is among those that are closed when the page is left.
pub run-start-IsListening :
    (image_src background : String) (es : List Event)
    → IsListening (run es (start image_src background))
run-start-IsListening image_src background es =
    run-IsListening es (start image_src background)
      (unfold start in create-IsListening _ (inl refl))

close_all-nil : (hs : List ℕ) (t : Handles (Unit {0})) → t.live ≡ [] → (close_all hs t).live ≡ []
unfolding close_all end
close_all-nil [] t e = e
close_all-nil (h ∷ hs) t e = close_all-nil hs (end h t) (rw e)

-- When the page is left, no event source stays open.
pub before_unload-run :
    (image_src background : String) (es : List Event)
    → (before_unload (run es (start image_src background))).sources.live ≡ []
before_unload-run image_src background es = closes _ (run-start-IsListening image_src background es)
  where
    closes : (v : Viewer) → IsListening v → (before_unload v).sources.live ≡ []
    closes v l =
        unfold before_unload end in
        rw l.guarded (
          close_all-nil l.older (end l.handle v.sources)
            (rw l.one (ground (arith, nat_eq_iff l.handle l.handle))))
