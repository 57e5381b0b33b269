-- ===== src/Dashboard/Components/Conformance.antt =====
-- The tags of the dashboard's templates agree with its components.
use mathlib.Core.List.{Memᴰ}
use flamenco_manager.Common.{◌≡◌, refl, true, ◌++◌}
use flamenco_manager.Common.StringSet.{has, IsDistinct}
use flamenco_manager.Common.Component.{Component, Use, members}
use flamenco_manager.Common.Component.Interfaces.{
  all_fit, all_distinct, Fits, fits-Fits, all_fit-Fits, members-IsDistinct,
}
use flamenco_manager.Dashboard.Components.{components, page_uses, template_uses}

tags_fit : all_fit components (page_uses ++ template_uses) ≡ true
unfolding has
tags_fit = refl

members_differ : all_distinct components ≡ true
unfolding has
members_differ = refl

-- Every tag by which the page or a template of the dashboard uses a component names one that the script
-- registers, sets only props that this one declares and all of them that have no default, and listens
-- only to events that it emits.
pub page_uses-Fits :
    (u : Use) → Memᴰ u (page_uses ++ template_uses) → (c : Component) × Memᴰ c components × Fits u c
page_uses-Fits u m =
    fits-Fits components u (all_fit-Fits components (page_uses ++ template_uses) u tags_fit m)

-- No component of the dashboard gives two of its props, data, computed properties and methods one name:
-- Vue puts them all on one object, where one would hide the other.
pub components-IsDistinct : (c : Component) → Memᴰ c components → IsDistinct (members c)
components-IsDistinct c m = members-IsDistinct components c members_differ m
