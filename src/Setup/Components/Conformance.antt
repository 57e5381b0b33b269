-- ===== src/Setup/Components/Conformance.antt =====
-- The tags of the setup page agree with its components.
use mathlib.Core.List.{Memᴰ}
use flamenco_manager.Common.{◌≡◌, refl, true}
use flamenco_manager.Common.StringSet.{has, IsDistinct}
use flamenco_manager.Common.Component.{Component, Use, members}
use flamenco_manager.Common.Component.Interfaces.{
  all_fit, all_distinct, Fits, fits-Fits, all_fit-Fits, members-IsDistinct,
}
use flamenco_manager.Setup.Components.{components, uses}

tags_fit : all_fit components uses ≡ true
unfolding has
tags_fit = refl

members_differ : all_distinct components ≡ true
unfolding has
members_differ = refl

-- Every tag by which the setup page or its templates use a component names one that the script
-- registers, sets only props that this one declares and all of them that have no default, and listens
-- only to events that it emits.
pub uses-Fits : (u : Use) → Memᴰ u uses → (c : Component) × Memᴰ c components × Fits u c
uses-Fits u m = fits-Fits components u (all_fit-Fits components uses u tags_fit m)

-- No component of the setup page gives two of its props, data, computed properties and methods one name:
-- Vue puts them all on one object, where one would hide the other.
pub components-IsDistinct : (c : Component) → Memᴰ c components → IsDistinct (members c)
components-IsDistinct c m = members-IsDistinct components c members_differ m
