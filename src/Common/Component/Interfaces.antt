-- ===== src/Common/Component/Interfaces.antt =====
-- When the tags of templates agree with the components that they name.
use Prim.Native.String.{String}
use mathlib.Core.Path.{◌≡◌, sym, ap, ◌∙◌}
use mathlib.Core.Bool.{Bool, true, false, ◌&&◌, not}
use mathlib.Core.Option.{Option, none, some}
use mathlib.Core.List.{List, [], ◌∷◌, Memᴰ}
use mathlib.Core.Logic.{inl, inr}
use native.Mathlib.Omega.{arith}
use text.Mathlib.Text.{◌==◌}
use text.Mathlib.TextEquality.{eq_iff}
use flamenco_manager.Common.Tests.{if◌then◌else◌, Bool-cases, Option-cases}
use flamenco_manager.Common.StringSet.{has, IsSubset, IsDistinct}
use flamenco_manager.Common.Component.{Component, Use, prop_names, required, members}

abbrev pub find_component : String → List Component → Option Component
find_component name [] = none
find_component name (c ∷ cs) = if c.name == name then some c else find_component name cs

abbrev pub all_in : List String → List String → Bool
all_in [] ys = true
all_in (x ∷ xs) ys = has ys x && all_in xs ys

abbrev pub fits_component : Use → Component → Bool
fits_component u c =
    all_in u.passed (prop_names c) && (all_in (required c) u.passed && all_in u.listened c.emits)

abbrev pub fits_found : Use → Option Component → Bool
fits_found u none = false
fits_found u (some c) = fits_component u c

-- The test that a tag names a component, sets its props and no others, and listens to its events only.
abbrev pub fits : List Component → Use → Bool
fits cs u = fits_found u (find_component u.component cs)

abbrev pub all_fit : List Component → List Use → Bool
all_fit cs [] = true
all_fit cs (u ∷ us) = fits cs u && all_fit cs us

abbrev pub distinct : List String → Bool
distinct [] = true
distinct (x ∷ xs) = not (has xs x) && distinct xs

abbrev pub all_distinct : List Component → Bool
all_distinct [] = true
all_distinct (c ∷ cs) = distinct (members c) && all_distinct cs

-- What the test says of one component: every attribute is one of its props, every prop without a default
-- is set, and every event that is listened to is one that it emits.
pub record Fits (u : Use) (c : Component) : Type 0 where
  pub named : c.name ≡ u.component
  pub props_known : IsSubset u.passed (prop_names c)
  pub props_set : IsSubset (required c) u.passed
  pub events_known : IsSubset u.listened c.emits

has-all_in :
    (xs ys : List String) (y : String) → all_in xs ys ≡ true → has xs y ≡ true → has ys y ≡ true
unfolding has
has-all_in [] ys y h m = cc
has-all_in (x ∷ xs) ys y h m = ground (arith, eq_iff x y, has-all_in xs ys y)

find_component-mem :
    (name : String) (cs : List Component) {c : Component}
    → find_component name cs ≡ some c
    → Memᴰ c cs × (c.name ≡ name)
find_component-mem name [] e = cc
find_component-mem name (d ∷ cs) {c} e = elim (Bool-cases (d.name == name)) [
  | inl y ↦
      let k : d ≡ c = ground arith in
      (Memᴰ.head (sym k), ap (λ (x : Component). x.name) (sym k) ∙ (eq_iff d.name name).0 y)
  | inr n ↦ let (m, k) = find_component-mem name cs (ground arith) in (Memᴰ.tail m, k)
]

fits_component-Fits :
    (u : Use) (c : Component) → c.name ≡ u.component → fits_component u c ≡ true → Fits u c
fits_component-Fits u c n h = record {
  named = n;
  props_known = λ y. has-all_in u.passed (prop_names c) y (ground arith);
  props_set = λ y. has-all_in (required c) u.passed y (ground arith);
  events_known = λ y. has-all_in u.listened c.emits y (ground arith);
}

pub fits-Fits :
    (cs : List Component) (u : Use) → fits cs u ≡ true → (c : Component) × Memᴰ c cs × Fits u c
fits-Fits cs u h = elim (Option-cases (find_component u.component cs)) [
  | inl n ↦ absurd (ground arith)
  | inr (c, e) ↦
      let (m, k) = find_component-mem u.component cs e in
      (c, m, fits_component-Fits u c k (ground arith))
]

pub all_fit-Fits :
    (cs : List Component) (us : List Use) (u : Use)
    → all_fit cs us ≡ true
    → Memᴰ u us
    → fits cs u ≡ true
all_fit-Fits cs [] u h m = elim m [ ]
all_fit-Fits cs (v ∷ us) u h (Memᴰ.head e) = ground arith
all_fit-Fits cs (v ∷ us) u h (Memᴰ.tail m) = ground (arith, all_fit-Fits cs us u (ground arith) m)

distinct-IsDistinct : (xs : List String) → distinct xs ≡ true → IsDistinct xs
distinct-IsDistinct [] h = tt
distinct-IsDistinct (x ∷ xs) h = (ground arith, distinct-IsDistinct xs (ground arith))

pub members-IsDistinct :
    (cs : List Component) (c : Component)
    → all_distinct cs ≡ true
    → Memᴰ c cs
    → IsDistinct (members c)
members-IsDistinct [] c h m = elim m [ ]
members-IsDistinct (d ∷ cs) c h (Memᴰ.head e) =
    rw e (distinct-IsDistinct (members d) (ground arith))
members-IsDistinct (d ∷ cs) c h (Memᴰ.tail m) = members-IsDistinct cs c (ground arith) m
