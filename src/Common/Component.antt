-- ===== src/Common/Component.antt =====
-- What a Vue component registers, as `Vue.component(name, options)` and `new Vue(options)` list it, and
-- the tags by which templates use components.
pub mod Interfaces
use Prim.Native.String.{String}
use mathlib.Core.Bool.{Bool, true, false, ◌&&◌}
use mathlib.Core.Option.{Option, none, some}
use mathlib.Core.List.{List, [], ◌∷◌, ◌++◌, map}
use text.Mathlib.Text.{◌==◌}
use flamenco_manager.Common.Tests.{if◌then◌else◌}
use flamenco_manager.Common.StringSet.{has}

-- The constructor that a prop's value must come from; `any` where the code gives none.
pub data PropKind : Type 0 where
  any string boolean array object : PropKind

pub record Prop : Type 0 where
  pub name : String
  pub kind : PropKind
  pub default : Option String

abbrev pub prop : String → PropKind → Prop
prop name kind = record { name = name; kind = kind; default = none }

abbrev pub prop_or : String → String → Prop
prop_or name default = record { name = name; kind = PropKind.string; default = some default }

-- A component: its props, the names of its other members, its hooks, and the events that its methods and
-- its template emit.
pub record Component : Type 0 where
  pub name : String
  pub template : String
  pub props : List Prop
  pub data_names : List String
  pub computed : List String
  pub methods : List String
  pub watch : List String
  pub hooks : List String
  pub emits : List String

-- A tag in the template of `inside` (empty for the page itself). The attributes are spelled as the props
-- that they stand for: `label-ok` is `labelOk`, and `v-model` is the prop `value` with the event `input`.
pub record Use : Type 0 where
  pub inside : String
  pub component : String
  pub passed : List String
  pub listened : List String

abbrev pub prop_names : Component → List String
prop_names c = map (λ (p : Prop). p.name) c.props

abbrev pub required_from : List Prop → List String
required_from [] = []
required_from (p ∷ ps) = elim p.default [
  | none ↦ p.name ∷ required_from ps
  | some d ↦ required_from ps
]

-- The props that have no default.
abbrev pub required : Component → List String
required c = required_from c.props

-- What stands on the component's object under a name of its own.
abbrev pub members : Component → List String
members c = prop_names c ++ (c.data_names ++ (c.computed ++ c.methods))
