-- ===== src/Setup/Variables/Inherited.antt =====
-- A value whose audience is a name that every JavaScript object inherits.
use flamenco_manager.Common.{
  String, ◌≡◌, refl, inl, inr, Bool, true, false, none, some, List, ◌∷◌, [], ◌++◌, ◌==◌, eq_iff,
  arith, Bool-cases, Option-cases,
}
use flamenco_manager.Common.StringSet.{has}
use flamenco_manager.Setup.Variables.{
  VarValue, Editor, PlatformsLeft, inherited_names, take_value, take_values, type_error,
  platforms_left, every_platform, props_for_new_value,
}
use flamenco_manager.Setup.Variables.Leaves.{PlainValues, take_values-Leaves}

-- An inherited name is none of the names that the editor knows.
inherited_ne :
    (a t : String) → has inherited_names a ≡ true → has inherited_names t ≡ false → (a == t) ≡ false
inherited_ne a t h k = elim (Bool-cases (a == t)) [
  | inl e ↦ absurd (bool_clash (rw ((eq_iff a t).0 e) at h) k)
  | inr n ↦ n
]
  where
    bool_clash : has inherited_names t ≡ true → has inherited_names t ≡ false → ⊥
    bool_clash p q = cc

take_value_inherited :
    (v : VarValue) (a : String) (left : PlatformsLeft)
    → v.audience ≡ some a
    → has inherited_names a ≡ true
    → take_value false v left ≡ none
unfolding take_value
take_value_inherited v a left va inh =
    let u = inherited_ne a "users" inh (unfold has in refl) in
    let w = inherited_ne a "workers" inh (unfold has in refl) in
    let l = inherited_ne a "all" inh (unfold has in refl) in
    let m = inherited_ne a "" inh (unfold has in refl) in rw (va, u, w, l, m, inh)

take_values-none :
    (is_all : Bool) (before after : List VarValue) (v : VarValue) (left mid : PlatformsLeft)
    → take_values is_all before left ≡ some mid
    → take_value is_all v mid ≡ none
    → take_values is_all (before ++ v ∷ after) left ≡ none
unfolding take_values
take_values-none is_all [] after v left mid e n = ground arith
take_values-none is_all (w ∷ before) after v left mid e n =
    elim (Option-cases (take_value is_all w left)) [
      | inl q ↦ absurd (ground arith)
      | inr (mid', m) ↦
          rw (m, take_values) (take_values-none is_all before after v mid' mid (ground arith) n)
    ]

-- If the editor keeps the audiences apart and the audience of some value is a name that every object
-- inherits (such as "constructor"), while none is before that value, the proposal for a new value
-- fails by a TypeError.
pub props_for_new_value_inherited :
    (e : Editor) (v : VarValue) (a : String) (before after : List VarValue)
    → e.all_audience ≡ "separate"
    → e.values ≡ before ++ v ∷ after
    → PlainValues before
    → v.audience ≡ some a
    → has inherited_names a ≡ true
    → props_for_new_value e ≡ type_error
unfolding props_for_new_value platforms_left
props_for_new_value_inherited e v a before after sep vs plain va inh =
    let (mid, m, le) = take_values-Leaves false before every_platform plain in
    rw (
      sep,
      vs,
      props_for_new_value,
      platforms_left,
      take_values-none false before after v every_platform mid m
          (take_value_inherited v a mid va inh),
    )
