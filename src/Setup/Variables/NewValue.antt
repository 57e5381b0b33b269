-- ===== src/Setup/Variables/NewValue.antt =====
-- What the editor of a variable proposes for a new value.
use flamenco_manager.Common.{
  String, ◌≡◌, refl, ◌⊎◌, inl, inr, Bool, true, false, not, ◌&&◌, some, List, [], ◌∷◌,
  if◌then◌else◌, ◌==◌, eq_refl, arith, Option-cases,
}
use flamenco_manager.Common.StringSet.{has, has-of_array}
use flamenco_manager.Setup.Variables.{
  Editor, supported_platforms, PlatformsLeft, null, props, first_left, platforms_left,
  every_platform, props_for_new_value,
}
use flamenco_manager.Setup.Variables.Coverage.{any_covers, take_values-left}

-- Where a proposal comes from.
pub first_left-props :
    (is_all : Bool) (us ws : List String) {a p : String}
    → first_left is_all us ws ≡ props a p
    → ((has us p ≡ true) × (a ≡ (if is_all then "all" else "users")))
      ⊎ ((has ws p ≡ true) × (a ≡ (if is_all then "all" else "workers")))
unfolding first_left has
first_left-props is_all [] [] e = absurd (ground arith)
first_left-props is_all (q ∷ us) ws {p} e = inl (ground (arith, eq_refl p), ground arith)
first_left-props is_all [] (q ∷ ws) {p} e = inr (ground (arith, eq_refl p), ground arith)

-- In the editor, the values cover the platform for the audience.
abbrev pub IsCovered : Editor → String → String → Type 0
IsCovered e audience platform =
    any_covers (e.all_audience == "all") audience platform e.values ≡ true

platforms_left-has :
    (e : Editor) (left : PlatformsLeft) (p : String)
    → platforms_left e ≡ some left
    → (has left.users p ≡ (
        not (any_covers (e.all_audience == "all") "users" p e.values) && has supported_platforms p))
      × (has left.workers p ≡ (
          not (any_covers (e.all_audience == "all") "workers" p e.values)
          && has supported_platforms p))
unfolding platforms_left
platforms_left-has e left p m =
    let k = take_values-left (e.all_audience == "all") e.values every_platform left p m in
    let s = has-of_array supported_platforms p in
    unfold every_platform in ground (arith, k.0, k.1, s)

-- The values that the editor proposes are of use: the platform is a supported one, no value covers it
-- yet for the audience that is meant, and the proposed audience is "all" exactly in the editor that
-- gives all audiences the same values, and otherwise the audience that is meant.
pub props_for_new_value-uncovered :
    (e : Editor) (a p : String)
    → props_for_new_value e ≡ props a p
    → (audience : String) × ((audience ≡ "users") ⊎ (audience ≡ "workers"))
      × (a ≡ (if e.all_audience == "all" then "all" else audience))
      × (has supported_platforms p ≡ true)
      × (any_covers (e.all_audience == "all") audience p e.values ≡ false)
unfolding props_for_new_value
props_for_new_value-uncovered e a p h = elim (Option-cases (platforms_left e)) [
  | inl n ↦ absurd (ground arith)
  | inr (left, m) ↦
      let k = platforms_left-has e left p m in
      elim (first_left-props (e.all_audience == "all") left.users left.workers {a = a} {p = p}
        (ground arith)) [
          | inl (here, same) ↦ ("users", inl refl, same, ground (arith, k.0), ground (arith, k.0))
          | inr (here, same) ↦ ("workers", inr refl, same, ground (arith, k.1), ground (arith, k.1))
        ]
]

pub first_left-null :
    (is_all : Bool) (us ws : List String) → first_left is_all us ws ≡ null → (us ≡ []) × (ws ≡ [])
unfolding first_left
first_left-null is_all [] [] e = (refl, refl)
first_left-null is_all (q ∷ us) ws e = absurd (ground arith)
first_left-null is_all [] (q ∷ ws) e = absurd (ground arith)

-- If nothing is proposed, every supported platform is covered for both audiences.
pub props_for_new_value-null :
    (e : Editor) (p : String)
    → props_for_new_value e ≡ null
    → has supported_platforms p ≡ true
    → IsCovered e "users" p × IsCovered e "workers" p
unfolding props_for_new_value
props_for_new_value-null e p h s = elim (Option-cases (platforms_left e)) [
  | inl n ↦ absurd (ground arith)
  | inr (left, m) ↦
      let k = platforms_left-has e left p m in
      let (u, w) =
        first_left-null (e.all_audience == "all") left.users left.workers (ground arith) in
      unfold has in ground (arith, k.0, k.1)
]
