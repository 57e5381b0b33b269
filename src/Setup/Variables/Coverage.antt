-- ===== src/Setup/Variables/Coverage.antt =====
-- What the editor of a variable takes as covered, and what it proposes for a new value.
use flamenco_manager.Common.{
  String, ◌≡◌, refl, inl, inr, Bool, true, false, not, ◌&&◌, ◌||◌, Option, none, some, List, [],
  ◌∷◌, ◌==◌, eq_iff, arith, Bool-cases, Option-cases,
}
use flamenco_manager.Common.StringSet.{has, has-delete}
use flamenco_manager.Setup.Variables.{
  VarValue, PlatformsLeft, delete_text, delete_platform, names_all, take_value, take_values,
}

-- `o == t`.
abbrev pub is_text : Option String → String → Bool
is_text none t = false
is_text (some s) t = s == t

-- Whether a value holds for an audience on a platform, where `is_all` says that the editor gives all
-- audiences the same values.
abbrev pub covers : Bool → String → String → VarValue → Bool
covers is_all audience platform v =
    is_text v.platform platform && (is_all || names_all v.audience || is_text v.audience audience)

abbrev pub any_covers : Bool → String → String → List VarValue → Bool
any_covers is_all audience platform [] = false
any_covers is_all audience platform (v ∷ vs) =
    covers is_all audience platform v || any_covers is_all audience platform vs

has-delete_text :
    (s : List String) (o : Option String) (y : String)
    → has (delete_text s o) y ≡ (not (is_text o y) && has s y)
unfolding delete_text
has-delete_text s none y = refl
has-delete_text s (some p) y = has-delete s p y

users-ne-workers : (a : String) → (a == "users") ≡ true → (a == "workers") ≡ false
users-ne-workers a h = rw ((eq_iff a "users").0 h) refl

-- What a value for one audience leaves: of the two sets, only its own changes.
Keeps : (audience : Option String) → Option String → PlatformsLeft → PlatformsLeft → String → Type 0
Keeps audience platform left left' y =
    (has left'.users y ≡ (not (is_text platform y && is_text audience "users") && has left.users y))
    × (has left'.workers y
        ≡ (not (is_text platform y && is_text audience "workers") && has left.workers y))

delete_platform-Keeps :
    (audience platform : Option String) (left left' : PlatformsLeft) (y : String)
    → delete_platform audience platform left ≡ some left'
    → Keeps audience platform left left' y
unfolding delete_platform Keeps
delete_platform-Keeps none platform left left' y e = ground arith
delete_platform-Keeps (some a) platform left left' y e = elim (Bool-cases (a == "users")) [
  | inl u ↦ let w = users-ne-workers a u in ground (arith, has-delete_text left.users platform y)
  | inr u ↦ elim (Bool-cases (a == "workers")) [
    | inl w ↦ ground (arith, has-delete_text left.workers platform y)
    | inr w ↦ ground arith
  ]
]

module _ (is_all : Bool) where
  take_value-left :
      (v : VarValue) (left left' : PlatformsLeft) (y : String)
      → take_value is_all v left ≡ some left'
      → (has left'.users y ≡ (not (covers is_all "users" y v) && has left.users y))
        × (has left'.workers y ≡ (not (covers is_all "workers" y v) && has left.workers y))
  unfolding take_value
  take_value-left v left left' y e = elim (Bool-cases (is_all || names_all v.audience)) [
    | inl n ↦
        ground (
          arith,
          has-delete_text left.users v.platform y,
          has-delete_text left.workers v.platform y,
        )
    | inr n ↦
        let k = delete_platform-Keeps v.audience v.platform left left' y (ground arith) in
        unfold Keeps in ground (arith, k.0, k.1)
  ]

  pub take_values-left :
      (vs : List VarValue) (left left' : PlatformsLeft) (y : String)
      → take_values is_all vs left ≡ some left'
      → (has left'.users y ≡ (not (any_covers is_all "users" y vs) && has left.users y))
        × (has left'.workers y ≡ (not (any_covers is_all "workers" y vs) && has left.workers y))
  unfolding take_values
  take_values-left [] left left' y e = ground arith
  take_values-left (v ∷ vs) left left' y e = elim (Option-cases (take_value is_all v left)) [
    | inl n ↦ absurd (ground arith)
    | inr (mid, m) ↦
        ground
          (arith, take_value-left v left mid y m, take_values-left vs mid left' y (ground arith))
  ]
