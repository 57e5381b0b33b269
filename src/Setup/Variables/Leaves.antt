-- ===== src/Setup/Variables/Leaves.antt =====
-- A loop over values with plain audiences leaves no more platforms than there were.
use flamenco_manager.Common.{
  ℕ, ◌+◌, ◌≤◌, String, ◌≡◌, refl, inl, inr, Bool, false, ◌||◌, Option, none, some, List, [], ◌∷◌,
  ◌==◌, arith, All, length, Bool-cases,
}
use flamenco_manager.Common.StringSet.{has, length-delete}
use flamenco_manager.Setup.Variables.{
  VarValue, PlatformsLeft, inherited_names, delete_text, delete_platform, names_all, take_value,
  take_values,
}

-- No audience is a name that every object inherits.
abbrev pub IsPlain : Option String → Type 0
IsPlain none = Unit
IsPlain (some a) = has inherited_names a ≡ false

abbrev pub PlainValues : List VarValue → Type 0
PlainValues vs = All (λ v. IsPlain v.audience) vs

abbrev pub size : PlatformsLeft → ℕ
size left = length left.users + length left.workers

length-delete_text : (s : List String) (o : Option String) → length (delete_text s o) ≤ length s
unfolding delete_text
length-delete_text s none = omega arith
length-delete_text s (some p) = length-delete s p

-- A loop that does not fail leaves no more than there was.
abbrev pub Leaves : Option PlatformsLeft → ℕ → Type 0
Leaves o n = (left : PlatformsLeft) × (o ≡ some left) × (size left ≤ n)

delete_platform-Leaves :
    (audience platform : Option String) (left : PlatformsLeft)
    → IsPlain audience
    → Leaves (delete_platform audience platform left) (size left)
unfolding delete_platform
delete_platform-Leaves none platform left h = (left, refl, omega arith)
delete_platform-Leaves (some a) platform left h = elim (Bool-cases (a == "users")) [
  | inl u ↦ (
    record left { users = delete_text left.users platform },
    rw u,
    omega (arith, length-delete_text left.users platform),
  )
  | inr u ↦ elim (Bool-cases (a == "workers")) [
    | inl w ↦ (
      record left { workers = delete_text left.workers platform },
      rw (u, w),
      omega (arith, length-delete_text left.workers platform),
    )
    | inr w ↦ (left, rw (u, w, h), omega arith)
  ]
]

take_value-Leaves :
    (is_all : Bool) (v : VarValue) (left : PlatformsLeft)
    → IsPlain v.audience
    → Leaves (take_value is_all v left) (size left)
unfolding take_value
take_value-Leaves is_all v left h = elim (Bool-cases (is_all || names_all v.audience)) [
  | inl y ↦ (
    record {
      users = delete_text left.users v.platform;
      workers = delete_text left.workers v.platform;
    },
    rw y,
    omega (
      arith,
      length-delete_text left.users v.platform,
      length-delete_text left.workers v.platform,
    ),
  )
  | inr n ↦ rw n (delete_platform-Leaves v.audience v.platform left h)
]

pub take_values-Leaves :
    (is_all : Bool) (vs : List VarValue) (left : PlatformsLeft)
    → PlainValues vs
    → Leaves (take_values is_all vs left) (size left)
unfolding take_values
take_values-Leaves is_all [] left h = (left, refl, omega arith)
take_values-Leaves is_all (v ∷ vs) left h =
    let (mid, m, small) = take_value-Leaves is_all v left h.0 in
    let (left', k, le) = take_values-Leaves is_all vs mid h.1 in
    (left', rw (m, take_values) k, omega arith)
