-- ===== src/Setup/Variables/Adding.antt =====
-- How often a value can be added to a variable.
use flamenco_manager.Common.{
  ℕ, zero, suc, ◌+◌, ◌-◌, ◌≤◌, ◌<◌, String, ◌≡◌, refl, ◌≢◌, inl, inr, Bool, true, false, Option,
  none, some, List, [], ◌∷◌, ◌++◌, ◌==◌, arith, length, Option-cases, ◌∙◌, ap,
}
use flamenco_manager.Common.StringSet.{add, delete, of_array, length-delete, length-delete-lt}
use flamenco_manager.Setup.Variables.{
  VarValue, Editor, empty_variable, PlatformsLeft, take_value, take_values, NewProps, type_error,
  null, props, first_left, platforms_left, every_platform, props_for_new_value,
  disable_add_value_button, add_value,
}
use flamenco_manager.Setup.Variables.NewValue.{first_left-props, first_left-null}
use flamenco_manager.Setup.Variables.Leaves.{PlainValues, size, take_values-Leaves}

take_values-append :
    (is_all : Bool) (vs : List VarValue) (v : VarValue) (left mid : PlatformsLeft)
    → take_values is_all vs left ≡ some mid
    → take_values is_all (vs ++ v ∷ []) left ≡ take_value is_all v mid
unfolding take_values
take_values-append is_all [] v left mid e = elim (Option-cases (take_value is_all v left)) [
  | inl n ↦ ground arith
  | inr (mid', m) ↦ ground arith
]
take_values-append is_all (w ∷ vs) v left mid e = elim (Option-cases (take_value is_all w left)) [
  | inl n ↦ absurd (ground arith)
  | inr (mid', m) ↦ rw (m, take_values) (take_values-append is_all vs v mid' mid (ground arith))
]

take_proposed :
    (is_all : Bool) (left : PlatformsLeft) (a p : String)
    → first_left is_all left.users left.workers ≡ props a p
    → (left' : PlatformsLeft) × (take_value is_all
          (record empty_variable { audience = some a; platform = some p })
          left
        ≡ some left')
      × (size left' < size left)
unfolding take_value
take_proposed true left a p e =
    let left' : PlatformsLeft = record {
      users = delete left.users p;
      workers = delete left.workers p;
    } in
    elim (first_left-props true left.users left.workers {a = a} {p = p} e) [
      | inl (here, same) ↦ (
        left',
        refl,
        omega (arith, length-delete-lt left.users p here, length-delete left.workers p),
      )
      | inr (here, same) ↦ (
        left',
        refl,
        omega (arith, length-delete left.users p, length-delete-lt left.workers p here),
      )
    ]
take_proposed false left a p e =
    elim (first_left-props false left.users left.workers {a = a} {p = p} e) [
      | inl (here, same) ↦ (
        record left { users = delete left.users p },
        rw same refl,
        omega (arith, length-delete-lt left.users p here),
      )
      | inr (here, same) ↦ (
        record left { workers = delete left.workers p },
        rw same refl,
        omega (arith, length-delete-lt left.workers p here),
      )
    ]

take_value-empty :
    (is_all : Bool) (left : PlatformsLeft)
    → take_value is_all empty_variable left
      ≡ some (record { users = delete left.users ""; workers = delete left.workers "" })
unfolding take_value
take_value-empty true left = refl
take_value-empty false left = refl

first_left-ne-type_error :
    (is_all : Bool) (us ws : List String) → first_left is_all us ws ≢ type_error
unfolding first_left
first_left-ne-type_error is_all [] [] e = cc
first_left-ne-type_error is_all (u ∷ us) ws e = cc
first_left-ne-type_error is_all [] (w ∷ ws) e = cc

-- Adding a value, where the loop leaves `left`.
add_value-left :
    (e : Editor) (left : PlatformsLeft)
    → platforms_left e ≡ some left
    → (e' : Editor) × (left' : PlatformsLeft) × (add_value e ≡ some e')
      × (platforms_left e' ≡ some left')
      × (size left' ≤ size left - 1)
unfolding add_value props_for_new_value platforms_left
add_value-left e left m = by_props _ refl
  where
    by_props :
        (x : NewProps)
        → first_left (e.all_audience == "all") left.users left.workers ≡ x
        → (e' : Editor) × (left' : PlatformsLeft) × (add_value e ≡ some e')
          × (platforms_left e' ≡ some left')
          × (size left' ≤ size left - 1)
    by_props type_error h =
        absurd (first_left-ne-type_error (e.all_audience == "all") left.users left.workers h)
    by_props null h =
        let (u, w) = first_left-null (e.all_audience == "all") left.users left.workers h in
        (
          record e { values = e.values ++ empty_variable ∷ [] },
          record { users = delete left.users ""; workers = delete left.workers "" },
          ground arith,
          take_values-append (e.all_audience == "all") e.values empty_variable every_platform left m
              ∙ take_value-empty (e.all_audience == "all") left,
          omega (
            arith,
            length-delete left.users "",
            length-delete left.workers "",
            ap length u,
            ap length w,
          ),
        )
    by_props (props a p) h =
        let (left', t, less) = take_proposed (e.all_audience == "all") left a p h in
        (
          record e {
            values =
                e.values ++ record empty_variable { audience = some a; platform = some p } ∷ [];
          },
          left',
          ground arith,
          take_values-append (e.all_audience == "all") e.values _ every_platform left m ∙ t,
          omega arith,
        )

-- `addValue`, so many times.
abbrev pub add_times : ℕ → Editor → Option Editor
add_times zero e = some e
add_times (suc n) e = elim (add_value e) [ none ↦ none | some e' ↦ add_times n e' ]

add_times-left :
    (n : ℕ) (e : Editor) (left : PlatformsLeft)
    → platforms_left e ≡ some left
    → (e' : Editor) × (left' : PlatformsLeft) × (add_times n e ≡ some e')
      × (platforms_left e' ≡ some left')
      × (size left' ≤ size left - n)
add_times-left zero e left m = (e, left, refl, m, omega arith)
add_times-left (suc n) e left m =
    let (e', left', k, m', le) = add_value-left e left m in
    let (e'', left'', k', m'', le') = add_times-left n e' left' m' in
    (e'', left'', rw (k, add_times) k', m'', omega arith)

first_left_of_size :
    (is_all : Bool) (us ws : List String)
    → length us + length ws ≤ 0
    → first_left is_all us ws ≡ null
unfolding first_left
first_left_of_size is_all [] [] h = refl
first_left_of_size is_all (u ∷ us) ws h = absurd (omega arith)
first_left_of_size is_all [] (w ∷ ws) h = absurd (omega arith)

size-every_platform : size every_platform ≡ 6
unfolding every_platform of_array add
size-every_platform = refl

disables_of_size :
    (e : Editor) (left : PlatformsLeft)
    → platforms_left e ≡ some left
    → size left ≤ 0
    → disable_add_value_button e ≡ some true
unfolding disable_add_value_button props_for_new_value
disables_of_size e left m h =
    ground (arith, first_left_of_size (e.all_audience == "all") left.users left.workers)

-- Whatever values a variable has, if no audience among them is a name that every object inherits, the
-- button that adds a value can be clicked six times without an exception, and is disabled then.
pub add_times-disables :
    (e : Editor)
    → PlainValues e.values
    → (e' : Editor) × (add_times 6 e ≡ some e') × (disable_add_value_button e' ≡ some true)
add_times-disables e plain =
    let (left, m, le) = start in
    let (e', left', k, m', le') = add_times-left 6 e left m in
    (e', k, disables_of_size e' left' m' (omega (arith, size-every_platform)))
  where
    start :
        (left : PlatformsLeft) × (platforms_left e ≡ some left) × (size left ≤ size every_platform)
    start =
        unfold platforms_left in
        take_values-Leaves (e.all_audience == "all") e.values every_platform plain
