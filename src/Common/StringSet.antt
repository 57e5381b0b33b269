-- ===== src/Common/StringSet.antt =====
-- JavaScript's `Set` of strings: the elements in the order in which they were first added.
use mathlib.Core.Path.{◌≡◌, refl}
use mathlib.Core.Bool.{Bool, true, false, not, ◌&&◌, ◌||◌}
use mathlib.Core.List.{List, [], ◌∷◌}
use Prim.Native.Nat.{◌≤◌, ◌<◌}
use mathlib.Core.Logic.{inl, inr}
use native.Mathlib.Omega.{arith}
use Prim.Native.String.{String}
use text.Mathlib.Text.{◌==◌}
use text.Mathlib.TextPositions.{eq_refl}
use text.Mathlib.TextEquality.{eq_iff}
use flamenco_manager.Common.Tests.{if◌then◌else◌, Bool-cases}
use flamenco_manager.Common.Lists.{filter, length}

-- `has`.
unfoldable pub has : List String → String → Bool
has [] x = false
has (y ∷ s) x = y == x || has s x

-- `add`: an element that is there already keeps its place.
unfoldable pub add : List String → String → List String
add [] x = x ∷ []
add (y ∷ s) x = if y == x then y ∷ s else y ∷ add s x

-- `delete`.
unfoldable pub delete : List String → String → List String
delete [] x = []
delete (y ∷ s) x = if y == x then delete s x else y ∷ delete s x

-- `new Set(array)`, from the elements collected so far.
unfoldable pub add_all : List String → List String → List String
add_all s [] = s
add_all s (x ∷ xs) = add_all (add s x) xs

-- `new Set(array)`.
unfoldable pub of_array : List String → List String
unfolding add_all
of_array xs = add_all [] xs

-- No element stands twice.
abbrev pub IsDistinct : List String → Type 0
IsDistinct [] = Unit
IsDistinct (x ∷ xs) = (has xs x ≡ false) × IsDistinct xs

pub has-add : (s : List String) (x y : String) → has (add s x) y ≡ (x == y || has s y)
unfolding has add
has-add [] x y = refl
has-add (z ∷ s) x y = ground (arith, has-add s x y, eq_iff z x, eq_iff z y, eq_iff x y)

pub has-delete : (s : List String) (x y : String) → has (delete s x) y ≡ (not (x == y) && has s y)
unfolding has delete
has-delete [] x y = ground arith
has-delete (z ∷ s) x y = ground (arith, has-delete s x y, eq_iff z x, eq_iff z y, eq_iff x y)

pub add-IsDistinct : (s : List String) (x : String) → IsDistinct s → IsDistinct (add s x)
unfolding has add
add-IsDistinct [] x d = (refl, tt)
add-IsDistinct (y ∷ s) x d =
    ground (arith, add-IsDistinct s x d.1, has-add s x y, eq_iff y x, eq_iff x y)

pub delete-IsDistinct : (s : List String) (x : String) → IsDistinct s → IsDistinct (delete s x)
unfolding has delete
delete-IsDistinct [] x d = tt
delete-IsDistinct (y ∷ s) x d = ground (arith, delete-IsDistinct s x d.1, has-delete s x y)

add_all-IsDistinct : (s xs : List String) → IsDistinct s → IsDistinct (add_all s xs)
unfolding add_all
add_all-IsDistinct s [] d = d
add_all-IsDistinct s (x ∷ xs) d = add_all-IsDistinct (add s x) xs (add-IsDistinct s x d)

pub of_array-IsDistinct : (xs : List String) → IsDistinct (of_array xs)
unfolding of_array
of_array-IsDistinct xs = add_all-IsDistinct [] xs tt

has-add_all : (s xs : List String) (y : String) → has (add_all s xs) y ≡ (has s y || has xs y)
unfolding add_all has
has-add_all s [] y = ground arith
has-add_all s (x ∷ xs) y = ground (arith, has-add_all (add s x) xs y, has-add s x y)

pub has-of_array : (xs : List String) (y : String) → has (of_array xs) y ≡ has xs y
unfolding of_array has
has-of_array xs y = has-add_all [] xs y

pub has-filter :
    (p : String → Bool) (s : List String) (y : String) → has (filter p s) y ≡ (p y && has s y)
unfolding has
has-filter p [] y = ground arith
has-filter p (x ∷ s) y = ground (arith, has-filter p s y, eq_iff x y)

-- Every element of the one is in the other.
abbrev pub IsSubset : List String → List String → Type 0
IsSubset xs ys = (y : String) → has xs y ≡ true → has ys y ≡ true

pub length-delete : (s : List String) (x : String) → length (delete s x) ≤ length s
unfolding delete
length-delete [] x = omega arith
length-delete (y ∷ s) x = ground (arith, length-delete s x)

pub length-delete-lt :
    (s : List String) (x : String) → has s x ≡ true → length (delete s x) < length s
unfolding delete has
length-delete-lt [] x h = cc
length-delete-lt (y ∷ s) x h = ground (arith, length-delete s x, length-delete-lt s x)

IsSubset-delete :
    (x : String) (xs ys : List String)
    → IsSubset xs ys
    → has xs x ≡ false
    → IsSubset xs (delete ys x)
IsSubset-delete x xs ys sub out y h = ground (arith, has-delete ys x y, sub y h, eq_iff x y)

pub has_head : (x : String) (xs : List String) → has (x ∷ xs) x ≡ true
unfolding has
has_head x xs = ground (arith, eq_refl x)

IsSubset-tail : (x : String) (xs ys : List String) → IsSubset (x ∷ xs) ys → IsSubset xs ys
unfolding has
IsSubset-tail x xs ys sub y h = sub y (ground arith)

-- A list without repetition is no longer than a list that has all its elements.
pub length-le_of_IsSubset :
    (xs ys : List String) → IsDistinct xs → IsSubset xs ys → length xs ≤ length ys
length-le_of_IsSubset [] ys d sub = omega arith
length-le_of_IsSubset (x ∷ xs) ys d sub =
    let rest =
      length-le_of_IsSubset xs (delete ys x) d.1
        (IsSubset-delete x xs ys (IsSubset-tail x xs ys sub) d.0) in
    omega (arith, length-delete-lt ys x (sub x (has_head x xs)))

-- If it is as long, it has all the elements of the other.
pub IsSubset-of_length :
    (xs ys : List String) → IsDistinct xs → IsSubset xs ys → length ys ≤ length xs → IsSubset ys xs
IsSubset-of_length xs ys d sub le y h = elim (Bool-cases (has xs y)) [
  | inl yes' ↦ yes'
  | inr out ↦ absurd (
      omega (
        arith,
        length-le_of_IsSubset xs (delete ys y) d (IsSubset-delete y xs ys sub out),
        length-delete-lt ys y h,
      ))
]

pub filter-IsDistinct :
    (p : String → Bool) (xs : List String) → IsDistinct xs → IsDistinct (filter p xs)
filter-IsDistinct p [] d = tt
filter-IsDistinct p (x ∷ xs) d = ground (arith, filter-IsDistinct p xs d.1, has-filter p xs x)
