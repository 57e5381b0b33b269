-- ===== src/Manager/Variables/Texts.antt =====
-- The texts in the table of variables, and which part of a value they are.
use flamenco_manager.Common.{
  ℕ, String, Bool, true, false, Option, none, some, List, [], ◌∷◌, ◌++◌, if◌then◌else◌, ◌==◌, ◌≡◌,
  ◌≢◌, ◌⊎◌, inl, inr, refl, sym, ap, All, Bool-cases, eq_iff, arith, nat_eq, subst,
}
use flamenco_manager.Manager.Variables.{
  Value, Variable, look_up, construct_variable_lookup_table, keep_before, trim_slashes, text_of,
}
use flamenco_manager.Manager.Variables.Table.{
  holds, last_value, IsConcrete, Others, construct_variable_lookup_table-last,
}

abbrev pub ends_in_slash : List ℕ → Bool
ends_in_slash [] = false
ends_in_slash (c ∷ []) = nat_eq c b'/'
ends_in_slash (c ∷ d ∷ ds) = ends_in_slash (d ∷ ds)

-- A text without its last slashes.
abbrev pub IsCut : List ℕ → List ℕ → Type 0
IsCut raw text =
    (slashes : List ℕ) × All (λ c. nat_eq c b'/' ≡ true) slashes
    × (raw ≡ text ++ slashes)
    × (ends_in_slash text ≡ false)

keep_before-IsCut : (c : ℕ) (cs text : List ℕ) → IsCut cs text → IsCut (c ∷ cs) (keep_before c text)
unfolding keep_before
keep_before-IsCut c cs [] (s, all, e, n) = elim (Bool-cases (nat_eq c b'/')) [
  | inl y ↦ rw y (c ∷ s, (y, all), ap (λ x. c ∷ x) e, refl)
  | inr m ↦ rw m (s, all, ap (λ x. c ∷ x) e, m)
]
keep_before-IsCut c cs (d ∷ ds) (s, all, e, n) = (s, all, ap (λ x. c ∷ x) e, n)

trim_slashes-IsCut : (cs : List ℕ) → IsCut cs (trim_slashes cs)
unfolding trim_slashes
trim_slashes-IsCut [] = ([], tt, refl, refl)
trim_slashes-IsCut (c ∷ cs) = keep_before-IsCut c cs (trim_slashes cs) (trim_slashes-IsCut cs)

-- What is shown of the text of a value: of a variable that goes two ways it is without its last slashes, and of
-- any other it is as it stands.
abbrev pub IsTextOf : String → List ℕ → List ℕ → Type 0
IsTextOf direction raw text =
    ((direction ≡ "twoway") × IsCut raw text) ⊎ ((direction ≢ "twoway") × (text ≡ raw))

text_of-IsTextOf :
    (direction : String) (raw : List ℕ) → IsTextOf direction raw (text_of direction raw)
unfolding text_of
text_of-IsTextOf direction raw = elim (Bool-cases (direction == "twoway")) [
  | inl y ↦ rw y (inl ((eq_iff direction "twoway").0 y, trim_slashes-IsCut raw))
  | inr n ↦ rw n (inr (ground (arith, n, eq_iff direction "twoway"), refl))
]

-- The last value that holds, as it stands, or else the one that was there.
abbrev pub last_holding : String → String → List Value → Option (List ℕ) → Option (List ℕ)
last_holding a p [] before = before
last_holding a p (v ∷ vs) before =
    last_holding a p vs (if holds a p v then some v.value else before)

-- What was found of a variable in the table.
abbrev pub Shows : String → Option (List ℕ) → Option (List ℕ) → Type 0
Shows direction held found =
    ((held ≡ none) × (found ≡ none))
    ⊎ ((raw : List ℕ) × (text : List ℕ) × (held ≡ some raw)
        × (found ≡ some text)
        × IsTextOf direction raw text)

last_value-Shows :
    (direction a p : String) (vs : List Value) (held found : Option (List ℕ))
    → Shows direction held found
    → Shows direction (last_holding a p vs held) (last_value direction a p vs found)
unfolding last_value
last_value-Shows direction a p [] held found h = h
last_value-Shows direction a p (v ∷ vs) held found h =
    last_value-Shows direction a p vs _ _ (elim (Bool-cases (holds a p v)) [
      | inl y ↦
          rw y (
            inr
              (v.value, text_of direction v.value, refl, refl, text_of-IsTextOf direction v.value))
      | inr n ↦ rw n h
    ])

-- In whatever order the variables are run through, where names differ: for users and for workers, on every
-- platform, the table holds of a variable its last value that is meant for them or for all and
-- that names the platform, and none if there is no such value. The text of the value is without its last
-- slashes, and all of them, if the variable goes two ways, and is as it stands otherwise.
pub construct_variable_lookup_table-Shows :
    (a p : String) (before after : List Variable) (v : Variable)
    → IsConcrete a
    → Others v.name before
    → Others v.name after
    → Shows v.direction
        (last_holding a p v.values none)
        (look_up a p v.name (construct_variable_lookup_table (before ++ v ∷ after)))
construct_variable_lookup_table-Shows a p before after v c x y =
    subst (Shows v.direction (last_holding a p v.values none))
      (sym (construct_variable_lookup_table-last a p before after v c x y))
      (last_value-Shows v.direction a p v.values none none (inl (refl, refl)))
