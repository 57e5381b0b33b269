-- ===== src/Manager/Variables/Checked.antt =====
-- flamenco/settings.go, `checkVariables`: what the check changes, and the error that it returns. An audience that is
-- not known is only logged, so that nothing stands for it here.
use flamenco_manager.Common.{
  ℕ, String, Bool, true, false, not, ◌&&◌, ◌||◌, Option, none, some, List, [], ◌∷◌, ◌++◌, map,
  if◌then◌else◌, ◌==◌, ◌≡◌, inl, inr, refl, sym, ap, ◌∙◌, Bool-cases, arith,
}
use flamenco_manager.Manager.Variables.{
  Value, Variable, look_up, is_wildcard, text_of, construct_variable_lookup_table,
}
use flamenco_manager.Manager.Variables.Table.{
  holds, is_meant, one_of, last_value, IsConcrete, Others, construct_variable_lookup_table-last,
}

pub data CheckError : Type 0 where
  bad_direction missing_variable_platform : CheckError

unfoldable pub no_platforms : List String → Bool
no_platforms [] = true
no_platforms (p ∷ ps) = false

-- A value with both a platform and platforms has only platforms afterwards.
unfoldable pub merge_platforms : Value → Value
unfolding no_platforms
merge_platforms v =
    if not (v.platform == "") && not (no_platforms v.platforms)
    then record v { platforms = v.platforms ++ v.platform ∷ []; platform = "" }
    else v

unfoldable pub with_audience : Value → Value
with_audience v = if v.audience == "" then record v { audience = "all" } else v

unfoldable pub is_platformless : Value → Bool
unfolding no_platforms
is_platformless v = v.platform == "" && no_platforms v.platforms

-- The body of the inner loop: a value without platforms is left as it is.
unfoldable pub check_value : Value → Value
unfolding is_platformless merge_platforms with_audience
check_value v = if is_platformless v then v else with_audience (merge_platforms v)

-- The last error of the inner loop, after `before`.
unfoldable pub values_error : List Value → Option CheckError → Option CheckError
unfolding is_platformless
values_error [] before = before
values_error (v ∷ vs) before =
    values_error vs (if is_platformless v then some missing_variable_platform else before)

unfoldable pub variable_error : Variable → Option CheckError → Option CheckError
unfolding values_error
variable_error v before =
    values_error v.values
      (if v.direction == "oneway" || v.direction == "twoway" then before else some bad_direction)

unfoldable pub variables_error : List Variable → Option CheckError → Option CheckError
unfolding variable_error
variables_error [] before = before
variables_error (v ∷ vs) before = variables_error vs (variable_error v before)

unfoldable pub check_variable : Variable → Variable
unfolding check_value
check_variable v = record v { values = map check_value v.values }

-- `checkVariables`.
unfoldable pub check_variables : List Variable → List Variable × Option CheckError
unfolding check_variable variables_error
check_variables vs = (map check_variable vs, variables_error vs none)

one_of-append :
    (p q : String) (ps : List String) → one_of p (ps ++ q ∷ []) ≡ (one_of p ps || q == p)
one_of-append p q [] = ground arith
one_of-append p q (r ∷ ps) = rw (one_of-append p q ps) (ground arith)

with_audience-meant :
    (v : Value) (a : String) → is_meant (with_audience v).audience a ≡ is_meant v.audience a
unfolding with_audience is_wildcard
with_audience-meant v a = elim (Bool-cases (v.audience == "")) [
  | inl y ↦ rw y refl
  | inr n ↦ rw (n, n) refl
]

-- Whether a value names a platform.
abbrev is_on : String → Value → Bool
is_on p v = (not (v.platform == "") && v.platform == p) || one_of p v.platforms

with_audience-on : (v : Value) (p : String) → is_on p (with_audience v) ≡ is_on p v
unfolding with_audience
with_audience-on v p = elim (Bool-cases (v.audience == "")) [
  | inl y ↦ rw y refl
  | inr n ↦ rw n refl
]

merge_platforms-audience : (v : Value) → (merge_platforms v).audience ≡ v.audience
unfolding merge_platforms
merge_platforms-audience v =
    elim (Bool-cases (not (v.platform == "") && not (no_platforms v.platforms))) [
      | inl y ↦ rw y refl
      | inr n ↦ rw n refl
    ]

merged-on :
    (own named none_other other : Bool)
    → (not named && not none_other) ≡ true
    → (other || own) ≡ ((not named && own) || other)
merged-on true false none_other true y = refl
merged-on true false none_other false y = refl
merged-on false false none_other true y = refl
merged-on false false none_other false y = refl
merged-on own true none_other other y = ground (arith, y)

merge_platforms-on : (v : Value) (p : String) → is_on p (merge_platforms v) ≡ is_on p v
unfolding merge_platforms
merge_platforms-on v p =
    elim (Bool-cases (not (v.platform == "") && not (no_platforms v.platforms))) [
      | inl y ↦ rw y (
          one_of-append p v.platform v.platforms
          ∙ merged-on (v.platform == p) (v.platform == "") (no_platforms v.platforms)
              (one_of p v.platforms) y)
      | inr n ↦ rw n refl
    ]

check_value-holds : (v : Value) (a p : String) → holds a p (check_value v) ≡ holds a p v
unfolding check_value
check_value-holds v a p = elim (Bool-cases (is_platformless v)) [
  | inl y ↦ rw y refl
  | inr n ↦ rw n (
      ap (λ x. x && is_on p (with_audience (merge_platforms v)))
        (with_audience-meant (merge_platforms v) a
          ∙ ap (λ x. is_meant x a) (merge_platforms-audience v))
      ∙ ap (λ x. is_meant v.audience a && x)
          (with_audience-on (merge_platforms v) p ∙ merge_platforms-on v p))
]

with_audience-value : (v : Value) → (with_audience v).value ≡ v.value
unfolding with_audience
with_audience-value v = elim (Bool-cases (v.audience == "")) [
  | inl y ↦ rw y refl
  | inr n ↦ rw n refl
]

merge_platforms-value : (v : Value) → (merge_platforms v).value ≡ v.value
unfolding merge_platforms
merge_platforms-value v =
    elim (Bool-cases (not (v.platform == "") && not (no_platforms v.platforms))) [
      | inl y ↦ rw y refl
      | inr n ↦ rw n refl
    ]

check_value-value : (v : Value) → (check_value v).value ≡ v.value
unfolding check_value
check_value-value v = elim (Bool-cases (is_platformless v)) [
  | inl y ↦ rw y refl
  | inr n ↦ rw n (with_audience-value (merge_platforms v) ∙ merge_platforms-value v)
]

last_value-check_value :
    (direction a p : String) (vs : List Value) (before : Option (List ℕ))
    → last_value direction a p (map check_value vs) before ≡ last_value direction a p vs before
unfolding last_value
last_value-check_value direction a p [] before = refl
last_value-check_value direction a p (v ∷ vs) before =
    last_value-check_value direction a p vs
      (if holds a p (check_value v) then some (text_of direction (check_value v).value) else before)
    ∙ ap
        (λ h.
          last_value direction a p vs
            (if h then some (text_of direction (check_value v).value) else before))
        (check_value-holds v a p)
    ∙ ap
        (λ t.
          last_value direction a p vs (if holds a p v then some (text_of direction t) else before))
        (check_value-value v)

Others-check_variable :
    (n : String) (vs : List Variable) → Others n vs → Others n (map check_variable vs)
unfolding check_variable
Others-check_variable n [] h = h
Others-check_variable n (v ∷ vs) (m, h) = (m, Others-check_variable n vs h)

map-append :
    (xs ys : List Variable)
    → map check_variable (xs ++ ys) ≡ (map check_variable xs ++ map check_variable ys)
map-append [] ys = refl
map-append (x ∷ xs) ys = ap (λ zs. check_variable x ∷ zs) (map-append xs ys)

-- In whatever order the variables are run through, where names differ: the table that `LoadConf` builds
-- before the check holds for users and for workers, on every platform, of a variable what a table
-- built after the check would hold of it: the platform that the check moves to the platforms, and
-- the audience that it sets to "all", change none of the values that are looked up.
pub check_variables-look_up :
    (a p : String) (before after : List Variable) (v : Variable)
    → IsConcrete a
    → Others v.name before
    → Others v.name after
    → look_up a p v.name (construct_variable_lookup_table (check_variables (before ++ v ∷ after)).0)
      ≡ look_up a p v.name (construct_variable_lookup_table (before ++ v ∷ after))
unfolding check_variables check_variable
check_variables-look_up a p before after v c x y =
    ap (λ vs. look_up a p v.name (construct_variable_lookup_table vs))
      (map-append before (v ∷ after))
    ∙ construct_variable_lookup_table-last a p (map check_variable before)
        (map check_variable after) (check_variable v) c (Others-check_variable v.name before x)
        (Others-check_variable v.name after y)
    ∙ last_value-check_value v.direction a p v.values none
    ∙ sym (construct_variable_lookup_table-last a p before after v c x y)
