-- ===== src/Manager/Variables/Table.antt =====
-- What the table of variables holds.
use flamenco_manager.Common.{
  ℕ, String, Bool, true, false, not, ◌&&◌, ◌||◌, Option, none, some, List, [], ◌∷◌, ◌++◌,
  if◌then◌else◌, ◌==◌, ◌≡◌, ◌⊎◌, inl, inr, refl, sym, ap, ◌∙◌, All, Bool-cases, eq_refl, arith,
}
use flamenco_manager.Manager.Variables.{
  Value, Variable, Entry, is_entry, look_up, is_wildcard, entry, set_value, text_of, set_platforms,
  add_value, add_values, add_variables, construct_variable_lookup_table,
}

abbrev pub one_of : String → List String → Bool
one_of p [] = false
one_of p (q ∷ qs) = q == p || one_of p qs

-- Whether a value is meant for an audience.
abbrev pub is_meant : String → String → Bool
is_meant audience a = (audience == "" || audience == "all") || audience == a

-- Whether a value holds for an audience on a platform.
abbrev pub holds : String → String → Value → Bool
holds a p v =
    is_meant v.audience a && ((not (v.platform == "") && v.platform == p) || one_of p v.platforms)

-- The text of the last value that holds, or else the one that was there.
unfoldable pub last_value :
    String → String → String → List Value → Option (List ℕ) → Option (List ℕ)
unfolding text_of
last_value direction a p [] before = before
last_value direction a p (v ∷ vs) before =
    last_value direction a p vs (if holds a p v then some (text_of direction v.value) else before)

abbrev pub IsConcrete : String → Type 0
IsConcrete a = (a ≡ "users") ⊎ (a ≡ "workers")

look_up-set_value :
    (a p n audience platform name : String) (v : List ℕ) (table : List Entry)
    → IsConcrete a
    → look_up a p n (set_value audience platform name v table) ≡ (
        if is_meant audience a && (platform == p && name == n) then some v else look_up a p n table)
unfolding look_up is_entry set_value entry is_wildcard
look_up-set_value a p n audience platform name v table (inl e) =
    elim (Bool-cases (audience == "" || audience == "all")) [
      | inl y ↦ rw (e, y) refl
      | inr m ↦ rw (e, m) refl
    ]
look_up-set_value a p n audience platform name v table (inr e) =
    elim (Bool-cases (audience == "" || audience == "all")) [
      | inl y ↦ rw (e, y) refl
      | inr m ↦ rw (e, m) refl
    ]

-- Two tests of which the later one comes first.
if-twice :
    (x y : Bool) (s t : Option (List ℕ))
    → (if x then s else if y then s else t) ≡ (if y || x then s else t)
if-twice true true s t = refl
if-twice true false s t = refl
if-twice false true s t = refl
if-twice false false s t = refl

if-false : (b : Bool) (s t : Option (List ℕ)) → (if b && false then s else t) ≡ t
if-false true s t = refl
if-false false s t = refl

if-true : (b : Bool) (s t : Option (List ℕ)) → (if b && true then s else t) ≡ (if b then s else t)
if-true true s t = refl
if-true false s t = refl

and_assoc : (m q n : Bool) → (m && (q && n)) ≡ ((m && q) && n)
and_assoc true q n = refl
and_assoc false q n = refl

meant-or : (m q r n : Bool) → ((m && (q && n)) || (m && (r && n))) ≡ (m && ((q || r) && n))
meant-or m q r n = ground arith

look_up-set_platforms :
    (a p n audience : String) (ps : List String) (name : String) (v : List ℕ) (table : List Entry)
    → IsConcrete a
    → look_up a p n (set_platforms audience ps name v table)
      ≡ (if is_meant audience a && (one_of p ps && name == n) then some v else look_up a p n table)
unfolding set_platforms
look_up-set_platforms a p n audience [] name v table c =
    sym (if-false (is_meant audience a) (some v) (look_up a p n table))
look_up-set_platforms a p n audience (q ∷ qs) name v table c =
    look_up-set_platforms a p n audience qs name v (set_value audience q name v table) c
    ∙ ap (λ o. if is_meant audience a && (one_of p qs && name == n) then some v else o)
        (look_up-set_value a p n audience q name v table c)
    ∙ if-twice _ _ (some v) (look_up a p n table)
    ∙ ap (λ b. if b then some v else look_up a p n table)
        (meant-or (is_meant audience a) (q == p) (one_of p qs) (name == n))

-- The single platform of a value, if it has one.
look_up-platform :
    (a p n audience platform name : String) (v : List ℕ) (table : List Entry)
    → IsConcrete a
    → look_up a p n (if platform == "" then table else set_value audience platform name v table) ≡ (
        if is_meant audience a && ((not (platform == "") && platform == p) && name == n)
        then some v
        else look_up a p n table)
look_up-platform a p n audience platform name v table c = elim (Bool-cases (platform == "")) [
  | inl y ↦ rw y (sym (if-false (is_meant audience a) (some v) (look_up a p n table)))
  | inr m ↦ rw m (look_up-set_value a p n audience platform name v table c)
]

look_up-add_value :
    (a p n name direction : String) (v : Value) (table : List Entry)
    → IsConcrete a
    → look_up a p n (add_value name direction v table)
      ≡ (if holds a p v && name == n then some (text_of direction v.value) else look_up a p n table)
unfolding add_value
look_up-add_value a p n name direction v table c =
    let text : List ℕ = text_of direction v.value in
    let own : Bool = not (v.platform == "") && v.platform == p in
    let others : Bool = one_of p v.platforms in
    let meant : Bool = is_meant v.audience a in
    look_up-set_platforms a p n v.audience v.platforms name text
      (if v.platform == "" then table else set_value v.audience v.platform name text table) c
    ∙ ap (λ o. if meant && (others && name == n) then some text else o)
        (look_up-platform a p n v.audience v.platform name text table c)
    ∙ if-twice (meant && (others && name == n)) (meant && (own && name == n)) (some text)
        (look_up a p n table)
    ∙ ap (λ b. if b then some text else look_up a p n table)
        (meant-or meant own others (name == n) ∙ and_assoc meant (own || others) (name == n))

if-same : (b : Bool) (s : Option (List ℕ)) → s ≡ (if b then s else s)
if-same true s = refl
if-same false s = refl

look_up-add_values :
    (a p n name direction : String) (vs : List Value) (table : List Entry)
    → IsConcrete a
    → look_up a p n (add_values name direction vs table) ≡ (
        if name == n
        then last_value direction a p vs (look_up a p n table)
        else look_up a p n table)
unfolding add_values last_value
look_up-add_values a p n name direction [] table c = if-same (name == n) (look_up a p n table)
look_up-add_values a p n name direction (v ∷ vs) table c = elim (Bool-cases (name == n)) [
  | inl y ↦
      let one = rw y at (look_up-add_value a p n name direction v table c) in
      let rest =
        rw y at (look_up-add_values a p n name direction vs (add_value name direction v table) c) in
      rw y (rest ∙ ap (last_value direction a p vs) (one ∙ if-true (holds a p v) _ _))
  | inr m ↦
      let one = rw m at (look_up-add_value a p n name direction v table c) in
      let rest =
        rw m at (look_up-add_values a p n name direction vs (add_value name direction v table) c) in
      rw m (rest ∙ one ∙ if-false (holds a p v) _ _)
]

-- The variables have other names than `n`.
abbrev pub Others : String → List Variable → Type 0
Others n = All (λ v. (v.name == n) ≡ false)

look_up-add_variables :
    (a p n : String) (vs : List Variable) (table : List Entry)
    → IsConcrete a
    → Others n vs
    → look_up a p n (add_variables vs table) ≡ look_up a p n table
unfolding add_variables
look_up-add_variables a p n [] table c h = refl
look_up-add_variables a p n (v ∷ vs) table c (m, h) =
    look_up-add_variables a p n vs (add_values v.name v.direction v.values table) c h
    ∙ look_up-add_values a p n v.name v.direction v.values table c
    ∙ rw m refl

add_variables-append :
    (xs ys : List Variable) (table : List Entry)
    → add_variables (xs ++ ys) table ≡ add_variables ys (add_variables xs table)
unfolding add_variables
add_variables-append [] ys table = refl
add_variables-append (x ∷ xs) ys table =
    add_variables-append xs ys (add_values x.name x.direction x.values table)

-- In whatever order the variables are run through, where names differ: for users and for workers, on every
-- platform, the table holds of a variable its last value that is meant for them or for all and
-- that names the platform, without its last slashes if the variable goes two ways; and
-- none if there is no such value.
pub construct_variable_lookup_table-last :
    (a p : String) (before after : List Variable) (v : Variable)
    → IsConcrete a
    → Others v.name before
    → Others v.name after
    → look_up a p v.name (construct_variable_lookup_table (before ++ v ∷ after))
      ≡ last_value v.direction a p v.values none
unfolding construct_variable_lookup_table add_variables look_up
construct_variable_lookup_table-last a p before after v c x y =
    let first : List Entry = add_variables before [] in
    ap (look_up a p v.name) (add_variables-append before (v ∷ after) [])
    ∙ look_up-add_variables a p v.name after (add_values v.name v.direction v.values first) c y
    ∙ look_up-add_values a p v.name v.name v.direction v.values first c
    ∙ rw (eq_refl v.name)
        (ap (last_value v.direction a p v.values) (look_up-add_variables a p v.name before [] c x))
