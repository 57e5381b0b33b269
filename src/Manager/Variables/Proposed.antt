-- ===== src/Manager/Variables/Proposed.antt =====
-- static/websetup/websetup.js and flamenco/settings.go: what the setup page proposes for a new value of a variable, in
-- the table that the manager makes of the saved configuration.
use flamenco_manager.Setup.Variables.NewValue.{props_for_new_value-uncovered}
use flamenco_manager.Common.StringSet.{has}
use flamenco_manager.Common.{
  ℕ, String, Bool, true, false, not, ◌&&◌, ◌||◌, Option, none, some, List, [], ◌∷◌, ◌++◌, map,
  if◌then◌else◌, ◌==◌, ◌≡◌, ◌⊎◌, inl, inr, refl, sym, ap, ◌∙◌, All, Bool-cases, arith, eq_refl,
  eq_iff, subst,
}
use mathlib.Core.Bool.{false≢true}
use flamenco_manager.Setup.Variables.{
  VarValue, Editor, names_all, props_for_new_value, props, supported_platforms, empty_variable,
}
use flamenco_manager.Setup.Variables.Coverage.{covers, any_covers, is_text}
use flamenco_manager.Manager.Variables.{
  Value, Variable, is_wildcard, text_of, look_up, construct_variable_lookup_table,
}
use flamenco_manager.Manager.Variables.Table.{
  holds, is_meant, last_value, IsConcrete, Others, construct_variable_lookup_table-last,
}

-- A text in JSON that may be left out.
unfoldable pub sent_text : Option String → String
sent_text none = ""
sent_text (some s) = s

-- A value of no such platform.
other_platform :
    (o : Option String) (p : String)
    → is_text o p ≡ false
    → (not (sent_text o == "") && sent_text o == p) ≡ false
unfolding sent_text
other_platform none p h = refl
other_platform (some q) p h = rw h (ground arith)

-- A value for neither all nor the audience.
other_audience : (x a : String) → (names_all (some x) || x == a) ≡ false → is_meant x a ≡ false
unfolding names_all is_wildcard
other_audience x a h = ground (arith, h)

and-none : (b : Bool) → (b && (false || false)) ≡ false
and-none true = refl
and-none false = refl

uncovered-meant :
    (is_all : Bool) (a p : String) (v : VarValue)
    → (is_all ≡ true) ⊎ ((x : String) × (v.audience ≡ some x))
    → is_text v.platform p ≡ true
    → covers is_all a p v ≡ false
    → is_meant (sent_text v.audience) a ≡ false
unfolding sent_text
uncovered-meant is_all a p v (inl all) same h = absurd (false≢true (sym h ∙ rw (same, all) refl))
uncovered-meant is_all a p v (inr (x, e)) same h =
    rw e (other_audience x a (ground (arith, rw (same, e) at h)))

-- A supported platform has a name.
supported-named : (p : String) → has supported_platforms p ≡ true → (p == "") ≡ false
unfolding has
supported-named p h = elim (Bool-cases (p == "")) [
  | inl y ↦
      absurd (false≢true (subst (λ q. has supported_platforms q ≡ true) ((eq_iff p "").0 y) h))
  | inr n ↦ n
]

-- The value that the page adds.
abbrev pub proposed : String → String → VarValue
proposed a p = record empty_variable { audience = some a; platform = some p }

module _ (bytes : String → List ℕ) where
  -- A value of the page as the manager reads it.
  unfoldable pub sent_value : VarValue → Value
  unfolding sent_text
  sent_value v = record {
    audience = sent_text v.audience;
    platform = sent_text v.platform;
    platforms = v.platforms;
    value = bytes v.value;
  }

  -- A variable that is saved with these values.
  unfoldable pub sent_variable : Editor → List VarValue → Variable
  unfolding sent_value
  sent_variable e vs = record {
    name = e.var_name;
    direction = e.direction;
    values = map sent_value vs;
  }

  -- A value with no list of platforms, whose audience is known to an editor in which audiences differ.
  abbrev pub IsAddressed : Bool → VarValue → Type 0
  IsAddressed is_all v =
      (v.platforms ≡ []) × ((is_all ≡ true) ⊎ ((a : String) × (v.audience ≡ some a)))

  uncovered-holds :
      (is_all : Bool) (a p : String) (v : VarValue)
      → IsAddressed is_all v
      → covers is_all a p v ≡ false
      → holds a p (sent_value v) ≡ false
  unfolding sent_value
  uncovered-holds is_all a p v (plain, k) h = elim (Bool-cases (is_text v.platform p)) [
    | inl y ↦ rw (uncovered-meant is_all a p v k y h) refl
    | inr n ↦
        rw (plain, other_platform v.platform p n) (and-none (is_meant (sent_text v.audience) a))
  ]

  uncovered-last :
      (is_all : Bool) (a p direction : String) (vs : List VarValue)
      → All (IsAddressed is_all) vs
      → any_covers is_all a p vs ≡ false
      → last_value direction a p (map sent_value vs) none ≡ none
  unfolding last_value sent_value
  uncovered-last is_all a p direction [] k h = refl
  uncovered-last is_all a p direction (v ∷ vs) (k, ks) h =
      ap
        (λ b.
          last_value direction a p (map sent_value vs)
            (if b then some (text_of direction (bytes v.value)) else none))
        (uncovered-holds is_all a p v k (ground (arith, h)))
      ∙ uncovered-last is_all a p direction vs ks (ground (arith, h))

  last_value-append :
      (direction a p : String) (vs : List VarValue) (w : VarValue) (before : Option (List ℕ))
      → holds a p (sent_value w) ≡ true
      → last_value direction a p (map sent_value (vs ++ w ∷ [])) before
        ≡ some (text_of direction (bytes w.value))
  unfolding last_value sent_value
  last_value-append direction a p [] w before h = rw h refl
  last_value-append direction a p (v ∷ vs) w before h = last_value-append direction a p vs w _ h

  proposed-holds :
      (is_all : Bool) (a audience p : String)
      → (p == "") ≡ false
      → a ≡ (if is_all then "all" else audience)
      → holds audience p (sent_value (proposed a p)) ≡ true
  unfolding sent_value sent_text is_wildcard
  proposed-holds true a audience p n e = rw (e, n, eq_refl p) refl
  proposed-holds false a audience p n e = rw (e, n, eq_refl p, eq_refl audience) (ground arith)

  -- Let the setup page propose an audience and a platform for a new value of a variable, none of whose values
  -- has a list of platforms, and each of whose values names an audience unless all audiences are to have
  -- the same ones. Then there are users, or workers, for
  -- whom the table that the manager makes of the saved variables, where the names differ, has no
  -- value of this variable on that platform; and once the proposed value is added, it has the text of that value.
  pub props_for_new_value-look_up :
      (e : Editor) (a p : String) (before after : List Variable)
      → props_for_new_value e ≡ props a p
      → All (IsAddressed (e.all_audience == "all")) e.values
      → Others e.var_name before
      → Others e.var_name after
      → (audience : String) × IsConcrete audience
        × (look_up audience p e.var_name
              (construct_variable_lookup_table (before ++ sent_variable e e.values ∷ after))
            ≡ none)
        × (look_up audience p e.var_name (
              construct_variable_lookup_table
                (before ++ sent_variable e (e.values ++ proposed a p ∷ []) ∷ after))
            ≡ some (text_of e.direction (bytes "")))
  unfolding sent_variable
  props_for_new_value-look_up e a p before after h k x y =
      let (audience, c, same, supported, free) = props_for_new_value-uncovered e a p h in
      let is_all : Bool = e.all_audience == "all" in
      let more : List VarValue = e.values ++ proposed a p ∷ [] in
      (
        audience,
        c,
        construct_variable_lookup_table-last audience p before after (sent_variable e e.values) c x
              y
            ∙ uncovered-last is_all audience p e.direction e.values k free,
        construct_variable_lookup_table-last audience p before after (sent_variable e more) c x y
            ∙ last_value-append e.direction audience p e.values (proposed a p) none
                (proposed-holds is_all a audience p (supported-named p supported) same),
      )
