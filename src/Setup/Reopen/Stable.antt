-- ===== src/Setup/Reopen/Stable.antt =====
-- What is saved, opened and saved again stays the same.
use flamenco_manager.Common.{
  String, ◌≡◌, ◌⊎◌, refl, ◌∙◌, inl, inr, Bool, true, false, List, [], ◌∷◌, ◌==◌, ap, map, sym,
  subst, All, if◌then◌else◌, eq_refl, eq_iff, Bool-cases, arith,
}
use flamenco_manager.Common.StringSet.{has, IsDistinct}
use flamenco_manager.Setup.Variables.{set_audience, every_for_all, created, cleanup_audiences}
use flamenco_manager.Setup.Variables.Cleanup.{map-set_audience_idem, every_for_all-set_audience}
use flamenco_manager.Setup.Config.{
  Variable, Config, EventBus, listen, Page, post_setup_data, heard, clean_variable, clean_variables,
  clean_config, save_config, form_options, save_button_disabled, setup_data_loaded,
}
use flamenco_manager.Setup.Reopen.{open_editors, opened, names, joins, IsSettled}

-- All audiences get the values of a variable.
abbrev joined : Variable → Variable
joined v = record v { values = map set_audience v.values }

joined_idem : (v : Variable) → joined (joined v) ≡ joined v
joined_idem v = λ i. record v { values = map-set_audience_idem v.values i }

-- What is left of a variable: however many editors listen, it is joined once if one of them joins.
heard-joins :
    (bus : EventBus) (name : String) (v : Variable)
    → heard bus name v ≡ (if joins name bus then joined v else v)
unfolding heard clean_variable cleanup_audiences
heard-joins [] name v = refl
heard-joins ((k, a) ∷ bus) name v = elim (Bool-cases (k == name)) [
  | inr d ↦ rw d (heard-joins bus name v)
  | inl e ↦ elim (Bool-cases (a == "separate")) [
    | inl s ↦ rw (e, s) (heard-joins bus name v)
    | inr n ↦ rw (e, n) (ap joined (heard-joins bus name v) ∙ joined-if (joins name bus) v)
  ]
]
  where
    joined-if : (b : Bool) (v : Variable) → joined (if b then joined v else v) ≡ joined v
    joined-if true v = joined_idem v
    joined-if false v = refl

-- No editor of these variables gives all audiences the same values.
abbrev Silent : EventBus → List String → Type 0
Silent bus = All (λ n. joins n bus ≡ false)

listen-Silent :
    (name a : String) (bus : EventBus) (ns : List String)
    → has ns name ≡ false
    → Silent bus ns
    → Silent ((name, a) ∷ bus) ns
unfolding has
listen-Silent name a bus [] n s = tt
listen-Silent name a bus (m ∷ ns) n (h, s) =
    (ground (arith, eq_iff name m, eq_iff m name), listen-Silent name a bus ns (ground arith) s)

joins-open_editors :
    (name : String) (vs : List (String × Variable)) (bus : EventBus)
    → has (names vs) name ≡ false
    → joins name (open_editors vs bus) ≡ joins name bus
unfolding open_editors has listen created
joins-open_editors name [] bus n = refl
joins-open_editors name ((m, v) ∷ vs) bus n = elim (Bool-cases (m == name)) [
  | inl e ↦ absurd (ground arith)
  | inr d ↦ joins-open_editors name vs _ (ground arith) ∙ rw d refl
]

-- The editor that is created on a variable, where no other one joins it.
joins-open_editors-head :
    (name : String) (v : Variable) (vs : List (String × Variable)) (bus : EventBus)
    → has (names vs) name ≡ false
    → joins name bus ≡ false
    → joins name (open_editors ((name, v) ∷ vs) bus) ≡ every_for_all v.values
unfolding open_editors listen created
joins-open_editors-head name v vs bus n s =
    joins-open_editors name vs _ n ∙ elim (Bool-cases (every_for_all v.values)) [
      | inl y ↦ rw (eq_refl name, y) refl
      | inr m ↦ rw (eq_refl name, m, s) refl
    ]

-- The editor that is created on a cleaned variable leaves it as it is.
heard-fresh :
    (name : String) (v : Variable) (b : Bool) (bus : EventBus)
    → (b ≡ true) ⊎ ((b ≡ false) × (every_for_all v.values ≡ false))
    → let w = if b then joined v else v in
      joins name bus ≡ every_for_all w.values → heard bus name w ≡ w
heard-fresh name v b bus (inl t) h = rw t (
    heard-joins bus name (joined v)
    ∙ rw ((rw t at h) ∙ every_for_all-set_audience v.values) (joined_idem v))
heard-fresh name v b bus (inr (f, apart)) h =
    rw f (heard-joins bus name v ∙ rw ((rw f at h) ∙ apart) refl)

names-clean_variables :
    (editors : EventBus) (vs : List (String × Variable))
    → names (clean_variables editors vs) ≡ names vs
unfolding clean_variables
names-clean_variables editors [] = refl
names-clean_variables editors ((name, v) ∷ vs) =
    ap (λ ns. name ∷ ns) (names-clean_variables editors vs)

-- The editors of the form that shows the saved variables leave them as they are.
clean_variables-open_editors :
    (editors : EventBus) (vs : List (String × Variable)) (bus : EventBus)
    → IsDistinct (names vs)
    → IsSettled editors vs
    → Silent bus (names vs)
    → let saved = clean_variables editors vs in
      clean_variables (open_editors saved bus) saved ≡ saved
unfolding clean_variables open_editors
clean_variables-open_editors editors [] bus d settled silent = refl
clean_variables-open_editors editors ((name, v) ∷ vs) bus (n, d) (h, settled) (s, silent) =
    let w = heard editors name v in
    let saved = clean_variables editors vs in
    let absent : has (names saved) name ≡ false = rw (names-clean_variables editors vs) n in
    let rest =
      clean_variables-open_editors editors vs (listen (created name w.direction w.values) bus) d
        settled (unfold listen in listen-Silent name _ bus (names vs) n silent) in
    let head = joins-open_editors-head name w saved bus absent s in
    let same : heard (open_editors ((name, w) ∷ saved) bus) name w ≡ w =
      subst
        (λ x.
          joins name (open_editors ((name, w) ∷ saved) bus) ≡ every_for_all x.values
          → heard (open_editors ((name, w) ∷ saved) bus) name x ≡ x)
        (sym (heard-joins editors name v))
        (heard-fresh name v (joins name editors) (open_editors ((name, w) ∷ saved) bus) h) head in
    λ i. (name, same i) ∷ rest i

nil-Silent : (ns : List String) → Silent [] ns
nil-Silent [] = tt
nil-Silent (n ∷ ns) = (refl, nil-Silent ns)

module _ {R : Type 0} (stringify : Config R → String) where
  -- Let no two variables of the form have the same name; and of each variable, let one of the editors that
  -- listen, shown or not, give all audiences the same values, or else let the variable have a value that
  -- is not for all of them. When the form is saved, and a page is opened anew that loads the
  -- configuration that was sent and shows the form, then its save button is disabled, and saving it at
  -- once sends the same configuration again.
  pub save_config-opened :
      (restart again : Bool) (own_urls : List String) (p q : Page R)
      → IsDistinct (names p.config.variables)
      → IsSettled p.editors p.config.variables
      → let sent = (save_config (form_options restart p) p).0.config in
        let r = opened own_urls sent q in
        ((save_config (form_options again r) r).1 ≡ post_setup_data sent)
        × (save_button_disabled stringify r ≡ true)
  unfolding save_config form_options opened clean_config setup_data_loaded save_button_disabled
  save_config-opened restart again own_urls p q d settled = (
    ap (λ vs. post_setup_data (record (p.config) { variables = vs }))
        (clean_variables-open_editors p.editors p.config.variables [] d settled
          (nil-Silent (names p.config.variables))),
    eq_refl _,
  )
