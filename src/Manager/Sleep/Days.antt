-- ===== src/Manager/Sleep/Days.antt =====
-- The days of a schedule, after the clean-up with which they are stored.
use flamenco_manager.Common.{
  ℕ, ◌≡◌, ◌≢◌, inl, inr, Bool, false, ◌&&◌, ◌||◌, List, [], ◌∷◌, nat_eq, arith, if◌then◌else◌, true,
  ◌/◌, ◌%◌, some, Option-cases, ◌∙◌, subst, refl, ap, sym,
}
use mathlib.Core.Option
use mathlib.Core.Option.{some-injective, none-ne-some}
use flamenco_manager.Manager.TimeOfDay.{per_day}
use flamenco_manager.Manager.Sleep.{
  has_prefix, contains, to_lower, join_days, days_of_fields, day_of_field, cleanup_days_of_week,
  fields, weekday_name, day_name,
}

-- The days that the words name: `a` and `b` are the two letters of a day.
unfoldable pub names_day : List (List ℕ) → ℕ → ℕ → Bool
names_day [] a b = false
names_day ([] ∷ fs) a b = names_day fs a b
names_day ((c ∷ []) ∷ fs) a b = names_day fs a b
names_day ((c ∷ d ∷ cs) ∷ fs) a b =
    (nat_eq (to_lower c) a && nat_eq (to_lower d) b) || names_day fs a b

-- Between two days of two letters stands one space.
contains-pair :
    (x y a b : ℕ) (rest : List ℕ)
    → a ≢ 32
    → b ≢ 32
    → contains (x ∷ y ∷ 32 ∷ rest) (a ∷ b ∷ [])
      ≡ ((nat_eq x a && nat_eq y b) || contains rest (a ∷ b ∷ []))
unfolding contains has_prefix
contains-pair x y a b rest p q = ground arith

contains-last : (x y a b : ℕ) → contains (x ∷ y ∷ []) (a ∷ b ∷ []) ≡ (nat_eq x a && nat_eq y b)
unfolding contains has_prefix
contains-last x y a b = ground arith

contains-join_days :
    (d : List ℕ) (ds : List (List ℕ)) (x y a b : ℕ)
    → a ≢ 32
    → b ≢ 32
    → d ≡ x ∷ y ∷ []
    → contains (join_days (d ∷ ds)) (a ∷ b ∷ [])
      ≡ ((nat_eq x a && nat_eq y b) || contains (join_days ds) (a ∷ b ∷ []))
unfolding join_days
contains-join_days d [] x y a b p q e =
    rw (e, contains-last x y a b) (unfold contains has_prefix in ground arith)
contains-join_days d (f ∷ ds) x y a b p q e = rw e (contains-pair x y a b (join_days (f ∷ ds)) p q)

contains-days_of_fields :
    (fs ds : List (List ℕ)) (a b : ℕ)
    → a ≢ 32
    → b ≢ 32
    → days_of_fields fs ≡ some ds
    → contains (join_days ds) (a ∷ b ∷ []) ≡ names_day fs a b
unfolding days_of_fields day_of_field names_day
contains-days_of_fields [] ds a b p q h =
    let none_left : [] ≡ ds = some-injective [] ds h in
    subst (λ l. contains (join_days l) (a ∷ b ∷ []) ≡ false) none_left
      (unfold join_days contains has_prefix in refl)
contains-days_of_fields ([] ∷ fs) ds a b p q h = cc
contains-days_of_fields ((c ∷ []) ∷ fs) ds a b p q h = cc
contains-days_of_fields ((c ∷ d ∷ cs) ∷ fs) ds a b p q h =
    let day : List ℕ = to_lower c ∷ to_lower d ∷ [] in
    elim (Option-cases (days_of_fields fs)) [
      | inl e ↦ absurd (none-ne-some ds (sym (ap (Option.map (λ l. day ∷ l)) e) ∙ h))
      | inr (es, e) ↦
          let split : day ∷ es ≡ ds =
            some-injective (day ∷ es) ds (sym (ap (Option.map (λ l. day ∷ l)) e) ∙ h) in
          subst (λ l. contains (join_days l) (a ∷ b ∷ []) ≡ names_day ((c ∷ d ∷ cs) ∷ fs) a b) split
            (contains-join_days day es (to_lower c) (to_lower d) a b p q refl
              ∙ ap (λ r. (nat_eq (to_lower c) a && nat_eq (to_lower d) b) || r)
                  (contains-days_of_fields fs es a b p q e))
    ]

-- Two letters, neither of which is a space.
unfoldable IsDay : List ℕ → Type 0
IsDay d = (a : ℕ) × (b : ℕ) × ((d ≡ a ∷ b ∷ []) × ((a ≢ 32) × (b ≢ 32)))

if-IsDay : (c : Bool) (d e : List ℕ) → IsDay d → IsDay e → IsDay (if c then d else e)
if-IsDay true d e p q = p
if-IsDay false d e p q = q

letters-IsDay : (a b : ℕ) → a ≢ 32 → b ≢ 32 → IsDay (a ∷ b ∷ [])
unfolding IsDay
letters-IsDay a b p q = (a, b, (refl, (p, q)))

day_name-IsDay : (n : ℕ) → IsDay (day_name n)
unfolding day_name
day_name-IsDay n = if-IsDay (nat_eq n 0) _ _ (letters-IsDay b's' b'u' (omega arith) (omega arith)) (
    if-IsDay (nat_eq n 1) _ _ (letters-IsDay b'm' b'o' (omega arith) (omega arith)) (
      if-IsDay (nat_eq n 2) _ _ (letters-IsDay b't' b'u' (omega arith) (omega arith)) (
        if-IsDay (nat_eq n 3) _ _ (letters-IsDay b'w' b'e' (omega arith) (omega arith)) (
          if-IsDay (nat_eq n 4) _ _ (letters-IsDay b't' b'h' (omega arith) (omega arith)) (
            if-IsDay (nat_eq n 5) _ _ (letters-IsDay b'f' b'r' (omega arith) (omega arith))
              (letters-IsDay b's' b'a' (omega arith) (omega arith)))))))

-- The words that name a day.
unfoldable pub names_weekday : List (List ℕ) → List ℕ → Bool
unfolding names_day
names_weekday fs [] = false
names_weekday fs (a ∷ []) = false
names_weekday fs (a ∷ b ∷ cs) = names_day fs a b

join_days-names_weekday :
    (fs ds : List (List ℕ)) (d : List ℕ)
    → IsDay d
    → days_of_fields fs ≡ some ds
    → contains (join_days ds) d ≡ names_weekday fs d
unfolding IsDay names_weekday
join_days-names_weekday fs ds d (a, b, (e, (p, q))) h =
    subst (λ l. contains (join_days ds) l ≡ names_weekday fs l) (sym e)
      (contains-days_of_fields fs ds a b p q h)

-- When the text of the days of a schedule is cleaned up without a panic, the test whether the cleaned
-- text contains the two letters of a moment's day of the week succeeds exactly when some word of the
-- text that was given begins with these letters, in either case.
pub cleanup_days_of_week-contains :
    (days cleaned : List ℕ) (t : ℕ)
    → cleanup_days_of_week days ≡ some cleaned
    → contains cleaned (weekday_name t) ≡ names_weekday (fields days) (weekday_name t)
unfolding cleanup_days_of_week weekday_name
cleanup_days_of_week-contains days cleaned t h =
    elim (Option-cases (days_of_fields (fields days))) [
      | inl e ↦ absurd (none-ne-some cleaned (sym (ap (Option.map join_days) e) ∙ h))
      | inr (ds, e) ↦
          let joined : join_days ds ≡ cleaned =
            some-injective (join_days ds) cleaned (sym (ap (Option.map join_days) e) ∙ h) in
          subst (λ l. contains l (weekday_name t) ≡ names_weekday (fields days) (weekday_name t))
            joined
            (join_days-names_weekday (fields days) ds (weekday_name t)
              (day_name-IsDay (t / per_day % 7)) e)
    ]
