-- ===== src/Dashboard/Schedule/Saving.antt =====
-- What is sent when a schedule is saved.
use flamenco_manager.Common.{
  String, ◌≡◌, refl, ◌≢◌, Option, none, some, arith, eq_iff, Bool-cases, ap, ◌==◌, ◌⊎◌, inl, inr,
}
use flamenco_manager.Dashboard.Schedule.{Schedule, to_send, given}

given-ne-empty : (o : Option String) → given o ≢ some ""
unfolding given
given-ne-empty none e = cc
given-ne-empty (some t) e = ground (arith, eq_iff t "")

given_idem : (o : Option String) → given (given o) ≡ given o
unfolding given
given_idem none = refl
given_idem (some t) = ground arith

given-cases : (o : Option String) → ((o ≡ some "") × (given o ≡ none)) ⊎ (given o ≡ o)
unfolding given
given-cases none = inr refl
given-cases (some t) = elim (Bool-cases (t == "")) [
  | inl e ↦ inl (ap some ((eq_iff t "").0 e), rw e)
  | inr n ↦ inr (rw n)
]

-- A schedule that is sent has no empty time; its days and its activity are those of the form, and a
-- time is sent as it is or left out where it is empty; and what has been sent once is sent unchanged again.
pub to_send_clean :
    (s : Schedule)
    → ((to_send s).time_start ≢ some "")
      × ((to_send s).time_end ≢ some "")
      × ((to_send s).schedule_active ≡ s.schedule_active)
      × ((to_send s).days_of_week ≡ s.days_of_week)
      × (((s.time_start ≡ some "") × ((to_send s).time_start ≡ none))
          ⊎ ((to_send s).time_start ≡ s.time_start))
      × (((s.time_end ≡ some "") × ((to_send s).time_end ≡ none))
          ⊎ ((to_send s).time_end ≡ s.time_end))
      × (to_send (to_send s) ≡ to_send s)
unfolding to_send
to_send_clean s = (
  given-ne-empty s.time_start,
  given-ne-empty s.time_end,
  refl,
  refl,
  given-cases s.time_start,
  given-cases s.time_end,
  λ i. record s { time_start = given_idem s.time_start i; time_end = given_idem s.time_end i },
)
