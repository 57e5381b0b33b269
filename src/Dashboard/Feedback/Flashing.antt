-- ===== src/Dashboard/Feedback/Flashing.antt =====
-- A flash ends.
use flamenco_manager.Common.{◌≡◌, refl, ◌⊎◌, inl, inr, false, List, [], ◌∷◌, ◌++◌, arith, ◌∙◌, ap}
use flamenco_manager.Dashboard.Feedback.{
  Task, delay, fade, to_clean, Element, flash_once, run_task, new_element, Step, flashed, ran,
  Reach, here, next,
}

-- An element without a class, or one whose queue ends by cleaning it.
abbrev EndsClean : Element → Type 0
EndsClean e =
    ((e.queue ≡ []) × (e.flash_on ≡ false) × (e.flash_off ≡ false))
    ⊎ ((before : List Task) × (e.queue ≡ before ++ to_clean ∷ []))

append_assoc : (xs ys zs : List Task) → xs ++ (ys ++ zs) ≡ (xs ++ ys) ++ zs
append_assoc [] ys zs = refl
append_assoc (x ∷ xs) ys zs = ap (λ l. x ∷ l) (append_assoc xs ys zs)

run_task-queue : (t : Task) (rest : List Task) (e : Element) → (run_task t rest e).queue ≡ rest
unfolding run_task
run_task-queue (delay ms) rest e = refl
run_task-queue fade rest e = refl
run_task-queue to_clean rest e = refl

run_task-EndsClean :
    (t : Task) (rest before : List Task) (e : Element)
    → t ∷ rest ≡ before ++ to_clean ∷ []
    → EndsClean (run_task t rest e)
unfolding run_task
run_task-EndsClean t rest [] e k = inl (ground arith)
run_task-EndsClean t rest (b ∷ before) e k = inr (before, run_task-queue t rest e ∙ cc)

Step-EndsClean : {e f : Element} → Step e f → EndsClean e → EndsClean f
unfolding flash_once
Step-EndsClean {e} (flashed p) v = inr (
  e.queue ++ delay 500 ∷ fade ∷ delay 1000 ∷ [],
  rw p (append_assoc e.queue (delay 500 ∷ fade ∷ delay 1000 ∷ []) (to_clean ∷ [])),
)
Step-EndsClean {e} (ran t rest q p) (inl (n, x, y)) = absurd (ground arith)
Step-EndsClean {e} (ran t rest q p) (inr (before, n)) =
    rw p (run_task-EndsClean t rest before e (cc))

Reach-EndsClean : (e : Element) → Reach new_element e → EndsClean e
Reach-EndsClean e here = unfold new_element in inl (refl, refl, refl)
Reach-EndsClean e (next r s) = Step-EndsClean s (Reach-EndsClean _ r)

nil-ne-snoc : (before : List Task) (t : Task) → [] ≡ before ++ t ∷ [] → ⊥
nil-ne-snoc [] t e = cc
nil-ne-snoc (x ∷ before) t e = cc

-- However often an element is flashed and however its flashes overlap, whenever its queue has run empty
-- neither of the two classes is left on it.
pub Reach-new_element-clean :
    (e : Element)
    → Reach new_element e
    → e.queue ≡ []
    → (e.flash_on ≡ false) × (e.flash_off ≡ false)
Reach-new_element-clean e r q = elim (Reach-EndsClean e r) [
  | inl (n, x, y) ↦ (x, y)
  | inr (before, n) ↦ absurd (nil-ne-snoc before to_clean (cc))
]
