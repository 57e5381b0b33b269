-- ===== src/Setup/Ready/Loading.antt =====
-- When the indicator is shown.
use flamenco_manager.Common.{◌≡◌, refl, ◌⊎◌, inl, inr, true, false, not, nat_eq, arith}
use flamenco_manager.Setup.Ready.{
  Indicator, begin_request, end_request, loaded, page_ready, Step, begins, ends, readies, Reach,
  here, next,
}

-- Before the page is ready the indicator stays; from then on it tells whether a request is out.
abbrev IsTrue : Indicator → Type 0
IsTrue i =
    ((i.listening ≡ false) × (i.shown ≡ true))
    ⊎ ((i.listening ≡ true) × (i.shown ≡ not (nat_eq i.active 0)))

Step-IsTrue : {i j : Indicator} → Step i j → IsTrue i → IsTrue j
unfolding begin_request end_request page_ready
Step-IsTrue (begins e) (inl (l, s)) = inl (ground arith, ground arith)
Step-IsTrue {i} (begins e) (inr (l, s)) = inr (ground arith, ground arith)
Step-IsTrue (ends left a e) (inl (l, s)) = inl (ground arith, ground arith)
Step-IsTrue (ends left a e) (inr (l, s)) = inr (ground arith, ground arith)
Step-IsTrue (readies n e) (inl (l, s)) = inr (ground arith, ground arith)
Step-IsTrue (readies n e) (inr (l, s)) = absurd (ground arith)

Reach-IsTrue : (i : Indicator) → Reach loaded i → IsTrue i
Reach-IsTrue i here = unfold loaded in inl (refl, ground arith)
Reach-IsTrue i (next r s) = Step-IsTrue s (Reach-IsTrue _ r)

-- Whatever requests have begun and ended since the script ran, from the moment when the page is ready the
-- indicator is shown exactly while a request is out, though a request may have begun and all have
-- ended before the handlers were set.
pub Reach-loaded-shown :
    (i : Indicator) → Reach loaded i → i.listening ≡ true → i.shown ≡ not (nat_eq i.active 0)
Reach-loaded-shown i r l = elim (Reach-IsTrue i r) [
  | inl (n, s) ↦ absurd (ground arith)
  | inr (n, s) ↦ s
]
