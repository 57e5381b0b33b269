-- ===== src/Common/Handles.antt =====
-- A kind of browser object of which a script keeps the latest in a variable: timeouts, clipboards,
-- event sources. A handle is a number that is never given out again.
use Prim.Native.Nat.{ℕ, suc}
use mathlib.Core.Path.{◌≡◌, refl}
use mathlib.Core.Logic.{◌≢◌, ◌⊎◌, inl, inr}
use mathlib.Core.Option.{Option, none, some}
use mathlib.Core.List.{List, [], ◌∷◌}
use native.Mathlib.Omega.{arith}
use flamenco_manager.Common.Tests.{nat_eq, nat_eq_iff, if◌then◌else◌, Bool-cases}

-- The objects that are live, with what each was made with; the next handle; the variable.
pub record Handles (A : Type 0) : Type 0 where
  pub live : List (ℕ × A)
  pub next : ℕ
  pub latest : Option ℕ

module _ {A : Type 0} where
  -- No object yet.
  abbrev pub no_handles : Handles A
  no_handles = record { live = []; next = 0; latest = none }

  unfoldable pub without : ℕ → List (ℕ × A) → List (ℕ × A)
  without h [] = []
  without h ((k, a) ∷ ts) = let rest = without h ts in if nat_eq k h then rest else (k, a) ∷ rest

  -- The object of a handle ends: it is closed, or a timeout fires.
  unfoldable pub end : ℕ → Handles A → Handles A
  unfolding without
  end h t = record t { live = without h t.live }

  -- The latest object is closed, if there has been one; a handle that has ended is ignored.
  unfoldable pub close_latest : Handles A → Handles A
  unfolding end
  close_latest t = elim t.latest [ none ↦ t | some h ↦ end h t ]

  -- A new object, which the variable then names.
  unfoldable pub open_new : A → Handles A → Handles A
  open_new a t = record { live = (t.next, a) ∷ t.live; next = suc t.next; latest = some t.next }

  -- At most one object is live, and it is the one that the variable names.
  abbrev pub IsExclusive : Handles A → Type 0
  IsExclusive t = (t.live ≡ []) ⊎ ((h : ℕ) × (a : A) × (t.live ≡ (h, a) ∷ []) × (t.latest ≡ some h))

  pub close_latest-live : (t : Handles A) → IsExclusive t → (close_latest t).live ≡ []
  unfolding close_latest
  close_latest-live t (inl e) = ground arith
  close_latest-live t (inr (h, a, e, l)) = ground (arith, nat_eq_iff h h)

  pub end-IsExclusive : (k : ℕ) (t : Handles A) → IsExclusive t → IsExclusive (end k t)
  unfolding end
  end-IsExclusive k t (inl e) = inl (rw e)
  end-IsExclusive k t (inr (h, a, e, l)) = elim (Bool-cases (nat_eq h k)) [
    | inl y ↦ inl (rw e (rw y))
    | inr n ↦ inr (h, a, rw e (rw n), l)
  ]

  -- Closing the latest object and opening another keeps the kind exclusive.
  pub open_new-close_latest :
      (a : A) (t : Handles A)
      → IsExclusive t
      → (open_new a (close_latest t)).live ≡ ((close_latest t).next, a) ∷ []
  unfolding open_new
  open_new-close_latest a t v = rw (close_latest-live t v)

  pub close_latest-IsExclusive : (t : Handles A) → IsExclusive t → IsExclusive (close_latest t)
  close_latest-IsExclusive t v = inl (close_latest-live t v)

  pub replace-IsExclusive :
      (a : A) (t : Handles A) → IsExclusive t → IsExclusive (open_new a (close_latest t))
  replace-IsExclusive a t v =
      inr ((close_latest t).next, a, open_new-close_latest a t v, unfold open_new in refl)

  pub open_new-ne-nil : (a : A) (t : Handles A) → (open_new a t).live ≢ []
  unfolding open_new
  open_new-ne-nil a t e = cc
