-- ===== src/Manager/Tasks/Left.antt =====
-- Which workers are left for a task that a worker failed, and the status that this gives it.
use flamenco_manager.Common.{
  ℕ, ◌+◌, ◌<◌, String, true, false, ◌||◌, List, [], ◌∷◌, ◌++◌, nat_eq, nat_eq_iff, length,
  length-append, ◌≡◌, ◌≢◌, refl, inl, inr, ◌⊎◌, ◌↔◌, Bool-cases, sym, ◌∙◌, arith, eq_iff,
}
use mathlib.Core.List.{Memᴰ}
use mathlib.Core.List.Memᴰ.{not-nil, cases_cons}
use mathlib.Core.Bool.{false≢true}
use flamenco_manager.Manager.Tasks.{Task}
use flamenco_manager.Manager.Tasks.FromWorker.{
  Failing, member, without, is_empty, failure_status, others,
}

member-Memᴰ : (i : ℕ) (xs : List ℕ) → (member i xs ≡ true) ↔ Memᴰ i xs
unfolding member
member-Memᴰ i [] = (λ h. absurd (false≢true h), λ m. absurd (not-nil m))
member-Memᴰ i (x ∷ xs) = (
  λ h. elim (Bool-cases (nat_eq x i)) [
    | inl y ↦ Memᴰ.head (sym ((nat_eq_iff x i).0 y))
    | inr n ↦ Memᴰ.tail ((member-Memᴰ i xs).0 (rw n at h))
  ],
  λ m. elim (cases_cons m) [
    | inl e ↦ rw ((nat_eq_iff x i).1 (sym e)) refl
    | inr k ↦ rw ((member-Memᴰ i xs).1 k) (ground arith)
  ],
)

-- A worker of a list that is not removed.
abbrev Remains : List ℕ → List ℕ → Type 0
Remains removed left = (i : ℕ) × Memᴰ i left × (member i removed ≡ false)

without-Remains :
    (removed left : List ℕ) → (is_empty (without removed left) ≡ false) ↔ Remains removed left
unfolding without is_empty
without-Remains removed [] = (λ h. absurd (false≢true (sym h)), λ (i, m, n). absurd (not-nil m))
without-Remains removed (x ∷ xs) = elim (Bool-cases (member x removed)) [
  | inl y ↦ (
    λ h. let (i, m, n) = (without-Remains removed xs).0 (rw y at h) in (i, Memᴰ.tail m, n),
    λ (i, m, n). elim (cases_cons m) [
      | inl e ↦ absurd (false≢true (sym n ∙ rw e y))
      | inr k ↦ rw y ((without-Remains removed xs).1 (i, k, n))
    ],
  )
  | inr n ↦ (λ h. (x, Memᴰ.head refl, n), λ r. rw n refl)
]

pub failure_status-cases :
    (limit : ℕ) (left failed_by : List ℕ)
    → (failure_status limit left failed_by ≡ "failed")
      ⊎ (failure_status limit left failed_by ≡ "soft-failed")
unfolding failure_status
failure_status-cases limit left failed_by = ground arith

failure_status_iff :
    (limit : ℕ) (left failed_by : List ℕ)
    → (failure_status limit left failed_by ≡ "soft-failed")
      ↔ ((length failed_by < limit) × Remains failed_by left)
unfolding failure_status
failure_status_iff limit left failed_by =
    ground (arith, eq_iff "failed" "soft-failed", without-Remains failed_by left)

abbrev pub OthersLeft : Failing → ℕ → Task → Type 0
OthersLeft f id t = (i : ℕ) × Memᴰ i f.left × (i ≢ id) × (Memᴰ i t.failed_by_workers → ⊥)

member-append : (i id : ℕ) (xs : List ℕ) → member i (xs ++ id ∷ []) ≡ (member i xs || nat_eq id i)
unfolding member
member-append i id [] = ground arith
member-append i id (x ∷ xs) = rw (member-append i id xs) (ground arith)

Memᴰ-without :
    (removed left : List ℕ) (i : ℕ)
    → Memᴰ i (without removed left) ↔ (Memᴰ i left × (member i removed ≡ false))
unfolding without
Memᴰ-without removed [] i = (λ m. absurd (not-nil m), λ (m, n). m)
Memᴰ-without removed (x ∷ xs) i = elim (Bool-cases (member x removed)) [
  | inl y ↦ (
    λ m. let (k, n) = (Memᴰ-without removed xs i).0 (rw y at m) in (Memᴰ.tail k, n),
    λ (m, n). elim (cases_cons m) [
      | inl e ↦ absurd (false≢true (sym n ∙ rw e y))
      | inr k ↦ rw y ((Memᴰ-without removed xs i).1 (k, n))
    ],
  )
  | inr o ↦ (
    λ m. elim (cases_cons (rw o at m)) [
      | inl e ↦ (Memᴰ.head e, rw e o)
      | inr k ↦ let (l, n) = (Memᴰ-without removed xs i).0 k in (Memᴰ.tail l, n)
    ],
    λ (m, n). elim (cases_cons m) [
      | inl e ↦ rw o (Memᴰ.head e)
      | inr k ↦ rw o (Memᴰ.tail ((Memᴰ-without removed xs i).1 (k, n)))
    ],
  )
]

-- The worker `i` is neither the one that failed now nor one that did before.
apart_iff :
    (i id : ℕ) (xs : List ℕ) → (member i (xs ++ id ∷ []) ≡ false) ↔ ((i ≢ id) × (Memᴰ i xs → ⊥))
apart_iff i id xs = (
  λ h.
      let n = rw (member-append i id xs) at h in
      (
        λ e. ground (arith, nat_eq_iff id i, n),
        λ m. let k = (member-Memᴰ i xs).1 m in ground (arith, n, k),
      ),
  λ (n, m). rw (member-append i id xs) (elim (Bool-cases (member i xs)) [
    | inl y ↦ absurd (m ((member-Memᴰ i xs).0 y))
    | inr k ↦ rw k (ground (arith, nat_eq_iff id i))
  ]),
)

Remains-OthersLeft :
    (f : Failing) (id : ℕ) (t : Task)
    → Remains (t.failed_by_workers ++ id ∷ []) (others id f.left) ↔ OthersLeft f id t
unfolding others
Remains-OthersLeft f id t = (
  λ (i, m, n).
      let (o, p) = (apart_iff i id t.failed_by_workers).0 n in
      (i, ((Memᴰ-without (id ∷ []) f.left i).0 m).0, o, p),
  λ (i, m, o, p). (
    i,
    (Memᴰ-without (id ∷ []) f.left i).1 (m, (apart_iff i id []).1 (o, not-nil)),
    (apart_iff i id t.failed_by_workers).1 (o, p),
  ),
)

-- The status of a task after its failure.
abbrev pub failed_status : Failing → ℕ → Task → String
failed_status f id t = failure_status f.limit (others id f.left) (t.failed_by_workers ++ id ∷ [])

pub failed_status_iff :
    (f : Failing) (id : ℕ) (t : Task)
    → (failed_status f id t ≡ "soft-failed")
      ↔ ((length t.failed_by_workers + 1 < f.limit) × OthersLeft f id t)
failed_status_iff f id t =
    let (in_limit, in_others) =
      failure_status_iff f.limit (others id f.left) (t.failed_by_workers ++ id ∷ []) in
    let (out, back) = Remains-OthersLeft f id t in
    let more = length-append t.failed_by_workers (id ∷ []) in
    (
      λ h. let (a, r) = in_limit h in (omega (arith, a, more), out r),
      λ (a, o). in_others (omega (arith, a, more), back o),
    )
