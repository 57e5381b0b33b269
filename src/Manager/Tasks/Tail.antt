-- ===== src/Manager/Tasks/Tail.antt =====
-- The part of a log that is sent to the server is its end, and has at most ten lines.
use flamenco_manager.Common.{
  ℕ, zero, suc, ◌+◌, ◌-◌, ◌≤◌, ◌<◌, false, List, [], ◌∷◌, ◌++◌, length, drop, ltb, nat_eq,
  nat_eq_iff, if◌then◌else◌, arith, ◌≡◌, ◌≢◌, refl, sym, ap, ◌∙◌, Bool-cases, inl, inr, All,
}
use mathlib.Core.List.{append-nil}
use flamenco_manager.Manager.Tasks.LogTail.{
  trim_space, split_from, split_lines, join_lines, last_lines, retained_lines,
  trim_log_for_task_update,
}

-- The number of line ends.
unfoldable pub line_ends : List ℕ → ℕ
line_ends [] = 0
line_ends (c ∷ cs) = let rest = line_ends cs in if nat_eq c b'\n' then suc rest else rest

line_ends-append : (xs ys : List ℕ) → line_ends (xs ++ ys) ≡ line_ends xs + line_ends ys
unfolding line_ends
line_ends-append [] ys = omega arith
line_ends-append (x ∷ xs) ys = ground (arith, line_ends-append xs ys)

append_assoc : (xs ys zs : List ℕ) → (xs ++ ys) ++ zs ≡ xs ++ (ys ++ zs)
append_assoc [] ys zs = refl
append_assoc (x ∷ xs) ys zs = rw (append_assoc xs ys zs) refl

-- A line has no line end.
abbrev Plain : List ℕ → Type 0
Plain l = line_ends l ≡ 0

longer-Plain :
    (line : List ℕ) (c : ℕ) → Plain line → nat_eq c b'\n' ≡ false → Plain (line ++ c ∷ [])
unfolding line_ends
longer-Plain line c h n = line_ends-append line (c ∷ []) ∙ rw (h, n) (omega arith)

split_from-Plain : (line cs : List ℕ) → Plain line → All Plain (split_from line cs)
unfolding split_from line_ends
split_from-Plain line [] h = (h, tt)
split_from-Plain line (c ∷ cs) h = elim (Bool-cases (nat_eq c b'\n')) [
  | inl y ↦ rw y (h, split_from-Plain [] cs refl)
  | inr n ↦ rw n (split_from-Plain (line ++ c ∷ []) cs (longer-Plain line c h n))
]

-- There is a first line.
split_from-long : (line cs : List ℕ) → 0 < length (split_from line cs)
unfolding split_from
split_from-long line [] = omega arith
split_from-long line (c ∷ cs) = elim (Bool-cases (nat_eq c b'\n')) [
  | inl y ↦ rw y (omega arith)
  | inr n ↦ rw n (split_from-long (line ++ c ∷ []) cs)
]

-- A line before others.
join_lines-cons :
    (l : List ℕ) (ls : List (List ℕ))
    → 0 < length ls
    → join_lines (l ∷ ls) ≡ l ++ b'\n' ∷ join_lines ls
unfolding join_lines
join_lines-cons l [] h = absurd (omega (arith, h))
join_lines-cons l (m ∷ ls) h = refl

join_lines-split_from : (line cs : List ℕ) → join_lines (split_from line cs) ≡ line ++ cs
unfolding split_from
join_lines-split_from line [] = unfold join_lines in sym (append-nil line)
join_lines-split_from line (c ∷ cs) = elim (Bool-cases (nat_eq c b'\n')) [
  | inl y ↦ rw y (
      join_lines-cons line (split_from [] cs) (split_from-long [] cs)
      ∙ ap (λ r. line ++ b'\n' ∷ r) (join_lines-split_from [] cs)
      ∙ ap (λ d. line ++ d ∷ cs) (sym ((nat_eq_iff c b'\n').0 y)))
  | inr n ↦ rw n (join_lines-split_from (line ++ c ∷ []) cs ∙ append_assoc line (c ∷ []) cs)
]

line_ends-join_lines :
    (ls : List (List ℕ)) → All Plain ls → 0 < length ls → line_ends (join_lines ls) + 1 ≡ length ls
unfolding line_ends
line_ends-join_lines [] h k = absurd (omega (arith, k))
line_ends-join_lines (l ∷ []) (p, h) k = unfold join_lines in rw p (omega arith)
line_ends-join_lines (l ∷ m ∷ ls) (p, h) k =
    let tail = line_ends-join_lines (m ∷ ls) h (omega arith) in
    let split = line_ends-append l (b'\n' ∷ join_lines (m ∷ ls)) in
    ap (λ r. line_ends r + 1) (join_lines-cons l (m ∷ ls) (omega arith))
    ∙ omega (arith, tail, split, p)

drop-All : (n : ℕ) (ls : List (List ℕ)) → All Plain ls → All Plain (drop n ls)
drop-All zero ls h = h
drop-All (suc n) [] h = h
drop-All (suc n) (l ∷ ls) (p, h) = drop-All n ls h

length-drop : (n : ℕ) (ls : List (List ℕ)) → length (drop n ls) ≡ length ls - n
length-drop zero ls = omega arith
length-drop (suc n) [] = omega arith
length-drop (suc n) (l ∷ ls) = omega (arith, length-drop n ls)

-- What comes before the lines that are left.
join_lines-drop :
    (n : ℕ) (ls : List (List ℕ))
    → n < length ls
    → (before : List ℕ) × (join_lines ls ≡ before ++ join_lines (drop n ls))
join_lines-drop zero ls h = ([], refl)
join_lines-drop (suc n) [] h = absurd (omega (arith, h))
join_lines-drop (suc n) (l ∷ ls) h =
    let (before, e) = join_lines-drop n ls (omega (arith, h)) in
    (
      l ++ b'\n' ∷ before,
      join_lines-cons l ls (omega (arith, h))
          ∙ ap (λ r. l ++ b'\n' ∷ r) e
          ∙ sym (append_assoc l (b'\n' ∷ before) (join_lines (drop n ls))),
    )

-- The number of lines that are left out.
abbrev skipped : ℕ → ℕ
skipped n = if ltb retained_lines n then n - retained_lines else 0

skipped_lem : (n : ℕ) → 0 < n → (skipped n < n) × (n - skipped n ≤ 10) × (n ≤ 10 → skipped n ≡ 0)
skipped_lem n h = (ground arith, ground arith, λ k. ground arith)

-- The last lines of a text are its end; they are at most ten, and all of it if there are at most ten.
last_lines_end :
    (cs : List ℕ)
    → let last = join_lines (last_lines (split_lines cs)) in
      (before : List ℕ) × (cs ≡ before ++ last)
      × (line_ends last < 10)
      × (line_ends cs < 10 → last ≡ cs)
unfolding last_lines split_lines
last_lines_end cs =
    let lines : List (List ℕ) = split_from [] cs in
    let n : ℕ = skipped (length lines) in
    let long = split_from-long [] cs in
    let whole = join_lines-split_from [] cs in
    let plain = split_from-Plain [] cs (unfold line_ends in refl) in
    let (less, few, none) = skipped_lem (length lines) long in
    let (before, e) = join_lines-drop n lines less in
    let left = length-drop n lines in
    let ends =
      line_ends-join_lines (drop n lines) (drop-All n lines plain) (omega (arith, left, less)) in
    let all = line_ends-join_lines lines plain long in
    (
      before,
      sym whole ∙ e,
      omega (arith, ends, left, few),
      λ k.
          ap (λ m. join_lines (drop m lines)) (none (omega (arith, k, all, ap line_ends whole)))
          ∙ whole,
    )

-- What is sent to the server of a log that is not empty is an end of the log without its outer white space,
-- and a line end; it has at most ten lines, and is all of that if there are at most ten lines.
pub trim_log_for_task_update-tail :
    (log : List ℕ)
    → log ≢ []
    → (before tail : List ℕ) × (trim_space log ≡ before ++ tail)
      × (trim_log_for_task_update log ≡ tail ++ b'\n' ∷ [])
      × (line_ends (trim_log_for_task_update log) ≤ 10)
      × (line_ends (trim_space log) < 10 → tail ≡ trim_space log)
unfolding trim_log_for_task_update line_ends
trim_log_for_task_update-tail [] h = absurd (h refl)
trim_log_for_task_update-tail (c ∷ cs) h =
    let (before, e, few, all) = last_lines_end (trim_space (c ∷ cs)) in
    let tail : List ℕ = join_lines (last_lines (split_lines (trim_space (c ∷ cs)))) in
    (before, tail, e, refl, omega (arith, few, line_ends-append tail (b'\n' ∷ [])), all)
