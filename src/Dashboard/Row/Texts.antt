-- ===== src/Dashboard/Row/Texts.antt =====
-- The texts of a worker's row.
use Prim.Native.String
use text.Mathlib.TextLemmas.{nil-append, cons-append, cons-ne-nil}
use flamenco_manager.Common.{
  ℕ, zero, suc, ◌+◌, ◌-◌, ◌≤◌, String, ◌≡◌, sym, ◌∙◌, ap, false, some, ◌==◌, eq_iff, arith,
  Bool-cases, inl, inr,
}
use flamenco_manager.Dashboard.Workers.{Worker}
use flamenco_manager.Dashboard.Row.{
  text_length, text_drop, substr_last, strip_prefix, remove_first, worker_software,
}

strip_prefix-append : (p s : String) → strip_prefix p (String.◌++◌ p s) ≡ some s
unfolding strip_prefix
strip_prefix-append String.[] s = ap some (nil-append s)
strip_prefix-append (String.◌∷◌ c p) s =
    rw (cons-append c p s) (ground (arith, strip_prefix-append p s))

remove_first-strip_prefix :
    (p s : String) {rest : String}
    → strip_prefix p s ≡ some rest
    → (s == "") ≡ false
    → remove_first p s ≡ rest
unfolding remove_first
remove_first-strip_prefix p String.[] e n = absurd (ground arith)
remove_first-strip_prefix p (String.◌∷◌ c s) e n = rw (e, remove_first)

prefixed-ne-empty : (t : String) → (String.◌++◌ "Flamenco-Worker/" t == "") ≡ false
prefixed-ne-empty t = elim (Bool-cases (String.◌++◌ "Flamenco-Worker/" t == "")) [
  | inl e ↦ absurd (
      cons-ne-nil "F" (String.◌++◌ "lamenco-Worker/" t)
        (sym (cons-append "F" "lamenco-Worker/" t) ∙ (eq_iff _ "").0 e))
  | inr n ↦ n
]

-- The software of a worker is shown without the name of the default software, whatever the version is.
pub worker_software-default :
    (w : Worker) (version : String)
    → w.software ≡ some (String.◌++◌ "Flamenco-Worker/" version)
    → worker_software w ≡ version
unfolding worker_software
worker_software-default w version e =
    rw (e, worker_software, prefixed-ne-empty version)
      (remove_first-strip_prefix "Flamenco-Worker/" _
        (strip_prefix-append "Flamenco-Worker/" version) (prefixed-ne-empty version))

text_drop-suffix : (n : ℕ) (s : String) → (front : String) × (String.◌++◌ front (text_drop n s) ≡ s)
unfolding text_drop
text_drop-suffix zero s = ("", nil-append s)
text_drop-suffix (suc n) String.[] = ("", nil-append "")
text_drop-suffix (suc n) (String.◌∷◌ c s) =
    let (front, e) = text_drop-suffix n s in
    (String.◌∷◌ c front, cons-append c front (text_drop n s) ∙ ap (String.◌∷◌ c) e)

length-text_drop : (n : ℕ) (s : String) → text_length (text_drop n s) ≡ text_length s - n
unfolding text_drop text_length
length-text_drop zero s = omega arith
length-text_drop (suc n) String.[] = omega arith
length-text_drop (suc n) (String.◌∷◌ c s) = omega (arith, length-text_drop n s)

-- What `substr(-n)` takes of a text (of the id of a task, with four for n) is the end of the text, n
-- characters long or the whole text where that is shorter.
pub substr_last-suffix :
    (n : ℕ) (s : String)
    → ((front : String) × (String.◌++◌ front (substr_last n s) ≡ s))
      × (text_length (substr_last n s) ≤ n)
      × (text_length (substr_last n s) ≤ text_length s)
      × (text_length s ≤ text_length (substr_last n s) + (text_length s - n))
unfolding substr_last
substr_last-suffix n s = (
  text_drop-suffix (text_length s - n) s,
  omega (arith, length-text_drop (text_length s - n) s),
  omega (arith, length-text_drop (text_length s - n) s),
  omega (arith, length-text_drop (text_length s - n) s),
)
