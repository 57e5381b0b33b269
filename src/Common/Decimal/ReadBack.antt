-- ===== src/Common/Decimal/ReadBack.antt =====
-- `parseInt` reads back the string form of a whole number.
use Prim.Native.Nat.{ℕ, zero, suc, ◌+◌, ◌*◌, ◌/◌, ◌%◌, ◌<◌}
use Prim.Native.Char.{Char, code}
use Prim.Native.String
use Prim.Native.String.{String}
use mathlib.Core.Path.{◌≡◌, refl, sym, ◌∙◌, ap}
use mathlib.Core.List.{List, [], ◌∷◌, map}
use mathlib.Core.Option.{some}
use mathlib.Core.Logic.{inl, inr}
use native.Mathlib.Omega.{arith}
use text.Mathlib.TextLemmas.{nil-append, cons-append, append-nil}
use flamenco_manager.Common.Tests.{ltb, Bool-cases}
use flamenco_manager.Common.Int.{pos}
use flamenco_manager.Common.ParseInt.{
  codes, trim_start, is_space, is_digit, digits_value, unsigned, signed, parse_int,
}
use flamenco_manager.Common.Decimal.{
  digits_from, digits, value_from, value_from-digits, digit_text, join, digit_texts, decimal,
}

-- A list of digits that is not empty.
abbrev IsNumeral : List ℕ → Type 0
IsNumeral [] = ⊥
IsNumeral (d ∷ []) = d < 10
IsNumeral (d ∷ e ∷ ds) = (d < 10) × IsNumeral (e ∷ ds)

IsNumeral-cons : (d : ℕ) (ds : List ℕ) → d < 10 → IsNumeral ds → IsNumeral (d ∷ ds)
IsNumeral-cons d [] h v = h
IsNumeral-cons d (e ∷ ds) h v = (h, v)

digits_from-IsNumeral :
    (fuel n : ℕ) (acc : List ℕ) → IsNumeral acc → IsNumeral (digits_from fuel n acc)
unfolding digits_from
digits_from-IsNumeral zero n acc v = v
digits_from-IsNumeral (suc fuel) n acc v = elim (Bool-cases (ltb n 10)) [
  | inl y ↦ rw y (IsNumeral-cons n acc (ground arith) v)
  | inr y ↦ rw y (
      digits_from-IsNumeral fuel (n / 10) (n % 10 ∷ acc)
        (IsNumeral-cons (n % 10) acc (omega arith) v))
]

digits-IsNumeral : (n : ℕ) → IsNumeral (digits n)
unfolding digits digits_from
digits-IsNumeral n = elim (Bool-cases (ltb n 10)) [
  | inl y ↦ rw y (ground arith)
  | inr y ↦ rw y (digits_from-IsNumeral n (n / 10) (n % 10 ∷ []) (omega arith))
]

codes-append : (c : Char) (s : String) → codes (String.◌++◌ (String.◌∷◌ c "") s) ≡ code c ∷ codes s
unfolding codes
codes-append c s = rw (cons-append c "" s, nil-append s) refl

codes-digit_text :
    (d : ℕ) (s : String) → d < 10 → codes (String.◌++◌ (digit_text d) s) ≡ (48 + d) ∷ codes s
unfolding digit_text
codes-digit_text zero s h = codes-append "0" s
codes-digit_text (suc zero) s h = codes-append "1" s
codes-digit_text (suc (suc zero)) s h = codes-append "2" s
codes-digit_text (suc (suc (suc zero))) s h = codes-append "3" s
codes-digit_text (suc (suc (suc (suc zero)))) s h = codes-append "4" s
codes-digit_text (suc (suc (suc (suc (suc zero))))) s h = codes-append "5" s
codes-digit_text (suc (suc (suc (suc (suc (suc zero)))))) s h = codes-append "6" s
codes-digit_text (suc (suc (suc (suc (suc (suc (suc zero))))))) s h = codes-append "7" s
codes-digit_text (suc (suc (suc (suc (suc (suc (suc (suc zero)))))))) s h = codes-append "8" s
codes-digit_text (suc (suc (suc (suc (suc (suc (suc (suc (suc zero))))))))) s h = codes-append "9" s
codes-digit_text (suc (suc (suc (suc (suc (suc (suc (suc (suc (suc d)))))))))) s h =
    absurd (omega arith)

codes-join : (ds : List ℕ) → IsNumeral ds → codes (join (digit_texts ds)) ≡ map (λ d. 48 + d) ds
unfolding join digit_texts
codes-join [] v = absurd v
codes-join (d ∷ []) v =
    ap codes (sym (append-nil (digit_text d))) ∙ codes-digit_text d "" v ∙ unfold codes in refl
codes-join (d ∷ e ∷ ds) (h, v) =
    codes-digit_text d (join (digit_texts (e ∷ ds))) h
    ∙ ap (λ cs. (48 + d) ∷ cs) (codes-join (e ∷ ds) v)

digits_value-map :
    (acc : ℕ) (ds : List ℕ)
    → IsNumeral ds
    → digits_value acc (map (λ d. 48 + d) ds) ≡ value_from acc ds
unfolding digits_value value_from is_digit
digits_value-map acc [] v = absurd v
digits_value-map acc (d ∷ []) h = ground arith
digits_value-map acc (d ∷ e ∷ ds) (h, v) =
    ground (arith, digits_value-map (acc * 10 + d) (e ∷ ds) v)

signed-map :
    (ds : List ℕ)
    → IsNumeral ds
    → signed (trim_start (map (λ d. 48 + d) ds)) ≡ some (pos (value_from 0 ds))
unfolding signed trim_start is_space unsigned is_digit
signed-map [] v = absurd v
signed-map (d ∷ []) h = ground (arith, digits_value-map 0 (d ∷ []) h)
signed-map (d ∷ e ∷ ds) (h, v) = ground (arith, digits_value-map 0 (d ∷ e ∷ ds) (h, v))

pub parse_int-decimal : (n : ℕ) → parse_int (decimal n) ≡ some (pos n)
unfolding parse_int decimal
parse_int-decimal n =
    ap (λ cs. signed (trim_start cs)) (codes-join (digits n) (digits-IsNumeral n))
    ∙ signed-map (digits n) (digits-IsNumeral n)
    ∙ ap (λ k. some (pos k)) (value_from-digits n)
