-- ===== src/Common/Decimal.antt =====
-- Decimal numerals: JavaScript's string form of a whole number.
pub mod ReadBack
use Prim.Native.Nat.{ℕ, zero, suc, ◌+◌, ◌*◌, ◌/◌, ◌%◌, ◌<◌}
use Prim.Native.String
use Prim.Native.String.{String}
use mathlib.Core.Path.{◌≡◌, refl}
use mathlib.Core.List.{List, [], ◌∷◌}
use native.Mathlib.Omega.{arith}
use flamenco_manager.Common.Tests.{ltb, if◌then◌else◌}

-- The digits of `n`, most significant first, in front of `acc`. The first argument is fuel.
unfoldable digits_from : ℕ → ℕ → List ℕ → List ℕ
digits_from zero n acc = acc
digits_from (suc fuel) n acc =
    let more = digits_from fuel (n / 10) (n % 10 ∷ acc) in if ltb n 10 then n ∷ acc else more

-- The decimal digits of a number.
unfoldable pub digits : ℕ → List ℕ
unfolding digits_from
digits n = digits_from (suc n) n []

-- The number that digits denote, continued from `acc`.
unfoldable pub value_from : ℕ → List ℕ → ℕ
value_from acc [] = acc
value_from acc (d ∷ ds) = value_from (acc * 10 + d) ds

value_from-digits_from :
    (fuel n : ℕ) (acc : List ℕ)
    → n < fuel
    → value_from 0 (digits_from fuel n acc) ≡ value_from n acc
unfolding digits_from value_from
value_from-digits_from zero n acc h = absurd (omega arith)
value_from-digits_from (suc fuel) n acc h =
    ground (arith, value_from-digits_from fuel (n / 10) (n % 10 ∷ acc), div_small n)
  where
    div_small : (n : ℕ) → n / 10 * 10 + n % 10 ≡ n
    div_small n = omega arith

-- The digits of a number denote it: the fuel of `digits` is enough.
pub value_from-digits : (n : ℕ) → value_from 0 (digits n) ≡ n
unfolding digits value_from
value_from-digits n = value_from-digits_from (suc n) n [] (omega arith)

-- One decimal digit as text.
unfoldable pub digit_text : ℕ → String
digit_text zero = "0"
digit_text (suc zero) = "1"
digit_text (suc (suc zero)) = "2"
digit_text (suc (suc (suc zero))) = "3"
digit_text (suc (suc (suc (suc zero)))) = "4"
digit_text (suc (suc (suc (suc (suc zero))))) = "5"
digit_text (suc (suc (suc (suc (suc (suc zero)))))) = "6"
digit_text (suc (suc (suc (suc (suc (suc (suc zero))))))) = "7"
digit_text (suc (suc (suc (suc (suc (suc (suc (suc zero)))))))) = "8"
digit_text _ = "9"

-- Texts joined, as by `+`.
unfoldable pub join : List String → String
join [] = ""
join (t ∷ []) = t
join (t ∷ ts) = String.◌++◌ t (join ts)

unfoldable digit_texts : List ℕ → List String
unfolding digit_text
digit_texts [] = []
digit_texts (d ∷ ds) = digit_text d ∷ digit_texts ds

-- The string form of a whole number.
unfoldable pub decimal : ℕ → String
unfolding digits join digit_texts
decimal n = join (digit_texts (digits n))

decimal_test : decimal 498 ≡ "498"
unfolding decimal
decimal_test = refl
