-- ===== src/Common/ParseInt.antt =====
-- JavaScript's `parseInt` without a radix, on a text without a hexadecimal prefix (a number field of a
-- form never holds one).
use Prim.Native.Char.{code}
use Prim.Native.Nat.{ℕ, zero, suc, ◌+◌, ◌-◌, ◌*◌}
use Prim.Native.String.{String}
use mathlib.Core.Bool.{Bool, ◌&&◌, ◌||◌}
use mathlib.Core.Option.{Option, none, some}
use mathlib.Core.List.{List, [], ◌∷◌}
use flamenco_manager.Common.Tests.{leb, nat_eq, if◌then◌else◌}
use flamenco_manager.Common.Int.{ℤ, pos, negsuc}

-- The code points of a text.
unfoldable pub codes : String → List ℕ
codes String.[] = []
codes (String.◌∷◌ c s) = code c ∷ codes s

-- White space of ASCII.
unfoldable pub is_space : ℕ → Bool
is_space c = nat_eq c 32 || (leb 9 c && leb c 13)

unfoldable pub trim_start : List ℕ → List ℕ
unfolding is_space
trim_start [] = []
trim_start (c ∷ cs) = let rest = trim_start cs in if is_space c then rest else c ∷ cs

unfoldable pub is_digit : ℕ → Bool
is_digit c = leb b'0' c && leb c b'9'

-- The digits at the start, as a number continued from `acc`.
unfoldable pub digits_value : ℕ → List ℕ → ℕ
unfolding is_digit
digits_value acc [] = acc
digits_value acc (c ∷ cs) =
    let more = digits_value (acc * 10 + (c - b'0')) cs in if is_digit c then more else acc

-- A number where a digit stands first; `none` is NaN.
unfoldable pub unsigned : List ℕ → Option ℕ
unfolding is_digit digits_value
unsigned [] = none
unsigned (c ∷ cs) = if is_digit c then some (digits_value 0 (c ∷ cs)) else none

abbrev pub negate : ℕ → ℤ
negate zero = pos 0
negate (suc n) = negsuc n

as_positive : Option ℕ → Option ℤ
as_positive none = none
as_positive (some n) = some (pos n)

as_negative : Option ℕ → Option ℤ
as_negative none = none
as_negative (some n) = some (negate n)

unfoldable pub signed : List ℕ → Option ℤ
unfolding unsigned as_positive as_negative
signed [] = none
signed (c ∷ cs) =
    if nat_eq c b'-'
    then as_negative (unsigned cs)
    else if nat_eq c b'+'
    then as_positive (unsigned cs)
    else as_positive (unsigned (c ∷ cs))

-- `parseInt(text)`.
unfoldable pub parse_int : String → Option ℤ
unfolding codes trim_start signed
parse_int t = signed (trim_start (codes t))
