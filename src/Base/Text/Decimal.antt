-- ===== src/Base/Text/Decimal.antt =====
-- Numbers in base ten, as strconv.Itoa and "%d" write them and strconv.ParseInt reads them.
pub mod Reading
use Prim.Native.Nat.{ℕ, zero, suc, ◌+◌, ◌-◌, ◌*◌, ◌/◌, ◌%◌}
use Prim.Native.Char.{Char, code}
use Prim.Native.String.{String, ◌++◌, char_at}
use mathlib.Core.Path.{◌≡◌, refl}
use mathlib.Core.Bool.{Bool, true, false, ◌&&◌}
use mathlib.Core.Option.{Option, none, some}
use sylos_fs.Base.Int.{ℤ, pos, negsuc}
use sylos_fs.Base.Tests.{ltb, leb, ◌==◌, if◌then◌else◌}

abbrev pub digit : ℕ → Char
digit n = char_at "0123456789" n

-- The digits before `after`; fuel n + 1 is enough for the number n.
unfoldable pub digits : ℕ → ℕ → String → String
digits zero n after = after
digits (suc fuel) n after =
    let more = digits fuel (n / 10) (String.◌∷◌ (digit (n % 10)) after) in
    if ltb n 10 then String.◌∷◌ (digit n) after else more

unfoldable pub decimal : ℕ → String
decimal n = digits (suc n) n ""

written : decimal 4096 ≡ "4096"
unfolding decimal digits
written = refl

-- "%d" for an integer.
unfoldable pub decimal_ℤ : ℤ → String
decimal_ℤ (pos n) = decimal n
decimal_ℤ (negsuc n) = "-" ++ decimal (n + 1)

abbrev pub is_digit : Char → Bool
is_digit c = leb 48 (code c) && leb (code c) 57

unfoldable pub read_digits : ℕ → String → Option ℕ
read_digits sum String.[] = some sum
read_digits sum (String.◌∷◌ c s) =
    let more = read_digits (sum * 10 + (code c - 48)) s in if is_digit c then more else none

-- A number of at least one digit.
abbrev pub read_number : String → Option ℕ
read_number String.[] = none
read_number (String.◌∷◌ c s) = read_digits 0 (String.◌∷◌ c s)

abbrev pub in_range : Bool → Option ℕ → Option ℤ
in_range negative none = none
in_range false (some n) = if ltb n 9223372036854775808 then some (pos n) else none
in_range true (some n) =
    if n == 0
    then some (pos 0)
    else if leb n 9223372036854775808
    then some (negsuc (n - 1))
    else none

-- strconv.ParseInt(s, 10, 64): a sign, digits, and the range of 64 bits.
unfoldable pub parse_int : String → Option ℤ
parse_int String.[] = none
parse_int (String.◌∷◌ c s) =
    if code c == 45
    then in_range true (read_number s)
    else if code c == 43
    then in_range false (read_number s)
    else in_range false (read_digits 0 (String.◌∷◌ c s))

read : parse_int "-12" ≡ some (negsuc 11)
unfolding parse_int read_digits
read = refl
