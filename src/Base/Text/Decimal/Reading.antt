-- ===== src/Base/Text/Decimal/Reading.antt =====
-- A number is read back from its decimal text, which has no colon.
use Prim.Native.Nat.{ℕ, zero, suc, ◌+◌, ◌-◌, ◌*◌, ◌/◌, ◌%◌, ◌<◌, ◌≤◌}
use Prim.Native.Char.{code}
use Prim.Native.String.{String, ◌++◌, char_at}
use text.Mathlib.TextLemmas.{cons-append, nil-append}
use mathlib.Core.Path.{◌≡◌, refl, sym, ap, ◌∙◌}
use mathlib.Core.Bool.{true, false}
use mathlib.Core.Logic.{inl, inr}
use mathlib.Core.Option.{some}
use native.Mathlib.Omega.{arith}
use sylos_fs.Base.Int.{ℤ, pos, negsuc}
use sylos_fs.Base.Tests.{ltb, leb, ◌==◌, Bool-cases}
use sylos_fs.Base.Text.{contains_any}
use sylos_fs.Base.Text.Decimal.{
  digit, digits, decimal, decimal_ℤ, is_digit, read_digits, read_number, in_range, parse_int,
}

digit_code : (d : ℕ) → d < 10 → code (digit d) ≡ 48 + d
digit_code zero h = refl
digit_code (suc zero) h = refl
digit_code (suc (suc zero)) h = refl
digit_code (suc (suc (suc zero))) h = refl
digit_code (suc (suc (suc (suc zero)))) h = refl
digit_code (suc (suc (suc (suc (suc zero))))) h = refl
digit_code (suc (suc (suc (suc (suc (suc zero)))))) h = refl
digit_code (suc (suc (suc (suc (suc (suc (suc zero))))))) h = refl
digit_code (suc (suc (suc (suc (suc (suc (suc (suc zero)))))))) h = refl
digit_code (suc (suc (suc (suc (suc (suc (suc (suc (suc zero))))))))) h = refl
digit_code (suc (suc (suc (suc (suc (suc (suc (suc (suc (suc d)))))))))) h = absurd (omega arith)

read_digits-digit :
    (sum d : ℕ) (s : String)
    → d < 10
    → read_digits sum (String.◌∷◌ (digit d) s) ≡ read_digits (sum * 10 + d) s
unfolding read_digits
read_digits-digit sum d s h =
    let c = digit_code d h in
    let is : is_digit (digit d) ≡ true = ground arith in
    let v : code (digit d) - 48 ≡ d = omega arith in rw (is, v) refl

read_digits-nil : (n : ℕ) → read_digits n "" ≡ some n
unfolding read_digits
read_digits-nil n = refl

read_digits-digits :
    (fuel n : ℕ) (after : String)
    → n < fuel
    → read_digits 0 (digits fuel n after) ≡ read_digits n after
unfolding digits
read_digits-digits zero n after h = absurd (omega arith)
read_digits-digits (suc fuel) n after h = elim (Bool-cases (ltb n 10)) [
  | inl small ↦
      rw small
        (read_digits-digit 0 n after (ground arith) ∙ ap (λ k. read_digits k after) (omega arith))
  | inr large ↦
      let big : 10 ≤ n = ground arith in
      rw large (
        read_digits-digits fuel (n / 10) (String.◌∷◌ (digit (n % 10)) after) (omega arith)
        ∙ read_digits-digit (n / 10) (n % 10) after (omega arith)
        ∙ ap (λ k. read_digits k after) (omega arith))
]

-- The first character is a digit.
digits-first :
    (fuel n : ℕ) (after : String)
    → n < fuel
    → (d : ℕ) × (s : String) × (d < 10) × (digits fuel n after ≡ String.◌∷◌ (digit d) s)
unfolding digits
digits-first zero n after h = absurd (omega arith)
digits-first (suc fuel) n after h = elim (Bool-cases (ltb n 10)) [
  | inl small ↦ (n, after, ground arith, rw small refl)
  | inr large ↦
      let big : 10 ≤ n = ground arith in
      let (d, s, l, e) =
        digits-first fuel (n / 10) (String.◌∷◌ (digit (n % 10)) after) (omega arith) in
      (d, s, l, rw large e)
]

parse_int-digit :
    (d : ℕ) (s : String)
    → d < 10
    → parse_int (String.◌∷◌ (digit d) s) ≡ in_range false (read_digits 0 (String.◌∷◌ (digit d) s))
unfolding parse_int
parse_int-digit d s h =
    let c = digit_code d h in
    let minus : (code (digit d) == 45) ≡ false = ground arith in
    let plus : (code (digit d) == 43) ≡ false = ground arith in rw (minus, plus) refl

read_digits-decimal : (n : ℕ) → read_digits 0 (decimal n) ≡ some n
unfolding decimal
read_digits-decimal n = read_digits-digits (suc n) n "" (omega arith) ∙ read_digits-nil n

parse_int-decimal : (n : ℕ) → n < 9223372036854775808 → parse_int (decimal n) ≡ some (pos n)
unfolding decimal
parse_int-decimal n h =
    let (d, s, l, e) = digits-first (suc n) n "" (omega arith) in
    let small : ltb n 9223372036854775808 ≡ true = ground arith in
    ap parse_int e
    ∙ parse_int-digit d s l
    ∙ ap (λ t. in_range false (read_digits 0 t)) (sym e)
    ∙ ap (in_range false) (read_digits-decimal n)
    ∙ rw small refl

parse_int-minus : (t : String) → parse_int ("-" ++ t) ≡ in_range true (read_number t)
unfolding parse_int
parse_int-minus t =
    ap parse_int
      (cons-append (char_at "-" 0) "" t ∙ ap (λ r. String.◌∷◌ (char_at "-" 0) r) (nil-append t))

read_number-decimal : (n : ℕ) → read_number (decimal n) ≡ some n
unfolding decimal
read_number-decimal n =
    let (d, s, l, e) = digits-first (suc n) n "" (omega arith) in
    ap read_number e ∙ ap (read_digits 0) (sym e) ∙ read_digits-decimal n

parse_int-negative :
    (n : ℕ) → n < 9223372036854775808 → parse_int ("-" ++ decimal (n + 1)) ≡ some (negsuc n)
parse_int-negative n h =
    let positive : (n + 1 == 0) ≡ false = ground arith in
    let small : leb (n + 1) 9223372036854775808 ≡ true = ground arith in
    let back : n + 1 - 1 ≡ n = omega arith in
    parse_int-minus (decimal (n + 1))
    ∙ ap (in_range true) (read_number-decimal (n + 1))
    ∙ rw (positive, small, back) refl

-- The integers of 64 bits.
abbrev pub Int64 : ℤ → Type 0
Int64 (pos n) = n < 9223372036854775808
Int64 (negsuc n) = n < 9223372036854775808

pub parse_int-decimal_ℤ : (n : ℤ) → Int64 n → parse_int (decimal_ℤ n) ≡ some n
unfolding decimal_ℤ
parse_int-decimal_ℤ (pos n) h = parse_int-decimal n h
parse_int-decimal_ℤ (negsuc n) h = parse_int-negative n h

contains_any-digit :
    (d : ℕ) (s : String) → d < 10 → contains_any (String.◌∷◌ (digit d) s) ":" ≡ contains_any s ":"
unfolding contains_any
contains_any-digit d s h =
    let c = digit_code d h in
    let other : (code (digit d) == 58) ≡ false = ground arith in rw other refl

contains_any-digits :
    (fuel n : ℕ) (after : String)
    → n < fuel
    → contains_any (digits fuel n after) ":" ≡ contains_any after ":"
unfolding digits
contains_any-digits zero n after h = refl
contains_any-digits (suc fuel) n after h = elim (Bool-cases (ltb n 10)) [
  | inl small ↦ rw small (contains_any-digit n after (ground arith))
  | inr large ↦
      let big : 10 ≤ n = ground arith in
      rw large (
        contains_any-digits fuel (n / 10) (String.◌∷◌ (digit (n % 10)) after) (omega arith)
        ∙ contains_any-digit (n % 10) after (omega arith))
]

contains_any-decimal : (n : ℕ) → contains_any (decimal n) ":" ≡ false
unfolding decimal contains_any
contains_any-decimal n = contains_any-digits (suc n) n "" (omega arith)

pub contains_any-decimal_ℤ : (n : ℤ) → contains_any (decimal_ℤ n) ":" ≡ false
unfolding decimal_ℤ contains_any
contains_any-decimal_ℤ (pos n) = contains_any-decimal n
contains_any-decimal_ℤ (negsuc n) =
    ap (λ t. contains_any t ":")
      (cons-append (char_at "-" 0) "" (decimal (n + 1))
        ∙ ap (λ r. String.◌∷◌ (char_at "-" 0) r) (nil-append (decimal (n + 1))))
    ∙ contains_any-decimal (n + 1)
