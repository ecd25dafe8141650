-- ===== src/Money/Decimal.antt =====
-- parseDecimal, formatDecimal and multiplyScaled of pkg/money/money.go, with their wrappers.
-- A number of math/big is an integer of the model.
use tradesphere.Base.{
  ℕ, zero, suc, ◌+◌, ◌-◌, ◌*◌, ◌/◌, ◌%◌, Bool, true, false, not, ◌||◌, Option, none, some, [], ◌∷◌,
  ◌++◌, ltb, ◌==◌, if◌then◌else◌, length, get_or, replicate, Result, ok, err,
}
use tradesphere.Base.Results.{◌>>=◌}
use tradesphere.Int.{ℤ, pos, negsuc, ◌*ℤ◌, ltb_ℤ, eqb_ℤ, is_int64, min_int64, sub64}
use tradesphere.Text.{Text, codes, is_empty, trim_space, split}

-- The errors of the package, by their messages.
pub data MoneyError : Type 0 where
  required invalid too_precise parse_overflow inexact multiply_overflow : MoneyError

abbrev pub scale : ℕ
scale = 100000000

abbrev pub decimals : ℕ
decimals = 8

unfoldable pub is_digits : Text → Bool
is_digits [] = true
is_digits (c ∷ s) = if ltb c b'0' || ltb b'9' c then false else is_digits s

-- The number that a text of digits spells behind `n`.
unfoldable pub value : ℕ → Text → ℕ
value n [] = n
value n (c ∷ s) = value (n * 10 + (c - b'0')) s

-- `big.Int.SetString` in base 10. A sign, which it would read too, never reaches it here.
unfoldable pub set_string : Text → Option ℕ
set_string s = if is_empty s then none else if is_digits s then some (value 0 s) else none

-- -n
abbrev pub negate : ℕ → ℤ
negate zero = pos 0
negate (suc n) = negsuc n

-- parseDecimal behind the sign
unfoldable pub parse_unsigned : Bool → Text → Result MoneyError ℤ
parse_unsigned negative trimmed =
    let parts = split b'.' trimmed in
    let first = get_or parts 0 [] in
    let fraction = if length parts == 2 then get_or parts 1 [] else [] in
    let whole = if is_empty first then b'0' ∷ [] else first in
    let combined = whole ++ (fraction ++ replicate (decimals - length fraction) b'0') in
    if is_empty trimmed
    then err invalid
    else if ltb 2 (length parts)
    then err invalid
    else if not (is_digits whole) || not (is_digits fraction)
    then err invalid
    else if ltb decimals (length fraction)
    then err too_precise
    else elim (set_string combined) [
      | none ↦ err invalid
      | some n ↦
          let number = if negative then negate n else pos n in
          if is_int64 number then ok number else err parse_overflow
    ]

-- The switch on the first character
unfoldable pub parse_signed : Text → Result MoneyError ℤ
parse_signed [] = err required
parse_signed (c ∷ s) =
    if c == b'-'
    then parse_unsigned true s
    else if c == b'+'
    then parse_unsigned false s
    else parse_unsigned false (c ∷ s)

unfoldable pub parse_decimal : Text → Result MoneyError ℤ
parse_decimal text = parse_signed (trim_space text)

-- `%d` of a number that is not negative; each round writes the last digit.
unfoldable pub digits : ℕ → ℕ → Text → Text
digits zero n out = out
digits (suc fuel) n out = elim (ltb n 10) [
  | true ↦ (b'0' + n) ∷ out
  | false ↦ digits fuel (n / 10) ((b'0' + n % 10) ∷ out)
]

unfoldable pub print_nat : ℕ → Text
print_nat n = digits (suc n) n []

-- `%0*d`
unfoldable pub print_padded : ℕ → ℕ → Text
print_padded width n = let s = print_nat n in replicate (width - length s) b'0' ++ s

-- Go's division and remainder, which truncate towards zero.
abbrev pub quo : ℤ → ℕ → ℤ
quo (pos n) k = pos (n / k)
quo (negsuc n) k = negate (suc n / k)

abbrev pub rem : ℤ → ℕ → ℤ
rem (pos n) k = pos (n % k)
rem (negsuc n) k = negate (suc n % k)

abbrev pub magnitude : ℤ → ℕ
magnitude (pos n) = n
magnitude (negsuc n) = suc n

-- `whole` and `fraction` are printed by their magnitudes: they are not negative.
unfoldable pub format_decimal : ℤ → Text
format_decimal v =
    let negative = ltb_ℤ v (pos 0) in
    let sign = if negative then b'-' ∷ [] else [] in
    let size = if negative then sub64 (pos 0) v else v in
    let whole = quo size scale in
    let fraction = rem size scale in
    if eqb_ℤ v min_int64
    then codes "-92233720368.54775808"
    else sign ++ (print_nat (magnitude whole) ++ b'.' ∷ print_padded decimals (magnitude fraction))

unfoldable pub multiply_scaled : ℤ → ℤ → Result MoneyError ℤ
multiply_scaled left right =
    let product = left *ℤ right in
    let quotient = quo product scale in
    if not (eqb_ℤ (rem product scale) (pos 0))
    then err inexact
    else if not (is_int64 quotient)
    then err multiply_overflow
    else ok quotient

-- MoneyFromDecimal and QuantityFromDecimal
unfoldable pub money_from_decimal : Text → Result MoneyError ℤ
money_from_decimal text = parse_decimal text >>= λ v. ok v

unfoldable pub money_to_decimal : ℤ → Text
money_to_decimal v = format_decimal v

unfoldable pub cost_for : ℤ → ℤ → Result MoneyError ℤ
cost_for price quantity = multiply_scaled price quantity >>= λ v. ok v

-- MustCostFor: `none` is the panic.
unfoldable pub must_cost_for : ℤ → ℤ → Option ℤ
must_cost_for price quantity = elim (cost_for price quantity) [ ok v ↦ some v | err e ↦ none ]
