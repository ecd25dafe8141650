-- ===== src/Money/RoundTrip.antt =====
-- formatDecimal, then parseDecimal (pkg/money/money.go).
use mathlib.Core.List.{append-nil}
use tradesphere.Base.{
  ℕ, suc, ◌+◌, ◌-◌, ◌*◌, ◌/◌, ◌%◌, ◌^◌, ◌<◌, ◌≡◌, ◌≢◌, refl, Bool, true, false, [], ◌∷◌, ◌++◌, ltb,
  Bool-cases, ltb→lt, inl, inr, if◌then◌else◌, All, All-append, ok, err, some, arith,
}
use tradesphere.Int.{ℤ, pos, negsuc, is_int64, InInt64, min_int64, sub64, wrap64, ◌-ℤ◌}
use tradesphere.Text.{
  Text, IsSolid, is_space, is_empty, trim_space_solid, trim_space, Lacks, split, split-append,
}
use tradesphere.Money.Digits.{
  IsDigit, is_digits-All, value-append, value_shift, value-print_nat, print_nat_digits,
  print_nat_nonempty, length-print_padded, print_padded_digits, value-print_padded, is_empty-append,
  digits_lack_point, digits_lack_sign, digits-IsSolid,
}
use tradesphere.Money.Decimal.{
  is_digits, value, set_string, parse_unsigned, parse_decimal, print_nat, print_padded,
  format_decimal, scale, negate, parse_overflow, parse_signed,
}

parse_signed_plain :
    (s : Text)
    → is_empty s ≡ false
    → Lacks b'-' s
    → Lacks b'+' s
    → parse_signed s ≡ parse_unsigned false s
unfolding parse_signed
parse_signed_plain [] e m p = cc
parse_signed_plain (c ∷ s) e m p = ground arith

-- The digits of a number, a point, and the eight digits of a fraction.
abbrev printed : ℕ → ℕ → Text
printed whole fraction = print_nat whole ++ b'.' ∷ print_padded 8 fraction

module _ (whole fraction : ℕ) (h : fraction < scale) where
  printed_value : value 0 (print_nat whole ++ print_padded 8 fraction) ≡ whole * scale + fraction
  printed_value = rw (
    value-append (print_nat whole) (print_padded 8 fraction) 0,
    value-print_nat whole,
    value_shift (print_padded 8 fraction) whole,
    length-print_padded fraction h,
    value-print_padded fraction h,
  )

  printed_nonempty : is_empty (printed whole fraction) ≡ false
  printed_nonempty = is_empty-append (print_nat whole) _ (print_nat_nonempty whole)

  split-printed :
      split b'.' (printed whole fraction) ≡ print_nat whole ∷ print_padded 8 fraction ∷ []
  split-printed =
      split-append b'.' (print_nat whole) (print_padded 8 fraction)
        (digits_lack_point _ (print_nat_digits whole))
        (digits_lack_point _ (print_padded_digits fraction h))

  printed_digits : All IsDigit (print_nat whole ++ print_padded 8 fraction)
  printed_digits = All-append IsDigit _ _ (print_nat_digits whole) (print_padded_digits fraction h)

  printed_number :
      set_string (print_nat whole ++ print_padded 8 fraction) ≡ some (whole * scale + fraction)
  unfolding set_string
  printed_number = rw (
    is_empty-append (print_nat whole) (print_padded 8 fraction) (print_nat_nonempty whole),
    is_digits-All _ printed_digits,
    printed_value,
  )

  -- Behind the sign the (printed whole fraction) magnitude is read as it is, if it fits with that sign.
  parse_printed :
      (negative : Bool)
      → parse_unsigned negative (printed whole fraction) ≡ (
          let number =
            if negative
            then negate (whole * scale + fraction)
            else pos (whole * scale + fraction) in
          if is_int64 number then ok number else err parse_overflow)
  unfolding parse_unsigned
  parse_printed negative = rw (
    printed_nonempty,
    split-printed,
    print_nat_nonempty whole,
    length-print_padded fraction h,
    is_digits-All _ (print_nat_digits whole),
    is_digits-All _ (print_padded_digits fraction h),
    append-nil (print_padded 8 fraction),
    printed_number,
  )

  printed-IsSolid : All IsSolid (printed whole fraction)
  unfolding is_space
  printed-IsSolid =
      All-append IsSolid _ _ (digits-IsSolid _ (print_nat_digits whole))
        (refl, digits-IsSolid _ (print_padded_digits fraction h))

  printed-Lacks : (c : ℕ) → c < b'0' → b'.' ≢ c → Lacks c (printed whole fraction)
  printed-Lacks c lt ne =
      All-append (λ d. d ≢ c) _ _ (digits_lack_sign c lt _ (print_nat_digits whole))
        (ne, digits_lack_sign c lt _ (print_padded_digits fraction h))

  parse_plain :
      parse_decimal (printed whole fraction) ≡ parse_unsigned false (printed whole fraction)
  unfolding parse_decimal
  parse_plain = rw (trim_space_solid (printed whole fraction) printed-IsSolid) (
      parse_signed_plain (printed whole fraction) printed_nonempty
        (printed-Lacks b'-' (omega arith) (omega arith))
        (printed-Lacks b'+' (omega arith) (omega arith)))

  parse_minus :
      parse_decimal (b'-' ∷ (printed whole fraction)) ≡ parse_unsigned true (printed whole fraction)
  unfolding parse_decimal parse_signed is_space
  parse_minus = rw (trim_space_solid (b'-' ∷ (printed whole fraction)) (refl, printed-IsSolid))

-- The magnitude that formatDecimal prints, except for the least int64.
format_pos : (n : ℕ) → format_decimal (pos n) ≡ printed (n / scale) (n % scale)
unfolding format_decimal
format_pos n = ground arith

format_neg :
    (n : ℕ)
    → n < 2 ^ 63 - 1
    → format_decimal (negsuc n) ≡ b'-' ∷ printed (suc n / scale) (suc n % scale)
unfolding format_decimal sub64 wrap64 ◌-ℤ◌
format_neg n h = ground arith

format_min : parse_decimal (format_decimal min_int64) ≡ ok min_int64
unfolding format_decimal parse_decimal trim_space parse_signed parse_unsigned split is_digits
    set_string value
format_min = refl

-- Every int64 is read back from its print: parseDecimal(formatDecimal(v)) is v without error, the
-- least int64 included.
pub parse_decimal-format_decimal : (v : ℤ) → InInt64 v → parse_decimal (format_decimal v) ≡ ok v
parse_decimal-format_decimal (pos n) h =
    let whole : n / scale * scale + n % scale ≡ n = omega arith in
    rw
      (
        format_pos n,
        parse_plain (n / scale) (n % scale) (omega arith),
        parse_printed (n / scale) (n % scale) (omega arith) false,
        whole,
      )
      (ground arith)
parse_decimal-format_decimal (negsuc n) h = elim (Bool-cases (ltb n (2 ^ 63 - 1))) [
  | inl below ↦
      let whole : suc n / scale * scale + suc n % scale ≡ suc n = omega arith in
      rw
        (
          format_neg n (ltb→lt n (2 ^ 63 - 1) below),
          parse_minus (suc n / scale) (suc n % scale) (omega arith),
          parse_printed (suc n / scale) (suc n % scale) (omega arith) true,
          whole,
        )
        (ground arith)
  | inr least ↦ let e : n ≡ 2 ^ 63 - 1 = ground arith in rw e format_min
]
