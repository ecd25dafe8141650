-- ===== src/Money/Digits.antt =====
-- The decimal digits that formatDecimal prints, and the number that they spell.
use native.Mathlib.Nat.{pow-suc}
use tradesphere.Base.{
  ℕ, zero, suc, ◌+◌, ◌-◌, ◌*◌, ◌/◌, ◌%◌, ◌^◌, ◌≤◌, ◌<◌, ◌≡◌, refl, ◌∙◌, true, false, [], ◌∷◌, ◌++◌,
  length, replicate, length-append, length-replicate, All, All-append, arith,
}
use tradesphere.Text.{Text, IsSolid, is_space, is_empty, Lacks}
use tradesphere.Money.Decimal.{is_digits, value, digits, print_nat, print_padded, scale}

abbrev pub IsDigit : ℕ → Type 0
IsDigit c = (b'0' ≤ c) × (c ≤ b'9')

pub is_digits-All : (s : Text) → All IsDigit s → is_digits s ≡ true
unfolding is_digits
is_digits-All [] h = refl
is_digits-All (c ∷ s) h = ground (arith, is_digits-All s h.1)

pub value-append : (s t : Text) (n : ℕ) → value n (s ++ t) ≡ value (value n s) t
unfolding value
value-append [] t n = refl
value-append (c ∷ s) t n = value-append s t (n * 10 + (c - b'0'))

-- Eight digits behind `n` move it by eight places.
pub value_shift : (s : Text) (n : ℕ) → value n s ≡ n * 10 ^ length s + value 0 s
unfolding value
value_shift [] n = omega arith
value_shift (c ∷ s) n =
    rw (pow-suc 10 (length s))
      (omega (arith, value_shift s (n * 10 + (c - b'0')), value_shift s (0 * 10 + (c - b'0'))))

pub value_zeros : (k : ℕ) (s : Text) → value 0 (replicate k b'0' ++ s) ≡ value 0 s
unfolding value
value_zeros zero s = refl
value_zeros (suc k) s = value_zeros k s

pub value-digits : (fuel n : ℕ) (out : Text) → n < fuel → value 0 (digits fuel n out) ≡ value n out
unfolding value digits
value-digits zero n out h = absurd (omega arith)
value-digits (suc fuel) n out h = ground (arith, value-digits fuel (n / 10) ((b'0' + n % 10) ∷ out))

pub digits-digits : (fuel n : ℕ) (out : Text) → All IsDigit out → All IsDigit (digits fuel n out)
unfolding digits
digits-digits zero n out h = h
digits-digits (suc fuel) n out h =
    ground (arith, digits-digits fuel (n / 10) ((b'0' + n % 10) ∷ out))

pub digits-cons : (fuel n c : ℕ) (out : Text) → is_empty (digits fuel n (c ∷ out)) ≡ false
unfolding digits
digits-cons zero n c out = refl
digits-cons (suc fuel) n c out = ground (arith, digits-cons fuel (n / 10) (b'0' + n % 10) (c ∷ out))

pub length-digits :
    (fuel k n : ℕ) (out : Text) → n < 10 ^ suc k → length (digits fuel n out) ≤ suc k + length out
unfolding digits
length-digits zero k n out h = omega arith
length-digits (suc fuel) zero n out h = ground (arith, pow-suc 10 0)
length-digits (suc fuel) (suc k) n out h =
    ground (arith, pow-suc 10 (suc k), length-digits fuel k (n / 10) ((b'0' + n % 10) ∷ out))

pub value-print_nat : (n : ℕ) → value 0 (print_nat n) ≡ n
unfolding print_nat value
value-print_nat n = value-digits (suc n) n [] (omega arith)

pub print_nat_digits : (n : ℕ) → All IsDigit (print_nat n)
unfolding print_nat
print_nat_digits n = digits-digits (suc n) n [] tt

pub print_nat_nonempty : (n : ℕ) → is_empty (print_nat n) ≡ false
unfolding print_nat digits
print_nat_nonempty n = ground (arith, digits-cons n (n / 10) (b'0' + n % 10) [])

pub zeros_digits : (k : ℕ) → All IsDigit (replicate k b'0')
zeros_digits zero = tt
zeros_digits (suc k) = (omega arith, zeros_digits k)

-- The fraction is printed in exactly eight digits.
module _ (n : ℕ) (h : n < scale) where
  pub length-print_padded : length (print_padded 8 n) ≡ 8
  unfolding print_padded print_nat
  length-print_padded = omega (
    arith,
    length-append (replicate (8 - length (digits (suc n) n [])) b'0') (digits (suc n) n []),
    length-replicate {A = ℕ} (8 - length (digits (suc n) n [])) b'0',
    length-digits (suc n) 7 n [] (omega arith),
  )

  pub print_padded_digits : All IsDigit (print_padded 8 n)
  unfolding print_padded
  print_padded_digits = All-append IsDigit _ _ (zeros_digits _) (print_nat_digits n)

  pub value-print_padded : value 0 (print_padded 8 n) ≡ n
  unfolding print_padded
  value-print_padded = value_zeros _ (print_nat n) ∙ value-print_nat n

pub is_empty-append : (s t : Text) → is_empty s ≡ false → is_empty (s ++ t) ≡ false
is_empty-append [] t h = cc
is_empty-append (c ∷ s) t h = refl

pub digits_lack_point : (s : Text) → All IsDigit s → Lacks b'.' s
digits_lack_point [] h = tt
digits_lack_point (c ∷ s) h = (omega arith, digits_lack_point s h.1)

pub digits-IsSolid : (s : Text) → All IsDigit s → All IsSolid s
unfolding is_space
digits-IsSolid [] h = tt
digits-IsSolid (c ∷ s) h = (ground arith, digits-IsSolid s h.1)

pub digits_lack_sign : (c : ℕ) → c < b'0' → (s : Text) → All IsDigit s → Lacks c s
digits_lack_sign c lt [] h = tt
digits_lack_sign c lt (d ∷ s) h = (omega arith, digits_lack_sign c lt s h.1)
