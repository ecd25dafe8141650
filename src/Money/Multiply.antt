-- ===== src/Money/Multiply.antt =====
-- What multiplyScaled accepts, and what it returns.
use tradesphere.Base.{◌≡◌, ◌↔◌, true, ok, arith}
use tradesphere.Int.{ℤ, pos, negsuc, ◌*ℤ◌, InInt64, eqb_ℤ}
use tradesphere.Money.Decimal.{scale, quo, rem, multiply_scaled, cost_for}

unscaled : (p : ℤ) → eqb_ℤ (rem p scale) (pos 0) ≡ true → quo p scale *ℤ pos scale ≡ p
unfolding ◌*ℤ◌
unscaled (pos n) h = ground arith
unscaled (negsuc n) h = ground arith

rescaled :
    (v : ℤ) → (eqb_ℤ (rem (v *ℤ pos scale) scale) (pos 0) ≡ true) × (quo (v *ℤ pos scale) scale ≡ v)
unfolding ◌*ℤ◌
rescaled (pos n) = ground arith
rescaled (negsuc n) = ground arith

-- CostFor returns `v` exactly when `v` is an int64 and `v * 10^8` is the exact product of price
-- and quantity: it never rounds, and it refuses only what has no exact representation.
pub cost_for_exact :
    (price quantity v : ℤ)
    → (cost_for price quantity ≡ ok v) ↔ ((v *ℤ pos scale ≡ price *ℤ quantity) × InInt64 v)
unfolding cost_for multiply_scaled
cost_for_exact price quantity v =
    (λ h. ground (arith, unscaled (price *ℤ quantity)), λ h. ground (arith, rescaled v))
