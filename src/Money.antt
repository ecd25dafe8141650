-- ===== src/Money.antt =====
-- pkg/money/money.go: fixed-precision decimals. Money and Quantity are int64 scaled by 10^8.
pub mod Decimal
pub mod Multiply
pub mod Digits
pub mod RoundTrip
pub mod Json
