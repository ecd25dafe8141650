-- ===== src/Base/Results.antt =====
-- A value or an error: Go's pair of a result and an `error`, which is never both.
use mathlib.Core.Path.{◌≡◌, refl, ap}
use mathlib.Core.Logic.{◌⊎◌, inl, inr}

pub data Result (E A : Type 0) : Type 0 where
  ok : A → Result E A
  err : E → Result E A

infixl 5 ◌>>=◌
abbrev pub ◌>>=◌ : {E A B : Type 0} → Result E A → (A → Result E B) → Result E B
ok a >>= f = f a
err e >>= f = err e

pub Result-cases :
    {E A : Type 0} (r : Result E A) → ((a : A) × (r ≡ ok a)) ⊎ ((e : E) × (r ≡ err e))
Result-cases (ok a) = inl (a, refl)
Result-cases (err e) = inr (e, refl)

module _ {E A : Type 0} where
  abbrev value_or : A → Result E A → A
  value_or a (ok b) = b
  value_or a (err e) = a

  abbrev done : A → Result E A
  done a = ok a

  pub ok_injective : {a b : A} → done a ≡ done b → a ≡ b
  ok_injective {a} e = ap (value_or a) e
