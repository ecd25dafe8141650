-- ===== src/Portfolio/Validate.antt =====
-- services/portfolio-service/main.go: validateHandler.
use tradesphere.Base.{ℕ, Bool, false, ◌||◌, Option, none, some, if◌then◌else◌, Result, ok, err}
use tradesphere.Int.{ℤ, pos, leb_ℤ, sub64}
use tradesphere.Text.{Text, codes, text_eq, is_empty}
use tradesphere.Money.Decimal.{cost_for, money_from_decimal}
use tradesphere.Portfolio.Database.{Db, DbError, failed, Act, ◌>>=◌, ◌>>◌, raise, raise_if, query}
use tradesphere.Portfolio.Handlers.{
  Refusal, missing_parameters, invalid_user_id, invalid_price, invalid_quantity, invalid_side,
}

-- The query string of a request
pub record ValidateRequest : Type 0 where
  pub user_id : Text
  pub symbol : Text
  pub side : Text
  pub price : Text
  pub quantity : Text

module _ (faults : ℕ → Bool) (to_upper : Text → Text) (parse_uuid : Text → Option ℕ) where
  -- A number above zero, or the refusal
  abbrev pub above_zero : Refusal → Text → Act Refusal ℤ
  above_zero refusal t s = (
    elim (money_from_decimal t) [
      | err e ↦ err refusal
      | ok v ↦ if leb_ℤ v (pos 0) then err refusal else ok v
    ],
    s,
  )

  abbrev pub parse_user : Text → Act Refusal ℕ
  parse_user t s = (elim (parse_uuid t) [ none ↦ err invalid_user_id | some id ↦ ok id ], s)

  -- A query, and whether it succeeds with true
  abbrev pub holds : (Db → Result DbError Bool) → Act Refusal Bool
  holds f s = let (r, s') = query faults f s in (ok (elim r [ ok b ↦ b | err e ↦ false ]), s')

  -- Does the free balance pay for the order?
  abbrev pub can_pay : ℕ → ℤ → ℤ → Db → Result DbError Bool
  can_pay id price quantity db = elim (db.users id) [
    | none ↦ err failed
    | some u ↦ elim (cost_for price quantity) [
      | err e ↦ ok false
      | ok cost ↦ ok (leb_ℤ cost (sub64 u.balance u.reserved_balance))
    ]
  ]

  -- Does the free position cover the order?
  abbrev pub can_deliver : ℕ → Text → ℤ → Db → Result DbError Bool
  can_deliver id symbol quantity db = elim (db.positions id symbol) [
    | none ↦ err failed
    | some p ↦ ok (leb_ℤ quantity (sub64 p.quantity p.reserved_quantity))
  ]

  -- validateHandler: the value of `allowed`
  unfoldable pub validate_handler : ValidateRequest → Act Refusal Bool
  validate_handler req = do
    let side = to_upper req.side
    raise_if
        (is_empty req.user_id
          || is_empty req.symbol
          || is_empty side
          || is_empty req.price
          || is_empty req.quantity)
        missing_parameters
    id ← parse_user req.user_id
    price ← above_zero invalid_price req.price
    quantity ← above_zero invalid_quantity req.quantity
    if text_eq side (codes "BUY")
        then holds (can_pay id price quantity)
        else if text_eq side (codes "SELL")
        then holds (can_deliver id req.symbol quantity)
        else raise invalid_side
