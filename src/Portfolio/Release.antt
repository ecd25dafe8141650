-- ===== src/Portfolio/Release.antt =====
-- services/portfolio-service/main.go: releaseHandler. A query of the order's row that fails is taken
-- as a row that is not there, as the handler takes it.
use tradesphere.Base.{ℕ, Bool, Option, none, some, if◌then◌else◌, ok, err}
use tradesphere.Int.{ℤ, pos, ◌-ℤ◌, ltb_ℤ}
use tradesphere.Text.{Text, is_empty}
use tradesphere.Portfolio.Database.{
  Act, Tx, ◌>>=◌, ◌>>◌, pure, raise_if, query, write_user, write_position, write_reserved,
  lock_order_reservation,
}
use tradesphere.Portfolio.Handlers.{
  Refusal, ReserveRequest, or_refuse, requested_cost, or_quantity, exec_any, user_row, position_row,
  by_side, user_not_found, position_not_found, insufficient_reserved_balance,
  insufficient_reserved_quantity, release_failed, release_commit_failed, invalid_order_id,
}

module _ (faults : ℕ → Bool) (to_upper : Text → Text) (parse_uuid : Text → Option ℕ) where
  -- UPDATE users SET reserved_balance = reserved_balance - $1
  unfoldable pub unreserve_balance : ℕ → ℤ → Tx (Unit {0})
  unreserve_balance id amount = exec_any faults (λ db. elim (db.users id) [
    | none ↦ ok db
    | some u ↦ write_user id (record u { reserved_balance = u.reserved_balance -ℤ amount }) db
  ])

  -- UPDATE positions SET reserved_quantity = reserved_quantity - $1
  unfoldable pub unreserve_quantity : ℕ → Text → ℤ → Tx (Unit {0})
  unreserve_quantity id symbol amount = exec_any faults (λ db. elim (db.positions id symbol) [
    | none ↦ ok db
    | some p ↦
        write_position id symbol (record p { reserved_quantity = p.reserved_quantity -ℤ amount }) db
  ])

  -- UPDATE orders SET reserved_amount = 0
  unfoldable pub clear_reserved : ℕ → Tx (Unit {0})
  clear_reserved id =
      exec_any faults
        (λ db. elim (db.orders id) [ none ↦ ok db | some o ↦ write_reserved id o (pos 0) db ])

  -- What the order's row has reserved, which is then cleared; `amount` if the request names no
  -- order, or one whose row cannot be read.
  unfoldable pub take_reserved : ReserveRequest → ℤ → Act Refusal ℤ
  take_reserved req amount s =
      if is_empty req.order_id then (ok amount, s) else elim (parse_uuid req.order_id) [
        | none ↦ (err invalid_order_id, s)
        | some id ↦
            let (r, s') = lock_order_reservation faults id s in
            elim r [
              | err e ↦ (ok amount, s')
              | ok row ↦
                  (or_refuse release_failed (clear_reserved id) >> pure row.reserved_amount) s'
            ]
      ]

  -- The branch BUY of releaseHandler
  unfoldable pub release_buy : ℕ → ReserveRequest → Act Refusal (Unit {0})
  release_buy id req = do
    u ← or_refuse user_not_found (query faults (user_row id))
    asked ← requested_cost req
    cost ← take_reserved req asked
    raise_if (ltb_ℤ u.reserved_balance cost) insufficient_reserved_balance
    or_refuse release_failed (unreserve_balance id cost)

  -- Its other branch
  unfoldable pub release_sell : ℕ → ReserveRequest → Act Refusal (Unit {0})
  release_sell id req = do
    p ← or_refuse position_not_found (query faults (position_row id req.symbol))
    held ← take_reserved req req.reserved_amount
    let amount = or_quantity held req
    raise_if (ltb_ℤ p.reserved_quantity amount) insufficient_reserved_quantity
    or_refuse release_failed (unreserve_quantity id req.symbol amount)

  unfoldable pub release_handler : Bool → Option ReserveRequest → Act Refusal (Unit {0})
  release_handler =
      by_side faults to_upper parse_uuid release_commit_failed release_buy release_sell
