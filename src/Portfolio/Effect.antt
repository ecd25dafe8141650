-- ===== src/Portfolio/Effect.antt =====
-- What a reservation and a release do when they succeed.
use tradesphere.Base.{
  false, true, ℕ, ◌≡◌, ◌⊎◌, Bool, ◌&&◌, none, some, if◌then◌else◌, ◌==◌, ok, arith,
}
use tradesphere.Int.{eq_of_parts, -ℤ_parts, ◌-ℤ◌, ℤ, pos, ◌+ℤ◌, ◌≤ℤ◌, ◌<ℤ◌}
use tradesphere.Text.{text_eq_refl, codes, Text, text_eq, text_eq→eq}
use tradesphere.Money.Decimal.{cost_for}
use tradesphere.Portfolio.Database.{Db, Session}
use tradesphere.Portfolio.Database.{OrderReservation, lock_order_reservation, set_reserved_amount}
use tradesphere.Portfolio.Consumer.{release_order_reservation, release_balance, release_quantity}
use tradesphere.Portfolio.Handlers.{
  or_quantity, ReserveRequest, reserve_balance, reserve_quantity, reserve_buy, reserve_sell,
}

-- The balance that a user has reserved, and the quantity reserved of a position; zero if the row
-- is not there.
abbrev pub reserved_of : ℕ → Db → ℤ
reserved_of id db = elim (db.users id) [ none ↦ pos 0 | some u ↦ u.reserved_balance ]

abbrev pub reserved_quantity_of : ℕ → Text → Db → ℤ
reserved_quantity_of id symbol db = elim (db.positions id symbol) [
  | none ↦ pos 0
  | some p ↦ p.reserved_quantity
]

-- What a request asks to reserve: the amount that it names, or else the cost.
abbrev pub Asks : ReserveRequest → ℤ → Type 0
Asks req amount =
    ((pos 0 <ℤ req.reserved_amount) × (amount ≡ req.reserved_amount))
    ⊎ ((req.reserved_amount ≤ℤ pos 0) × (cost_for req.price req.quantity ≡ ok amount))

module _ (faults : ℕ → Bool) where
  -- If the branch BUY of reserveHandler succeeds on a request that asks for an amount, the user's
  -- reserved balance grows by exactly that amount, and no other user's changes.
  pub reserve_buy_reserves :
      (id : ℕ) (req : ReserveRequest) (amount : ℤ) (s : Session)
      → Asks req amount
      → (reserve_buy faults id req s).0 ≡ ok tt
      → (j : ℕ)
      → reserved_of j (reserve_buy faults id req s).1.db
        ≡ (if id == j then reserved_of j s.db +ℤ amount else reserved_of j s.db)
  unfolding reserve_buy reserve_balance
  reserve_buy_reserves id req amount s a h j = grind arith

  -- The same for the branch that sells: the reserved quantity of the position grows by the amount
  -- that the request names, or else by its quantity.
  pub reserve_sell_reserves :
      (id : ℕ) (req : ReserveRequest) (s : Session)
      → (reserve_sell faults id req s).0 ≡ ok tt
      → (j : ℕ) (symbol : Text)
      → reserved_quantity_of j symbol (reserve_sell faults id req s).1.db ≡ (
          if id == j && text_eq req.symbol symbol
          then reserved_quantity_of j symbol s.db +ℤ or_quantity req.reserved_amount req
          else reserved_quantity_of j symbol s.db)
  unfolding reserve_sell reserve_quantity
  reserve_sell_reserves id req s h j symbol = grind (arith, text_eq→eq req.symbol symbol)

module _ (faults : ℕ → Bool) where
  minus_zero : (a : ℤ) → a -ℤ pos 0 ≡ a
  minus_zero a = eq_of_parts (a -ℤ pos 0) a (omega (arith, -ℤ_parts a (pos 0)))

  -- If ReleaseOrderReservation succeeds on an order that buys, its user's reserved balance falls by
  -- what the order's row has reserved, and the row has nothing reserved any more.
  pub release_order_reservation_buy :
      (id : ℕ) (row : OrderReservation) (s : Session)
      → s.db.orders id ≡ some row
      → text_eq row.side (codes "BUY") ≡ true
      → (release_order_reservation faults id s).0 ≡ ok tt
      → let after = (release_order_reservation faults id s).1.db in
        (reserved_of row.user_id after ≡ reserved_of row.user_id s.db -ℤ row.reserved_amount)
        × (after.orders id ≡ some (record row { reserved_amount = pos 0 }))
  unfolding release_order_reservation lock_order_reservation release_balance set_reserved_amount
  release_order_reservation_buy id row s found buys h =
      ground (arith, minus_zero (reserved_of row.user_id s.db))

  -- The same for an order whose side is not BUY: the reserved quantity of the user's position in the
  -- order's symbol falls by what the row has reserved, and the row has nothing reserved any more.
  pub release_order_reservation_sell :
      (id : ℕ) (row : OrderReservation) (s : Session)
      → s.db.orders id ≡ some row
      → text_eq row.side (codes "BUY") ≡ false
      → (release_order_reservation faults id s).0 ≡ ok tt
      → let after = (release_order_reservation faults id s).1.db in
        (reserved_quantity_of row.user_id row.symbol after
          ≡ reserved_quantity_of row.user_id row.symbol s.db -ℤ row.reserved_amount)
        × (after.orders id ≡ some (record row { reserved_amount = pos 0 }))
  unfolding release_order_reservation lock_order_reservation release_quantity set_reserved_amount
  release_order_reservation_sell id row s found sells h = ground (
    arith,
    minus_zero (reserved_quantity_of row.user_id row.symbol s.db),
    text_eq_refl row.symbol,
  )
