-- ===== src/Portfolio/Database.antt =====
-- services/portfolio-service/database/db.go. A table is a function of its primary key. A statement
-- does what its SQL text says, under the constraints of infra/postgres/init.sql: a row that it
-- writes holds BIGINTs of zero or more, or the statement fails. Any call of the database may also
-- fail: `faults n` says whether the n-th call does. Transactions are taken one after the other, as
-- the row locks make them. Timings and metrics are left out.
use tradesphere.Base.{
  ℕ, suc, Bool, not, ◌&&◌, ◌||◌, Option, none, some, ◌==◌, if◌then◌else◌, Result, ok, err,
}
use tradesphere.Int.{ℤ, pos, ◌+ℤ◌, ◌-ℤ◌, ltb_ℤ, leb_ℤ, sub64, max_int64}
use tradesphere.Sql
pub use tradesphere.Sql.{◌>>=◌, ◌>>◌, pure, raise, raise_if, ticked}
use tradesphere.Text.{Text, codes, text_eq}
use tradesphere.Model.{Trade, update}
use tradesphere.Money.Decimal.{MoneyError, cost_for}

pub record User : Type 0 where
  pub balance : ℤ
  pub reserved_balance : ℤ

pub record Position : Type 0 where
  pub quantity : ℤ
  pub reserved_quantity : ℤ

-- The columns of a row of `orders` that the service reads: OrderReservation
pub record OrderReservation : Type 0 where
  pub user_id : ℕ
  pub symbol : Text
  pub side : Text
  pub price : ℤ
  pub remaining_quantity : ℤ
  pub reserved_amount : ℤ

pub record Db : Type 0 where
  pub users : ℕ → Option User
  pub positions : ℕ → Text → Option Position
  pub orders : ℕ → Option OrderReservation
  pub processed_events : Text → ℕ → Bool

pub data DbError : Type 0 where
  failed no_rows already_processed order_mismatch invalid_reserved_amount : DbError
  zero_rows : DbError
  money : MoneyError → DbError

abbrev pub Session : Type 0
Session = Sql.Session Db

abbrev pub Act : Type 0 → Type 0 → Type 0
Act = Sql.Act Db

abbrev pub Tx : Type 0 → Type 0
Tx A = Act DbError A

abbrev pub cost : ℤ → ℤ → Tx ℤ
cost price quantity s = (elim (cost_for price quantity) [ ok v ↦ ok v | err e ↦ err (money e) ], s)

-- A column BIGINT with a CHECK of zero or more
abbrev pub fits : ℤ → Bool
fits z = leb_ℤ (pos 0) z && leb_ℤ z max_int64

abbrev pub update_at : (Text → Option Position) → Text → Option Position → Text → Option Position
update_at f a v p = if text_eq a p then v else f p

abbrev pub set_user : ℕ → User → Db → Db
set_user id u db = record db { users = update db.users id (some u) }

abbrev pub set_position : ℕ → Text → Position → Db → Db
set_position id symbol p db = record db {
  positions = update db.positions id (update_at (db.positions id) symbol (some p));
}

abbrev pub set_order : ℕ → OrderReservation → Db → Db
set_order id o db = record db { orders = update db.orders id (some o) }

-- A write of a user's row, of a position's, or of an order's reserved amount, which must fit.
abbrev pub write_user : ℕ → User → Db → Result DbError Db
write_user id u db =
    if fits u.balance && fits u.reserved_balance then ok (set_user id u db) else err failed

abbrev pub write_position : ℕ → Text → Position → Db → Result DbError Db
write_position id symbol p db =
    if fits p.quantity && fits p.reserved_quantity
    then ok (set_position id symbol p db)
    else err failed

abbrev pub write_reserved : ℕ → OrderReservation → ℤ → Db → Result DbError Db
write_reserved id o amount db =
    if fits amount then ok (set_order id (record o { reserved_amount = amount }) db) else err failed

module _ (faults : ℕ → Bool) where
  -- A query, and a statement that must change a row; `none` is a statement that changes none.
  abbrev pub query : {A : Type 0} → (Db → Result DbError A) → Tx A
  query f s = (if faults s.calls then err failed else f s.db, ticked s)

  -- `tx.Exec` and requireRowsAffected
  abbrev pub exec : (Db → Option (Result DbError Db)) → Tx (Unit {0})
  exec f s = if faults s.calls then (err failed, ticked s) else elim (f s.db) [
    | none ↦ (err zero_rows, ticked s)
    | some r ↦ elim r [
      | err e ↦ (err e, ticked s)
      | ok db' ↦ (ok tt, record { db = db'; calls = suc s.calls })
    ]
  ]

  unfoldable pub is_event_processed : Text → ℕ → Tx Bool
  is_event_processed group id = query (λ db. ok (db.processed_events group id))

  -- INSERT … ON CONFLICT DO NOTHING: no row changes if the event is there.
  unfoldable pub mark_event_processed : Text → ℕ → Tx (Unit {0})
  mark_event_processed group id s =
      if faults s.calls
      then (err failed, ticked s)
      else if s.db.processed_events group id
      then (err already_processed, ticked s)
      else (
        ok tt,
        record {
          db = record s.db {
            processed_events = λ g i. (text_eq group g && id == i) || s.db.processed_events g i;
          };
          calls = suc s.calls;
        },
      )

  unfoldable pub lock_account : ℕ → Tx (Unit {0})
  lock_account id = query (λ db. elim (db.users id) [ none ↦ err no_rows | some u ↦ ok tt ])

  unfoldable pub lock_order_reservation : ℕ → Tx OrderReservation
  lock_order_reservation id =
      query (λ db. elim (db.orders id) [ none ↦ err no_rows | some o ↦ ok o ])

  -- UPDATE orders SET reserved_amount = $1 WHERE id = $2
  unfoldable pub set_reserved_amount : ℕ → ℤ → Tx (Unit {0})
  set_reserved_amount id amount =
      exec
        (λ db. elim (db.orders id) [ none ↦ none | some o ↦ some (write_reserved id o amount db) ])

  -- UPDATE users of ApplyBuyerTrade, with its two conditions
  unfoldable pub debit_user : ℕ → ℤ → ℤ → Tx (Unit {0})
  debit_user id total release = exec (λ db. elim (db.users id) [
    | none ↦ none
    | some u ↦
        if leb_ℤ release u.reserved_balance && leb_ℤ total u.balance
        then some (
            write_user id
              (record {
                balance = u.balance -ℤ total;
                reserved_balance = u.reserved_balance -ℤ release;
              })
              db)
        else none
  ])

  -- UPDATE users of ApplySellerTrade
  unfoldable pub credit_user : ℕ → ℤ → Tx (Unit {0})
  credit_user id total = exec (λ db. elim (db.users id) [
    | none ↦ none
    | some u ↦ some (write_user id (record u { balance = u.balance +ℤ total }) db)
  ])

  -- INSERT INTO positions … ON CONFLICT DO UPDATE; a new row refers to its user.
  unfoldable pub add_position : ℕ → Text → ℤ → Tx (Unit {0})
  add_position id symbol quantity = exec (λ db. elim (db.positions id symbol) [
    | none ↦ elim (db.users id) [
      | none ↦ some (err failed)
      | some u ↦
          some (
            write_position id symbol (record { quantity = quantity; reserved_quantity = pos 0 }) db)
    ]
    | some p ↦ some (write_position id symbol (record p { quantity = p.quantity +ℤ quantity }) db)
  ])

  -- UPDATE positions of ApplySellerTrade, with its two conditions
  unfoldable pub take_position : ℕ → Text → ℤ → ℤ → Tx (Unit {0})
  take_position id symbol quantity release = exec (λ db. elim (db.positions id symbol) [
    | none ↦ none
    | some p ↦
        if leb_ℤ quantity p.quantity && leb_ℤ release p.reserved_quantity
        then some (
            write_position id symbol
              (record {
                quantity = p.quantity -ℤ quantity;
                reserved_quantity = p.reserved_quantity -ℤ release;
              })
              db)
        else none
  ])

  unfoldable pub apply_buyer_trade : Trade → Tx (Unit {0})
  apply_buyer_trade trade = do
    total ← cost trade.price trade.quantity
    order ← lock_order_reservation trade.buy_order_id
    raise_if (not (order.user_id == trade.buyer_user_id) || not (text_eq order.side (codes "BUY")))
        order_mismatch
    next ← cost order.price order.remaining_quantity
    raise_if (ltb_ℤ next (pos 0) || ltb_ℤ order.reserved_amount next) invalid_reserved_amount
    let release = sub64 order.reserved_amount next
    raise_if (ltb_ℤ release (pos 0)) invalid_reserved_amount
    debit_user trade.buyer_user_id total release
    set_reserved_amount trade.buy_order_id next
    add_position trade.buyer_user_id trade.symbol trade.quantity

  unfoldable pub apply_seller_trade : Trade → Tx (Unit {0})
  apply_seller_trade trade = do
    total ← cost trade.price trade.quantity
    order ← lock_order_reservation trade.sell_order_id
    raise_if
        (not (order.user_id == trade.seller_user_id) || not (text_eq order.side (codes "SELL")))
        order_mismatch
    let next = order.remaining_quantity
    raise_if (ltb_ℤ next (pos 0) || ltb_ℤ order.reserved_amount next) invalid_reserved_amount
    let release = sub64 order.reserved_amount next
    raise_if (ltb_ℤ release (pos 0)) invalid_reserved_amount
    take_position trade.seller_user_id trade.symbol trade.quantity release
    set_reserved_amount trade.sell_order_id next
    credit_user trade.seller_user_id total
