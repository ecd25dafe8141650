-- ===== src/Portfolio/Consumer.antt =====
-- services/portfolio-service/kafka/consumer.go: one transaction for each event, at most once.
use tradesphere.Base.{
  ℕ, suc, Bool, true, false, not, ◌++◌, Option, none, some, ltb, ◌==◌, if◌then◌else◌, Result, ok,
  err,
}
use tradesphere.Int.{ℤ, pos, ◌-ℤ◌, leb_ℤ, eqb_ℤ}
use tradesphere.Text.{Text, codes, text_eq}
use tradesphere.Model.{Trade}
use tradesphere.Portfolio.Database.{
  Db, DbError, failed, already_processed, Session, Tx, ◌>>=◌, ◌>>◌, pure, ticked, exec, write_user,
  write_position, is_event_processed, mark_event_processed, lock_account, lock_order_reservation,
  set_reserved_amount, apply_buyer_trade, apply_seller_trade,
}

pub record OrderEvent : Type 0 where
  pub id : ℕ
  pub type : Text
  pub order_id : ℕ
  pub user_id : ℕ
  pub symbol : Text
  pub side : Text
  pub status : Text
  pub remaining_quantity : ℤ
  pub reserved_amount : ℤ
  pub created_at : ℕ

-- How the code of a transaction ends when it makes no error, and what the handler then returns.
pub data Ending : Type 0 where
  commit rollback : Bool → Ending

-- How a transaction was left
abbrev pub finish :
    (ℕ → Bool) → Db → Result DbError Ending × Session → Result DbError Bool × Session
finish faults before (err e, s) = (err e, record s { db = before })
finish faults before (ok (rollback b), s) = (ok b, record s { db = before })
finish faults before (ok (commit b), s) =
    if faults s.calls
    then (err failed, record { db = before; calls = suc s.calls })
    else (ok b, ticked s)

module _ (faults : ℕ → Bool) where
  -- `DB.Begin`, the code, and `Commit` or `Rollback`. What was not committed leaves no trace, and
  -- the error of a rollback is dropped.
  unfoldable pub in_transaction : Tx Ending → Tx Bool
  in_transaction body s =
      if faults s.calls then (err failed, ticked s) else finish faults s.db (body (ticked s))

  -- The test after MarkEventProcessed: an event that is there already is no error.
  abbrev pub unless_marked : Tx (Unit {0}) → Tx Ending
  unless_marked m s =
      let (r, s') = m s in
      elim r [
        | ok u ↦ (ok (commit true), s')
        | err e ↦ elim e [ already_processed ↦ (ok (rollback false), s') | other ↦ (err other, s') ]
      ]

  -- What processTrade and processOrderEvent have in common
  unfoldable pub process_once : Text → ℕ → Tx (Unit {0}) → Tx Bool
  process_once group id work = in_transaction (do
    processed ← is_event_processed faults group id
    if processed
        then pure (commit false)
        else work >> unless_marked (mark_event_processed faults group id))

  -- The locks that PortfolioService.ApplyTrade takes. It compares the ids as texts of fixed length,
  -- which order as the numbers.
  unfoldable pub lock_accounts : ℕ → ℕ → Tx (Unit {0})
  lock_accounts buyer seller =
      if buyer == seller
      then lock_account faults buyer
      else if ltb buyer seller
      then lock_account faults buyer >> lock_account faults seller
      else lock_account faults seller >> lock_account faults buyer

  -- PortfolioService.ApplyTrade
  unfoldable pub apply_trade : Trade → Tx (Unit {0})
  apply_trade trade =
      lock_accounts trade.buyer_user_id trade.seller_user_id
      >> (apply_buyer_trade faults trade >> apply_seller_trade faults trade)

  -- UPDATE users of ReleaseOrderReservation
  unfoldable pub release_balance : ℕ → ℤ → Tx (Unit {0})
  release_balance id amount = exec faults (λ db. elim (db.users id) [
    | none ↦ none
    | some u ↦
        if leb_ℤ amount u.reserved_balance
        then some (write_user id (record u { reserved_balance = u.reserved_balance -ℤ amount }) db)
        else none
  ])

  -- UPDATE positions of ReleaseOrderReservation
  unfoldable pub release_quantity : ℕ → Text → ℤ → Tx (Unit {0})
  release_quantity id symbol amount = exec faults (λ db. elim (db.positions id symbol) [
    | none ↦ none
    | some p ↦
        if leb_ℤ amount p.reserved_quantity
        then some (
            write_position id symbol
              (record p { reserved_quantity = p.reserved_quantity -ℤ amount }) db)
        else none
  ])

  unfoldable pub release_order_reservation : ℕ → Tx (Unit {0})
  release_order_reservation id = do
    order ← lock_order_reservation faults id
    let amount = order.reserved_amount
    let release =
        if text_eq order.side (codes "BUY")
        then release_balance order.user_id amount
        else release_quantity order.user_id order.symbol amount
    if eqb_ℤ amount (pos 0) then pure tt else release >> set_reserved_amount faults id (pos 0)

  -- PortfolioService.ApplyOrderEvent
  unfoldable pub apply_order_event : OrderEvent → Tx (Unit {0})
  apply_order_event event =
      if not (text_eq event.type (codes "ORDER_CANCELLED"))
      then pure tt
      else lock_account faults event.user_id >> release_order_reservation event.order_id

  unfoldable pub process_trade : Trade → Text → Tx Bool
  process_trade trade group = process_once group trade.id (apply_trade trade)

  unfoldable pub process_order_event : OrderEvent → Text → Tx Bool
  process_order_event event group = process_once group event.id (apply_order_event event)

  -- The rounds of StartTradeConsumer and StartOrderEventConsumer: whether they go on to CommitMessages
  abbrev pub is_ok : {E A : Type 0} → Result E A → Bool
  is_ok (ok a) = true
  is_ok (err e) = false

  unfoldable pub trade_round : Text → Option Trade → Session → Bool × Session
  trade_round group none s = (false, s)
  trade_round group (some trade) s = let (r, s') = process_trade trade group s in (is_ok r, s')

  unfoldable pub order_event_round : Text → Option OrderEvent → Session → Bool × Session
  order_event_round group none s = (false, s)
  order_event_round group (some event) s =
      let (r, s') = process_order_event event (group ++ codes "-order-events") s in (is_ok r, s')
