-- ===== src/Tests/Services.antt =====
-- Concrete inputs for the portfolio service.
use tradesphere.Base.{List, ◌∷◌, ◌||◌, ◌++◌, ◌⊎◌, suc, ◌+◌, length}
use tradesphere.Kafka.{consume}
use tradesphere.Portfolio.Consumer.{trade_round}
use tradesphere.Portfolio.Ledger.{
  ledger_of, post_all, applied, consumed, IsFresh, occurs, consume_refines, consume_acknowledged,
}
use tradesphere.Base.{
  ℕ, ◌≡◌, ◌≢◌, refl, inr, Bool, true, false, ◌&&◌, [], Option, none, some, ◌==◌, if◌then◌else◌, ok,
  arith,
}
use tradesphere.Int.{ℤ, pos, ◌+ℤ◌, ◌-ℤ◌, ◌*ℤ◌, sub64, wrap64}
use tradesphere.Text.{Text, codes, text_eq}
use tradesphere.Model.{Trade}
use tradesphere.Money.Decimal.{cost_for, multiply_scaled}
use tradesphere.Portfolio.Database.{
  OrderReservation, Db, Session, is_event_processed, mark_event_processed, lock_account,
  lock_order_reservation, set_reserved_amount, debit_user, credit_user, add_position, take_position,
  apply_buyer_trade, apply_seller_trade,
}
use tradesphere.Portfolio.Consumer.{
  release_order_reservation, release_balance, release_quantity, in_transaction, process_once,
  lock_accounts, apply_trade, process_trade,
}
use tradesphere.Portfolio.Atomic.{process_once_atomic}
use tradesphere.Portfolio.Settlement.{
  balance_of, quantity_of, settled_balance, settled_quantity, process_trade_settles,
}
use tradesphere.Portfolio.Handlers.{
  ReserveRequest, reserve_handler, reserve_buy, reserve_sell, reserve_balance, reserve_quantity,
}
use tradesphere.Portfolio.Cover.{IsCovered, reserve_handler-IsCovered}
use tradesphere.Portfolio.Effect.{release_order_reservation_buy, reserved_of, reserve_buy_reserves}

-- User 1 buys of user 2 two units at 50.
abbrev trade : Trade
trade = record {
  id = 900;
  symbol = codes "ABC";
  buyer_user_id = 1;
  seller_user_id = 2;
  buy_order_id = 10;
  sell_order_id = 11;
  price = pos 5000000000;
  quantity = pos 200000000;
  executed_at = 5;
}

abbrev db : Db
db = record {
  users = λ id.
      if id == 1
      then some (record { balance = pos 20000000000; reserved_balance = pos 10000000000 })
      else if id == 2
      then some (record { balance = pos 0; reserved_balance = pos 0 })
      else none;
  positions = λ id symbol.
      if id == 2 && text_eq symbol (codes "ABC")
      then some (record { quantity = pos 300000000; reserved_quantity = pos 200000000 })
      else none;
  orders = λ id.
      if id == 10
      then some (record {
        user_id = 1;
        symbol = codes "ABC";
        side = codes "BUY";
        price = pos 5000000000;
        remaining_quantity = pos 0;
        reserved_amount = pos 10000000000;
      })
      else if id == 11
      then some (record {
        user_id = 2;
        symbol = codes "ABC";
        side = codes "SELL";
        price = pos 5000000000;
        remaining_quantity = pos 0;
        reserved_amount = pos 200000000;
      })
      else none;
  processed_events = λ group id. false;
}

abbrev session : Session
session = record { db = db; calls = 0 }

abbrev no_faults : ℕ → Bool
no_faults n = false

-- The 8th call fails.
abbrev late_fault : ℕ → Bool
late_fault n = n == 7

abbrev group : Text
group = codes "portfolio"

trade_done : (process_trade no_faults trade group session).0 ≡ ok true
unfolding process_trade process_once in_transaction is_event_processed mark_event_processed
    apply_trade lock_accounts lock_account lock_order_reservation set_reserved_amount debit_user
    credit_user add_position take_position apply_buyer_trade apply_seller_trade cost_for
    multiply_scaled ◌*ℤ◌ sub64 wrap64 ◌+ℤ◌ ◌-ℤ◌
trade_done = refl

trade_fails : (process_once late_fault group 900 (apply_trade late_fault trade) session).0 ≢ ok true
unfolding process_once in_transaction is_event_processed mark_event_processed apply_trade
    lock_accounts lock_account lock_order_reservation set_reserved_amount debit_user credit_user
    add_position take_position apply_buyer_trade apply_seller_trade cost_for multiply_scaled ◌*ℤ◌
    sub64 wrap64 ◌+ℤ◌ ◌-ℤ◌
trade_fails h = cc

process_once_atomic_example :
    (process_once late_fault group 900 (apply_trade late_fault trade) session).1.db ≡ db
process_once_atomic_example =
    process_once_atomic late_fault group 900 (apply_trade late_fault trade) session trade_fails

once_done : (process_once no_faults group 900 (apply_trade no_faults trade) session).0 ≡ ok true
unfolding process_trade
once_done = trade_done

process_trade_settles_example :
    let after = (process_trade no_faults trade group session).1.db in
    (total : ℤ) × (cost_for (pos 5000000000) (pos 200000000) ≡ ok total)
    × ((u : ℕ) → balance_of u after ≡ settled_balance trade total u db)
    × ((u : ℕ) (symbol : Text) → quantity_of u symbol after ≡ settled_quantity trade u symbol db)
process_trade_settles_example = process_trade_settles no_faults trade group session trade_done

abbrev request : ReserveRequest
request = record {
  order_id = [];
  user_id = codes "1";
  symbol = codes "ABC";
  side = codes "BUY";
  price = pos 5000000000;
  quantity = pos 200000000;
  reserved_amount = pos 0;
}

abbrev parse_one : Text → Option ℕ
parse_one t = if text_eq t (codes "1") then some 1 else none

db-IsCovered : IsCovered db
db-IsCovered = (λ id. ground arith, λ id symbol. ground arith)

reserve_handler-IsCovered_example :
    IsCovered (reserve_handler no_faults (λ t. t) parse_one true (some request) session).1.db
reserve_handler-IsCovered_example =
    reserve_handler-IsCovered no_faults (λ t. t) parse_one true (some request) session db-IsCovered

request_cost : cost_for (pos 5000000000) (pos 200000000) ≡ ok (pos 10000000000)
unfolding cost_for multiply_scaled ◌*ℤ◌
request_cost = refl

bought : (reserve_buy no_faults 1 request session).0 ≡ ok tt
unfolding reserve_buy reserve_balance cost_for multiply_scaled ◌*ℤ◌ sub64 wrap64 ◌+ℤ◌ ◌-ℤ◌
bought = refl

reserve_buy_reserves_example :
    reserved_of 1 (reserve_buy no_faults 1 request session).1.db
    ≡ pos 10000000000 +ℤ pos 10000000000
reserve_buy_reserves_example =
    reserve_buy_reserves no_faults 1 request (pos 10000000000) session
      (inr (omega arith, request_cost)) bought 1

abbrev sale : ReserveRequest
sale = record request { side = codes "SELL"; quantity = pos 100000000 }

sold : (reserve_sell no_faults 2 sale session).0 ≡ ok tt
unfolding reserve_sell reserve_quantity sub64 wrap64 ◌+ℤ◌ ◌-ℤ◌
sold = refl

abbrev bid : OrderReservation
bid = record {
  user_id = 1;
  symbol = codes "ABC";
  side = codes "BUY";
  price = pos 5000000000;
  remaining_quantity = pos 0;
  reserved_amount = pos 10000000000;
}

abbrev ask : OrderReservation
ask = record {
  user_id = 2;
  symbol = codes "ABC";
  side = codes "SELL";
  price = pos 5000000000;
  remaining_quantity = pos 0;
  reserved_amount = pos 200000000;
}

released :
    ((release_order_reservation no_faults 10 session).0 ≡ ok tt)
    × ((release_order_reservation no_faults 11 session).0 ≡ ok tt)
unfolding release_order_reservation lock_order_reservation release_balance release_quantity
    set_reserved_amount ◌-ℤ◌
released = (refl, refl)

release_order_reservation_buy_example :
    let after = (release_order_reservation no_faults 10 session).1.db in
    (reserved_of 1 after ≡ pos 10000000000 -ℤ pos 10000000000)
    × (after.orders 10 ≡ some (record bid { reserved_amount = pos 0 }))
release_order_reservation_buy_example =
    release_order_reservation_buy no_faults 10 bid session refl refl released.0

abbrev always : ℕ → Bool
always n = true

-- A message that does not decode, and the same trade twice
abbrev deliveries : List (Option Trade)
deliveries = none ∷ some trade ∷ some trade ∷ []

consume_refines_example :
    (ledger_of (consumed no_faults group always deliveries session 0 0).db
      ≡ post_all (applied no_faults group deliveries session) (ledger_of db))
    × IsFresh (db.processed_events group) (applied no_faults group deliveries session)
    × ((i : ℕ)
        → (consumed no_faults group always deliveries session 0 0).db.processed_events group i
          ≡ (occurs i (applied no_faults group deliveries session) || db.processed_events group i))
consume_refines_example = consume_refines no_faults group always deliveries session 0 0

consume_acknowledged_example :
    let (after, offset) = consume (trade_round no_faults group) always 0 deliveries session 0 in
    (offset ≡ 0)
    ⊎ ((before later : List (Option Trade)) × (t : Trade) × (deliveries ≡ before ++ some t ∷ later)
        × (offset ≡ suc (0 + length before))
        × (after.db.processed_events group t.id ≡ true))
consume_acknowledged_example = consume_acknowledged no_faults group always deliveries session 0 0
