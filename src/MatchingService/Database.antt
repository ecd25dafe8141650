-- ===== src/MatchingService/Database.antt =====
-- services/matching-engine/database/db.go: the tables and the statements. A statement that breaks a
-- constraint of infra/postgres/init.sql fails, and any call may fail besides. The users that orders
-- refer to are left out: no statement here touches them. json.Marshal is a parameter. A payload is kept
-- as its text; JSONB keeps the document but not its spelling.
use tradesphere.Base.{
  ℕ, Bool, true, false, not, ◌&&◌, ◌||◌, Option, none, some, List, [], ◌∷◌, ◌++◌, ◌==◌,
  if◌then◌else◌, Result, ok, err,
}
use tradesphere.Int.{ℤ, pos, ltb_ℤ, leb_ℤ, max_int64}
use tradesphere.Text.{Text, codes, text_eq}
use tradesphere.Model.{
  Order, OrderStatus, new, partially_filled, cancelled, other_status, other_type, limit, Trade,
  OrderEvent, OrderEventType, order_update, order_cancelled,
}
use tradesphere.Dict.{Dict, lookup, insert, nat_eq}
use tradesphere.Sql
use tradesphere.Sql.{◌>>=◌, ◌>>◌, pure, raise, ticked, undone}

-- A row of trade_outbox; OutboxEvent has its first four columns and the attempts.
pub record OutboxEvent : Type 0 where
  pub id : ℕ
  pub topic : Text
  pub event_key : Text
  pub payload : Text
  pub created_at : ℕ
  pub published_at : Option ℕ
  pub publish_attempts : ℕ
  pub next_attempt_at : ℕ
  pub claimed_by : Option Text
  pub claimed_at : Option ℕ
  pub last_error : Option Text

pub record Tables : Type 0 where
  pub trades : List Trade
  pub orders : Dict ℕ Order
  pub trade_outbox : List OutboxEvent
  pub processed_events : Text → ℕ → Bool

pub data DbError : Type 0 where
  failed no_rows already_processed not_encoded nil_order : DbError

abbrev pub Session : Type 0
Session = Sql.Session Tables

abbrev pub Tx : Type 0 → Type 0
Tx A = Sql.Act Tables DbError A

-- What the service meets, by the number of calls of the database made before: whether a call fails,
-- NOW() in it, time.Now and uuid.New before it; and json.Marshal of a trade and of an event.
pub record Host : Type 0 where
  pub faults : ℕ → Bool
  pub clock : ℕ → ℕ
  pub now : ℕ → ℕ
  pub new_uuid : ℕ → ℕ
  pub marshal_trade : Trade → Option Text
  pub marshal_event : OrderEvent → Option Text

-- A BIGINT above zero, and one with a CHECK of zero or more
abbrev pub is_positive : ℤ → Bool
is_positive z = ltb_ℤ (pos 0) z && leb_ℤ z max_int64

abbrev pub fits : ℤ → Bool
fits z = leb_ℤ (pos 0) z && leb_ℤ z max_int64

-- orders_status_valid
abbrev pub is_valid_status : OrderStatus → Bool
is_valid_status (other_status t) = false
is_valid_status _ = true

abbrev pub has_trade : ℕ → List Trade → Bool
has_trade id [] = false
has_trade id (t ∷ ts) = t.id == id || has_trade id ts

abbrev pub has_event : ℕ → List OutboxEvent → Bool
has_event id [] = false
has_event id (e ∷ es) = e.id == id || has_event id es

abbrev pub has_order : ℕ → Dict ℕ Order → Bool
has_order id orders = elim (lookup nat_eq id orders) [ none ↦ false | some o ↦ true ]

-- A new row of trade_outbox
abbrev pub new_event : ℕ → Text → Text → Text → ℕ → ℕ → OutboxEvent
new_event id topic key payload created clock = record {
  id = id;
  topic = topic;
  event_key = key;
  payload = payload;
  created_at = created;
  published_at = none;
  publish_attempts = 0;
  next_attempt_at = clock;
  claimed_by = none;
  claimed_at = none;
  last_error = none;
}

-- normalizeOrderStatus
abbrev pub normalize_order_status : OrderStatus → OrderStatus
normalize_order_status (other_status t) =
    if text_eq t (codes "PARTIAL")
    then partially_filled
    else if text_eq t (codes "CANCELED")
    then cancelled
    else if text_eq t (codes "OPEN")
    then new
    else other_status t
normalize_order_status s = s

-- A row as the queries return it
abbrev pub scanned : Order → Order
scanned row = record row { type = limit; status = normalize_order_status row.status }

module _ (h : Host) where
  abbrev query : {A : Type 0} → (Tables → Result DbError A) → Tx A
  query = Sql.query failed h.faults

  abbrev exec : (Tables → Result DbError Tables) → Tx (Unit {0})
  exec = Sql.exec failed h.faults

  -- INSERT INTO trades
  unfoldable pub insert_trade : Trade → Tx (Unit {0})
  insert_trade t = exec (λ db.
      if not (has_trade t.id db.trades)
        && is_positive t.price
        && is_positive t.quantity
        && has_order t.buy_order_id db.orders
        && has_order t.sell_order_id db.orders
      then ok (record db { trades = db.trades ++ t ∷ [] })
      else err failed)

  -- enqueueOutboxEvent
  unfoldable pub enqueue_outbox_event : ℕ → Text → Text → Text → Tx (Unit {0})
  enqueue_outbox_event id topic key payload s =
      exec
        (λ db.
          if has_event id db.trade_outbox
          then err failed
          else ok (record db {
            trade_outbox =
                db.trade_outbox
                ++ new_event id topic key payload (h.now s.calls) (h.clock s.calls) ∷ [];
          }))
        s

  -- UPDATE orders SET remaining_quantity, status
  unfoldable pub update_order_state : Order → Tx (Unit {0})
  update_order_state o = exec (λ db. elim (lookup nat_eq o.id db.orders) [
    | none ↦ ok db
    | some row ↦
        if fits o.remaining_quantity && is_valid_status o.status
        then ok (record db {
          orders =
              insert nat_eq o.id
                (record row { remaining_quantity = o.remaining_quantity; status = o.status })
                db.orders;
        })
        else err failed
  ])

  -- json.Marshal
  abbrev pub encoded : Option Text → Tx Text
  encoded none s = (err not_encoded, s)
  encoded (some t) s = (ok t, s)

  -- The OrderEvent of an order, with uuid.New and time.Now
  abbrev pub event_of : OrderEventType → Order → Session → OrderEvent
  event_of type o s = record {
    id = h.new_uuid s.calls;
    type = type;
    order_id = o.id;
    user_id = o.user_id;
    symbol = o.symbol;
    side = o.side;
    status = o.status;
    remaining_quantity = o.remaining_quantity;
    reserved_amount = o.reserved_amount;
    created_at = h.now s.calls;
  }

  -- From uuid.New to enqueueOutboxEvent, for an order
  unfoldable pub enqueue_order_event : OrderEventType → Order → Tx (Unit {0})
  enqueue_order_event type o s =
      let event = event_of type o s in
      (encoded (h.marshal_event event) >>= λ payload.
      enqueue_outbox_event event.id (codes "order-events") o.symbol payload)
        s

  -- The rounds of the two loops of PersistMatchResultsTx
  unfoldable pub persist_trade : Trade → Tx (Unit {0})
  persist_trade t = do
    payload ← encoded (h.marshal_trade t)
    insert_trade t
    enqueue_outbox_event t.id (codes "trades") t.symbol payload

  unfoldable pub persist_order : Order → Tx (Unit {0})
  persist_order o = update_order_state o >> enqueue_order_event order_update o

  unfoldable pub persist_trades : List Trade → Tx (Unit {0})
  persist_trades [] = pure tt
  persist_trades (t ∷ ts) = persist_trade t >> persist_trades ts

  unfoldable pub persist_orders : List Order → Tx (Unit {0})
  persist_orders [] = pure tt
  persist_orders (o ∷ os) = persist_order o >> persist_orders os

  -- PersistMatchResultsTx
  unfoldable pub persist_match_results : List Trade → List Order → Tx (Unit {0})
  persist_match_results ts os = persist_trades ts >> persist_orders os

  -- PersistCancelledOrderTx, on a pointer that may be nil
  unfoldable pub persist_cancelled_order : Option Order → Tx (Unit {0})
  persist_cancelled_order none = raise nil_order
  persist_cancelled_order (some o) = update_order_state o >> enqueue_order_event order_cancelled o

  unfoldable pub is_event_processed : Text → ℕ → Tx Bool
  is_event_processed group id = query (λ db. ok (db.processed_events group id))

  -- INSERT … ON CONFLICT DO NOTHING: no row changes if the event is there.
  unfoldable pub mark_event_processed : Text → ℕ → Tx (Unit {0})
  mark_event_processed group id = exec (λ db.
      if db.processed_events group id
      then err already_processed
      else ok (record db {
        processed_events = λ g i. (text_eq group g && id == i) || db.processed_events g i;
      }))

  -- The end of a transaction: its error, or `Commit`
  abbrev close : Tables → Result DbError (Unit {0}) × Session → Result DbError (Unit {0}) × Session
  close before (err e, s) = (err e, undone before s)
  close before (ok u, s) = Sql.commit failed h.faults before u s

  -- PersistMatchResults and PersistCancelledOrder, with a transaction of their own
  unfoldable pub alone : Tx (Unit {0}) → Tx (Unit {0})
  alone body s = if h.faults s.calls then (err failed, ticked s) else close s.db (body (ticked s))

  unfoldable pub persist_match_results_alone : List Trade → List Order → Tx (Unit {0})
  persist_match_results_alone ts os = alone (persist_match_results ts os)

  unfoldable pub persist_cancelled_order_alone : Option Order → Tx (Unit {0})
  persist_cancelled_order_alone order = alone (persist_cancelled_order order)

  -- GetOrder, which leaves the type empty
  unfoldable pub get_order_by_id : ℕ → Tx Order
  get_order_by_id id = query (λ db. elim (lookup nat_eq id db.orders) [
    | none ↦ err no_rows
    | some row ↦
        ok (record row { type = other_type []; status = normalize_order_status row.status })
  ])

  -- GetOrderForUpdate
  unfoldable pub get_order_for_update : ℕ → Tx Order
  get_order_for_update id =
      query (λ db. elim (lookup nat_eq id db.orders) [
        | none ↦ err no_rows
        | some row ↦ ok (scanned row)
      ])
