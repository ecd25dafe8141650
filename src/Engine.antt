-- ===== src/Engine.antt =====
-- services/matching-engine/engine/engine.go: the books by symbol, the orders by id, and the calls
-- that change them. Every call holds the engine's mutex, so the calls are atomic steps. The map
-- of orders and the heaps of the books hold addresses of the same objects. The metrics counters
-- are left out.
pub mod Keys
pub mod Status
pub mod Books
pub mod Cancel
pub mod Recover
pub mod Filling
pub mod Restore
pub mod Settled
use tradesphere.Base.{
  ℕ, zero, suc, ◌+◌, Bool, true, false, not, ◌&&◌, ◌||◌, Option, none, some, List, [], ◌∷◌, ◌++◌,
  map, ltb, ◌==◌, if◌then◌else◌, length, Result, ok, err,
}
use tradesphere.Int.{ℤ, pos, ltb_ℤ, leb_ℤ}
use tradesphere.Text.{Text, text_eq}
use tradesphere.Model.{
  Order, OrderStatus, new, partially_filled, filled, cancelled, Trade, World, Store, is_buy,
  is_cancelled, is_filled, update,
}
use tradesphere.Dict.{Dict, lookup, insert, delete, values, nat_eq}
use tradesphere.OrderBook
use tradesphere.OrderBook.{OrderBook, new_order_book}

-- `next` is an address that no object has yet.
pub record MatchingEngine : Type 0 where
  pub order_books : Dict Text OrderBook
  pub orders : Dict ℕ ℕ
  pub store : Store
  pub next : ℕ

pub record SymbolSnapshot : Type 0 where
  pub symbol : Text
  pub orders : List Order

pub data EngineError : Type 0 where
  order_not_found : EngineError

-- NewMatchingEngine, over the objects of the program
abbrev pub new_matching_engine : Store → ℕ → MatchingEngine
new_matching_engine store next = record {
  order_books = [];
  orders = [];
  store = store;
  next = next;
}

-- What `getOrCreateOrderBook` returns; the caller puts the book back.
abbrev pub get_or_create_order_book : MatchingEngine → Text → OrderBook
get_or_create_order_book me symbol = elim (lookup text_eq symbol me.order_books) [
  | none ↦ new_order_book
  | some ob ↦ ob
]

abbrev pub put_order_book : Text → OrderBook → MatchingEngine → MatchingEngine
put_order_book symbol ob me = record me { order_books = insert text_eq symbol ob me.order_books }

-- A new object, at the address `me.next`
abbrev pub allocate : Order → MatchingEngine → MatchingEngine
allocate order me = record me {
  store = record me.store { cells = update me.store.cells me.next order };
  next = suc me.next;
}

-- updateOrderStatus
unfoldable pub update_order_status : Order → Order
update_order_status order =
    if is_cancelled order.status
    then order
    else if leb_ℤ order.remaining_quantity (pos 0)
    then record order { remaining_quantity = pos 0; status = filled }
    else if ltb_ℤ order.remaining_quantity order.quantity
    then record order { status = partially_filled }
    else record order { status = new }

-- The order with this id among those that changed, if the engine has it
unfoldable pub add_changed : MatchingEngine → (ℕ → Order) → ℕ → Dict ℕ ℕ → Dict ℕ ℕ
add_changed me cells id changed = elim (lookup nat_eq id me.orders) [
  | none ↦ changed
  | some p ↦ insert nat_eq (cells p).id p changed
]

-- The loop over the trades
unfoldable pub changed_by : MatchingEngine → (ℕ → Order) → List Trade → Dict ℕ ℕ → Dict ℕ ℕ
changed_by me cells [] changed = changed
changed_by me cells (t ∷ ts) changed =
    changed_by me cells ts
      (add_changed me cells t.sell_order_id (add_changed me cells t.buy_order_id changed))

-- The loop over the changed orders
unfoldable pub update_statuses : List ℕ → (ℕ → Order) → ℕ → Order
update_statuses [] cells = cells
update_statuses (p ∷ ps) cells = update_statuses ps (update cells p (update_order_status (cells p)))

-- ProcessOrder on the object at `o`: the engine, the trades, and the changed orders. `range` is
-- the order in which Go visits the map of changed orders.
unfoldable pub process_order :
    World → (List ℕ → List ℕ) → ℕ → MatchingEngine → MatchingEngine × List Trade × List ℕ
process_order w range o me =
    let order = me.store.cells o in
    let known = record me { orders = insert nat_eq order.id o me.orders } in
    let ob = get_or_create_order_book known order.symbol in
    let out = OrderBook.process_order w ob o known.store in
    let cells = out.store.cells in
    let changed = changed_by known cells out.trades ((order.id, o) ∷ []) in
    let updated = range (values changed) in
    let st = record out.store { cells = update_statuses updated cells } in
    (record (put_order_book order.symbol out.book known) { store = st }, out.trades, updated)

abbrev pub empty_engine : MatchingEngine → MatchingEngine
empty_engine me = record me { order_books = []; orders = [] }

-- One order that is put back: into the map, and into its book.
abbrev pub register : ℕ → MatchingEngine → MatchingEngine
register o me = record me { orders = insert nat_eq (me.store.cells o).id o me.orders }

abbrev pub rest_order : ℕ → MatchingEngine → MatchingEngine
rest_order o me =
    let symbol = (me.store.cells o).symbol in
    put_order_book symbol
      (OrderBook.restore_order (get_or_create_order_book me symbol) o me.store.cells) me

-- The loop of RestoreOrders over pointers, of which some may be nil, with the count so far
unfoldable pub restore_each : List (Option ℕ) → ℕ → MatchingEngine → MatchingEngine × ℕ
restore_each [] restored me = (me, restored)
restore_each (none ∷ os) restored me = restore_each os restored me
restore_each (some o ∷ os) restored me =
    let skip = leb_ℤ (me.store.cells o).remaining_quantity (pos 0) in
    restore_each os (if skip then restored else suc restored)
      (if skip then me else rest_order o (register o me))

unfoldable pub restore_orders : List (Option ℕ) → MatchingEngine → MatchingEngine × ℕ
restore_orders os me = restore_each os 0 (empty_engine me)

-- GetOrderBookSnapshot, which Clone copies: the objects of the bids and of the asks. Nothing else
-- points to the copies, so their values are enough.
unfoldable pub get_order_book_snapshot : Text → MatchingEngine → Option (List Order × List Order)
get_order_book_snapshot symbol me = elim (lookup text_eq symbol me.order_books) [
  | none ↦ none
  | some ob ↦ some (map me.store.cells ob.buy_orders, map me.store.cells ob.sell_orders)
]

-- The orders with this symbol, copied
unfoldable pub of_symbol : Text → (ℕ → Order) → List ℕ → List Order
of_symbol symbol cells [] = []
of_symbol symbol cells (p ∷ ps) =
    let rest = of_symbol symbol cells ps in
    if not (text_eq (cells p).symbol symbol) then rest else cells p ∷ rest

unfoldable pub snapshot_symbol : (List ℕ → List ℕ) → Text → MatchingEngine → SymbolSnapshot
snapshot_symbol range symbol me = record {
  symbol = symbol;
  orders = of_symbol symbol me.store.cells (range (values me.orders));
}

-- The loop that deletes the orders of a symbol from the map
unfoldable pub without_symbol : Text → (ℕ → Order) → Dict ℕ ℕ → Dict ℕ ℕ
without_symbol symbol cells [] = []
without_symbol symbol cells ((id, p) ∷ d) =
    let rest = without_symbol symbol cells d in
    if text_eq (cells p).symbol symbol then rest else (id, p) ∷ rest

-- The loop of RestoreSymbol over the orders of the snapshot, each copied again
unfoldable pub restore_copies : List Order → MatchingEngine → MatchingEngine
restore_copies [] me = me
restore_copies (order ∷ os) me =
    let o = me.next in
    let known = register o (allocate order me) in
    let rests =
      ltb_ℤ (pos 0) order.remaining_quantity
      && not (is_cancelled order.status)
      && not (is_filled order.status) in
    restore_copies os (if rests then rest_order o known else known)

-- RestoreSymbol on a snapshot that is not nil
unfoldable pub restore_symbol : SymbolSnapshot → MatchingEngine → MatchingEngine
restore_symbol snapshot me = restore_copies snapshot.orders (record me {
  orders = without_symbol snapshot.symbol me.store.cells me.orders;
  order_books = delete text_eq snapshot.symbol me.order_books;
})

abbrev pub set_state : ℤ → OrderStatus → Order → Order
set_state remaining status order = record order { remaining_quantity = remaining; status = status }

abbrev pub write_order : ℕ → Order → MatchingEngine → MatchingEngine
write_order p order me = record me {
  store = record me.store { cells = update me.store.cells p order };
}

-- CancelOrder: what was left and the status before, and the engine. The order stays in its heap.
unfoldable pub cancel_order :
    ℕ → MatchingEngine → Result EngineError (ℤ × OrderStatus) × MatchingEngine
cancel_order id me = elim (lookup nat_eq id me.orders) [
  | none ↦ (err order_not_found, me)
  | some p ↦
      let order = me.store.cells p in
      (
        ok (order.remaining_quantity, order.status),
        write_order p (set_state (pos 0) cancelled order) me,
      )
]

-- RestoreOrder
unfoldable pub restore_order :
    ℕ → ℤ → OrderStatus → MatchingEngine → Result EngineError (Unit {0}) × MatchingEngine
restore_order id remaining status me = elim (lookup nat_eq id me.orders) [
  | none ↦ (err order_not_found, me)
  | some p ↦ (ok tt, write_order p (set_state remaining status (me.store.cells p)) me)
]
