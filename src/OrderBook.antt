-- ===== src/OrderBook.antt =====
-- services/matching-engine/orderbook/orderbook.go: the two heaps of a symbol's resting orders, and
-- the matching of an incoming order. The heaps hold addresses of orders in a store, since the
-- engine's map shares those objects and changes them behind the book's back.
pub mod Invariant
pub mod Buy
pub mod Sell
pub mod Run
pub mod Process
pub mod Description
pub mod Reference
pub mod Rests
use tradesphere.Base.{ℕ, ◌&&◌, List, [], map, if◌then◌else◌}
use tradesphere.Int.{ℤ, pos, ltb_ℤ, leb_ℤ}
use tradesphere.Model.{Order, Trade, World, Store, is_buy, is_market, update}
use tradesphere.Heap.{push}
use tradesphere.Matching.{
  less_at, max_before, min_before, Matching, match_against, buy_market_rules, sell_market_rules,
  buy_rules, sell_rules,
}

pub record OrderBook : Type 0 where
  pub buy_orders : List ℕ
  pub sell_orders : List ℕ

abbrev pub new_order_book : OrderBook
new_order_book = record { buy_orders = []; sell_orders = [] }

-- What a call leaves: the book, the objects, and the trades that it returns.
pub record Outcome : Type 0 where
  pub book : OrderBook
  pub store : Store
  pub trades : List Trade

abbrev pub store_of : Matching → Store
store_of m = record { cells = m.cells; draws = m.draws }

unfoldable pub match_buy_market_order : World → OrderBook → ℕ → Store → Outcome
match_buy_market_order w ob o st =
    let m = match_against w buy_market_rules o ob.sell_orders st in
    record { book = record ob { sell_orders = m.heap }; store = store_of m; trades = m.trades }

unfoldable pub match_sell_market_order : World → OrderBook → ℕ → Store → Outcome
match_sell_market_order w ob o st =
    let m = match_against w sell_market_rules o ob.buy_orders st in
    record { book = record ob { buy_orders = m.heap }; store = store_of m; trades = m.trades }

unfoldable pub match_buy_order : World → OrderBook → ℕ → Store → Outcome
match_buy_order w ob o st =
    let m = match_against w buy_rules o ob.sell_orders st in
    let rests = ltb_ℤ (pos 0) (m.cells o).remaining_quantity in
    let buys = if rests then push (less_at max_before m.cells) ob.buy_orders o else ob.buy_orders in
    record {
      book = record { buy_orders = buys; sell_orders = m.heap };
      store = store_of m;
      trades = m.trades;
    }

unfoldable pub match_sell_order : World → OrderBook → ℕ → Store → Outcome
match_sell_order w ob o st =
    let m = match_against w sell_rules o ob.buy_orders st in
    let rests = ltb_ℤ (pos 0) (m.cells o).remaining_quantity in
    let sells =
      if rests then push (less_at min_before m.cells) ob.sell_orders o else ob.sell_orders in
    record {
      book = record { buy_orders = m.heap; sell_orders = sells };
      store = store_of m;
      trades = m.trades;
    }

abbrev pub set_remaining : ℤ → Order → Order
set_remaining q order = record order { remaining_quantity = q }

-- The first test of ProcessOrder: an order that comes with nothing remaining has all of it.
abbrev pub fill_remaining : Order → Order
fill_remaining order =
    if leb_ℤ order.remaining_quantity (pos 0) && ltb_ℤ (pos 0) order.quantity
    then set_remaining order.quantity order
    else order

abbrev pub modify_cell : (Order → Order) → ℕ → Store → Store
modify_cell f o st = record st { cells = update st.cells o (f (st.cells o)) }

unfoldable pub process_order : World → OrderBook → ℕ → Store → Outcome
process_order w ob o st =
    let started = modify_cell fill_remaining o st in
    let order = started.cells o in
    let market =
      if is_buy order.side
      then match_buy_market_order w ob o started
      else match_sell_market_order w ob o started in
    if is_market order.type
    then record market { store = modify_cell (set_remaining (pos 0)) o market.store }
    else if is_buy order.side
    then match_buy_order w ob o started
    else match_sell_order w ob o started

-- RestoreOrder on a pointer that is not nil
unfoldable pub restore_order : OrderBook → ℕ → (ℕ → Order) → OrderBook
restore_order ob o cells =
    let order = cells o in
    if leb_ℤ order.remaining_quantity (pos 0)
    then ob
    else if is_buy order.side
    then record ob { buy_orders = push (less_at max_before cells) ob.buy_orders o }
    else record ob { sell_orders = push (less_at min_before cells) ob.sell_orders o }

pub record PriceLevel : Type 0 where
  pub price : ℤ
  pub quantity : ℤ

abbrev pub price_level : (ℕ → Order) → ℕ → PriceLevel
price_level cells p = record { price = (cells p).price; quantity = (cells p).remaining_quantity }

-- Snapshot: the bids and the asks
unfoldable pub snapshot : OrderBook → (ℕ → Order) → List PriceLevel × List PriceLevel
snapshot ob cells = (map (price_level cells) ob.buy_orders, map (price_level cells) ob.sell_orders)
