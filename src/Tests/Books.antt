-- ===== src/Tests/Books.antt =====
-- Concrete inputs for money, heaps, books and the engine.
use tradesphere.Base.{map, Option, none}
use tradesphere.OrderBook.Description.{HasNoTiesAgainst, by_priority, trades_by_priority}
use tradesphere.OrderBook.Reference.{process_order-priority_trades}
use tradesphere.OrderBook.{new_order_book}
use tradesphere.Engine.{get_or_create_order_book, restore_orders}
use tradesphere.Engine.Recover.{HasGained, restore_orders-HasGained}
use tradesphere.Base.{
  some, sym, inl, ℕ, ◌+◌, ◌≡◌, ◌↔◌, refl, true, false, List, [], ◌∷◌, ◌==◌, if◌then◌else◌, length,
  ok, All, arith,
}
use tradesphere.Int.{◌-ℤ◌, sub64, wrap64, pos, negsuc, ◌+ℤ◌, ◌*ℤ◌, ◌≤ℤ◌, InInt64}
use tradesphere.Text.{Text, text_eq, codes}
use tradesphere.Model.{Order, Side, buy, sell, OrderType, limit, market, new, World, Store}
use tradesphere.Money.Decimal.{scale, parse_decimal, format_decimal, cost_for}
use tradesphere.Money.RoundTrip.{parse_decimal-format_decimal}
use tradesphere.Money.Multiply.{cost_for_exact}
use tradesphere.Heap.{push, pop, down, up, swap, first_child}
use tradesphere.Heap.Order.{IsStrictWeak, IsHeap}
use tradesphere.Matching.{
  match_loop, trade_quantity, traded, traded_cells, dropped, buy_rules, less_at, min_before,
  match_round, match_against,
}
use tradesphere.Matching.Priority.{min_before-IsPriority, less_at-IsStrictWeak}
use tradesphere.Matching.Step.{IsReady}
use tradesphere.Matching.Loop.{IsDone, start_of, match_against-IsDone}
use tradesphere.Matching.Fills.{total_quantity}
use tradesphere.Matching.Trades.{filled as filled_by, IsFair}
use tradesphere.OrderBook
use tradesphere.Dict.{lookup}
use tradesphere.OrderBook.{OrderBook}
use tradesphere.OrderBook.Invariant.{IsValid, IsNew}
use tradesphere.OrderBook.Rests.{Gains, rests_at, process_order_rests}
use tradesphere.OrderBook.Run.{Accepts}
use tradesphere.OrderBook.Process.{
  process_order-IsValid, process_order-IsFair, process_order_conserves, process_order-market,
  process_order_fills,
}
use tradesphere.Engine.{process_order, MatchingEngine, cancel_order, restore_order}
use tradesphere.Engine.Books.{HasValidBooks, process_order-HasValidBooks}
use tradesphere.Engine.Cancel.{restore_order-cancel_order}

parse_decimal-format_decimal_example :
    parse_decimal (format_decimal (negsuc 149999999)) ≡ ok (negsuc 149999999)
parse_decimal-format_decimal_example =
    parse_decimal-format_decimal (negsuc 149999999) (omega arith, omega arith)

cost_for_exact_example : (cost_for (pos 10025000000) (pos 150000000) ≡ ok (pos 15037500000)) ↔ (
    (pos 15037500000 *ℤ pos scale ≡ pos 10025000000 *ℤ pos 150000000) × InInt64 (pos 15037500000))
cost_for_exact_example = cost_for_exact (pos 10025000000) (pos 150000000) (pos 15037500000)

abbrev order_with : ℕ → Side → OrderType → ℕ → ℕ → ℕ → Order
order_with id side type price quantity time = record {
  id = id;
  user_id = 100 + id;
  symbol = codes "ABC";
  side = side;
  type = type;
  price = pos price;
  quantity = pos quantity;
  remaining_quantity = pos quantity;
  reserved_amount = pos 0;
  status = new;
  created_at = time;
}

-- At 1 and 2 two asks, at 3 a bid, at 0 an order that buys and at 4 a market order.
abbrev pub cells : ℕ → Order
cells p =
    if p == 0
    then order_with 10 buy limit 101 7 9
    else if p == 1
    then order_with 11 sell limit 100 5 1
    else if p == 2
    then order_with 12 sell limit 101 4 2
    else if p == 3
    then order_with 13 buy limit 90 6 3
    else order_with 14 buy market 1 12 4

abbrev pub store : Store
store = record { cells = cells; draws = 0 }

abbrev pub world : World
world = record { new_uuid = λ n. 1000 + n; now = λ n. 2000 + n }

abbrev asks : List ℕ
asks = 1 ∷ 2 ∷ []

abbrev pub book : OrderBook
book = record { buy_orders = 3 ∷ []; sell_orders = asks }

abbrev asks_first : IsStrictWeak (less_at min_before cells)
asks_first = less_at-IsStrictWeak min_before-IsPriority cells

asks-IsHeap : IsHeap (less_at min_before cells) asks
asks-IsHeap c p q = ground arith

pub cells-ranged : (p : ℕ) → InInt64 (cells p).remaining_quantity
cells-ranged p = ground arith

book-IsValid : IsValid book cells
book-IsValid = record {
  bids = λ c p q. absurd (omega arith);
  asks = asks-IsHeap;
  ranged = cells-ranged;
  uncrossed = λ b a hb ha lb la. ground arith;
}

zero-IsNew : IsNew book 0
zero-IsNew = record { no_bid = refl; no_ask = refl }

four-IsNew : IsNew book 4
four-IsNew = record { no_bid = refl; no_ask = refl }

asks-IsReady : IsReady buy_rules 0 (start_of asks store)
asks-IsReady = record { ordered = asks-IsHeap; apart = refl; ranged = cells-ranged }

match_against-IsDone_example :
    IsDone world buy_rules 0 (start_of asks store) (match_against world buy_rules 0 asks store)
match_against-IsDone_example =
    match_against-IsDone world min_before-IsPriority 0 asks store asks-IsReady

process_order-IsValid_example :
    IsValid
      (OrderBook.process_order world book 0 store).book
      (OrderBook.process_order world book 0 store).store.cells
process_order-IsValid_example =
    process_order-IsValid world book 0 store book-IsValid zero-IsNew (cells-ranged 0)

process_order_rests_example :
    let out = OrderBook.process_order world book 0 store in
    Gains 0 (rests_at 0 out.store.cells 0) 0 book out.book
process_order_rests_example =
    process_order_rests world book 0 store book-IsValid zero-IsNew (cells-ranged 0) 0 (inl refl)

process_order-IsFair_example :
    All (IsFair (Accepts false true) (pos 101)) (OrderBook.process_order world book 0 store).trades
process_order-IsFair_example =
    process_order-IsFair world book 0 store book-IsValid zero-IsNew (cells-ranged 0)

process_order_conserves_example :
    total_quantity (OrderBook.process_order world book 0 store).trades
      +ℤ ((OrderBook.process_order world book 0 store).store.cells 0).remaining_quantity
    ≡ pos 7
process_order_conserves_example =
    process_order_conserves world book 0 store book-IsValid zero-IsNew (cells-ranged 0) refl

process_order-market_example :
    (total_quantity (OrderBook.process_order world book 4 store).trades ≤ℤ pos 12)
    × (((OrderBook.process_order world book 4 store).store.cells 4).remaining_quantity ≡ pos 0)
process_order-market_example =
    process_order-market world book 4 store book-IsValid four-IsNew (cells-ranged 4) refl
      (omega arith)

process_order_fills_example :
    ((OrderBook.process_order world book 0 store).store.cells 1).remaining_quantity
      +ℤ filled_by 11 (OrderBook.process_order world book 0 store).trades
    ≡ pos 5
process_order_fills_example =
    process_order_fills world book 0 store book-IsValid zero-IsNew (cells-ranged 0) 1 (omega arith)
      (omega arith) (λ q h e. ground arith)

abbrev pub engine : MatchingEngine
engine = record {
  order_books = (codes "ABC", book) ∷ [];
  orders = (11, 1) ∷ (12, 2) ∷ (13, 3) ∷ [];
  store = store;
  next = 5;
}

cancelled_twelve : (cancel_order 12 engine).0 ≡ ok (pos 4, new)
unfolding cancel_order
cancelled_twelve = refl

restore_order-cancel_order_example :
    let (r, me') = restore_order 12 (pos 4) new (cancel_order 12 engine).1 in
    (r ≡ ok tt)
    × (me'.orders ≡ engine.orders)
    × (me'.order_books ≡ engine.order_books)
    × ((p : ℕ) → me'.store.cells p ≡ cells p)
restore_order-cancel_order_example = restore_order-cancel_order 12 engine cancelled_twelve

pub only_book :
    (symbol : Text) (ob : OrderBook)
    → lookup text_eq symbol engine.order_books ≡ some ob
    → book ≡ ob
only_book symbol ob found = ground arith

pub engine-HasValidBooks : HasValidBooks engine
engine-HasValidBooks = record {
  ranged = cells-ranged;
  valid = λ symbol ob found. rw (sym (only_book symbol ob found)) book-IsValid;
}

process_order-HasValidBooks_example : HasValidBooks (process_order world (λ ps. ps) 0 engine).0
process_order-HasValidBooks_example =
    process_order-HasValidBooks world (λ ps. ps) 0 engine engine-HasValidBooks
      (λ symbol ob found. rw (sym (only_book symbol ob found)) zero-IsNew) (cells-ranged 0)

-- The order that buys trades 5 at 100 and then 2 at 101, and the ask at 2 keeps the rest.
run-book :
    let out = OrderBook.process_order world book 0 store in
    (total_quantity out.trades ≡ pos 7)
    × (length out.trades ≡ 2)
    × (out.book.sell_orders ≡ 2 ∷ [])
    × ((out.store.cells 2).remaining_quantity ≡ pos 2)
unfolding OrderBook.process_order OrderBook.match_buy_order match_against match_loop match_round
    trade_quantity traded traded_cells dropped pop push down up swap first_child ◌+ℤ◌ ◌-ℤ◌ sub64
    wrap64
run-book = (refl, refl, refl, refl)

asks-HasNoTies : HasNoTiesAgainst book (cells 0) cells
asks-HasNoTies = record { once = λ p. ground arith; apart = λ p q m n a b. ground arith }

process_order-priority_trades_example :
    (OrderBook.process_order world book 0 store).trades
    ≡ trades_by_priority world (cells 0) (pos 7) 0 (map cells (by_priority book (cells 0) cells))
process_order-priority_trades_example =
    process_order-priority_trades world book 0 store book-IsValid zero-IsNew (cells-ranged 0)
      asks-HasNoTies

abbrev pointers : List (Option ℕ)
pointers = some 2 ∷ none ∷ some 3 ∷ some 1 ∷ []

restore_orders-HasGained_example :
    HasGained cells
      (codes "ABC")
      pointers
      new_order_book
      (get_or_create_order_book (restore_orders pointers engine).0 (codes "ABC"))
    × ((restore_orders pointers engine).0.store ≡ store)
restore_orders-HasGained_example = restore_orders-HasGained (codes "ABC") pointers engine
