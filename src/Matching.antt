-- ===== src/Matching.antt =====
-- services/matching-engine/orderbook/orderbook.go: the order of the two heaps, and the loop that
-- matches an incoming order against the opposite heap. The source writes it four times; they differ
-- in the heap and in the test on prices, which are the parameter Rules here. Heaps hold addresses
-- of orders, since the engine's map shares those objects and changes them behind the book's back.
pub mod Priority
pub mod Step
pub mod Execution
pub mod Loop
pub mod Fills
pub mod Trades
pub mod Reference
pub mod Listed
pub mod Simulation
use tradesphere.Base.{
  ℕ, zero, suc, ◌+◌, Bool, false, not, ◌&&◌, List, [], ◌∷◌, ◌++◌, ltb, if◌then◌else◌, length,
}
use tradesphere.Int.{ℤ, pos, ltb_ℤ, leb_ℤ, eqb_ℤ, sub64}
use tradesphere.Model.{Order, Trade, World, Store, is_sell, update}
use tradesphere.Heap.{at, pop}

-- MaxHeap.Less on two orders
abbrev pub max_before : Order → Order → Bool
max_before a b =
    if eqb_ℤ a.price b.price then ltb a.created_at b.created_at else ltb_ℤ b.price a.price

-- MinHeap.Less on two orders
abbrev pub min_before : Order → Order → Bool
min_before a b =
    if eqb_ℤ a.price b.price then ltb a.created_at b.created_at else ltb_ℤ a.price b.price

-- A Less method at two pointers
abbrev pub less_at : (Order → Order → Bool) → (ℕ → Order) → ℕ → ℕ → Bool
less_at before cells i j = before (cells i) (cells j)

-- `min` on Quantity
abbrev pub min_quantity : ℤ → ℤ → ℤ
min_quantity a b = if ltb_ℤ a b then a else b

-- createTrade, at a number of earlier calls of uuid.New and time.Now
abbrev pub create_trade : World → ℕ → Order → Order → ℤ → Trade
create_trade w draws resting incoming qty =
    let buy_order = if is_sell resting.side then incoming else resting in
    let sell_order = if is_sell resting.side then resting else incoming in
    record {
      id = w.new_uuid draws;
      symbol = resting.symbol;
      buyer_user_id = buy_order.user_id;
      seller_user_id = sell_order.user_id;
      buy_order_id = buy_order.id;
      sell_order_id = sell_order.id;
      price = resting.price;
      quantity = qty;
      executed_at = w.now draws;
    }

-- What differs between the four matching loops: the Less of the opposite heap, and the test on
-- prices that breaks off.
pub record Rules : Type 0 where
  pub before : Order → Order → Bool
  pub blocked : Order → Order → Bool

-- The loops of matchBuyMarketOrder, matchSellMarketOrder, matchBuyOrder and matchSellOrder
abbrev pub buy_market_rules : Rules
buy_market_rules = record { before = min_before; blocked = λ order best. false }

abbrev pub sell_market_rules : Rules
sell_market_rules = record { before = max_before; blocked = λ order best. false }

abbrev pub buy_rules : Rules
buy_rules = record { before = min_before; blocked = λ order best. ltb_ℤ order.price best.price }

abbrev pub sell_rules : Rules
sell_rules = record { before = max_before; blocked = λ order best. ltb_ℤ best.price order.price }

-- The variables of a matching loop: the opposite heap, the store and the trades so far.
pub record Matching : Type 0 where
  pub heap : List ℕ
  pub cells : ℕ → Order
  pub draws : ℕ
  pub trades : List Trade

-- `RemainingQuantity -= qty`
abbrev pub reduce : ℤ → Order → Order
reduce qty order = record order { remaining_quantity = sub64 order.remaining_quantity qty }

-- The round that drops a root with nothing left
unfoldable pub dropped : Rules → Matching → Matching
dropped rules s = record s { heap = (pop (less_at rules.before s.cells) s.heap).1 }

-- The quantity of the next trade of the order at `o`
unfoldable pub trade_quantity : ℕ → Matching → ℤ
trade_quantity o s =
    min_quantity (s.cells o).remaining_quantity (s.cells (at s.heap 0)).remaining_quantity

-- The objects after the two subtractions, made in the source's order
unfoldable pub traded_cells : ℕ → Matching → ℕ → Order
traded_cells o s =
    let best = at s.heap 0 in
    let qty = trade_quantity o s in
    let cells = update s.cells o (reduce qty (s.cells o)) in
    update cells best (reduce qty (cells best))

-- The round that trades
unfoldable pub traded : World → Rules → ℕ → Matching → Matching
traded w rules o s =
    let best = at s.heap 0 in
    let cells = traded_cells o s in
    let trade = create_trade w s.draws (s.cells best) (s.cells o) (trade_quantity o s) in
    record {
      heap =
          if eqb_ℤ (cells best).remaining_quantity (pos 0)
          then (pop (less_at rules.before cells) s.heap).1
          else s.heap;
      cells = cells;
      draws = suc s.draws;
      trades = s.trades ++ trade ∷ [];
    }

-- A round either leaves the loop or goes on.
pub data Round : Type 0 where
  stop continue : Matching → Round

unfoldable pub match_round : World → Rules → ℕ → Matching → Round
match_round w rules o s =
    let order = s.cells o in
    let best = s.cells (at s.heap 0) in
    if not (ltb_ℤ (pos 0) order.remaining_quantity && ltb 0 (length s.heap))
    then stop s
    else if rules.blocked order best
    then stop s
    else if leb_ℤ (trade_quantity o s) (pos 0)
    then if leb_ℤ best.remaining_quantity (pos 0) then continue (dropped rules s) else stop s
    else continue (traded w rules o s)

-- The loop; the fuel bounds its rounds.
unfoldable pub match_loop : World → Rules → ℕ → ℕ → Matching → Matching
match_loop w rules o zero s = s
match_loop w rules o (suc fuel) s = elim (match_round w rules o s) [
  | stop s' ↦ s'
  | continue s' ↦ match_loop w rules o fuel s'
]

-- The loop against the opposite heap, from the start
unfoldable pub match_against : World → Rules → ℕ → List ℕ → Store → Matching
match_against w rules o heap st =
    match_loop w rules o (length heap + 2)
      (record { heap = heap; cells = st.cells; draws = st.draws; trades = [] })
