-- ===== src/OrderBook/Description.antt =====
-- Matching by prices and times alone: the resting orders of the other side in the order of priority, from
-- which an order takes what it wants, one after the other.
use tradesphere.Base.{ℕ, suc, Bool, not, ◌&&◌, ◌||◌, List, [], ◌∷◌, ltb, if◌then◌else◌}
use tradesphere.Int.{ℤ, pos, ◌-ℤ◌, ltb_ℤ, leb_ℤ, eqb_ℤ}
use tradesphere.Model.{Order, Trade, World, is_buy, is_sell, is_market}
use tradesphere.Matching.Listed.{HasNoTies}
use tradesphere.OrderBook.{OrderBook}
use tradesphere.OrderBook.Run.{opposite}
use tradesphere.Query.{order_by}

-- Does a resting order come before another, for an order that buys, or for one that sells? The cheaper
-- one does, or the dearer one, and of two at one price the older one.
abbrev pub comes_first : Bool → Order → Order → Bool
comes_first buys a b =
    (if buys then ltb_ℤ a.price b.price else ltb_ℤ b.price a.price)
    || (eqb_ℤ a.price b.price && ltb a.created_at b.created_at)

-- Is the price of a resting order out of reach for an order? None is for a market order.
abbrev pub out_of_reach : Order → Order → Bool
out_of_reach order r =
    not (is_market order.type)
    && (if is_buy order.side then ltb_ℤ order.price r.price else ltb_ℤ r.price order.price)

-- A trade between two orders, on the terms of the resting one
abbrev pub trade_between : World → ℕ → Order → Order → Order → ℤ → Trade
trade_between w n buyer seller r quantity = record {
  id = w.new_uuid n;
  symbol = r.symbol;
  buyer_user_id = buyer.user_id;
  seller_user_id = seller.user_id;
  buy_order_id = buyer.id;
  sell_order_id = seller.id;
  price = r.price;
  quantity = quantity;
  executed_at = w.now n;
}

-- The trade of an order with a resting order, which sells if its side is SELL and else buys
abbrev pub trade_with : World → ℕ → Order → Order → ℤ → Trade
trade_with w n r order quantity =
    if is_sell r.side
    then trade_between w n order r r quantity
    else trade_between w n r order r quantity

-- The trades of an order that wants some quantity with resting orders in the order of priority
unfoldable pub trades_by_priority : World → Order → ℤ → ℕ → List Order → List Trade
trades_by_priority w order wants n [] = []
trades_by_priority w order wants n (r ∷ rs) =
    let quantity = if ltb_ℤ wants r.remaining_quantity then wants else r.remaining_quantity in
    let passed = trades_by_priority w order wants n rs in
    let rest = trades_by_priority w order (wants -ℤ quantity) (suc n) rs in
    if leb_ℤ wants (pos 0) || out_of_reach order r
    then []
    else if leb_ℤ r.remaining_quantity (pos 0)
    then passed
    else trade_with w n r order quantity ∷ rest

-- The other side of the book, best orders first
abbrev pub by_priority : OrderBook → Order → (ℕ → Order) → List ℕ
by_priority ob order cells =
    let buys = is_buy order.side in
    order_by (λ p q. comes_first buys (cells p) (cells q)) (opposite buys ob)

-- Its orders tie in price and time nowhere.
abbrev pub HasNoTiesAgainst : OrderBook → Order → (ℕ → Order) → Type 0
HasNoTiesAgainst ob order cells =
    let buys = is_buy order.side in
    HasNoTies (λ p q. comes_first buys (cells p) (cells q)) (opposite buys ob)
