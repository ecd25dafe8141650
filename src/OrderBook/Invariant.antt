-- ===== src/OrderBook/Invariant.antt =====
-- The invariant of an order book, and lemmas on it.
use tradesphere.Base.{ℕ, ◌<◌, ◌≡◌, ◌⊎◌, inl, inr, ap, Bool, List, arith}
use tradesphere.Int.{pos, ◌<ℤ◌, InInt64}
use tradesphere.Model.{Order}
use tradesphere.Heap.Slice.{count, index_of_count}
use tradesphere.Heap.Order.{IsHeap, root_first}
use tradesphere.Matching.{Matching, less_at, max_before, min_before, buy_rules, sell_rules}
use tradesphere.Matching.Priority.{
  IsPriority, SameTerms, less_at-IsStrictWeak, less_at-SameTerms, max_before-IsPriority,
  min_before-IsPriority,
}
use tradesphere.Matching.Step.{IsReady, Finished}
use tradesphere.OrderBook.{OrderBook}

-- Both heaps are ordered, quantities are int64, and no resting bid meets a resting ask.
pub record IsValid (ob : OrderBook) (cells : ℕ → Order) : Type 0 where
  pub bids : IsHeap (less_at max_before cells) ob.buy_orders
  pub asks : IsHeap (less_at min_before cells) ob.sell_orders
  pub ranged : (p : ℕ) → InInt64 (cells p).remaining_quantity
  pub uncrossed :
      (b a : ℕ)
      → 0 < count b ob.buy_orders
      → 0 < count a ob.sell_orders
      → pos 0 <ℤ (cells b).remaining_quantity
      → pos 0 <ℤ (cells a).remaining_quantity
      → (cells b).price <ℤ (cells a).price

-- The order at `o` is not in the book yet.
pub record IsNew (ob : OrderBook) (o : ℕ) : Type 0 where
  pub no_bid : count o ob.buy_orders ≡ 0
  pub no_ask : count o ob.sell_orders ≡ 0

pub IsHeap-SameTerms :
    {before : Order → Order → Bool}
    → IsPriority before
    → (cells cells' : ℕ → Order) (h : List ℕ) → SameTerms cells cells'
    → IsHeap (less_at before cells) h
    → IsHeap (less_at before cells') h
IsHeap-SameTerms v cells cells' h same ordered c p q =
    rw (less_at-SameTerms v cells cells' same) (ordered c p q)

pub same_price :
    (cells cells' : ℕ → Order)
    → SameTerms cells cells'
    → (p : ℕ) → (cells' p).price ≡ (cells p).price
same_price cells cells' same p = ap (λ (r : Order). r.price) (same p)

-- Changing remaining quantities keeps the invariant, if no dead order of the book comes to life.
pub IsValid-SameTerms :
    {ob : OrderBook} (cells cells' : ℕ → Order)
    → IsValid ob cells
    → SameTerms cells cells'
    → ((p : ℕ) → InInt64 (cells' p).remaining_quantity)
    → ((p : ℕ)
        → (0 < count p ob.buy_orders) ⊎ (0 < count p ob.sell_orders)
        → pos 0 <ℤ (cells' p).remaining_quantity
        → pos 0 <ℤ (cells p).remaining_quantity)
    → IsValid ob cells'
IsValid-SameTerms cells cells' v same ranged lives = record {
  bids = IsHeap-SameTerms max_before-IsPriority cells cells' _ same v.bids;
  asks = IsHeap-SameTerms min_before-IsPriority cells cells' _ same v.asks;
  ranged = ranged;
  uncrossed = λ b a hb ha lb la.
      rw (same_price cells cells' same b, same_price cells cells' same a)
        (v.uncrossed b a hb ha (lives b (inl hb) lb) (lives a (inr ha) la));
}

-- When the loop of a buy order ends with something left, all asks that remain are dearer.
pub buy_finished :
    (o : ℕ) (m : Matching)
    → IsReady buy_rules o m
    → Finished buy_rules o m
    → pos 0 <ℤ (m.cells o).remaining_quantity
    → (a : ℕ) → 0 < count a m.heap
    → (m.cells o).price <ℤ (m.cells a).price
buy_finished o m r f rests a h =
    let (i, inside, e) = index_of_count a m.heap h in
    let first =
      root_first (less_at-IsStrictWeak min_before-IsPriority m.cells) m.heap i r.ordered inside in
    ground (arith, rw e at first)

pub sell_finished :
    (o : ℕ) (m : Matching)
    → IsReady sell_rules o m
    → Finished sell_rules o m
    → pos 0 <ℤ (m.cells o).remaining_quantity
    → (b : ℕ) → 0 < count b m.heap
    → (m.cells b).price <ℤ (m.cells o).price
sell_finished o m r f rests b h =
    let (i, inside, e) = index_of_count b m.heap h in
    let first =
      root_first (less_at-IsStrictWeak max_before-IsPriority m.cells) m.heap i r.ordered inside in
    ground (arith, rw e at first)
