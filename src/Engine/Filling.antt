-- ===== src/Engine/Filling.antt =====
-- services/matching-engine/engine/engine.go: a book that RestoreSymbol fills with copies of orders. Books
-- that it does not touch hold older objects.
use mathlib.Core.List.{Memᴰ}
use tradesphere.Base.{
  ℕ, suc, ◌+◌, ◌<◌, ◌≡◌, inl, inr, Bool, true, false, not, ◌&&◌, Bool-cases, ◌⊎◌, List, ◌==◌,
  if◌then◌else◌, arith,
}
use mathlib.Core.Path.{subst}
use tradesphere.Int.{pos, ltb_ℤ, leb_ℤ, InInt64}
use tradesphere.Model.{Order, is_buy, is_cancelled, is_filled, update, update_self}
use tradesphere.Heap.{at, parent}
use tradesphere.Heap.Slice.{count, count_of_index}
use tradesphere.Heap.Queue.{push_correct}
use tradesphere.Matching.Priority.{
  less_at-IsStrictWeak, max_before-IsPriority, min_before-IsPriority,
}
use tradesphere.OrderBook
use tradesphere.OrderBook.{OrderBook, new_order_book}
use tradesphere.OrderBook.Invariant.{IsValid}
use tradesphere.Engine.Recover.{IsOrdered}

-- The address is in the book.
abbrev pub IsIn : ℕ → OrderBook → Type 0
IsIn p ob = (0 < count p ob.buy_orders) ⊎ (0 < count p ob.sell_orders)

-- The test of RestoreSymbol
abbrev pub is_live : Order → Bool
is_live order =
    ltb_ℤ (pos 0) order.remaining_quantity
    && not (is_cancelled order.status)
    && not (is_filled order.status)

module _ (cells cells' : ℕ → Order) (ob : OrderBook)
    (agree : (p : ℕ) → IsIn p ob → cells' p ≡ cells p) where
  IsOrdered-agree : IsOrdered cells ob → IsOrdered cells' ob
  IsOrdered-agree (v, u) = (
    λ c lt inside.
        rw
          (
            agree (at ob.buy_orders c) (inl (count_of_index ob.buy_orders c inside)),
            agree (at ob.buy_orders (parent c))
                (inl (count_of_index ob.buy_orders (parent c) (omega (arith, lt, inside)))),
          )
          (v c lt inside),
    λ c lt inside.
        rw
          (
            agree (at ob.sell_orders c) (inr (count_of_index ob.sell_orders c inside)),
            agree (at ob.sell_orders (parent c))
                (inr (count_of_index ob.sell_orders (parent c) (omega (arith, lt, inside)))),
          )
          (u c lt inside),
  )

  pub IsValid-agree :
      ((p : ℕ) → InInt64 (cells' p).remaining_quantity) → IsValid ob cells → IsValid ob cells'
  IsValid-agree ranged v = record {
    bids = (IsOrdered-agree (v.bids, v.asks)).0;
    asks = (IsOrdered-agree (v.bids, v.asks)).1;
    ranged = ranged;
    uncrossed = λ b a hb ha lb la.
        rw (agree b (inl hb), agree a (inr ha))
          (v.uncrossed b a hb ha (rw (agree b (inl hb)) at lb) (rw (agree a (inr ha)) at la));
  }

-- A book that is being filled with copies of some orders
pub record IsFilling (os : List Order) (next : ℕ) (cells : ℕ → Order) (ob : OrderBook)
    : Type 0 where
  pub ordered : IsOrdered cells ob
  pub older : (p : ℕ) → IsIn p ob → p < next
  pub bids :
      (p : ℕ)
      → 0 < count p ob.buy_orders
      → Memᴰ (cells p) os × (is_live (cells p) ≡ true) × (is_buy (cells p).side ≡ true)
  pub asks :
      (p : ℕ)
      → 0 < count p ob.sell_orders
      → Memᴰ (cells p) os × (is_live (cells p) ≡ true) × (is_buy (cells p).side ≡ false)

module _ (os : List Order) (next : ℕ) (cells : ℕ → Order) (ob : OrderBook) (order : Order)
    (f : IsFilling os next cells ob) where
  abbrev later : ℕ → Order
  later = update cells next order

  later_same : (p : ℕ) → IsIn p ob → later p ≡ cells p
  later_same p here = ground (arith, f.older p here)

  pub IsFilling-allocate : IsFilling os (suc next) later ob
  IsFilling-allocate = record {
    ordered = IsOrdered-agree cells later ob later_same f.ordered;
    older = λ p here. omega (arith, f.older p here);
    bids = λ p here. rw (later_same p (inl here)) (f.bids p here);
    asks = λ p here. rw (later_same p (inr here)) (f.asks p here);
  }

  later_pushed :
      (P : Order → Type 0) (p : ℕ) (others : ℕ)
      → (0 < others → P (later p))
      → P order
      → 0 < others + (if next == p then 1 else 0)
      → P (later p)
  later_pushed P p others of_others of_order h = elim (Bool-cases (next == p)) [
    | inl same ↦ rw same of_order
    | inr other ↦ of_others (ground (arith, other, h))
  ]

  later_older :
      (p : ℕ) (others : ℕ)
      → (0 < others → p < next)
      → 0 < others + (if next == p then 1 else 0)
      → p < suc next
  later_older p others of_others h = elim (Bool-cases (next == p)) [
    | inl same ↦ ground (arith, same)
    | inr other ↦ let older = of_others (ground (arith, other, h)) in omega (arith, older)
  ]

  abbrev IsOf : Bool → Order → Type 0
  IsOf buys o = Memᴰ o os × (is_live o ≡ true) × (is_buy o.side ≡ buys)

  pub IsFilling-rest :
      Memᴰ order os
      → is_live order ≡ true
      → IsFilling os (suc next) later (OrderBook.restore_order ob next later)
  unfolding OrderBook.restore_order
  IsFilling-rest m live =
      let grown = IsFilling-allocate in
      let here : later next ≡ order = update_self cells next order in
      let left : leb_ℤ order.remaining_quantity (pos 0) ≡ false = ground (arith, live) in
      elim (Bool-cases (is_buy order.side)) [
        | inl b ↦
            let pushed =
              push_correct (less_at-IsStrictWeak max_before-IsPriority later) ob.buy_orders next
                grown.ordered.0 in
            rw (here, left, b)
              record {
                ordered = (pushed.ordered, grown.ordered.1);
                older = λ p h. elim h [
                  | inl bid ↦
                      later_older p (count p ob.buy_orders) (λ c. f.older p (inl c))
                        (subst (λ k. 0 < k) (pushed.same p) bid)
                  | inr ask ↦ grown.older p (inr ask)
                ];
                bids = λ p h.
                    later_pushed (IsOf true) p (count p ob.buy_orders) (grown.bids p) (m, live, b)
                      (subst (λ k. 0 < k) (pushed.same p) h);
                asks = grown.asks;
              }
        | inr b ↦
            let pushed =
              push_correct (less_at-IsStrictWeak min_before-IsPriority later) ob.sell_orders next
                grown.ordered.1 in
            rw (here, left, b)
              record {
                ordered = (grown.ordered.0, pushed.ordered);
                older = λ p h. elim h [
                  | inl bid ↦ grown.older p (inl bid)
                  | inr ask ↦
                      later_older p (count p ob.sell_orders) (λ c. f.older p (inr c))
                        (subst (λ k. 0 < k) (pushed.same p) ask)
                ];
                bids = grown.bids;
                asks = λ p h.
                    later_pushed (IsOf false) p (count p ob.sell_orders) (grown.asks p) (m, live, b)
                      (subst (λ k. 0 < k) (pushed.same p) h);
              }
      ]
