-- ===== src/Engine/Recover.antt =====
-- services/matching-engine/engine/engine.go: RestoreOrders, which fills the books after a crash.
use tradesphere.Base.{
  ℕ, suc, ◌+◌, ◌<◌, ◌≡◌, refl, sym, inl, inr, Bool, true, false, not, ◌&&◌, Bool-cases, Option,
  none, some, List, [], ◌∷◌, ◌==◌, if◌then◌else◌, arith,
}
use tradesphere.Int.{pos, ◌<ℤ◌, ltb_ℤ, leb_ℤ, InInt64}
use tradesphere.Text.{Text, text_eq, text_eq→eq}
use tradesphere.Model.{Order, is_buy}
use tradesphere.Heap.Slice.{count}
use tradesphere.Heap.Order.{IsHeap}
use tradesphere.Heap.Queue.{push_correct}
use tradesphere.Matching.{less_at, max_before, min_before}
use tradesphere.Matching.Priority.{
  less_at-IsStrictWeak, max_before-IsPriority, min_before-IsPriority,
}
use tradesphere.OrderBook
use tradesphere.OrderBook.{OrderBook, new_order_book}
use tradesphere.Engine.{
  MatchingEngine, get_or_create_order_book, put_order_book, empty_engine, register, rest_order,
  restore_each, restore_orders,
}
use tradesphere.Engine.Books.{HasValidBooks, lookup_text-insert}

-- How often a pointer is among those that are restored
abbrev pub occurrences : ℕ → List (Option ℕ) → ℕ
occurrences p [] = 0
occurrences p (none ∷ os) = occurrences p os
occurrences p (some o ∷ os) = (if o == p then 1 else 0) + occurrences p os

-- Does an order rest in the book of a symbol, on the side that buys or on the other?
abbrev pub rests_in : Text → Bool → Order → Bool
rests_in symbol buys order =
    ltb_ℤ (pos 0) order.remaining_quantity
    && text_eq order.symbol symbol
    && (if buys then is_buy order.side else not (is_buy order.side))

-- Both heaps of a book are ordered.
abbrev pub IsOrdered : (ℕ → Order) → OrderBook → Type 0
IsOrdered cells ob =
    IsHeap (less_at max_before cells) ob.buy_orders
    × IsHeap (less_at min_before cells) ob.sell_orders

-- A book has gained these pointers, each on its side, and is ordered.
pub record HasGained (cells : ℕ → Order) (symbol : Text) (os : List (Option ℕ)) (ob ob' : OrderBook)
    : Type 0 where
  pub ordered : IsOrdered cells ob'
  pub bids :
      (p : ℕ)
      → count p ob'.buy_orders
        ≡ count p ob.buy_orders + (if rests_in symbol true (cells p) then occurrences p os else 0)
  pub asks :
      (p : ℕ)
      → count p ob'.sell_orders
        ≡ count p ob.sell_orders + (if rests_in symbol false (cells p) then occurrences p os else 0)

pub put-get :
    (s symbol : Text) (ob : OrderBook) (me : MatchingEngine)
    → get_or_create_order_book (put_order_book s ob me) symbol
      ≡ (if text_eq s symbol then ob else get_or_create_order_book me symbol)
put-get s symbol ob me = ground (arith, lookup_text-insert s symbol ob me.order_books)

module _ (cells : ℕ → Order) (symbol : Text) where
  HasGained-none : (ob : OrderBook) → IsOrdered cells ob → HasGained cells symbol [] ob ob
  HasGained-none ob v = record { ordered = v; bids = λ p. ground arith; asks = λ p. ground arith }

  HasGained-nil :
      (os : List (Option ℕ)) (a b : OrderBook)
      → HasGained cells symbol os a b
      → HasGained cells symbol (none ∷ os) a b
  HasGained-nil os a b g = record { ordered = g.ordered; bids = g.bids; asks = g.asks }

  HasGained-step :
      (o : ℕ) (os : List (Option ℕ)) (a b c : OrderBook)
      → HasGained cells symbol (some o ∷ []) a b
      → HasGained cells symbol os b c
      → HasGained cells symbol (some o ∷ os) a c
  HasGained-step o os a b c g h = record {
    ordered = h.ordered;
    bids = λ p. ground (arith, g.bids p, h.bids p);
    asks = λ p. ground (arith, g.asks p, h.asks p);
  }

  -- A pointer that does not rest here
  HasGained-other :
      (o : ℕ) (ob : OrderBook)
      → rests_in symbol true (cells o) ≡ false
      → rests_in symbol false (cells o) ≡ false
      → IsOrdered cells ob
      → HasGained cells symbol (some o ∷ []) ob ob
  HasGained-other o ob no_bid no_ask v = record {
    ordered = v;
    bids = λ p. ground (arith, no_bid);
    asks = λ p. ground (arith, no_ask);
  }

  restore_order-HasGained :
      (o : ℕ) (ob : OrderBook)
      → leb_ℤ (cells o).remaining_quantity (pos 0) ≡ false
      → text_eq (cells o).symbol symbol ≡ true
      → IsOrdered cells ob
      → HasGained cells symbol (some o ∷ []) ob (OrderBook.restore_order ob o cells)
  unfolding OrderBook.restore_order
  restore_order-HasGained o ob left here (v, u) = elim (Bool-cases (is_buy (cells o).side)) [
    | inl b ↦
        let pushed =
          push_correct (less_at-IsStrictWeak max_before-IsPriority cells) ob.buy_orders o v in
        rw (left, b)
          record {
            ordered = (pushed.ordered, u);
            bids = λ p. ground (arith, pushed.same p, left, b, here);
            asks = λ p. ground (arith, left, b, here);
          }
    | inr b ↦
        let pushed =
          push_correct (less_at-IsStrictWeak min_before-IsPriority cells) ob.sell_orders o u in
        rw (left, b)
          record {
            ordered = (v, pushed.ordered);
            bids = λ p. ground (arith, left, b, here);
            asks = λ p. ground (arith, pushed.same p, left, b, here);
          }
  ]

module _ (o : ℕ) (os : List (Option ℕ)) (n : ℕ) (me : MatchingEngine) where
  restore_each-spent :
      leb_ℤ (me.store.cells o).remaining_quantity (pos 0) ≡ true
      → restore_each (some o ∷ os) n me ≡ restore_each os n me
  unfolding restore_each
  restore_each-spent spent = rw spent

  restore_each-left :
      leb_ℤ (me.store.cells o).remaining_quantity (pos 0) ≡ false
      → restore_each (some o ∷ os) n me ≡ restore_each os (suc n) (rest_order o (register o me))
  unfolding restore_each
  restore_each-left left = rw left

module _ (symbol : Text) where
  rest_order-HasGained :
      (o : ℕ) (me : MatchingEngine)
      → leb_ℤ (me.store.cells o).remaining_quantity (pos 0) ≡ false
      → IsOrdered me.store.cells (get_or_create_order_book me symbol)
      → HasGained me.store.cells symbol
          (some o ∷ [])
          (get_or_create_order_book me symbol)
          (get_or_create_order_book (rest_order o (register o me)) symbol)
  rest_order-HasGained o me left v =
      let cells = me.store.cells in
      let s = (cells o).symbol in
      let book = OrderBook.restore_order (get_or_create_order_book me s) o cells in
      let read = put-get s symbol book (register o me) in
      elim (Bool-cases (text_eq s symbol)) [
        | inl here ↦
            let same = text_eq→eq s symbol here in
            rw (read, here, same) (restore_order-HasGained cells symbol o _ left here v)
        | inr other ↦
            rw (read, other)
              (HasGained-other cells symbol o _ (ground (arith, other)) (ground (arith, other)) v)
      ]

  restore_each-HasGained :
      (os : List (Option ℕ)) (n : ℕ) (me : MatchingEngine)
      → IsOrdered me.store.cells (get_or_create_order_book me symbol)
      → HasGained me.store.cells symbol os
          (get_or_create_order_book me symbol)
          (get_or_create_order_book (restore_each os n me).0 symbol)
        × ((restore_each os n me).0.store ≡ me.store)
  unfolding restore_each
  restore_each-HasGained [] n me v = (HasGained-none _ symbol _ v, refl)
  restore_each-HasGained (none ∷ os) n me v =
      let (g, same) = restore_each-HasGained os n me v in (HasGained-nil _ symbol os _ _ g, same)
  restore_each-HasGained (some o ∷ os) n me v =
      let cells = me.store.cells in
      elim (Bool-cases (leb_ℤ (cells o).remaining_quantity (pos 0))) [
        | inl spent ↦
            let (g, same) = restore_each-HasGained os n me v in
            rw (restore_each-spent o os n me spent) (
              HasGained-step cells symbol o os _ _ _
                  (HasGained-other cells symbol o _ (ground (arith, spent)) (ground (arith, spent))
                    v)
                  g,
              same,
            )
        | inr left ↦
            let first = rest_order-HasGained o me left v in
            let (g, same) =
              restore_each-HasGained os (suc n) (rest_order o (register o me)) first.ordered in
            rw (restore_each-left o os n me left)
              (HasGained-step cells symbol o os _ _ _ first g, same)
      ]

  -- RestoreOrders empties the engine and puts the orders back: afterwards the book of any symbol has,
  -- on each side, exactly the pointers of the list whose order has something left, this symbol and
  -- this side, as often as the list has them; both heaps are ordered; and no order is changed.
  pub restore_orders-HasGained :
      (os : List (Option ℕ)) (me : MatchingEngine)
      → HasGained me.store.cells symbol os new_order_book
          (get_or_create_order_book (restore_orders os me).0 symbol)
        × ((restore_orders os me).0.store ≡ me.store)
  unfolding restore_orders
  restore_orders-HasGained os me =
      restore_each-HasGained os 0 (empty_engine me)
        (λ c p q. absurd (omega arith), λ c p q. absurd (omega arith))

-- No bid of a list of orders meets an ask of the same symbol.
abbrev pub IsUncrossed : (ℕ → Order) → List (Option ℕ) → Type 0
IsUncrossed cells os =
    (symbol : Text) (b a : ℕ)
    → 0 < occurrences b os
    → 0 < occurrences a os
    → rests_in symbol true (cells b) ≡ true
    → rests_in symbol false (cells a) ≡ true
    → (cells b).price <ℤ (cells a).price

-- If the quantities of the orders are int64 and no bid of them meets an ask of the same symbol, then
-- after RestoreOrders every book of the engine is valid.
pub restore_orders-HasValidBooks :
    (os : List (Option ℕ)) (me : MatchingEngine)
    → ((p : ℕ) → InInt64 (me.store.cells p).remaining_quantity)
    → IsUncrossed me.store.cells os
    → HasValidBooks (restore_orders os me).0
restore_orders-HasValidBooks os me ranged uncrossed =
    let after = (restore_orders os me).0 in
    let same = (restore_orders-HasGained [] os me).1 in
    record {
      ranged = λ p. rw same (ranged p);
      valid = λ symbol ob found.
          let g = (restore_orders-HasGained symbol os me).0 in
          let book : get_or_create_order_book after symbol ≡ ob =
            rw (found, get_or_create_order_book) in
          rw (sym book, same)
            record {
              bids = g.ordered.0;
              asks = g.ordered.1;
              ranged = ranged;
              uncrossed = λ b a hb ha lb la.
                  uncrossed symbol b a (ground (arith, g.bids b)) (ground (arith, g.asks a))
                    (ground (arith, g.bids b)) (ground (arith, g.asks a));
            };
    }
