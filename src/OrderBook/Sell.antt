-- ===== src/OrderBook/Sell.antt =====
-- matchSellOrder keeps the invariant of the book.
use tradesphere.Base.{ℕ, ◌<◌, inl, inr, Bool, false, Bool-cases, arith}
use native.Mathlib.Decide.{ℕ_discrete}
use tradesphere.Int.{pos, ◌<ℤ◌, ltb_ℤ}
use tradesphere.Model.{Order, World, Store}
use tradesphere.Heap.{push}
use tradesphere.Heap.Slice.{count}
use tradesphere.Heap.Order.{IsHeap}
use tradesphere.Heap.Queue.{Pushed, push_correct}
use tradesphere.Matching.{
  max_before, Matching, less_at, min_before, sell_rules, sell_market_rules, match_against,
}
use tradesphere.Matching.Priority.{
  SameTerms, less_at-IsStrictWeak, max_before-IsPriority, min_before-IsPriority,
}
use tradesphere.Matching.Step.{IsReady}
use tradesphere.Matching.Loop.{IsDone, start_of, match_against-IsDone}
use tradesphere.Matching.Fills.{Rounds-terms, Rounds-shrink, Rounds-heap}
use tradesphere.OrderBook.{OrderBook, match_sell_order, match_sell_market_order}
use tradesphere.OrderBook.Invariant.{IsValid, IsNew, IsHeap-SameTerms, same_price, sell_finished}

module _ (w : World) (ob : OrderBook) (o : ℕ) (st : Store) (v : IsValid ob st.cells)
    (n : IsNew ob o) where
  pub sell-IsReady :
      (blocked : Order → Order → Bool)
      → IsReady (record { before = max_before; blocked = blocked }) o (start_of ob.buy_orders st)
  sell-IsReady blocked = record { ordered = v.bids; apart = n.no_bid; ranged = v.ranged }

  -- The two loops against this heap end by their own tests.
  pub sell-IsDone :
      (blocked : Order → Order → Bool)
      → IsDone w
          (record { before = max_before; blocked = blocked })
          o
          (start_of ob.buy_orders st)
          (match_against w (record { before = max_before; blocked = blocked }) o ob.buy_orders st)
  sell-IsDone blocked =
      match_against-IsDone w max_before-IsPriority o ob.buy_orders st (sell-IsReady blocked)

  module _ (blocked : Order → Order → Bool) (m : Matching)
      (d : IsDone w
        (record { before = max_before; blocked = blocked })
        o
        (start_of ob.buy_orders st)
        m) where
    sold_terms : SameTerms st.cells m.cells
    sold_terms = Rounds-terms w max_before-IsPriority o d.rounds

    -- Against the bids that remain, the asks stay above.
    sold_uncrossed :
        (b a : ℕ)
        → 0 < count b m.heap
        → 0 < count a ob.sell_orders
        → pos 0 <ℤ (m.cells b).remaining_quantity
        → pos 0 <ℤ (m.cells a).remaining_quantity
        → (m.cells b).price <ℤ (m.cells a).price
    sold_uncrossed b a hb ha lb la =
        let shrink = Rounds-shrink w max_before-IsPriority o d.rounds (sell-IsReady blocked) in
        let shorter = Rounds-heap w max_before-IsPriority o d.rounds (sell-IsReady blocked) b in
        rw (same_price st.cells m.cells sold_terms b, same_price st.cells m.cells sold_terms a)
          (v.uncrossed b a (omega (arith, shorter.0)) ha (omega (arith, (shrink b).0))
            (omega (arith, (shrink a).0)))

    sold_asks : IsHeap (less_at min_before m.cells) ob.sell_orders
    sold_asks =
        IsHeap-SameTerms min_before-IsPriority st.cells m.cells ob.sell_orders sold_terms v.asks

    pub rested_ask :
        Pushed
          (less_at min_before m.cells)
          ob.sell_orders
          o
          (push (less_at min_before m.cells) ob.sell_orders o)
    rested_ask =
        push_correct (less_at-IsStrictWeak min_before-IsPriority m.cells) ob.sell_orders o sold_asks

  rested_uncrossed :
      (m : Matching) (d : IsDone w sell_rules o (start_of ob.buy_orders st) m)
      → pos 0 <ℤ (m.cells o).remaining_quantity
      → (b a : ℕ) → 0 < count b m.heap
      → 0 < count a (push (less_at min_before m.cells) ob.sell_orders o)
      → pos 0 <ℤ (m.cells b).remaining_quantity
      → pos 0 <ℤ (m.cells a).remaining_quantity
      → (m.cells b).price <ℤ (m.cells a).price
  rested_uncrossed m d rests b a hb ha lb la = elim (ℕ_discrete o a) [
    | yes e ↦ rw e at (sell_finished o m d.ready d.finished rests b hb)
    | no ne ↦
        sold_uncrossed sell_rules.blocked m d b a hb
          (ground (arith, (rested_ask sell_rules.blocked m d).same a)) lb la
  ]

  -- matchSellOrder keeps the invariant: in particular no resting ask meets a resting bid after it.
  pub match_sell_order-IsValid :
      IsValid (match_sell_order w ob o st).book (match_sell_order w ob o st).store.cells
  unfolding match_sell_order
  match_sell_order-IsValid =
      let m = match_against w sell_rules o ob.buy_orders st in
      let d = sell-IsDone sell_rules.blocked in
      elim (Bool-cases (ltb_ℤ (pos 0) (m.cells o).remaining_quantity)) [
        | inl rests ↦ rw rests record {
          asks = (rested_ask sell_rules.blocked m d).ordered;
          bids = d.ready.ordered;
          ranged = d.ready.ranged;
          uncrossed = rested_uncrossed m d (ground arith);
        }
        | inr nothing ↦ rw nothing record {
          asks = sold_asks sell_rules.blocked m d;
          bids = d.ready.ordered;
          ranged = d.ready.ranged;
          uncrossed = sold_uncrossed sell_rules.blocked m d;
        }
      ]

  -- matchSellMarketOrder keeps the invariant, and puts nothing into the book.
  pub match_sell_market_order-IsValid :
      IsValid
        (match_sell_market_order w ob o st).book
        (match_sell_market_order w ob o st).store.cells
  unfolding match_sell_market_order
  match_sell_market_order-IsValid =
      let m = match_against w sell_market_rules o ob.buy_orders st in
      let d = sell-IsDone (λ order best. false) in
      record {
        asks = sold_asks (λ order best. false) m d;
        bids = d.ready.ordered;
        ranged = d.ready.ranged;
        uncrossed = sold_uncrossed (λ order best. false) m d;
      }

  pub match_sell_market_order-IsNew : IsNew (match_sell_market_order w ob o st).book o
  unfolding match_sell_market_order
  match_sell_market_order-IsNew =
      let d = sell-IsDone (λ order best. false) in
      let shorter =
        Rounds-heap w max_before-IsPriority o d.rounds (sell-IsReady (λ order best. false)) o in
      record { no_ask = n.no_ask; no_bid = omega (arith, shorter.0, n.no_bid) }
