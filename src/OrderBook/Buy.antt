-- ===== src/OrderBook/Buy.antt =====
-- matchBuyOrder and matchBuyMarketOrder, and the invariant of the book.
use tradesphere.Base.{ℕ, ◌<◌, inl, inr, Bool, false, Bool-cases, arith}
use native.Mathlib.Decide.{ℕ_discrete}
use tradesphere.Int.{pos, ◌<ℤ◌, ltb_ℤ}
use tradesphere.Model.{Order, World, Store}
use tradesphere.Heap.{push}
use tradesphere.Heap.Slice.{count}
use tradesphere.Heap.Order.{IsHeap}
use tradesphere.Heap.Queue.{Pushed, push_correct}
use tradesphere.Matching.{
  min_before, Matching, less_at, max_before, buy_rules, buy_market_rules, match_against,
}
use tradesphere.Matching.Priority.{
  SameTerms, less_at-IsStrictWeak, max_before-IsPriority, min_before-IsPriority,
}
use tradesphere.Matching.Step.{IsReady}
use tradesphere.Matching.Loop.{IsDone, start_of, match_against-IsDone}
use tradesphere.Matching.Fills.{Rounds-terms, Rounds-shrink, Rounds-heap}
use tradesphere.OrderBook.{OrderBook, match_buy_order, match_buy_market_order}
use tradesphere.OrderBook.Invariant.{IsValid, IsNew, IsHeap-SameTerms, same_price, buy_finished}

module _ (w : World) (ob : OrderBook) (o : ℕ) (st : Store) (v : IsValid ob st.cells)
    (n : IsNew ob o) where
  pub buy-IsReady :
      (blocked : Order → Order → Bool)
      → IsReady (record { before = min_before; blocked = blocked }) o (start_of ob.sell_orders st)
  buy-IsReady blocked = record { ordered = v.asks; apart = n.no_ask; ranged = v.ranged }

  -- The two loops against this heap end by their own tests.
  pub buy-IsDone :
      (blocked : Order → Order → Bool)
      → IsDone w
          (record { before = min_before; blocked = blocked })
          o
          (start_of ob.sell_orders st)
          (match_against w (record { before = min_before; blocked = blocked }) o ob.sell_orders st)
  buy-IsDone blocked =
      match_against-IsDone w min_before-IsPriority o ob.sell_orders st (buy-IsReady blocked)

  module _ (blocked : Order → Order → Bool) (m : Matching)
      (d : IsDone w
        (record { before = min_before; blocked = blocked })
        o
        (start_of ob.sell_orders st)
        m) where
    bought_terms : SameTerms st.cells m.cells
    bought_terms = Rounds-terms w min_before-IsPriority o d.rounds

    -- Against the asks that remain, the bids stay below.
    bought_uncrossed :
        (b a : ℕ)
        → 0 < count b ob.buy_orders
        → 0 < count a m.heap
        → pos 0 <ℤ (m.cells b).remaining_quantity
        → pos 0 <ℤ (m.cells a).remaining_quantity
        → (m.cells b).price <ℤ (m.cells a).price
    bought_uncrossed b a hb ha lb la =
        let shrink = Rounds-shrink w min_before-IsPriority o d.rounds (buy-IsReady blocked) in
        let shorter = Rounds-heap w min_before-IsPriority o d.rounds (buy-IsReady blocked) a in
        rw (same_price st.cells m.cells bought_terms b, same_price st.cells m.cells bought_terms a)
          (v.uncrossed b a hb (omega (arith, shorter.0)) (omega (arith, (shrink b).0))
            (omega (arith, (shrink a).0)))

    bought_bids : IsHeap (less_at max_before m.cells) ob.buy_orders
    bought_bids =
        IsHeap-SameTerms max_before-IsPriority st.cells m.cells ob.buy_orders bought_terms v.bids

    pub rested_bid :
        Pushed
          (less_at max_before m.cells)
          ob.buy_orders
          o
          (push (less_at max_before m.cells) ob.buy_orders o)
    rested_bid =
        push_correct (less_at-IsStrictWeak max_before-IsPriority m.cells) ob.buy_orders o
          bought_bids

  rested_uncrossed :
      (m : Matching) (d : IsDone w buy_rules o (start_of ob.sell_orders st) m)
      → pos 0 <ℤ (m.cells o).remaining_quantity
      → (b a : ℕ) → 0 < count b (push (less_at max_before m.cells) ob.buy_orders o)
      → 0 < count a m.heap
      → pos 0 <ℤ (m.cells b).remaining_quantity
      → pos 0 <ℤ (m.cells a).remaining_quantity
      → (m.cells b).price <ℤ (m.cells a).price
  rested_uncrossed m d rests b a hb ha lb la = elim (ℕ_discrete o b) [
    | yes e ↦ rw e at (buy_finished o m d.ready d.finished rests a ha)
    | no ne ↦
        bought_uncrossed buy_rules.blocked m d b a
          (ground (arith, (rested_bid buy_rules.blocked m d).same b)) ha lb la
  ]

  -- matchBuyOrder keeps the invariant: in particular no resting bid meets a resting ask after it.
  pub match_buy_order-IsValid :
      IsValid (match_buy_order w ob o st).book (match_buy_order w ob o st).store.cells
  unfolding match_buy_order
  match_buy_order-IsValid =
      let m = match_against w buy_rules o ob.sell_orders st in
      let d = buy-IsDone buy_rules.blocked in
      elim (Bool-cases (ltb_ℤ (pos 0) (m.cells o).remaining_quantity)) [
        | inl rests ↦ rw rests record {
          bids = (rested_bid buy_rules.blocked m d).ordered;
          asks = d.ready.ordered;
          ranged = d.ready.ranged;
          uncrossed = rested_uncrossed m d (ground arith);
        }
        | inr nothing ↦ rw nothing record {
          bids = bought_bids buy_rules.blocked m d;
          asks = d.ready.ordered;
          ranged = d.ready.ranged;
          uncrossed = bought_uncrossed buy_rules.blocked m d;
        }
      ]

  -- matchBuyMarketOrder keeps the invariant, and puts nothing into the book.
  pub match_buy_market_order-IsValid :
      IsValid (match_buy_market_order w ob o st).book (match_buy_market_order w ob o st).store.cells
  unfolding match_buy_market_order
  match_buy_market_order-IsValid =
      let m = match_against w buy_market_rules o ob.sell_orders st in
      let d = buy-IsDone (λ order best. false) in
      record {
        bids = bought_bids (λ order best. false) m d;
        asks = d.ready.ordered;
        ranged = d.ready.ranged;
        uncrossed = bought_uncrossed (λ order best. false) m d;
      }

  pub match_buy_market_order-IsNew : IsNew (match_buy_market_order w ob o st).book o
  unfolding match_buy_market_order
  match_buy_market_order-IsNew =
      let d = buy-IsDone (λ order best. false) in
      let shorter =
        Rounds-heap w min_before-IsPriority o d.rounds (buy-IsReady (λ order best. false)) o in
      record { no_bid = n.no_bid; no_ask = omega (arith, shorter.0, n.no_ask) }
