-- ===== src/OrderBook/Process.antt =====
-- ProcessOrder as a whole: the invariant, quantities, prices, and what stays as it was.
use mathlib.Core.Path.{subst}
use tradesphere.Base.{
  ℕ, ◌<◌, ◌≡◌, ◌≢◌, sym, ◌∙◌, inl, inr, ap, Bool, true, false, Bool-cases, All, arith,
}
use tradesphere.Int.{pos, ◌+ℤ◌, ◌≤ℤ◌, InInt64, int_laws}
use tradesphere.Model.{Order, World, Store, is_buy, is_market, update_self, update-ne}
use tradesphere.Heap.Slice.{count}
use tradesphere.Matching.{buy_rules, sell_rules}
use tradesphere.Matching.Step.{IsReady}
use tradesphere.Matching.Loop.{IsDone, start_of, match_against-IsDone}
use tradesphere.Matching.Fills.{Rounds-shrink, Rounds-conserve, total_quantity}
use tradesphere.Matching.Trades.{filled, IsFair, Rounds-IsFair, Rounds-fills}
use tradesphere.OrderBook.{
  OrderBook, match_buy_market_order, match_sell_market_order, process_order, fill_remaining,
  set_remaining,
}
use tradesphere.OrderBook.Invariant.{IsValid, IsNew, same_price}
use tradesphere.OrderBook.Buy.{
  buy-IsReady, match_buy_order-IsValid, match_buy_market_order-IsValid,
  match_buy_market_order-IsNew,
}
use tradesphere.OrderBook.Sell.{
  sell-IsReady, match_sell_order-IsValid, match_sell_market_order-IsValid,
  match_sell_market_order-IsNew,
}
use tradesphere.OrderBook.Run.{
  set_remaining-IsValid, wanted, fill_remaining_lem, started, rules_for, opposite, Accepts,
  rules_for-IsPriority, rules_for-IsPriceTest, run, fill_terms, same_type, same_side, process_run,
  limit_cells, market_cells, other_cells,
}

IsReady-for :
    (m b : Bool) (w : World) (ob : OrderBook) (o : ℕ) (st : Store)
    → IsValid ob st.cells
    → IsNew ob o
    → IsReady (rules_for m b) o (start_of (opposite b ob) st)
IsReady-for true true w ob o st v n = buy-IsReady w ob o st v n (λ order best. false)
IsReady-for true false w ob o st v n = sell-IsReady w ob o st v n (λ order best. false)
IsReady-for false true w ob o st v n = buy-IsReady w ob o st v n buy_rules.blocked
IsReady-for false false w ob o st v n = sell-IsReady w ob o st v n sell_rules.blocked

module _ (w : World) (ob : OrderBook) (o : ℕ) (st : Store) (v : IsValid ob st.cells)
    (n : IsNew ob o) (ranged : InInt64 (st.cells o).quantity) where
  abbrev market : Bool
  market = is_market (st.cells o).type

  abbrev buys : Bool
  buys = is_buy (st.cells o).side

  pub started-IsValid : IsValid ob (started o st).cells
  started-IsValid =
      rw (fill_remaining_lem (st.cells o))
        (set_remaining-IsValid ob o st.cells (wanted (st.cells o)) n (ground (arith, v.ranged o)) v)

  pub run-IsReady : IsReady (rules_for market buys) o (start_of (opposite buys ob) (started o st))
  run-IsReady = IsReady-for market buys w ob o (started o st) started-IsValid n

  pub run-IsDone :
      IsDone w
        (rules_for market buys)
        o
        (start_of (opposite buys ob) (started o st))
        (run w ob o st)
  run-IsDone =
      match_against-IsDone w (rules_for-IsPriority market buys) o (opposite buys ob) (started o st)
        run-IsReady

  -- ProcessOrder keeps the invariant of a book, for an order of any type and side that is not in the
  -- book and whose quantity is an int64.
  pub process_order-IsValid :
      IsValid (process_order w ob o st).book (process_order w ob o st).store.cells
  unfolding process_order
  process_order-IsValid =
      let kind = same_type w ob o st in
      let side = same_side w ob o st in
      elim (Bool-cases market) [
        | inl m ↦ elim (Bool-cases buys) [
          | inl b ↦
              rw (kind, side, m, b)
                (set_remaining-IsValid (match_buy_market_order w ob o (started o st)).book o _
                  (pos 0) (match_buy_market_order-IsNew w ob o (started o st) started-IsValid n)
                  (omega arith)
                  (match_buy_market_order-IsValid w ob o (started o st) started-IsValid n))
          | inr b ↦
              rw (kind, side, m, b)
                (set_remaining-IsValid (match_sell_market_order w ob o (started o st)).book o _
                  (pos 0) (match_sell_market_order-IsNew w ob o (started o st) started-IsValid n)
                  (omega arith)
                  (match_sell_market_order-IsValid w ob o (started o st) started-IsValid n))
        ]
        | inr m ↦ elim (Bool-cases buys) [
          | inl b ↦
              rw (kind, side, m, b)
                (match_buy_order-IsValid w ob o (started o st) started-IsValid n)
          | inr b ↦
              rw (kind, side, m, b)
                (match_sell_order-IsValid w ob o (started o st) started-IsValid n)
        ]
      ]

  -- In a valid book, for an order that is not in it and whose quantity is an int64: every trade that
  -- ProcessOrder returns moves a positive quantity, at a price no worse than that of the order if it
  -- is a limit order.
  pub process_order-IsFair :
      All (IsFair (Accepts market buys) (st.cells o).price) (process_order w ob o st).trades
  process_order-IsFair = rw (process_run w ob o st) (
      rw (same_price st.cells (started o st).cells (fill_terms w ob o st) o) at (
        Rounds-IsFair w (rules_for-IsPriority market buys) o (Accepts market buys)
          (rules_for-IsPriceTest market buys) run-IsDone.rounds tt))

  pub started-wanted : ((started o st).cells o).remaining_quantity ≡ wanted (st.cells o)
  started-wanted =
      rw (update_self st.cells o (fill_remaining (st.cells o)), fill_remaining_lem (st.cells o))

  run_conserves :
      total_quantity (run w ob o st).trades +ℤ ((run w ob o st).cells o).remaining_quantity
      ≡ wanted (st.cells o)
  run_conserves =
      let total =
        Rounds-conserve w (rules_for-IsPriority market buys) o run-IsDone.rounds run-IsReady in
      total ∙ (ap (λ z. pos 0 +ℤ z) started-wanted ∙ omega int_laws)

  -- In a valid book, for a limit order that is not in it and whose quantity is an int64: the traded
  -- quantities and what is left of the order add up to what it wanted.
  pub process_order_conserves :
      market ≡ false
      → total_quantity (process_order w ob o st).trades
          +ℤ ((process_order w ob o st).store.cells o).remaining_quantity
        ≡ wanted (st.cells o)
  process_order_conserves limit =
      rw (process_run w ob o st, limit_cells w ob o st limit) run_conserves

  -- In a valid book, for a market order that is not in it, whose quantity is an int64 and which wants
  -- nothing negative: it trades at most what it wanted, and has nothing left afterwards.
  pub process_order-market :
      market ≡ true
      → pos 0 ≤ℤ wanted (st.cells o)
      → (total_quantity (process_order w ob o st).trades ≤ℤ wanted (st.cells o))
        × (((process_order w ob o st).store.cells o).remaining_quantity ≡ pos 0)
  process_order-market m h =
      let m' = run w ob o st in
      let left =
        (Rounds-shrink w (rules_for-IsPriority market buys) o run-IsDone.rounds run-IsReady o).1
          (rw started-wanted h) in
      (
        rw (process_run w ob o st)
            (subst (λ z. total_quantity m'.trades ≤ℤ z) run_conserves (omega (int_laws, left))),
        rw (market_cells w ob o st m, update_self m'.cells o (set_remaining (pos 0) (m'.cells o))),
      )

  started_id : (p : ℕ) → ((started o st).cells p).id ≡ (st.cells p).id
  started_id p = ap (λ (r : Order). r.id) (fill_terms w ob o st p)

  -- In a valid book, for an order that is not in it and whose quantity is an int64: for every other
  -- order, if its id is not that of the incoming order nor that of an order at another address in
  -- the opposite heap, what it has left after the call and what the returned trades moved under its
  -- id add up to what it had.
  pub process_order_fills :
      (p : ℕ)
      → (st.cells o).id ≢ (st.cells p).id
      → p ≢ o
      → ((q : ℕ) → 0 < count q (opposite buys ob) → (st.cells q).id ≡ (st.cells p).id → q ≡ p)
      → ((process_order w ob o st).store.cells p).remaining_quantity
          +ℤ filled (st.cells p).id (process_order w ob o st).trades
        ≡ (st.cells p).remaining_quantity
  process_order_fills p alone ne unique =
      let id = started_id in
      let fill =
        Rounds-fills w (rules_for-IsPriority market buys) o run-IsDone.rounds run-IsReady p
          (rw (id o, id p) alone) ne (λ q h. rw (id q, id p) (unique q h)) in
      let kept = update-ne st.cells o (fill_remaining (st.cells o)) p (λ e. ne (sym e)) in
      rw (other_cells w ob o st p ne, process_run w ob o st) (rw kept at fill ∙ omega int_laws)
