-- ===== src/OrderBook/Reference.antt =====
-- ProcessOrder makes the trades of the description by priority.
use mathlib.Core.Path.{fun_ext, subst}
use tradesphere.Base.{
  ℕ, suc, ◌≡◌, sym, ap, ◌∙◌, refl, inl, inr, Bool, Bool-cases, true, false, List, [], ◌∷◌, map,
  arith,
}
use tradesphere.Int.{ℤ, pos, ◌-ℤ◌, leb_ℤ, InInt64}
use tradesphere.Model.{Order, World, Store, is_buy, is_sell, is_market, update_self, update-ne}
use tradesphere.Heap.Slice.{count}
use tradesphere.Matching.{less_at, create_trade, min_quantity}
use tradesphere.Matching.Priority.{less_at-IsStrictWeak, less_at-SameTerms}
use tradesphere.Matching.Reference.{
  priority_trades, IsSorted-same, order_by-IsSorted, order_by-SameItems, priority_trades-terms,
  map-agree,
}
use tradesphere.Matching.Listed.{HasNoTies, IsListed, HasNoTies-same, HasNoTies-items}
use tradesphere.Matching.Simulation.{IsDone-trades}
use tradesphere.Matching.Loop.{start_of}
use tradesphere.OrderBook.{OrderBook, process_order, fill_remaining}
use tradesphere.OrderBook.Invariant.{IsValid, IsNew}
use tradesphere.OrderBook.Run.{
  started, rules_for, opposite, wanted, fill_remaining_lem, fill_terms, process_run,
  rules_for-IsPriority,
}
use tradesphere.OrderBook.Process.{run-IsDone, run-IsReady, started-wanted}
use tradesphere.Query.{order_by}
use tradesphere.OrderBook.Description.{
  comes_first, out_of_reach, trade_with, trades_by_priority, by_priority, HasNoTiesAgainst,
}

rules_for-terms :
    (m b : Bool) (x y : Order) (q : ℤ)
    → (rules_for m b).blocked (record x { remaining_quantity = q }) y ≡ (rules_for m b).blocked x y
rules_for-terms true true x y q = refl
rules_for-terms true false x y q = refl
rules_for-terms false true x y q = refl
rules_for-terms false false x y q = refl

-- The same, by the rules of the code
abbrev by_rules : OrderBook → Order → (ℕ → Order) → List ℕ
by_rules ob order cells =
    let buys = is_buy order.side in
    order_by (less_at (rules_for (is_market order.type) buys).before cells) (opposite buys ob)

abbrev HasNoTiesByRules : OrderBook → Order → (ℕ → Order) → Type 0
HasNoTiesByRules ob order cells =
    let buys = is_buy order.side in
    HasNoTies (less_at (rules_for (is_market order.type) buys).before cells) (opposite buys ob)

before-comes_first :
    (m buys : Bool) (a b : Order) → (rules_for m buys).before a b ≡ comes_first buys a b
before-comes_first true true a b = ground arith
before-comes_first true false a b = ground arith
before-comes_first false true a b = ground arith
before-comes_first false false a b = ground arith

blocked-out_of_reach :
    (order r : Order)
    → (rules_for (is_market order.type) (is_buy order.side)).blocked order r ≡ out_of_reach order r
blocked-out_of_reach order r = elim (Bool-cases (is_market order.type)) [
  | inl m ↦ elim (Bool-cases (is_buy order.side)) [
    | inl b ↦ rw (m, b) refl
    | inr b ↦ rw (m, b) refl
  ]
  | inr m ↦ elim (Bool-cases (is_buy order.side)) [
    | inl b ↦ rw (m, b) refl
    | inr b ↦ rw (m, b) refl
  ]
]

create_trade-trade_with :
    (w : World) (n : ℕ) (r order : Order) (quantity : ℤ)
    → create_trade w n r order quantity ≡ trade_with w n r order quantity
create_trade-trade_with w n r order quantity = elim (Bool-cases (is_sell r.side)) [
  | inl sells ↦ rw sells refl
  | inr buys ↦ rw buys refl
]

trades_by_rules :
    (w : World) (order : Order) (wants : ℤ) (n : ℕ) (rs : List Order)
    → priority_trades w
        (rules_for (is_market order.type) (is_buy order.side)).blocked
        order
        wants
        n
        rs
      ≡ trades_by_priority w order wants n rs
unfolding priority_trades trades_by_priority
trades_by_rules w order wants n [] = refl
trades_by_rules w order wants n (r ∷ rs) =
    let quantity = min_quantity wants r.remaining_quantity in
    elim (Bool-cases (leb_ℤ r.remaining_quantity (pos 0))) [
      | inl spent ↦
          rw (blocked-out_of_reach order r, spent, trades_by_rules w order wants n rs) refl
      | inr left ↦
          rw
            (
              blocked-out_of_reach order r,
              left,
              create_trade-trade_with w n r order quantity,
              trades_by_rules w order (wants -ℤ quantity) (suc n) rs,
            )
            refl
    ]

module _ (w : World) (ob : OrderBook) (o : ℕ) (st : Store) (v : IsValid ob st.cells)
    (n : IsNew ob o) (ranged : InInt64 (st.cells o).quantity) where
  opposite-apart : (b : Bool) → count o (opposite b ob) ≡ 0
  opposite-apart true = n.no_ask
  opposite-apart false = n.no_bid

  process_order-by_rules :
      HasNoTiesByRules ob (st.cells o) st.cells
      → (process_order w ob o st).trades
        ≡ priority_trades w
            (rules_for (is_market (st.cells o).type) (is_buy (st.cells o).side)).blocked
            (st.cells o)
            (wanted (st.cells o))
            st.draws
            (map st.cells (by_rules ob (st.cells o) st.cells))
  process_order-by_rules strict =
      let order = st.cells o in
      let market = is_market order.type in
      let buys = is_buy order.side in
      let rules = rules_for market buys in
      let good = rules_for-IsPriority market buys in
      let cells = (started o st).cells in
      let ps = by_rules ob order st.cells in
      let same_less = less_at-SameTerms good st.cells cells (fill_terms w ob o st) in
      let items = order_by-SameItems (less_at rules.before st.cells) (opposite buys ob) in
      let listed : IsListed rules (start_of (opposite buys ob) (started o st)) ps = record {
        sorted =
            IsSorted-same ps same_less
              (order_by-IsSorted (less_at-IsStrictWeak good st.cells) (opposite buys ob));
        same = λ a. sym (items a);
        strict = HasNoTies-same same_less (HasNoTies-items items strict);
      } in
      let loop =
        IsDone-trades w good o (rules_for-terms market buys) ps (run-IsDone w ob o st v n ranged)
          (run-IsReady w ob o st v n ranged) listed in
      let agree = map-agree cells st.cells ps (λ p m.
        update-ne st.cells o (fill_remaining order) p
          (ground (arith, items p, opposite-apart buys))) in
      process_run w ob o st
      ∙ loop
      ∙ rw
          (
            agree,
            started-wanted w ob o st v n ranged,
            update_self st.cells o (fill_remaining order),
            fill_remaining_lem order,
          )
          (priority_trades-terms w rules.blocked (rules_for-terms market buys) order (wanted order)
            (wanted order) st.draws (map st.cells ps))

  -- In a valid book, for an order that is not in it and whose quantity is an int64, if no two orders
  -- of the other side tie: ProcessOrder returns exactly the trades that the order makes by taking
  -- what it wants from the other side, sorted by price and then by time, one order after the other.
  pub process_order-priority_trades :
      HasNoTiesAgainst ob (st.cells o) st.cells
      → (process_order w ob o st).trades
        ≡ trades_by_priority w
            (st.cells o)
            (wanted (st.cells o))
            st.draws
            (map st.cells (by_priority ob (st.cells o) st.cells))
  process_order-priority_trades strict =
      let order = st.cells o in
      let buys = is_buy order.side in
      let same : (λ p q. comes_first buys (st.cells p) (st.cells q))
          ≡ less_at (rules_for (is_market order.type) buys).before st.cells =
        fun_ext (λ p.
          fun_ext (λ q.
            sym (before-comes_first (is_market order.type) buys (st.cells p) (st.cells q)))) in
      let strict' = subst (λ (f : ℕ → ℕ → Bool). HasNoTies f (opposite buys ob)) same strict in
      process_order-by_rules strict'
      ∙ trades_by_rules w order (wanted order) st.draws (map st.cells (by_rules ob order st.cells))
      ∙ ap
          (λ (f : ℕ → ℕ → Bool).
            trades_by_priority w order (wanted order) st.draws
              (map st.cells (order_by f (opposite buys ob))))
          (sym same)
