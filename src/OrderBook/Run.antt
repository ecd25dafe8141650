-- ===== src/OrderBook/Run.antt =====
-- Which loop ProcessOrder runs, and what it takes from it.
use native.Mathlib.Decide.{ℕ_discrete}
use tradesphere.Base.{
  ◌∙◌, ◌≢◌, sym, ℕ, ◌≡◌, inl, inr, ap, Bool, true, false, List, Bool-cases, if◌then◌else◌, ◌&&◌,
  arith,
}
use tradesphere.Int.{ℤ, pos, ◌≤ℤ◌, InInt64, ltb_ℤ, leb_ℤ}
use tradesphere.Model.{Order, World, Store, is_buy, is_market, update, update-ne}
use tradesphere.Matching.{
  Rules, Matching, buy_rules, sell_rules, buy_market_rules, sell_market_rules, match_against,
}
use tradesphere.Matching.Priority.{
  IsPriority, SameTerms, max_before-IsPriority, min_before-IsPriority, set_remaining-SameTerms,
}
use tradesphere.Matching.Trades.{IsPriceTest}
use tradesphere.OrderBook.{
  OrderBook, match_buy_order, match_sell_order, match_buy_market_order, match_sell_market_order,
  process_order, modify_cell, fill_remaining, set_remaining,
}
use tradesphere.OrderBook.Invariant.{IsValid, IsNew, IsValid-SameTerms}

-- Setting what is left of an order outside the book keeps the invariant.
pub set_remaining-IsValid :
    (ob : OrderBook) (o : ℕ) (cells : ℕ → Order) (x : ℤ)
    → IsNew ob o
    → InInt64 x
    → IsValid ob cells
    → IsValid ob (update cells o (set_remaining x (cells o)))
set_remaining-IsValid ob o cells x n h v =
    IsValid-SameTerms cells _ v (set_remaining-SameTerms cells o x)
      (λ p. ground (arith, v.ranged p))
      λ p inside. elim (ℕ_discrete o p) [
        | yes e ↦ absurd (ground (arith, n.no_bid, n.no_ask))
        | no ne ↦ rw (update-ne cells o (set_remaining x (cells o)) p ne) (λ h. h)
      ]

-- What the first test of ProcessOrder leaves as the remaining quantity
abbrev pub wanted : Order → ℤ
wanted order =
    if leb_ℤ order.remaining_quantity (pos 0) && ltb_ℤ (pos 0) order.quantity
    then order.quantity
    else order.remaining_quantity

pub fill_remaining_lem : (order : Order) → fill_remaining order ≡ set_remaining (wanted order) order
fill_remaining_lem order =
    elim (Bool-cases (leb_ℤ order.remaining_quantity (pos 0) && ltb_ℤ (pos 0) order.quantity)) [
      | inl e ↦ rw e
      | inr e ↦ rw e
    ]

-- The order that ProcessOrder works on
abbrev pub started : ℕ → Store → Store
started o st = modify_cell fill_remaining o st

-- Which of the four loops runs, for a market order or not, and a buy order or not
abbrev pub rules_for : Bool → Bool → Rules
rules_for true true = buy_market_rules
rules_for true false = sell_market_rules
rules_for false true = buy_rules
rules_for false false = sell_rules

abbrev pub opposite : Bool → OrderBook → List ℕ
opposite true ob = ob.sell_orders
opposite false ob = ob.buy_orders

-- The prices that such an order accepts
abbrev pub Accepts : Bool → Bool → ℤ → ℤ → Type 0
Accepts true b price p = Unit
Accepts false true price p = p ≤ℤ price
Accepts false false price p = price ≤ℤ p

pub rules_for-IsPriority : (m b : Bool) → IsPriority (rules_for m b).before
rules_for-IsPriority true true = min_before-IsPriority
rules_for-IsPriority true false = max_before-IsPriority
rules_for-IsPriority false true = min_before-IsPriority
rules_for-IsPriority false false = max_before-IsPriority

pub rules_for-IsPriceTest : (m b : Bool) → IsPriceTest (rules_for m b).blocked (Accepts m b)
rules_for-IsPriceTest true b = λ x y h. tt
rules_for-IsPriceTest false true = λ x y h. ground arith
rules_for-IsPriceTest false false = λ x y h. ground arith

module _ (w : World) (ob : OrderBook) (o : ℕ) (st : Store) where
  abbrev pub order : Order
  order = st.cells o

  abbrev pub run : Matching
  run =
      match_against w (rules_for (is_market order.type) (is_buy order.side)) o
        (opposite (is_buy order.side) ob) (started o st)

  pub fill_terms : SameTerms st.cells (started o st).cells
  fill_terms = rw (fill_remaining_lem order) (set_remaining-SameTerms st.cells o (wanted order))

  pub same_type : ((started o st).cells o).type ≡ order.type
  same_type = ap (λ (r : Order). r.type) (fill_terms o)

  pub same_side : ((started o st).cells o).side ≡ order.side
  same_side = ap (λ (r : Order). r.side) (fill_terms o)

  -- Whichever loop runs, ProcessOrder returns its trades, and leaves its objects but for the
  -- remaining quantity of a market order.
  pub process_run : (process_order w ob o st).trades ≡ run.trades
  unfolding process_order match_buy_order match_sell_order match_buy_market_order
      match_sell_market_order
  process_run = elim (Bool-cases (is_market order.type)) [
    | inl m ↦ elim (Bool-cases (is_buy order.side)) [
      | inl b ↦ rw (same_type, same_side, m, b)
      | inr b ↦ rw (same_type, same_side, m, b)
    ]
    | inr m ↦ elim (Bool-cases (is_buy order.side)) [
      | inl b ↦ rw (same_type, same_side, m, b)
      | inr b ↦ rw (same_type, same_side, m, b)
    ]
  ]

  pub process_cells : (process_order w ob o st).store.cells ≡ (
      if is_market order.type
      then update run.cells o (set_remaining (pos 0) (run.cells o))
      else run.cells)
  unfolding process_order match_buy_order match_sell_order match_buy_market_order
      match_sell_market_order
  process_cells = elim (Bool-cases (is_market order.type)) [
    | inl m ↦ elim (Bool-cases (is_buy order.side)) [
      | inl b ↦ rw (same_type, same_side, m, b)
      | inr b ↦ rw (same_type, same_side, m, b)
    ]
    | inr m ↦ elim (Bool-cases (is_buy order.side)) [
      | inl b ↦ rw (same_type, same_side, m, b)
      | inr b ↦ rw (same_type, same_side, m, b)
    ]
  ]

  abbrev settled : Bool → ℕ → Order
  settled m = if m then update run.cells o (set_remaining (pos 0) (run.cells o)) else run.cells

  pub limit_cells : is_market order.type ≡ false → (process_order w ob o st).store.cells ≡ run.cells
  limit_cells e = process_cells ∙ ap settled e

  pub market_cells :
      is_market order.type ≡ true
      → (process_order w ob o st).store.cells
        ≡ update run.cells o (set_remaining (pos 0) (run.cells o))
  market_cells e = process_cells ∙ ap settled e

  -- Only the order itself is changed after the loop.
  pub other_cells : (p : ℕ) → p ≢ o → (process_order w ob o st).store.cells p ≡ run.cells p
  other_cells p h = elim (Bool-cases (is_market order.type)) [
    | inl m ↦
        rw (market_cells m)
          (update-ne run.cells o (set_remaining (pos 0) (run.cells o)) p (λ e. h (sym e)))
    | inr m ↦ rw (limit_cells m)
  ]
