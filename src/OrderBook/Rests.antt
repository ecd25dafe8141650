-- ===== src/OrderBook/Rests.antt =====
-- What stays in the book, and what comes to rest in it.
use tradesphere.Base.{
  ℕ, ◌+◌, ◌≡◌, ◌⊎◌, inl, inr, false, Bool-cases, ◌&&◌, ◌==◌, if◌then◌else◌, arith,
}
use tradesphere.Int.{pos, ◌<ℤ◌, ltb_ℤ, InInt64}
use tradesphere.Model.{Order, World, Store, update, update-ne, is_buy, is_market}
use tradesphere.Heap.Slice.{count}
use tradesphere.Matching.{buy_rules, sell_rules, match_against}
use tradesphere.Matching.Priority.{max_before-IsPriority, min_before-IsPriority}
use tradesphere.Matching.Fills.{Rounds-heap}
use tradesphere.OrderBook.{
  OrderBook, match_buy_order, match_sell_order, match_buy_market_order, match_sell_market_order,
  process_order, set_remaining,
}
use tradesphere.OrderBook.Invariant.{IsValid, IsNew}
use tradesphere.OrderBook.Run.{same_type, same_side, started}
use tradesphere.OrderBook.Process.{started-IsValid}
use native.Mathlib.Decide.{ℕ_discrete}
use tradesphere.OrderBook.Buy.{buy-IsReady, buy-IsDone, rested_bid}
use tradesphere.OrderBook.Sell.{sell-IsReady, sell-IsDone, rested_ask}

-- The address is in the heaps of the book as often as in those of the other, but for `more` times
-- among the bids and `also` times among the asks.
abbrev pub Gains : ℕ → ℕ → ℕ → OrderBook → OrderBook → Type 0
Gains p more also before after =
    (count p after.buy_orders ≡ count p before.buy_orders + more)
    × (count p after.sell_orders ≡ count p before.sell_orders + also)

-- 1 if the order at `o` has something left and `p` is its address
abbrev pub rests_at : ℕ → (ℕ → Order) → ℕ → ℕ
rests_at o cells p = if o == p && ltb_ℤ (pos 0) (cells o).remaining_quantity then 1 else 0

module _ (w : World) (ob : OrderBook) (o : ℕ) (st : Store) (v : IsValid ob st.cells)
    (n : IsNew ob o) where
  match_buy_order_rests :
      (p : ℕ)
      → let out = match_buy_order w ob o st in
        (o ≡ p) ⊎ (pos 0 <ℤ (out.store.cells p).remaining_quantity)
        → Gains p (rests_at o out.store.cells p) 0 ob out.book
  unfolding match_buy_order
  match_buy_order_rests p h =
      let m = match_against w buy_rules o ob.sell_orders st in
      let d = buy-IsDone w ob o st v n buy_rules.blocked in
      let (fewer, kept) =
        Rounds-heap w min_before-IsPriority o d.rounds (buy-IsReady w ob o st v n buy_rules.blocked)
          p in
      let pushed = (rested_bid w ob o st v n buy_rules.blocked m d).same p in
      ground (arith, fewer, kept, pushed, n.no_ask)

  match_sell_order_rests :
      (p : ℕ)
      → let out = match_sell_order w ob o st in
        (o ≡ p) ⊎ (pos 0 <ℤ (out.store.cells p).remaining_quantity)
        → Gains p 0 (rests_at o out.store.cells p) ob out.book
  unfolding match_sell_order
  match_sell_order_rests p h =
      let m = match_against w sell_rules o ob.buy_orders st in
      let d = sell-IsDone w ob o st v n sell_rules.blocked in
      let (fewer, kept) =
        Rounds-heap w max_before-IsPriority o d.rounds
          (sell-IsReady w ob o st v n sell_rules.blocked) p in
      let pushed = (rested_ask w ob o st v n sell_rules.blocked m d).same p in
      ground (arith, fewer, kept, pushed, n.no_bid)

  match_buy_market_order_keeps :
      (p : ℕ)
      → let out = match_buy_market_order w ob o st in
        (o ≡ p) ⊎ (pos 0 <ℤ (out.store.cells p).remaining_quantity) → Gains p 0 0 ob out.book
  unfolding match_buy_market_order
  match_buy_market_order_keeps p h =
      let d = buy-IsDone w ob o st v n (λ order best. false) in
      let (fewer, kept) =
        Rounds-heap w min_before-IsPriority o d.rounds
          (buy-IsReady w ob o st v n (λ order best. false)) p in
      ground (arith, fewer, kept, n.no_ask)

  match_sell_market_order_keeps :
      (p : ℕ)
      → let out = match_sell_market_order w ob o st in
        (o ≡ p) ⊎ (pos 0 <ℤ (out.store.cells p).remaining_quantity) → Gains p 0 0 ob out.book
  unfolding match_sell_market_order
  match_sell_market_order_keeps p h =
      let d = sell-IsDone w ob o st v n (λ order best. false) in
      let (fewer, kept) =
        Rounds-heap w max_before-IsPriority o d.rounds
          (sell-IsReady w ob o st v n (λ order best. false)) p in
      ground (arith, fewer, kept, n.no_bid)

-- After a market order, whose remaining quantity is set to zero.
module _ (o : ℕ) (ob book : OrderBook) (cells : ℕ → Order)
    (kept : (p : ℕ) → (o ≡ p) ⊎ (pos 0 <ℤ (cells p).remaining_quantity) → Gains p 0 0 ob book) where
  abbrev emptied : ℕ → Order
  emptied = update cells o (set_remaining (pos 0) (cells o))

  emptied_rests : (p : ℕ) → rests_at o emptied p ≡ 0
  emptied_rests p = ground arith

  emptied_kept : (p : ℕ) → (o ≡ p) ⊎ (pos 0 <ℤ (emptied p).remaining_quantity) → Gains p 0 0 ob book
  emptied_kept p (inl e) = kept p (inl e)
  emptied_kept p (inr l) = elim (ℕ_discrete o p) [
    | yes e ↦ kept p (inl e)
    | no ne ↦ kept p (inr (rw (update-ne cells o (set_remaining (pos 0) (cells o)) p ne) at l))
  ]

module _ (w : World) (ob : OrderBook) (o : ℕ) (st : Store) (v : IsValid ob st.cells)
    (n : IsNew ob o) (ranged : InInt64 (st.cells o).quantity) where
  -- In a valid book, for an order that is not in it and whose quantity is an int64: after
  -- ProcessOrder, every other order that has something left is in the two heaps as often as before,
  -- and the order itself is once more in the heap of its side if it has something left, and else as
  -- often as before.
  pub process_order_rests :
      (p : ℕ)
      → let out = process_order w ob o st in
        (o ≡ p) ⊎ (pos 0 <ℤ (out.store.cells p).remaining_quantity)
        → Gains p
            (if is_buy (st.cells o).side then rests_at o out.store.cells p else 0)
            (if is_buy (st.cells o).side then 0 else rests_at o out.store.cells p)
            ob
            out.book
  unfolding process_order
  process_order_rests =
      let valid = started-IsValid w ob o st v n ranged in
      let kind = same_type w ob o st in
      let side = same_side w ob o st in
      let begun = started o st in
      elim (Bool-cases (is_market (st.cells o).type)) [
        | inl m ↦ elim (Bool-cases (is_buy (st.cells o).side)) [
          | inl b ↦
              let out = match_buy_market_order w ob o begun in
              let kept = match_buy_market_order_keeps w ob o begun valid n in
              rw (kind, side, m, b)
                (λ p h.
                  rw (emptied_rests o ob out.book out.store.cells kept p)
                    (emptied_kept o ob out.book out.store.cells kept p h))
          | inr b ↦
              let out = match_sell_market_order w ob o begun in
              let kept = match_sell_market_order_keeps w ob o begun valid n in
              rw (kind, side, m, b)
                (λ p h.
                  rw (emptied_rests o ob out.book out.store.cells kept p)
                    (emptied_kept o ob out.book out.store.cells kept p h))
        ]
        | inr m ↦ elim (Bool-cases (is_buy (st.cells o).side)) [
          | inl b ↦ rw (kind, side, m, b) (match_buy_order_rests w ob o begun valid n)
          | inr b ↦ rw (kind, side, m, b) (match_sell_order_rests w ob o begun valid n)
        ]
      ]
