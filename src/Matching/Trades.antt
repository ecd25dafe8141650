-- ===== src/Matching/Trades.antt =====
-- The trades that a matching loop makes: their quantities and prices, and what each resting order
-- has sold or bought.
use native.Mathlib.Decide.{ℕ_discrete}
use tradesphere.Base.{
  ℕ, ◌<◌, ◌≡◌, ◌≢◌, refl, sym, ◌∙◌, inl, inr, Bool, true, false, List, [], ◌∷◌, ◌++◌, ap, ◌||◌,
  Bool-cases, ==_iff, if◌then◌else◌, All, All-append, ◌==◌, arith,
}
use tradesphere.Int.{ℤ, pos, ◌+ℤ◌, ◌<ℤ◌, int_laws}
use tradesphere.Model.{Order, Trade, World, is_sell}
use tradesphere.Heap.{at}
use tradesphere.Heap.Slice.{count, count_of_index, index_of_count}
use tradesphere.Heap.Order.{root_first}
use tradesphere.Matching.{Rules, Matching, dropped, traded, trade_quantity, create_trade}
use tradesphere.Matching.Priority.{IsPriority, less_at-IsStrictWeak}
use tradesphere.Matching.Step.{drop, trade, IsReady, IsLive, root_apart}
use tradesphere.Matching.Execution.{traded_others, traded_best}
use tradesphere.Matching.Loop.{Rounds, here, next}
use tradesphere.Matching.Fills.{Rounds-IsReady, Rounds-terms, Rounds-heap}

-- The quantity that trades move for the order with this id
abbrev pub filled : ℕ → List Trade → ℤ
filled id [] = pos 0
filled id (t ∷ ts) =
    (if t.buy_order_id == id || t.sell_order_id == id then t.quantity else pos 0) +ℤ filled id ts

filled-append :
    (id : ℕ) (ts : List Trade) (t : Trade)
    → filled id (ts ++ t ∷ [])
      ≡ filled id ts
        +ℤ (if t.buy_order_id == id || t.sell_order_id == id then t.quantity else pos 0)
filled-append id [] t = omega int_laws
filled-append id (u ∷ ts) t = rw (filled-append id ts t) (omega int_laws)

-- What a trade moves for an order that is not the incoming one
abbrev share : ℕ → Trade → ℤ
share id t = if t.buy_order_id == id || t.sell_order_id == id then t.quantity else pos 0

share_resting :
    (w : World) (n : ℕ) (resting incoming : Order) (qty : ℤ) (id : ℕ)
    → incoming.id ≢ id
    → share id (create_trade w n resting incoming qty) ≡ (if resting.id == id then qty else pos 0)
share_resting w n resting incoming qty id h = elim (Bool-cases (is_sell resting.side)) [
  | inl sells ↦ rw sells (ground arith)
  | inr buys ↦ rw buys (ground arith)
]

-- A test on prices that lets through only prices that `accepts` holds of.
abbrev pub IsPriceTest : (Order → Order → Bool) → (ℤ → ℤ → Type 0) → Type 0
IsPriceTest blocked accepts = (a b : Order) → blocked a b ≡ false → accepts a.price b.price

-- A trade of a positive quantity at a price that the order accepts.
abbrev pub IsFair : (ℤ → ℤ → Type 0) → ℤ → Trade → Type 0
IsFair accepts price t = (pos 0 <ℤ t.quantity) × accepts price t.price

module _ (w : World) {rules : Rules} (v : IsPriority rules.before) (o : ℕ) where
  module _ (accepts : ℤ → ℤ → Type 0) (test : IsPriceTest rules.blocked accepts) where
    pub Rounds-IsFair :
        {s t : Matching}
        → Rounds w rules o s t
        → All (IsFair accepts (s.cells o).price) s.trades
        → All (IsFair accepts (s.cells o).price) t.trades
    unfolding dropped traded
    Rounds-IsFair here h = h
    Rounds-IsFair (next rs (drop m l z)) h = Rounds-IsFair rs h
    Rounds-IsFair {s} (next rs (trade m l q)) h =
        let price : (m.cells o).price ≡ (s.cells o).price =
          ap (λ (r : Order). r.price) (Rounds-terms w v o rs o) in
        All-append _ m.trades _ (Rounds-IsFair rs h)
          ((q, rw price at (test (m.cells o) (m.cells (at m.heap 0)) l.open_price)), tt)

  -- If the heap is ordered, the order is not in it, and the quantities are int64, then after any
  -- number of rounds no order of the heap comes before the one at its root.
  pub Rounds-first :
      {s t : Matching}
      → Rounds w rules o s t
      → IsReady rules o s
      → (p : ℕ) → 0 < count p t.heap
      → rules.before (t.cells p) (t.cells (at t.heap 0)) ≡ false
  Rounds-first {t = t} rs r p h =
      let (i, inside, e) = index_of_count p t.heap h in
      let first =
        root_first (less_at-IsStrictWeak v t.cells) t.heap i (Rounds-IsReady w v o rs r).ordered
          inside in
      rw e at first

  trade_fills :
      (s : Matching) (p : ℕ)
      → IsReady rules o s
      → IsLive rules o s
      → pos 0 <ℤ trade_quantity o s
      → (s.cells o).id ≢ (s.cells p).id
      → p ≢ o
      → ((s.cells (at s.heap 0)).id ≡ (s.cells p).id → at s.heap 0 ≡ p)
      → ((traded w rules o s).cells p).remaining_quantity
          +ℤ filled (s.cells p).id (traded w rules o s).trades
        ≡ (s.cells p).remaining_quantity +ℤ filled (s.cells p).id s.trades
  unfolding traded
  trade_fills s p r l q alone ne unique =
      let apart = root_apart w rules o s r l in
      let best = s.cells (at s.heap 0) in
      let qty = trade_quantity o s in
      let t = create_trade w s.draws best (s.cells o) qty in
      let id = (s.cells p).id in
      let moved = share_resting w s.draws best (s.cells o) qty id alone in
      elim (ℕ_discrete (at s.heap 0) p) [
        | yes e ↦
            let same : (best.id == id) ≡ true = rw e ((==_iff id id).1 refl) in
            let left = rw e at (traded_best o s apart r.ranged q) in
            rw (filled-append id s.trades t, moved, same, left) (omega int_laws)
        | no other ↦
            let differs : (best.id == id) ≡ false = ground (arith, unique, other) in
            let kept = traded_others o s p ne (λ e. other (sym e)) in
            rw (filled-append id s.trades t, moved, differs, kept) (omega int_laws)
      ]

  same_id : {s t : Matching} → Rounds w rules o s t → (p : ℕ) → (t.cells p).id ≡ (s.cells p).id
  same_id rs p = ap (λ (r : Order). r.id) (Rounds-terms w v o rs p)

  -- For every other order with an id of its own, what it has left and what the trades moved for it
  -- add up to what it had.
  pub Rounds-fills :
      {s t : Matching}
      → Rounds w rules o s t
      → IsReady rules o s
      → (p : ℕ) → (s.cells o).id ≢ (s.cells p).id
      → p ≢ o
      → ((q : ℕ) → 0 < count q s.heap → (s.cells q).id ≡ (s.cells p).id → q ≡ p)
      → (t.cells p).remaining_quantity +ℤ filled (s.cells p).id t.trades
        ≡ (s.cells p).remaining_quantity +ℤ filled (s.cells p).id s.trades
  unfolding dropped
  Rounds-fills here r p alone ne unique = refl
  Rounds-fills (next rs (drop m l z)) r p alone ne unique = Rounds-fills rs r p alone ne unique
  Rounds-fills {s} (next rs (trade m l q)) r p alone ne unique =
      let best = at m.heap 0 in
      let inside : 0 < count best s.heap =
        omega (arith, count_of_index m.heap 0 l.nonempty, (Rounds-heap w v o rs r best).0) in
      let step =
        trade_fills m p (Rounds-IsReady w v o rs r) l q (rw (same_id rs o, same_id rs p) alone) ne
          (rw (same_id rs best, same_id rs p) (unique best inside)) in
      rw (same_id rs p) at step ∙ Rounds-fills rs r p alone ne unique
