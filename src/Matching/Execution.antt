-- ===== src/Matching/Execution.antt =====
-- What a trade does to the two orders, and what a round keeps.
use tradesphere.Base.{ℕ, ◌≡◌, ◌≢◌, ◌⊎◌, inl, inr, Bool-cases, arith}
use tradesphere.Int.{
  ℤ, pos, ◌-ℤ◌, ◌<ℤ◌, ◌≤ℤ◌, InInt64, eqb_ℤ, sub64, sub64_exact, sub64-InInt64, int_laws,
}
use tradesphere.Model.{Order, World, update}
use tradesphere.Heap.{at}
use tradesphere.Heap.Order.{IsHeap}
use tradesphere.Heap.Queue.{pop_correct}
use tradesphere.Matching.{
  Rules, Matching, less_at, reduce, dropped, trade_quantity, traded_cells, traded,
}
use tradesphere.Matching.Priority.{
  IsPriority, SameTerms, less_at-IsStrictWeak, less_at-SameTerms, SameTerms-trans, update-SameTerms,
}
use tradesphere.Matching.Step.{IsLive, MatchStep, drop, trade, IsReady}

-- A trade takes no more than either side has left.
pub trade_quantity_le :
    (o : ℕ) (s : Matching)
    → (trade_quantity o s ≤ℤ (s.cells o).remaining_quantity)
      × (trade_quantity o s ≤ℤ (s.cells (at s.heap 0)).remaining_quantity)
unfolding trade_quantity
trade_quantity_le o s = ground arith

-- A trade uses up the order or the root.
pub trade_quantity_exhausts :
    (o : ℕ) (s : Matching)
    → (trade_quantity o s ≡ (s.cells o).remaining_quantity)
      ⊎ (trade_quantity o s ≡ (s.cells (at s.heap 0)).remaining_quantity)
unfolding trade_quantity
trade_quantity_exhausts o s = ground arith

-- Taking a positive part of an int64 does not wrap around.
take_part : (a q : ℤ) → InInt64 a → pos 0 <ℤ q → q ≤ℤ a → sub64 a q ≡ a -ℤ q
take_part a q h p le = sub64_exact a q (omega int_laws)

pub traded_terms : (o : ℕ) (s : Matching) → SameTerms s.cells (traded_cells o s)
unfolding traded_cells
traded_terms o s =
    let qty = trade_quantity o s in
    let cells = update s.cells o (reduce qty (s.cells o)) in
    SameTerms-trans s.cells cells _ (update-SameTerms s.cells o _)
      (update-SameTerms cells (at s.heap 0) _)

pub traded_others :
    (o : ℕ) (s : Matching) (p : ℕ) → p ≢ o → p ≢ at s.heap 0 → traded_cells o s p ≡ s.cells p
unfolding traded_cells
traded_others o s p h k = ground arith

module _ (o : ℕ) (s : Matching) (apart : o ≢ at s.heap 0)
    (ranged : (p : ℕ) → InInt64 (s.cells p).remaining_quantity)
    (q : pos 0 <ℤ trade_quantity o s) where
  pub traded_order :
      (traded_cells o s o).remaining_quantity ≡ (s.cells o).remaining_quantity -ℤ trade_quantity o s
  unfolding traded_cells
  traded_order = ground (
    arith,
    take_part (s.cells o).remaining_quantity (trade_quantity o s) (ranged o) q
        (trade_quantity_le o s).0,
  )

  pub traded_best :
      (traded_cells o s (at s.heap 0)).remaining_quantity
      ≡ (s.cells (at s.heap 0)).remaining_quantity -ℤ trade_quantity o s
  unfolding traded_cells
  traded_best = ground (
    arith,
    take_part (s.cells (at s.heap 0)).remaining_quantity (trade_quantity o s) (ranged (at s.heap 0))
        q (trade_quantity_le o s).1,
  )

update-ranged :
    (cells : ℕ → Order) (a : ℕ) (q : ℤ)
    → ((p : ℕ) → InInt64 (cells p).remaining_quantity)
    → (p : ℕ) → InInt64 (update cells a (reduce q (cells a)) p).remaining_quantity
update-ranged cells a q h p = ground (arith, h p, sub64-InInt64 (cells a).remaining_quantity q)

module _ (w : World) {rules : Rules} (v : IsPriority rules.before) (o : ℕ) where
  drop-IsReady :
      (s : Matching) → IsReady rules o s → IsLive rules o s → IsReady rules o (dropped rules s)
  unfolding dropped
  drop-IsReady s r l =
      let popped = pop_correct (less_at-IsStrictWeak v s.cells) s.heap r.ordered l.nonempty in
      record {
        ordered = popped.ordered;
        apart = omega (arith, popped.same o, r.apart);
        ranged = r.ranged;
      }

  traded-ranged :
      (s : Matching) → IsReady rules o s → (p : ℕ) → InInt64 (traded_cells o s p).remaining_quantity
  unfolding traded_cells
  traded-ranged s r =
      let qty = trade_quantity o s in
      let cells = update s.cells o (reduce qty (s.cells o)) in
      update-ranged cells (at s.heap 0) qty (update-ranged s.cells o qty r.ranged)

  pub traded-ordered :
      (s : Matching) → IsReady rules o s → IsHeap (less_at rules.before (traded_cells o s)) s.heap
  traded-ordered s r c p q =
      rw (less_at-SameTerms v s.cells (traded_cells o s) (traded_terms o s)) (r.ordered c p q)

  trade-IsReady :
      (s : Matching) → IsReady rules o s → IsLive rules o s → IsReady rules o (traded w rules o s)
  unfolding traded
  trade-IsReady s r l =
      let cells = traded_cells o s in
      let ordered = traded-ordered s r in
      let popped = pop_correct (less_at-IsStrictWeak v cells) s.heap ordered l.nonempty in
      elim (Bool-cases (eqb_ℤ (cells (at s.heap 0)).remaining_quantity (pos 0))) [
        | inl used ↦ rw used record {
          ordered = popped.ordered;
          apart = omega (arith, popped.same o, r.apart);
          ranged = traded-ranged s r;
        }
        | inr left ↦
            rw left record { ordered = ordered; apart = r.apart; ranged = traded-ranged s r }
      ]

  -- Every round keeps what holds before it.
  pub step-IsReady :
      {s s' : Matching} → MatchStep w rules o s s' → IsReady rules o s → IsReady rules o s'
  step-IsReady (drop s l z) r = drop-IsReady s r l
  step-IsReady (trade s l q) r = trade-IsReady s r l
