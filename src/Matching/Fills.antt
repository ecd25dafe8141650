-- ===== src/Matching/Fills.antt =====
-- What the rounds of a matching loop change, and what they leave: quantities, terms, and the heap.
use native.Mathlib.Decide.{ℕ_discrete}
use tradesphere.Base.{ℕ, ◌≤◌, ◌≡◌, refl, ◌∙◌, List, [], ◌∷◌, ◌++◌, arith}
use tradesphere.Int.{ℤ, pos, ◌+ℤ◌, ◌<ℤ◌, ◌≤ℤ◌, int_laws}
use tradesphere.Model.{Trade, World}
use tradesphere.Heap.{at}
use tradesphere.Heap.Slice.{count}
use tradesphere.Heap.Queue.{pop_correct}
use tradesphere.Matching.{
  Rules, Matching, dropped, traded, traded_cells, trade_quantity, create_trade,
}
use tradesphere.Matching.Priority.{IsPriority, SameTerms, SameTerms-trans, less_at-IsStrictWeak}
use tradesphere.Matching.Step.{MatchStep, drop, trade, IsReady, root_apart}
use tradesphere.Matching.Execution.{
  traded_terms, traded_others, traded_order, traded_best, trade_quantity_le, traded-ordered,
  step-IsReady,
}
use tradesphere.Matching.Loop.{Rounds, here, next}

-- The sum of the quantities of trades
abbrev pub total_quantity : List Trade → ℤ
total_quantity [] = pos 0
total_quantity (t ∷ ts) = t.quantity +ℤ total_quantity ts

total_quantity-append :
    (ts : List Trade) (t : Trade) → total_quantity (ts ++ t ∷ []) ≡ total_quantity ts +ℤ t.quantity
total_quantity-append [] t = omega int_laws
total_quantity-append (u ∷ ts) t = rw (total_quantity-append ts t) (omega int_laws)

module _ (w : World) {rules : Rules} (v : IsPriority rules.before) (o : ℕ) where
  pub Rounds-IsReady :
      {s t : Matching} → Rounds w rules o s t → IsReady rules o s → IsReady rules o t
  Rounds-IsReady here r = r
  Rounds-IsReady (next rs st) r = step-IsReady w v o st (Rounds-IsReady rs r)

  step_terms : {s t : Matching} → MatchStep w rules o s t → SameTerms s.cells t.cells
  unfolding dropped traded
  step_terms (drop s l z) = λ p. refl
  step_terms (trade s l q) = traded_terms o s

  -- Only remaining quantities change.
  pub Rounds-terms : {s t : Matching} → Rounds w rules o s t → SameTerms s.cells t.cells
  Rounds-terms here = λ p. refl
  Rounds-terms {s} (next {t = m} {u = u} rs st) =
      SameTerms-trans s.cells m.cells u.cells (Rounds-terms rs) (step_terms st)

  step_conserves :
      {s t : Matching}
      → MatchStep w rules o s t
      → IsReady rules o s
      → total_quantity t.trades +ℤ (t.cells o).remaining_quantity
        ≡ total_quantity s.trades +ℤ (s.cells o).remaining_quantity
  unfolding dropped traded
  step_conserves (drop s l z) r = refl
  step_conserves (trade s l q) r =
      rw
        (
          total_quantity-append s.trades
              (create_trade w s.draws (s.cells (at s.heap 0)) (s.cells o) (trade_quantity o s)),
          traded_order o s (root_apart w rules o s r l) r.ranged q,
        )
        (omega int_laws)

  -- What the order has left and what it has traded add up to what it had.
  pub Rounds-conserve :
      {s t : Matching}
      → Rounds w rules o s t
      → IsReady rules o s
      → total_quantity t.trades +ℤ (t.cells o).remaining_quantity
        ≡ total_quantity s.trades +ℤ (s.cells o).remaining_quantity
  Rounds-conserve here r = refl
  Rounds-conserve (next rs st) r = step_conserves st (Rounds-IsReady rs r) ∙ Rounds-conserve rs r

  -- A round takes nothing below zero, and gives nothing back.
  step_shrinks :
      {s t : Matching}
      → MatchStep w rules o s t
      → IsReady rules o s
      → (p : ℕ)
      → ((t.cells p).remaining_quantity ≤ℤ (s.cells p).remaining_quantity)
        × (pos 0 ≤ℤ (s.cells p).remaining_quantity → pos 0 ≤ℤ (t.cells p).remaining_quantity)
  unfolding dropped traded
  step_shrinks (drop s l z) r p = omega arith
  step_shrinks (trade s l q) r p =
      let apart = root_apart w rules o s r l in
      elim (ℕ_discrete p o) [
        | yes e ↦
            rw (e, traded_order o s apart r.ranged q) (omega (int_laws, (trade_quantity_le o s).0))
        | no ne ↦ elim (ℕ_discrete p (at s.heap 0)) [
          | yes e ↦
              rw (e, traded_best o s apart r.ranged q) (omega (int_laws, (trade_quantity_le o s).1))
          | no other ↦ rw (traded_others o s p ne other) (omega arith)
        ]
      ]

  pub Rounds-shrink :
      {s t : Matching}
      → Rounds w rules o s t
      → IsReady rules o s
      → (p : ℕ)
      → ((t.cells p).remaining_quantity ≤ℤ (s.cells p).remaining_quantity)
        × (pos 0 ≤ℤ (s.cells p).remaining_quantity → pos 0 ≤ℤ (t.cells p).remaining_quantity)
  Rounds-shrink here r p = omega arith
  Rounds-shrink (next rs st) r p =
      let a = step_shrinks st (Rounds-IsReady rs r) p in
      let b = Rounds-shrink rs r p in (omega (arith, a.0, b.0), λ h. a.1 (b.1 h))

  -- An entry leaves the heap only when nothing is left of it; none comes in.
  step_heap :
      {s t : Matching}
      → MatchStep w rules o s t
      → IsReady rules o s
      → (p : ℕ)
      → (count p t.heap ≤ count p s.heap)
        × (pos 0 <ℤ (t.cells p).remaining_quantity → count p t.heap ≡ count p s.heap)
  unfolding dropped traded
  step_heap (drop s l z) r p =
      let popped = pop_correct (less_at-IsStrictWeak v s.cells) s.heap r.ordered l.nonempty in
      ground (arith, popped.same p)
  step_heap (trade s l q) r p =
      let popped =
        pop_correct (less_at-IsStrictWeak v (traded_cells o s)) s.heap (traded-ordered w v o s r)
          l.nonempty in
      ground (arith, popped.same p)

  -- If the heap is ordered, the order is not in it, and the quantities are int64: rounds never add an
  -- entry to the heap, and an order that has something left after them is in the heap as often as
  -- before them.
  pub Rounds-heap :
      {s t : Matching}
      → Rounds w rules o s t
      → IsReady rules o s
      → (p : ℕ)
      → (count p t.heap ≤ count p s.heap)
        × (pos 0 <ℤ (t.cells p).remaining_quantity → count p t.heap ≡ count p s.heap)
  Rounds-heap here r p = (omega arith, λ h. refl)
  Rounds-heap (next rs st) r p =
      let now = Rounds-IsReady rs r in
      let a = step_heap st now p in
      let b = Rounds-heap rs r p in
      let shrunk = step_shrinks st now p in
      (omega (arith, a.0, b.0), λ h. a.1 h ∙ b.1 (omega (arith, shrunk.0)))
