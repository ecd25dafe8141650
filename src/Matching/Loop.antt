-- ===== src/Matching/Loop.antt =====
-- The matching loops: their rounds, and their fuel.
use tradesphere.Base.{ℕ, zero, suc, ◌+◌, ◌<◌, inl, inr, List, [], if◌then◌else◌, length, arith}
use tradesphere.Int.{pos, ◌<ℤ◌, ltb_ℤ, -ℤ_parts}
use tradesphere.Model.{World, Store}
use tradesphere.Heap.{at}
use tradesphere.Heap.Queue.{pop_correct}
use tradesphere.Matching.{
  Rules, Matching, dropped, traded, traded_cells, trade_quantity, match_loop, match_against,
}
use tradesphere.Matching.Priority.{IsPriority, less_at-IsStrictWeak}
use tradesphere.Matching.Step.{
  MatchStep, drop, trade, IsReady, IsLive, Finished, round_cases, root_apart,
}
use tradesphere.Matching.Execution.{
  traded_order, traded_best, trade_quantity_exhausts, traded-ordered, step-IsReady,
}

-- Rounds, one after the other.
pub data Rounds (w : World) (rules : Rules) (o : ℕ) (s : Matching) : Matching → Type 0 where
  here : Rounds w rules o s s
  next : {t u : Matching} → Rounds w rules o s t → MatchStep w rules o t u → Rounds w rules o s u

-- The entries of the heap, and one more while the order wants something.
abbrev measure : ℕ → Matching → ℕ
measure o s = length s.heap + (if ltb_ℤ (pos 0) (s.cells o).remaining_quantity then 1 else 0)

-- The variables of a loop at its start
abbrev pub start_of : List ℕ → Store → Matching
start_of heap st = record { heap = heap; cells = st.cells; draws = st.draws; trades = [] }

-- The result of a loop: it was reached by rounds, and ended for one of the reasons of Finished.
pub record IsDone (w : World) (rules : Rules) (o : ℕ) (s t : Matching) : Type 0 where
  pub rounds : Rounds w rules o s t
  pub finished : Finished rules o t
  pub ready : IsReady rules o t

module _ (w : World) {rules : Rules} (v : IsPriority rules.before) (o : ℕ) where
  drop_measure :
      (s : Matching)
      → IsReady rules o s
      → IsLive rules o s
      → measure o (dropped rules s) < measure o s
  unfolding dropped
  drop_measure s r l =
      let popped = pop_correct (less_at-IsStrictWeak v s.cells) s.heap r.ordered l.nonempty in
      omega (arith, popped.size)

  trade_measure :
      (s : Matching)
      → IsReady rules o s
      → IsLive rules o s
      → pos 0 <ℤ trade_quantity o s
      → measure o (traded w rules o s) < measure o s
  unfolding traded
  trade_measure s r l q =
      let apart = root_apart w rules o s r l in
      let popped =
        pop_correct (less_at-IsStrictWeak v (traded_cells o s)) s.heap (traded-ordered w v o s r)
          l.nonempty in
      ground (
        arith,
        -ℤ_parts (s.cells o).remaining_quantity (trade_quantity o s),
        -ℤ_parts (s.cells (at s.heap 0)).remaining_quantity (trade_quantity o s),
        popped.size,
        l.wants,
        trade_quantity_exhausts o s,
        traded_order o s apart r.ranged q,
        traded_best o s apart r.ranged q,
      )

  step_measure :
      {s s' : Matching} → MatchStep w rules o s s' → IsReady rules o s → measure o s' < measure o s
  step_measure (drop s l z) r = drop_measure s r l
  step_measure (trade s l q) r = trade_measure s r l q

  match_loop-IsDone :
      (fuel : ℕ) {start : Matching} (s : Matching)
      → measure o s < fuel
      → IsReady rules o s
      → Rounds w rules o start s
      → IsDone w rules o start (match_loop w rules o fuel s)
  unfolding match_loop
  match_loop-IsDone zero s lt r reach = absurd (omega arith)
  match_loop-IsDone (suc fuel) s lt r reach = elim (round_cases w rules o s) [
    | inl (stops, finished) ↦
        rw (stops, match_loop) record { rounds = reach; finished = finished; ready = r }
    | inr (s', goes, st) ↦
        rw (goes, match_loop)
          (match_loop-IsDone fuel s' (omega (arith, step_measure st r)) (step-IsReady w v o st r)
            (next reach st))
  ]

  -- If the heap is ordered, the order is not in it, and the quantities are int64, then the fuel of a
  -- loop is enough: it makes rounds and ends for one of the reasons of Finished, and the heap is
  -- ordered again.
  pub match_against-IsDone :
      (heap : List ℕ) (st : Store)
      → IsReady rules o (start_of heap st)
      → IsDone w rules o (start_of heap st) (match_against w rules o heap st)
  unfolding match_against
  match_against-IsDone heap st r = match_loop-IsDone (length heap + 2) _ (ground arith) r here
