-- ===== src/Matching/Step.antt =====
-- One round of a matching loop as a step relation, and what every round keeps.
use tradesphere.Base.{ℕ, ◌<◌, ◌≡◌, ◌≢◌, ◌⊎◌, inl, inr, true, false, Bool-cases, ltb, length, arith}
use tradesphere.Int.{pos, ◌<ℤ◌, ◌≤ℤ◌, InInt64, ltb_ℤ, leb_ℤ}
use tradesphere.Model.{World}
use tradesphere.Heap.{at}
use tradesphere.Heap.Slice.{count, count_of_index}
use tradesphere.Heap.Order.{IsHeap}
use tradesphere.Matching.{
  Rules, Matching, less_at, dropped, trade_quantity, traded, match_round, stop, continue,
}

-- The test of the loop and the one on prices let a round go on.
pub record IsLive (rules : Rules) (o : ℕ) (s : Matching) : Type 0 where
  pub wants : pos 0 <ℤ (s.cells o).remaining_quantity
  pub nonempty : 0 < length s.heap
  pub open_price : rules.blocked (s.cells o) (s.cells (at s.heap 0)) ≡ false

-- A round that goes on.
pub data MatchStep (w : World) (rules : Rules) (o : ℕ) : Matching → Matching → Type 0 where
  drop :
      (s : Matching)
      → IsLive rules o s
      → (s.cells (at s.heap 0)).remaining_quantity ≤ℤ pos 0
      → MatchStep w rules o s (dropped rules s)
  trade :
      (s : Matching)
      → IsLive rules o s
      → pos 0 <ℤ trade_quantity o s
      → MatchStep w rules o s (traded w rules o s)

-- Why a loop ends: the order is filled, the heap is empty, or the best price is out of reach.
abbrev pub Finished : Rules → ℕ → Matching → Type 0
Finished rules o s =
    ((s.cells o).remaining_quantity ≤ℤ pos 0)
    ⊎ (length s.heap ≡ 0)
    ⊎ (rules.blocked (s.cells o) (s.cells (at s.heap 0)) ≡ true)

-- What holds before every round.
pub record IsReady (rules : Rules) (o : ℕ) (s : Matching) : Type 0 where
  pub ordered : IsHeap (less_at rules.before s.cells) s.heap
  pub apart : count o s.heap ≡ 0
  pub ranged : (p : ℕ) → InInt64 (s.cells p).remaining_quantity

module _ (w : World) (rules : Rules) (o : ℕ) where
  -- A round leaves the loop, with its variables as they are, for one of the three reasons of
  -- Finished, or it goes on and has made one of the two steps of MatchStep.
  pub round_cases :
      (s : Matching)
      → ((match_round w rules o s ≡ stop s) × Finished rules o s)
        ⊎ ((s' : Matching) × (match_round w rules o s ≡ continue s') × MatchStep w rules o s s')
  unfolding match_round trade_quantity
  round_cases s =
      let order = s.cells o in
      let best = s.cells (at s.heap 0) in
      elim (Bool-cases (ltb_ℤ (pos 0) order.remaining_quantity)) [
        | inr filled ↦ inl (rw filled, inl (ground arith))
        | inl wants ↦ elim (Bool-cases (ltb 0 (length s.heap))) [
          | inr empty ↦ inl (rw (wants, empty), inr (inl (ground arith)))
          | inl nonempty ↦ elim (Bool-cases (rules.blocked order best)) [
            | inl blocked ↦ inl (rw (wants, nonempty, blocked), inr (inr blocked))
            | inr open_price ↦
                let live : IsLive rules o s = record {
                  wants = ground arith;
                  nonempty = ground arith;
                  open_price = open_price;
                } in
                elim (Bool-cases (leb_ℤ (trade_quantity o s) (pos 0))) [
                  | inl spent ↦
                      let left : leb_ℤ best.remaining_quantity (pos 0) ≡ true = ground arith in
                      inr (
                        dropped rules s,
                        rw (wants, nonempty, open_price, spent, left),
                        drop s live (ground arith),
                      )
                  | inr trades ↦ inr (
                    traded w rules o s,
                    rw (wants, nonempty, open_price, trades),
                    trade s live (ground arith),
                  )
                ]
          ]
        ]
      ]

  -- The root of the heap is another object than the incoming order.
  pub root_apart : (s : Matching) → IsReady rules o s → IsLive rules o s → o ≢ at s.heap 0
  root_apart s r l e = ground (arith, l.nonempty, r.apart, count_of_index s.heap 0)
