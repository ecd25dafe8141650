-- ===== src/Matching/Simulation.antt =====
-- The matching loops make the trades of the description by priority, if no two resting orders tie.
use tradesphere.Base.{
  ℕ, suc, ◌<◌, ◌≡◌, refl, sym, ap, ◌∙◌, inl, inr, Bool, true, false, Bool-cases, List, [], ◌∷◌,
  ◌++◌, map, arith,
}
use mathlib.Core.List.{append_assoc, append-nil}
use tradesphere.Int.{ℤ, pos, ◌-ℤ◌, -ℤ_parts, ◌<ℤ◌, ◌≤ℤ◌, eqb_ℤ, leb_ℤ}
use tradesphere.Model.{Order, World}
use tradesphere.Heap.{at}
use tradesphere.Heap.Slice.{count, count_of_index}
use tradesphere.Heap.Queue.{pop_correct}
use tradesphere.Matching.{
  Rules, Matching, less_at, dropped, traded, traded_cells, trade_quantity, create_trade,
}
use tradesphere.Matching.Priority.{IsPriority, less_at-IsStrictWeak, less_at-SameTerms}
use tradesphere.Matching.Step.{MatchStep, drop, trade, IsReady, IsLive, root_apart}
use tradesphere.Matching.Execution.{
  traded_terms, traded_others, traded_order, traded_best, trade_quantity_exhausts, traded-ordered,
}
use tradesphere.Matching.Loop.{Rounds, here, next, IsDone}
use tradesphere.Matching.Fills.{Rounds-IsReady}
use tradesphere.Matching.Reference.{
  priority_trades, IsSorted-same, priority_trades-terms, priority_trades_filled, map-agree,
}
use tradesphere.Matching.Listed.{
  IsListed, coming, HasNoTies-tail, HasNoTies-same, first_root, Finished-coming,
}

module _ (w : World) {rules : Rules} (v : IsPriority rules.before) (o : ℕ) where
  module _
      (terms : (a b : Order) (x : ℤ)
        → rules.blocked (record a { remaining_quantity = x }) b ≡ rules.blocked a b)
      (s : Matching) (p : ℕ) (ps : List ℕ) (r : IsReady rules o s) (l : IsLive rules o s)
      (q : pos 0 <ℤ trade_quantity o s) (k : IsListed rules s (p ∷ ps)) where
    abbrev left : ℤ
    left = (s.cells o).remaining_quantity -ℤ trade_quantity o s

    abbrev less : ℕ → ℕ → Bool
    less = less_at rules.before s.cells

    -- A trade leaves the other orders of the list.
    later_cells : (x : ℕ) → 0 < count x ps → traded_cells o s x ≡ s.cells x
    later_cells x m =
        let root = (first_root w v o s p ps r k).1 in
        traded_others o s x (ground (arith, r.apart, k.same x))
          (ground (arith, root, k.strict.once x))

    coming_later :
        coming w rules o (traded w rules o s) ps
        ≡ priority_trades w rules.blocked (s.cells o) left (suc s.draws) (map s.cells ps)
    unfolding traded
    coming_later =
        rw
          (
            map-agree (traded_cells o s) s.cells ps later_cells,
            traded_terms o s o,
            traded_order o s (root_apart w rules o s r l) r.ranged q,
          )
          (priority_trades-terms w rules.blocked terms (s.cells o) left left (suc s.draws)
            (map s.cells ps))

    traded_less : (i j : ℕ) → less_at rules.before (traded_cells o s) i j ≡ less i j
    traded_less = less_at-SameTerms v s.cells (traded_cells o s) (traded_terms o s)

    coming_now :
        coming w rules o s (p ∷ ps)
        ≡ create_trade w s.draws (s.cells (at s.heap 0)) (s.cells o) (trade_quantity o s)
          ∷ priority_trades w rules.blocked (s.cells o) left (suc s.draws) (map s.cells ps)
    unfolding priority_trades trade_quantity
    coming_now =
        let root = (first_root w v o s p ps r k).1 in
        let wants : leb_ℤ (s.cells o).remaining_quantity (pos 0) ≡ false =
          ground (arith, l.wants) in
        let left : leb_ℤ (s.cells p).remaining_quantity (pos 0) ≡ false =
          ground (arith, rw root at q) in
        rw (wants, rw root at l.open_price, left, root)

    -- What a trade should leave, with the list that it goes on with
    abbrev Goes : List ℕ → Type 0
    Goes ps' =
        IsListed rules (traded w rules o s) ps'
        × ((traded w rules o s).trades ++ coming w rules o (traded w rules o s) ps'
            ≡ s.trades ++ coming w rules o s (p ∷ ps))

    used_trades : eqb_ℤ (traded_cells o s (at s.heap 0)).remaining_quantity (pos 0) ≡ true → Goes ps
    unfolding traded
    used_trades used =
        let popped =
          pop_correct (less_at-IsStrictWeak v (traded_cells o s)) s.heap (traded-ordered w v o s r)
            l.nonempty in
        let root = (first_root w v o s p ps r k).1 in
        let listed : IsListed rules (traded w rules o s) ps = record {
          sorted = IsSorted-same ps traded_less k.sorted.1;
          same = λ a. rw used (ground (arith, rw root at (popped.same a), k.same a));
          strict = HasNoTies-same traded_less (HasNoTies-tail k.strict);
        } in
        (listed, rw (coming_later, coming_now) (append_assoc s.trades _ _))

    left_trades :
        eqb_ℤ (traded_cells o s (at s.heap 0)).remaining_quantity (pos 0) ≡ false → Goes (p ∷ ps)
    unfolding traded
    left_trades rest =
        let apart = root_apart w rules o s r l in
        let listed : IsListed rules (traded w rules o s) (p ∷ ps) = record {
          sorted = IsSorted-same (p ∷ ps) traded_less k.sorted;
          same = λ a. rw rest (k.same a);
          strict = HasNoTies-same traded_less k.strict;
        } in
        let filled : left ≤ℤ pos 0 = ground (
          arith,
          -ℤ_parts (s.cells o).remaining_quantity (trade_quantity o s),
          -ℤ_parts (s.cells (at s.heap 0)).remaining_quantity (trade_quantity o s),
          trade_quantity_exhausts o s,
          traded_best o s apart r.ranged q,
        ) in
        let none_now =
          priority_trades_filled w rules.blocked (traded_cells o s o)
            (traded_cells o s o).remaining_quantity (suc s.draws) (map (traded_cells o s) (p ∷ ps))
            (rw (traded_order o s apart r.ranged q) filled) in
        let none_later =
          priority_trades_filled w rules.blocked (s.cells o) left (suc s.draws) (map s.cells ps)
            filled in
        (listed, rw (coming_now, none_later, none_now) (append-nil _))

    trade_trades : (ps' : List ℕ) × Goes ps'
    trade_trades =
        elim (Bool-cases (eqb_ℤ (traded_cells o s (at s.heap 0)).remaining_quantity (pos 0))) [
          | inl used ↦ (ps, used_trades used)
          | inr rest ↦ (p ∷ ps, left_trades rest)
        ]

  step_trades :
      {s s' : Matching} (ps : List ℕ)
      → ((a b : Order) (x : ℤ)
          → rules.blocked (record a { remaining_quantity = x }) b ≡ rules.blocked a b)
      → MatchStep w rules o s s'
      → IsReady rules o s
      → IsListed rules s ps
      → (ps' : List ℕ) × IsListed rules s' ps'
        × (s'.trades ++ coming w rules o s' ps' ≡ s.trades ++ coming w rules o s ps)
  unfolding dropped traded priority_trades
  step_trades [] terms (drop s l z) r k =
      absurd (omega (arith, count_of_index s.heap 0 l.nonempty, k.same (at s.heap 0)))
  step_trades [] terms (trade s l q) r k =
      absurd (omega (arith, count_of_index s.heap 0 l.nonempty, k.same (at s.heap 0)))
  step_trades (p ∷ ps) terms (drop s l z) r k =
      let root = (first_root w v o s p ps r k).1 in
      let popped = pop_correct (less_at-IsStrictWeak v s.cells) s.heap r.ordered l.nonempty in
      let listed : IsListed rules (dropped rules s) ps = record {
        sorted = k.sorted.1;
        same = λ a. omega (arith, popped.same a, k.same a, rw root at (popped.same a));
        strict = HasNoTies-tail k.strict;
      } in
      let wants : leb_ℤ (s.cells o).remaining_quantity (pos 0) ≡ false = ground (arith, l.wants) in
      let spent : leb_ℤ (s.cells p).remaining_quantity (pos 0) ≡ true =
        ground (arith, rw root at z) in
      (ps, listed, rw (wants, rw root at l.open_price, spent))
  step_trades (p ∷ ps) terms (trade s l q) r k =
      let (ps', goes) = trade_trades terms s p ps r l q k in (ps', goes.0, goes.1)

  module _
      (terms : (a b : Order) (x : ℤ)
        → rules.blocked (record a { remaining_quantity = x }) b ≡ rules.blocked a b) where
    Rounds-trades :
        {s t : Matching} (ps : List ℕ)
        → Rounds w rules o s t
        → IsReady rules o s
        → IsListed rules s ps
        → (ps' : List ℕ) × IsListed rules t ps'
          × (t.trades ++ coming w rules o t ps' ≡ s.trades ++ coming w rules o s ps)
    Rounds-trades ps here r k = (ps, k, refl)
    Rounds-trades ps (next rs st) r k =
        let (ps', k', e) = Rounds-trades ps rs r k in
        let (ps'', k'', e') = step_trades ps' terms st (Rounds-IsReady w v o rs r) k' in
        (ps'', k'', e' ∙ e)

    -- A loop that has ended has made the trades that were to come at its start.
    pub IsDone-trades :
        {s t : Matching} (ps : List ℕ)
        → IsDone w rules o s t
        → IsReady rules o s
        → IsListed rules s ps
        → t.trades ≡ s.trades ++ coming w rules o s ps
    IsDone-trades {s} {t} ps d r k =
        let (ps', k', e) = Rounds-trades ps d.rounds r k in
        sym (append-nil t.trades)
        ∙ ap (λ ts. t.trades ++ ts) (sym (Finished-coming w v o t ps' d.ready k' d.finished))
        ∙ e
