-- ===== src/Engine/Settled.antt =====
-- services/matching-engine/engine/engine.go: SnapshotSymbol before ProcessOrder and RestoreSymbol after
-- it, which is how a create command that failed is taken back.
use mathlib.Core.List.{Memᴰ}
use mathlib.Core.List.Memᴰ
use tradesphere.Base.{
  ℕ, ◌<◌, ◌≡◌, refl, sym, inl, inr, Bool, true, Bool-cases, some, List, [], ◌∷◌, ◌==◌,
  if◌then◌else◌, arith,
}
use mathlib.Core.Path.{subst}
use tradesphere.Int.{pos, ◌<ℤ◌, InInt64}
use tradesphere.Text.{Text, text_eq, text_eq→eq}
use tradesphere.Model.{Order, World, is_buy}
use tradesphere.Dict.{lookup, values}
use tradesphere.Heap.Slice.{count}
use tradesphere.OrderBook.{OrderBook}
use tradesphere.Engine.{
  MatchingEngine, allocate, process_order, of_symbol, snapshot_symbol, restore_symbol,
}
use tradesphere.Engine.Books.{
  HasValidBooks, IsNewTo, lookup_text-insert, process_order-HasValidBooks,
}
use tradesphere.Engine.Filling.{IsIn, is_live, IsValid-agree}
use tradesphere.Engine.Restore.{IsSound, restore_symbol-HasValidBooks}

-- The side of a book on which an order rests
abbrev pub side_of : Bool → OrderBook → List ℕ
side_of buys ob = if buys then ob.buy_orders else ob.sell_orders

-- The books are valid, their objects are not newer than the engine, and each live order of the map
-- rests in the book of its symbol, on its side.
pub record IsSettled (me : MatchingEngine) : Type 0 where
  pub valid : HasValidBooks me
  pub older :
      (symbol : Text) (ob : OrderBook)
      → lookup text_eq symbol me.order_books ≡ some ob
      → (p : ℕ) → IsIn p ob
      → p < me.next
  pub rests :
      (p : ℕ)
      → Memᴰ p (values me.orders)
      → is_live (me.store.cells p) ≡ true
      → (ob : OrderBook) × (lookup text_eq (me.store.cells p).symbol me.order_books ≡ some ob)
        × (0 < count p (side_of (is_buy (me.store.cells p).side) ob))
  pub known : (p : ℕ) → Memᴰ p (values me.orders) → p < me.next

-- An iteration over a map visits only what the map has.
abbrev pub IsIteration : (List ℕ → List ℕ) → Type 0
IsIteration pick = (ps : List ℕ) (p : ℕ) → Memᴰ p (pick ps) → Memᴰ p ps

is_live-wants : (order : Order) → is_live order ≡ true → pos 0 <ℤ order.remaining_quantity
is_live-wants order live = ground (arith, live)

zero_unless : (n : ℕ) → (0 < n → ⊥) → n ≡ 0
zero_unless n h = elim (Bool-cases (n == 0)) [
  | inl e ↦ ground (arith, e)
  | inr e ↦ absurd (h (ground (arith, e)))
]

module _ (me : MatchingEngine) (order : Order) (settled : IsSettled me)
    (in_range : InInt64 order.remaining_quantity) where
  abbrev grown : MatchingEngine
  grown = allocate order me

  grown_ranged : (p : ℕ) → InInt64 (grown.store.cells p).remaining_quantity
  grown_ranged p = elim (Bool-cases (me.next == p)) [
    | inl same ↦ rw same in_range
    | inr other ↦ rw other (settled.valid.ranged p)
  ]

  grown_same : (p : ℕ) → p < me.next → grown.store.cells p ≡ me.store.cells p
  grown_same p lt = ground (arith, lt)

  pub allocate-IsSettled : IsSettled grown
  allocate-IsSettled = record {
    valid = record {
      ranged = grown_ranged;
      valid = λ symbol ob found.
          IsValid-agree me.store.cells grown.store.cells ob
            (λ p inside. grown_same p (settled.older symbol ob found p inside)) grown_ranged
            (settled.valid.valid symbol ob found);
    };
    older = λ symbol ob found p inside. omega (arith, settled.older symbol ob found p inside);
    rests = λ p m. rw (grown_same p (settled.known p m)) (settled.rests p m);
    known = λ p m. omega (arith, settled.known p m);
  }

  pub allocate-IsNewTo : IsNewTo grown me.next
  allocate-IsNewTo symbol ob found =
      let not_in : IsIn me.next ob → ⊥ =
        λ inside. absurd (omega (arith, settled.older symbol ob found me.next inside)) in
      record {
        no_bid = zero_unless (count me.next ob.buy_orders) (λ c. not_in (inl c));
        no_ask = zero_unless (count me.next ob.sell_orders) (λ c. not_in (inr c));
      }

of_symbol-member :
    (symbol : Text) (cells : ℕ → Order) (ps : List ℕ) (order : Order)
    → Memᴰ order (of_symbol symbol cells ps)
    → (p : ℕ) × Memᴰ p ps × (order ≡ cells p) × (order.symbol ≡ symbol)
unfolding of_symbol
of_symbol-member symbol cells [] order m = absurd (Memᴰ.not-nil m)
of_symbol-member symbol cells (q ∷ ps) order m =
    let later : Memᴰ order (of_symbol symbol cells ps)
        → (p : ℕ) × Memᴰ p (q ∷ ps) × (order ≡ cells p) × (order.symbol ≡ symbol) =
      λ n.
        let (p, among, same, here) = of_symbol-member symbol cells ps order n in
        (p, Memᴰ.tail among, same, here) in
    elim (Bool-cases (text_eq (cells q).symbol symbol)) [
      | inl here ↦
          let n : Memᴰ order (cells q ∷ of_symbol symbol cells ps) = rw here at m in
          elim n [
            | Memᴰ.head e ↦ (q, Memᴰ.head refl, e, rw e (text_eq→eq (cells q).symbol symbol here))
            | Memᴰ.tail n' ↦ later n'
          ]
      | inr other ↦ later (rw other at m)
    ]

module _ (w : World) (range pick : List ℕ → List ℕ) (me : MatchingEngine) (o : ℕ)
    (settled : IsSettled me) (iteration : IsIteration pick) where
  resting :
      (symbol : Text) (order : Order)
      → Memᴰ order (of_symbol symbol me.store.cells (pick (values me.orders)))
      → is_live order ≡ true
      → (p : ℕ) × (ob : OrderBook) × (order ≡ me.store.cells p)
        × (lookup text_eq symbol me.order_books ≡ some ob)
        × (0 < count p (side_of (is_buy order.side) ob))
  resting symbol order m live =
      let cells = me.store.cells in
      let (p, among, e, here) = of_symbol-member symbol cells (pick (values me.orders)) order m in
      let (ob, found, counted) =
        subst
          (λ x.
            (ob : OrderBook) × (lookup text_eq x.symbol me.order_books ≡ some ob)
            × (0 < count p (side_of (is_buy x.side) ob)))
          (sym e) (settled.rests p (iteration (values me.orders) p among) (rw⁻¹ e live)) in
      (p, ob, e, subst (λ t. lookup text_eq t me.order_books ≡ some ob) here found, counted)

  snapshot_symbol-IsSound : (symbol : Text) → IsSound (snapshot_symbol pick symbol me)
  unfolding snapshot_symbol
  snapshot_symbol-IsSound symbol =
      let cells = me.store.cells in
      let member = of_symbol-member symbol cells (pick (values me.orders)) in
      record {
        same_symbol = λ order m. let (_, _, _, here) = member order m in here;
        in_range = λ order m. let (p, _, e, _) = member order m in rw e (settled.valid.ranged p);
        uncrossed = λ bid ask mb ma live_b live_a buys sells.
            let (b, ob, eb, fb, cb) = resting symbol bid mb live_b in
            let (a, ob', ea, fa, ca) = resting symbol ask ma live_a in
            let bought = subst (λ t. 0 < count b (side_of t ob)) buys cb in
            let same : ob' ≡ ob = cc in
            let sold : 0 < count a ob.sell_orders =
              subst (λ t. 0 < count a t.sell_orders) same
                (subst (λ t. 0 < count a (side_of t ob')) sells ca) in
            let wants_b =
              subst (λ x. pos 0 <ℤ x.remaining_quantity) eb (is_live-wants bid live_b) in
            let wants_a =
              subst (λ x. pos 0 <ℤ x.remaining_quantity) ea (is_live-wants ask live_a) in
            rw (eb, ea)
              ((settled.valid.valid symbol ob fb).uncrossed b a bought sold wants_b wants_a);
      }

  -- The memory of a create command that is taken back
  pub rollback-HasValidBooks :
      HasValidBooks me
      → IsNewTo me o
      → InInt64 (me.store.cells o).quantity
      → HasValidBooks (
          restore_symbol
            (snapshot_symbol pick (me.store.cells o).symbol me)
            (process_order w range o me).0)
  unfolding process_order snapshot_symbol
  rollback-HasValidBooks v fresh ranged =
      let symbol = (me.store.cells o).symbol in
      let after = process_order-HasValidBooks w range o me v fresh ranged in
      restore_symbol-HasValidBooks (snapshot_symbol pick symbol me) (process_order w range o me).0
        (snapshot_symbol-IsSound symbol) after.ranged
        λ other ob differs found. (
          after.valid other ob found,
          settled.older other ob
              (rw (lookup_text-insert symbol other _ me.order_books, differs) at found),
        )
