-- ===== src/Engine/Books.antt =====
-- services/matching-engine/engine/engine.go: ProcessOrder and all books of the engine, the order's own
-- and those that share nothing with it but the store.
use tradesphere.Base.{
  ℕ, ◌≡◌, ◌≢◌, refl, sym, inl, inr, Bool-cases, List, [], ◌∷◌, Option, none, some, if◌then◌else◌,
  arith,
}
use mathlib.Core.Path.{subst}
use tradesphere.Int.{pos, ◌<ℤ◌, InInt64}
use tradesphere.Text.{Text, text_eq, text_eq→eq, text_eq_refl}
use tradesphere.Model.{Order, World, Store, update-ne, is_buy, is_market}
use tradesphere.Dict.{Dict, lookup, insert}
use tradesphere.Matching.Priority.{SameTerms, SameTerms-trans, set_remaining-SameTerms}
use tradesphere.Matching.Fills.{Rounds-terms, Rounds-shrink}
use tradesphere.OrderBook
use tradesphere.OrderBook.{OrderBook, new_order_book, set_remaining, fill_remaining}
use tradesphere.OrderBook.Invariant.{IsValid, IsNew, IsValid-SameTerms}
use tradesphere.OrderBook.Run.{
  run, started, fill_terms, rules_for-IsPriority, market_cells, limit_cells, other_cells,
}
use tradesphere.OrderBook.Process.{run-IsDone, run-IsReady, process_order-IsValid}
use tradesphere.Engine.{
  new_matching_engine, MatchingEngine, process_order, update_order_status, update_statuses,
  get_or_create_order_book,
}
use tradesphere.Engine.Keys.{SameKeys, IsValid-SameKeys}
use tradesphere.Engine.Status.{update_statuses_at}

module _ {V : Type 0} where
  pub lookup_text-insert :
      (k j : Text) (v : V) (d : Dict Text V)
      → lookup text_eq j (insert text_eq k v d)
        ≡ (if text_eq k j then some v else lookup text_eq j d)
  lookup_text-insert k j v [] = refl
  lookup_text-insert k j v ((i, u) ∷ d) = ground (
    arith,
    lookup_text-insert k j v d,
    text_eq→eq i k,
    text_eq→eq k j,
    text_eq→eq i j,
    text_eq_refl i,
    text_eq_refl j,
  )

module _ (w : World) (ob : OrderBook) (o : ℕ) (st : Store) (v : IsValid ob st.cells)
    (n : IsNew ob o) (ranged : InInt64 (st.cells o).quantity) where
  process_terms : SameTerms st.cells (OrderBook.process_order w ob o st).store.cells
  process_terms =
      let begun = started o st in
      let m = run w ob o st in
      let prio = rules_for-IsPriority (is_market (st.cells o).type) (is_buy (st.cells o).side) in
      let ran =
        SameTerms-trans st.cells begun.cells m.cells (fill_terms w ob o st)
          (Rounds-terms w prio o (run-IsDone w ob o st v n ranged).rounds) in
      elim (Bool-cases (is_market (st.cells o).type)) [
        | inl e ↦
            rw (market_cells w ob o st e)
              (SameTerms-trans st.cells m.cells _ ran (set_remaining-SameTerms m.cells o (pos 0)))
        | inr e ↦ rw (limit_cells w ob o st e) ran
      ]

  process_lives :
      (p : ℕ)
      → p ≢ o
      → pos 0 <ℤ ((OrderBook.process_order w ob o st).store.cells p).remaining_quantity
      → pos 0 <ℤ (st.cells p).remaining_quantity
  process_lives p ne l =
      let prio = rules_for-IsPriority (is_market (st.cells o).type) (is_buy (st.cells o).side) in
      let shrunk =
        Rounds-shrink w prio o (run-IsDone w ob o st v n ranged).rounds
          (run-IsReady w ob o st v n ranged) p in
      let kept = update-ne st.cells o (fill_remaining (st.cells o)) p (λ e. ne (sym e)) in
      let l' = rw (other_cells w ob o st p ne) at l in
      let wants : pos 0 <ℤ ((started o st).cells p).remaining_quantity =
        omega (arith, shrunk.0, l') in
      rw kept at wants

some_inj : {A : Type 0} {a b : A} → some a ≡ some b → a ≡ b
some_inj h = cc

-- The loop over the statuses keeps a book valid.
module _ (cells : ℕ → Order) (ps : List ℕ) where
  statuses_keys : SameKeys cells (update_statuses ps cells)
  unfolding SameKeys update_order_status
  statuses_keys p = ground (arith, update_statuses_at ps cells p)

  statuses_remain :
      (p : ℕ)
      → InInt64 (cells p).remaining_quantity
      → InInt64 (update_statuses ps cells p).remaining_quantity
        × (pos 0 <ℤ (update_statuses ps cells p).remaining_quantity
            → pos 0 <ℤ (cells p).remaining_quantity)
  unfolding update_order_status
  statuses_remain p h = ground (arith, update_statuses_at ps cells p)

  statuses-IsValid : {ob : OrderBook} → IsValid ob cells → IsValid ob (update_statuses ps cells)
  statuses-IsValid {ob} v =
      IsValid-SameKeys cells (update_statuses ps cells) ob v statuses_keys
        (λ p. (statuses_remain p (v.ranged p)).0) (λ p. (statuses_remain p (v.ranged p)).1)

-- Every book that the engine has is valid, and quantities are int64.
pub record HasValidBooks (me : MatchingEngine) : Type 0 where
  pub ranged : (p : ℕ) → InInt64 (me.store.cells p).remaining_quantity
  pub valid :
      (symbol : Text) (ob : OrderBook)
      → lookup text_eq symbol me.order_books ≡ some ob
      → IsValid ob me.store.cells

-- A new engine has no books.
new_matching_engine-HasValidBooks :
    (store : Store) (next : ℕ)
    → ((p : ℕ) → InInt64 (store.cells p).remaining_quantity)
    → HasValidBooks (new_matching_engine store next)
new_matching_engine-HasValidBooks store next ranged = record {
  ranged = ranged;
  valid = λ symbol ob found. absurd cc;
}

-- The object at `o` is in none of the engine's books.
abbrev pub IsNewTo : MatchingEngine → ℕ → Type 0
IsNewTo me o =
    (symbol : Text) (ob : OrderBook) → lookup text_eq symbol me.order_books ≡ some ob → IsNew ob o

module _ (w : World) (range : List ℕ → List ℕ) (o : ℕ) (me : MatchingEngine)
    (valid : HasValidBooks me) (fresh : IsNewTo me o)
    (ranged : InInt64 (me.store.cells o).quantity) where
  abbrev symbol_of : Text
  symbol_of = (me.store.cells o).symbol

  abbrev book_of : OrderBook
  book_of = get_or_create_order_book me symbol_of

  found-IsValid :
      (r : Option OrderBook)
      → lookup text_eq symbol_of me.order_books ≡ r
      → IsValid (elim r [ none ↦ new_order_book | some ob ↦ ob ]) me.store.cells
  found-IsValid none missing = record {
    bids = λ c p q. absurd (omega arith);
    asks = λ c p q. absurd (omega arith);
    ranged = valid.ranged;
    uncrossed = λ b a hb ha lb la. absurd (omega arith);
  }
  found-IsValid (some ob) found = valid.valid symbol_of ob found

  found-IsNew :
      (r : Option OrderBook)
      → lookup text_eq symbol_of me.order_books ≡ r
      → IsNew (elim r [ none ↦ new_order_book | some ob ↦ ob ]) o
  found-IsNew none missing = record { no_bid = refl; no_ask = refl }
  found-IsNew (some ob) found = fresh symbol_of ob found

  book_of-IsValid : IsValid book_of me.store.cells
  book_of-IsValid = found-IsValid (lookup text_eq symbol_of me.order_books) refl

  book_of-IsNew : IsNew book_of o
  book_of-IsNew = found-IsNew (lookup text_eq symbol_of me.order_books) refl

  abbrev out : OrderBook.Outcome
  out = OrderBook.process_order w book_of o me.store

  out-IsValid : IsValid out.book out.store.cells
  out-IsValid = process_order-IsValid w book_of o me.store book_of-IsValid book_of-IsNew ranged

  others-IsValid :
      (symbol : Text) (ob : OrderBook)
      → lookup text_eq symbol me.order_books ≡ some ob
      → IsValid ob out.store.cells
  others-IsValid symbol ob found =
      let apart = fresh symbol ob found in
      IsValid-SameTerms me.store.cells out.store.cells (valid.valid symbol ob found)
        (process_terms w book_of o me.store book_of-IsValid book_of-IsNew ranged) out-IsValid.ranged
        λ p inside.
          process_lives w book_of o me.store book_of-IsValid book_of-IsNew ranged p
            (λ e. ground (arith, apart.no_bid, apart.no_ask, inside))

  kept-IsValid :
      (symbol : Text) (ob : OrderBook)
      → lookup text_eq symbol (insert text_eq symbol_of out.book me.order_books) ≡ some ob
      → IsValid ob out.store.cells
  kept-IsValid symbol ob found = elim (Bool-cases (text_eq symbol_of symbol)) [
    | inl same ↦
        subst (λ b. IsValid b out.store.cells)
          (some_inj
            (rw (lookup_text-insert symbol_of symbol out.book me.order_books, same) at found))
          out-IsValid
    | inr other ↦
        others-IsValid symbol ob
          (rw (lookup_text-insert symbol_of symbol out.book me.order_books, other) at found)
  ]

  -- If the order is in none of the engine's books, all of which are valid, and its quantity is an
  -- int64, then after ProcessOrder all books of the engine are valid again, whatever the order in
  -- which Go visits the map of changed orders.
  pub process_order-HasValidBooks : HasValidBooks (process_order w range o me).0
  unfolding process_order
  process_order-HasValidBooks = record {
    ranged = λ p. (statuses_remain out.store.cells _ p (out-IsValid.ranged p)).0;
    valid = λ symbol ob found. statuses-IsValid out.store.cells _ (kept-IsValid symbol ob found);
  }
