-- ===== src/Engine/Restore.antt =====
-- services/matching-engine/engine/engine.go: RestoreSymbol, which puts copies of the orders of a snapshot
-- into the engine.
use mathlib.Core.List.{Memᴰ}
use tradesphere.Base.{
  ℕ, ◌<◌, ◌≡◌, refl, sym, inl, inr, true, false, Bool-cases, none, some, List, [], ◌∷◌, ◌==◌,
  if◌then◌else◌, arith,
}
use mathlib.Core.Path.{subst}
use tradesphere.Int.{◌<ℤ◌, InInt64}
use tradesphere.Text.{Text, text_eq, text_eq→eq, text_eq_refl}
use tradesphere.Model.{Order, is_buy, update_self}
use tradesphere.Dict.{lookup, delete, Dict}
use tradesphere.OrderBook
use tradesphere.OrderBook.{OrderBook, new_order_book}
use tradesphere.OrderBook.Invariant.{IsValid}
use tradesphere.Engine.{
  MatchingEngine, SymbolSnapshot, get_or_create_order_book, register, rest_order, allocate,
  restore_copies, restore_symbol,
}
use tradesphere.Engine.Books.{HasValidBooks, lookup_text-insert}
use tradesphere.Engine.Recover.{put-get}
use tradesphere.Engine.Filling.{
  IsIn, is_live, IsValid-agree, IsFilling, IsFilling-allocate, IsFilling-rest,
}

-- The engine while it restores a symbol: the book of the symbol is being filled, all others are valid.
record IsRestoring (symbol : Text) (os : List Order) (me : MatchingEngine) : Type 0 where
  ranged : (p : ℕ) → InInt64 (me.store.cells p).remaining_quantity
  own : IsFilling os me.next me.store.cells (get_or_create_order_book me symbol)
  others :
      (other : Text) (ob : OrderBook)
      → text_eq symbol other ≡ false
      → lookup text_eq other me.order_books ≡ some ob
      → IsValid ob me.store.cells × ((p : ℕ) → IsIn p ob → p < me.next)

module _ (symbol : Text) (os : List Order) (me : MatchingEngine) (order : Order)
    (r : IsRestoring symbol os me) (here : order.symbol ≡ symbol)
    (in_range : InInt64 order.remaining_quantity) where
  abbrev known : MatchingEngine
  known = register me.next (allocate order me)

  known_ranged : (p : ℕ) → InInt64 (known.store.cells p).remaining_quantity
  known_ranged p = elim (Bool-cases (me.next == p)) [
    | inl same ↦ rw same in_range
    | inr other ↦ rw other (r.ranged p)
  ]

  known_others :
      (other : Text) (ob : OrderBook)
      → text_eq symbol other ≡ false
      → lookup text_eq other me.order_books ≡ some ob
      → IsValid ob known.store.cells × ((p : ℕ) → IsIn p ob → p < known.next)
  known_others other ob differs found =
      let (v, older) = r.others other ob differs found in
      (
        IsValid-agree me.store.cells known.store.cells ob
            (λ p inside. ground (arith, older p inside)) known_ranged v,
        λ p inside. omega (arith, older p inside),
      )

  known-IsRestoring : IsRestoring symbol os known
  known-IsRestoring = record {
    ranged = known_ranged;
    own =
        IsFilling-allocate os me.next me.store.cells (get_or_create_order_book me symbol) order
          r.own;
    others = known_others;
  }

  rest_order-IsRestoring :
      Memᴰ order os → is_live order ≡ true → IsRestoring symbol os (rest_order me.next known)
  rest_order-IsRestoring m live =
      let cells = me.store.cells in
      let book = get_or_create_order_book me symbol in
      let filled = OrderBook.restore_order book me.next known.store.cells in
      let new : (known.store.cells me.next).symbol ≡ symbol =
        rw (update_self me.store.cells me.next order) here in
      rw new record {
        ranged = known_ranged;
        own =
            rw (put-get symbol symbol filled known, text_eq_refl symbol)
              (IsFilling-rest os me.next cells book order r.own m live);
        others = λ other ob differs found.
            known_others other ob differs
              (rw (lookup_text-insert symbol other filled me.order_books, differs) at found);
      }

restore_copies-IsRestoring :
    (symbol : Text) (os rest : List Order) (me : MatchingEngine)
    → IsRestoring symbol os me
    → ((order : Order) → Memᴰ order rest → Memᴰ order os)
    → ((order : Order) → Memᴰ order os → order.symbol ≡ symbol)
    → ((order : Order) → Memᴰ order os → InInt64 order.remaining_quantity)
    → IsRestoring symbol os (restore_copies rest me)
unfolding restore_copies
restore_copies-IsRestoring symbol os [] me r among same_symbol in_range = r
restore_copies-IsRestoring symbol os (order ∷ rest) me r among same_symbol in_range =
    let m = among order (Memᴰ.head refl) in
    let here = same_symbol order m in
    let ranged = in_range order m in
    let later : (o : Order) → Memᴰ o rest → Memᴰ o os = λ o n. among o (Memᴰ.tail n) in
    elim (Bool-cases (is_live order)) [
      | inl live ↦ rw live (
          restore_copies-IsRestoring symbol os rest _
            (rest_order-IsRestoring symbol os me order r here ranged m live) later same_symbol
            in_range)
      | inr dead ↦ rw dead (
          restore_copies-IsRestoring symbol os rest _
            (known-IsRestoring symbol os me order r here ranged) later same_symbol in_range)
    ]

lookup-delete :
    (symbol other : Text) (d : Dict Text OrderBook)
    → lookup text_eq other (delete text_eq symbol d)
      ≡ (if text_eq symbol other then none else lookup text_eq other d)
lookup-delete symbol other [] = ground arith
lookup-delete symbol other ((i, u) ∷ d) = ground (
  arith,
  lookup-delete symbol other d,
  text_eq→eq i symbol,
  text_eq→eq symbol other,
  text_eq→eq i other,
  text_eq_refl i,
  text_eq_refl other,
)

-- What a snapshot holds: orders of its symbol with int64 quantities, none of whose live bids meets a
-- live ask
pub record IsSound (snapshot : SymbolSnapshot) : Type 0 where
  pub same_symbol : (order : Order) → Memᴰ order snapshot.orders → order.symbol ≡ snapshot.symbol
  pub in_range : (order : Order) → Memᴰ order snapshot.orders → InInt64 order.remaining_quantity
  pub uncrossed :
      (bid ask : Order)
      → Memᴰ bid snapshot.orders
      → Memᴰ ask snapshot.orders
      → is_live bid ≡ true
      → is_live ask ≡ true
      → is_buy bid.side ≡ true
      → is_buy ask.side ≡ false
      → bid.price <ℤ ask.price

module _ (snapshot : SymbolSnapshot) (me : MatchingEngine) (sound : IsSound snapshot)
    (ranged : (p : ℕ) → InInt64 (me.store.cells p).remaining_quantity)
    (others : (other : Text) (ob : OrderBook)
      → text_eq snapshot.symbol other ≡ false
      → lookup text_eq other me.order_books ≡ some ob
      → IsValid ob me.store.cells × ((p : ℕ) → IsIn p ob → p < me.next)) where
  restore_symbol-IsRestoring :
      IsRestoring snapshot.symbol snapshot.orders (restore_symbol snapshot me)
  unfolding restore_symbol
  restore_symbol-IsRestoring =
      let emptied : get_or_create_order_book
            (record me { order_books = delete text_eq snapshot.symbol me.order_books })
            snapshot.symbol
          ≡ new_order_book =
        ground (
          arith,
          lookup-delete snapshot.symbol snapshot.symbol me.order_books,
          text_eq_refl snapshot.symbol,
        ) in
      restore_copies-IsRestoring snapshot.symbol snapshot.orders snapshot.orders _
        record {
          ranged = ranged;
          own = subst (IsFilling snapshot.orders me.next me.store.cells) (sym emptied) record {
            ordered = (λ c p q. absurd (omega arith), λ c p q. absurd (omega arith));
            older = λ p inside.
                absurd (elim inside [ inl b ↦ omega (arith, b) | inr a ↦ omega (arith, a) ]);
            bids = λ p b. absurd (omega (arith, b));
            asks = λ p a. absurd (omega (arith, a));
          };
          others = λ other ob differs found.
              others other ob differs
                (rw (lookup-delete snapshot.symbol other me.order_books, differs) at found);
        }
        (λ order m. m) sound.same_symbol sound.in_range

  pub restore_symbol-HasValidBooks : HasValidBooks (restore_symbol snapshot me)
  restore_symbol-HasValidBooks =
      let after = restore_symbol snapshot me in
      let r = restore_symbol-IsRestoring in
      record {
        ranged = r.ranged;
        valid = λ symbol ob found. elim (Bool-cases (text_eq snapshot.symbol symbol)) [
          | inl own ↦
              let here =
                subst (λ t. lookup text_eq t after.order_books ≡ some ob)
                  (sym (text_eq→eq snapshot.symbol symbol own)) found in
              let book : get_or_create_order_book after snapshot.symbol ≡ ob =
                ground (arith, here) in
              subst (λ b. IsValid b after.store.cells) book
                record {
                  bids = r.own.ordered.0;
                  asks = r.own.ordered.1;
                  ranged = r.ranged;
                  uncrossed = λ b a hb ha lb la.
                      let (mb, live_b, buys) = r.own.bids b hb in
                      let (ma, live_a, sells) = r.own.asks a ha in
                      sound.uncrossed _ _ mb ma live_b live_a buys sells;
                }
          | inr differs ↦ (r.others symbol ob differs found).0
        ];
      }
