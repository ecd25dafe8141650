-- ===== src/MatchingService/Startup.antt =====
-- services/matching-engine/main.go: the engine that a start makes of the table of orders, and the page
-- that shows a book. A failed load ends the program, which is `none`.
use mathlib.Core.List.{Memᴰ}
use mathlib.Core.List.Memᴰ
use tradesphere.Base.{
  ℕ, ◌<◌, ◌≡◌, refl, sym, ◌∙◌, inl, inr, Bool, true, false, Bool-cases, Option, none, some, List,
  [], ◌∷◌, map, ltb, ◌==◌, if◌then◌else◌, ok, err, arith,
}
use tradesphere.Int.{◌<ℤ◌, InInt64}
use tradesphere.Text.{Text, codes, text_eq_refl, trim_prefix}
use tradesphere.Model.{Order, Store, is_buy}
use tradesphere.Heap.Slice.{count}
use tradesphere.Dict.{values}
use tradesphere.OrderBook.{PriceLevel}
use tradesphere.Engine.{
  MatchingEngine, new_matching_engine, allocate, restore_orders, get_or_create_order_book,
  get_order_book_snapshot,
}
use tradesphere.Engine.Books.{HasValidBooks}
use tradesphere.Engine.Recover.{
  occurrences, rests_in, IsUncrossed, restore_orders-HasValidBooks, restore_orders-HasGained,
}
use tradesphere.MatchingService.Database.{Session, Host, scanned}
use tradesphere.MatchingService.Recovery.{
  load_open_orders, load_open_orders-ok, is_wanted, scanned-IsOpen,
}

-- The objects that LoadOpenOrders makes, and the pointers to them
unfoldable pub allocate_each : List Order → MatchingEngine → List (Option ℕ) × MatchingEngine
allocate_each [] me = ([], me)
allocate_each (order ∷ os) me =
    let (ps, me') = allocate_each os (allocate order me) in (some me.next ∷ ps, me')

module _ (is_less : Text → Text → Bool) where
  -- `main` up to RestoreOrders: the engine and the number of orders that were put back
  unfoldable pub start : Host → Store → ℕ → Session → Option (MatchingEngine × ℕ) × Session
  start h store next s =
      let (r, s') = load_open_orders is_less h s in
      (
        elim r [
          | err e ↦ none
          | ok open_orders ↦
              let (ps, me) = allocate_each open_orders (new_matching_engine store next) in
              some (restore_orders ps me)
        ],
        s',
      )

-- A level of OrderBook.Snapshot on a copied order
abbrev pub level_of : Order → PriceLevel
level_of order = record { price = order.price; quantity = order.remaining_quantity }

-- The handler of /orderbook/: the symbol, the bids and the asks, or 404
unfoldable pub order_book_page :
    Text → MatchingEngine → Option (Text × List PriceLevel × List PriceLevel)
order_book_page url_path me =
    let symbol = trim_prefix (codes "/orderbook/") url_path in
    elim (get_order_book_snapshot symbol me) [
      | none ↦ none
      | some (bids, asks) ↦ some (symbol, map level_of bids, map level_of asks)
    ]

-- What the objects are that were made
record IsAllocated (os : List Order) (me : MatchingEngine) (ps : List (Option ℕ))
    (me' : MatchingEngine) : Type 0 where
  kept : (p : ℕ) → p < me.next → me'.store.cells p ≡ me.store.cells p
  outside : (p : ℕ) → p < me.next → occurrences p ps ≡ 0
  made :
      (p : ℕ) → 0 < occurrences p ps → (order : Order) × Memᴰ order os × (me'.store.cells p ≡ order)
  others : (p : ℕ) → occurrences p ps ≡ 0 → me'.store.cells p ≡ me.store.cells p
  found :
      (order : Order)
      → Memᴰ order os
      → (p : ℕ) × (0 < occurrences p ps) × (me'.store.cells p ≡ order)

allocate_each-IsAllocated :
    (os : List Order) (me : MatchingEngine)
    → IsAllocated os me (allocate_each os me).0 (allocate_each os me).1
unfolding allocate_each
allocate_each-IsAllocated [] me = record {
  kept = λ p lt. refl;
  outside = λ p lt. refl;
  made = λ p h. absurd (omega (arith, h));
  others = λ p h. refl;
  found = λ order m. absurd (Memᴰ.not-nil m);
}
allocate_each-IsAllocated (order ∷ os) me =
    let rest = allocate_each-IsAllocated os (allocate order me) in
    record {
      kept = λ p lt. ground (arith, rest.kept p (omega arith));
      outside = λ p lt. ground (arith, rest.outside p (omega arith));
      made = λ p h. elim (Bool-cases (me.next == p)) [
        | inl here ↦ (order, Memᴰ.head refl, ground (arith, rest.kept me.next (omega arith)))
        | inr there ↦ let (o, m, e) = rest.made p (ground arith) in (o, Memᴰ.tail m, e)
      ];
      others = λ p h. ground (arith, rest.others p (ground arith));
      found = λ o m. elim (Memᴰ.cases_cons m) [
        | inl e ↦ (me.next, ground arith, ground (arith, rest.kept me.next (omega arith), e))
        | inr m' ↦ let (p, there, e) = rest.found o m' in (p, omega (arith, there), e)
      ];
    }

-- The order at `p` stands in the book of its symbol, on its side.
abbrev pub IsResting : MatchingEngine → ℕ → Type 0
IsResting me p =
    let order = me.store.cells p in
    let ob = get_or_create_order_book me order.symbol in
    0 < (if is_buy order.side then count p ob.buy_orders else count p ob.sell_orders)

-- The open rows of the table have int64 quantities, and no bid of them meets an ask of its symbol.
pub record IsSound (rows : List Order) : Type 0 where
  pub ranged : (row : Order) → Memᴰ row rows → InInt64 row.remaining_quantity
  pub uncrossed :
      (symbol : Text) (b a : Order)
      → Memᴰ b rows
      → Memᴰ a rows
      → is_wanted b ≡ true
      → is_wanted a ≡ true
      → rests_in symbol true b ≡ true
      → rests_in symbol false a ≡ true
      → b.price <ℤ a.price

module _ (is_less : Text → Text → Bool) (h : Host) (store : Store) (next : ℕ) (s : Session)
    (os : List Order) (loaded : (load_open_orders is_less h s).0 ≡ ok os)
    (empty : (p : ℕ) → InInt64 (store.cells p).remaining_quantity)
    (sound : IsSound (values s.db.orders)) where
  abbrev made_of : List (Option ℕ) × MatchingEngine
  made_of = allocate_each os (new_matching_engine store next)

  made-IsAllocated : IsAllocated os (new_matching_engine store next) made_of.0 made_of.1
  made-IsAllocated = allocate_each-IsAllocated os (new_matching_engine store next)

  -- A pointer that was made shows an open row of the table.
  row_of :
      (p : ℕ)
      → 0 < occurrences p made_of.0
      → (row : Order) × Memᴰ row (values s.db.orders)
        × (is_wanted row ≡ true)
        × (made_of.1.store.cells p ≡ scanned row)
  row_of p here =
      let (order, m, e) = made-IsAllocated.made p here in
      let ((row, inside, wanted, same), _, _) =
        (load_open_orders-ok is_less h s os loaded).1 order m in
      (row, inside, wanted, e ∙ sym same)

  made-ranged : (p : ℕ) → InInt64 (made_of.1.store.cells p).remaining_quantity
  made-ranged p = elim (Bool-cases (ltb 0 (occurrences p made_of.0))) [
    | inl here ↦
        let (row, inside, wanted, e) = row_of p (ground arith) in rw e (sound.ranged row inside)
    | inr not_here ↦ rw (made-IsAllocated.others p (ground arith)) (empty p)
  ]

  made-IsUncrossed : IsUncrossed made_of.1.store.cells made_of.0
  made-IsUncrossed symbol b a hb ha rb ra =
      let (bid, mb, wb, eb) = row_of b hb in
      let (ask, ma, wa, ea) = row_of a ha in
      rw (eb, ea) (sound.uncrossed symbol bid ask mb ma wb wa (rw eb at rb) (rw ea at ra))

  abbrev engine : MatchingEngine
  engine = (restore_orders made_of.0 made_of.1).0

  engine_store : engine.store ≡ made_of.1.store
  engine_store = (restore_orders-HasGained [] made_of.0 made_of.1).1

  resting :
      (row : Order)
      → Memᴰ row (values s.db.orders)
      → is_wanted row ≡ true
      → (p : ℕ) × (engine.store.cells p ≡ scanned row) × IsResting engine p
  resting row inside wanted =
      let listed = (load_open_orders-ok is_less h s os loaded).0 row inside wanted in
      let (p, there, e) = made-IsAllocated.found (scanned row) listed in
      let gained = (restore_orders-HasGained row.symbol made_of.0 made_of.1).0 in
      (
        p,
        rw (engine_store, e),
        rw (engine_store, e)
            (ground (
              arith,
              rw e at (gained.bids p),
              rw e at (gained.asks p),
              text_eq_refl row.symbol,
              scanned-IsOpen row wanted,
            )),
      )

  -- If the table's open rows have int64 quantities and no bid of them meets an ask of its symbol, and
  -- LoadOpenOrders succeeds: the start makes an engine in which every book is valid, and each open row
  -- of the table rests in the book of its symbol, on its side.
  pub start_recovers :
      (me : MatchingEngine) × (n : ℕ) × ((start is_less h store next s).0 ≡ some (me, n))
      × HasValidBooks me
      × ((row : Order)
          → Memᴰ row (values s.db.orders)
          → is_wanted row ≡ true
          → (p : ℕ) × (me.store.cells p ≡ scanned row) × IsResting me p)
  unfolding start
  start_recovers = (
    engine,
    (restore_orders made_of.0 made_of.1).1,
    rw (loaded, start),
    restore_orders-HasValidBooks made_of.0 made_of.1 made-ranged made-IsUncrossed,
    resting,
  )
