-- ===== src/Portfolio/Settlement.antt =====
-- What a trade moves between the two accounts.
use tradesphere.Base.{
  ℕ, ◌≡◌, ◌≢◌, ap, ◌∙◌, Bool, true, ◌&&◌, inl, inr, none, some, if◌then◌else◌, ◌==◌, ok, err,
  Result-cases, arith,
}
use tradesphere.Int.{ℤ, pos, ◌+ℤ◌, ◌-ℤ◌, +ℤ_parts, eq_of_parts}
use tradesphere.Text.{Text, text_eq, text_eq→eq}
use tradesphere.Model.{Trade}
use tradesphere.Money.Decimal.{MoneyError, cost_for}
use tradesphere.Portfolio.Database.{
  Db, money, Session, ticked, debit_user, credit_user, apply_buyer_trade, apply_seller_trade,
  set_reserved_amount, add_position, take_position, lock_order_reservation, lock_account,
}
use tradesphere.Portfolio.Consumer.{lock_accounts, apply_trade, process_trade}
use tradesphere.Portfolio.Atomic.{process_once_effect}

-- The balance of an account, and the quantity of a position; what is not there counts as zero.
abbrev pub balance_of : ℕ → Db → ℤ
balance_of id db = elim (db.users id) [ none ↦ pos 0 | some u ↦ u.balance ]

abbrev pub quantity_of : ℕ → Text → Db → ℤ
quantity_of id symbol db = elim (db.positions id symbol) [ none ↦ pos 0 | some p ↦ p.quantity ]

-- The balance and the quantity that a trade should leave.
abbrev pub settled_balance : Trade → ℤ → ℕ → Db → ℤ
settled_balance trade total u db =
    let paid = if trade.buyer_user_id == u then balance_of u db -ℤ total else balance_of u db in
    if trade.seller_user_id == u then paid +ℤ total else paid

abbrev pub settled_quantity : Trade → ℕ → Text → Db → ℤ
settled_quantity trade u symbol db =
    let here = text_eq trade.symbol symbol in
    let old = quantity_of u symbol db in
    let bought = if trade.buyer_user_id == u && here then old +ℤ trade.quantity else old in
    if trade.seller_user_id == u && here then bought -ℤ trade.quantity else bought

module _ (faults : ℕ → Bool) where
  debit_user-users :
      (id : ℕ) (total release : ℤ) (s : Session) (u : ℕ)
      → (debit_user faults id total release s).0 ≡ ok tt
      → balance_of u (debit_user faults id total release s).1.db
        ≡ (if id == u then balance_of u s.db -ℤ total else balance_of u s.db)
  unfolding debit_user
  debit_user-users id total release s u h = ground arith

  debit_user-positions :
      (id : ℕ) (total release : ℤ) (s : Session)
      → (debit_user faults id total release s).1.db.positions ≡ s.db.positions
  unfolding debit_user
  debit_user-positions id total release s = ground arith

  set_reserved_amount-users :
      (id : ℕ) (amount : ℤ) (s : Session)
      → (set_reserved_amount faults id amount s).1.db.users ≡ s.db.users
  unfolding set_reserved_amount
  set_reserved_amount-users id amount s = ground arith

  set_reserved_amount-positions :
      (id : ℕ) (amount : ℤ) (s : Session)
      → (set_reserved_amount faults id amount s).1.db.positions ≡ s.db.positions
  unfolding set_reserved_amount
  set_reserved_amount-positions id amount s = ground arith

  add_position-users :
      (id : ℕ) (symbol : Text) (quantity : ℤ) (s : Session)
      → (add_position faults id symbol quantity s).1.db.users ≡ s.db.users
  unfolding add_position
  add_position-users id symbol quantity s = ground arith

  add_position-quantity :
      (id : ℕ) (symbol : Text) (quantity : ℤ) (s : Session) (u : ℕ) (t : Text)
      → (add_position faults id symbol quantity s).0 ≡ ok tt
      → quantity_of u t (add_position faults id symbol quantity s).1.db ≡ (
          if id == u && text_eq symbol t
          then quantity_of u t s.db +ℤ quantity
          else quantity_of u t s.db)
  unfolding add_position
  add_position-quantity id symbol quantity s u t h = ground (
    arith,
    text_eq→eq symbol t,
    +ℤ_parts (pos 0) quantity,
    eq_of_parts (pos 0 +ℤ quantity) quantity,
  )

  take_position-users :
      (id : ℕ) (symbol : Text) (quantity release : ℤ) (s : Session)
      → (take_position faults id symbol quantity release s).1.db.users ≡ s.db.users
  unfolding take_position
  take_position-users id symbol quantity release s = ground arith

  take_position-quantity :
      (id : ℕ) (symbol : Text) (quantity release : ℤ) (s : Session) (u : ℕ) (t : Text)
      → (take_position faults id symbol quantity release s).0 ≡ ok tt
      → quantity_of u t (take_position faults id symbol quantity release s).1.db ≡ (
          if id == u && text_eq symbol t
          then quantity_of u t s.db -ℤ quantity
          else quantity_of u t s.db)
  unfolding take_position
  take_position-quantity id symbol quantity release s u t h = ground (arith, text_eq→eq symbol t)

  credit_user-users :
      (id : ℕ) (total : ℤ) (s : Session) (u : ℕ)
      → (credit_user faults id total s).0 ≡ ok tt
      → balance_of u (credit_user faults id total s).1.db
        ≡ (if id == u then balance_of u s.db +ℤ total else balance_of u s.db)
  unfolding credit_user
  credit_user-users id total s u h = ground arith

  credit_user-positions :
      (id : ℕ) (total : ℤ) (s : Session)
      → (credit_user faults id total s).1.db.positions ≡ s.db.positions
  unfolding credit_user
  credit_user-positions id total s = ground arith

  lock-db : (id : ℕ) (s : Session) → (lock_order_reservation faults id s).1.db ≡ s.db
  unfolding lock_order_reservation
  lock-db id s = ground arith

  apply_buyer_trade-balance :
      (trade : Trade) (s : Session) {total : ℤ} (u : ℕ)
      → cost_for trade.price trade.quantity ≡ ok total
      → (apply_buyer_trade faults trade s).0 ≡ ok tt
      → balance_of u (apply_buyer_trade faults trade s).1.db
        ≡ (if trade.buyer_user_id == u then balance_of u s.db -ℤ total else balance_of u s.db)
  unfolding apply_buyer_trade
  apply_buyer_trade-balance trade s {total} u e h =
      grind (arith, debit_user-users, set_reserved_amount-users, add_position-users, lock-db)

  apply_buyer_trade-quantity :
      (trade : Trade) (s : Session) (u : ℕ) (symbol : Text)
      → (apply_buyer_trade faults trade s).0 ≡ ok tt
      → quantity_of u symbol (apply_buyer_trade faults trade s).1.db ≡ (
          if trade.buyer_user_id == u && text_eq trade.symbol symbol
          then quantity_of u symbol s.db +ℤ trade.quantity
          else quantity_of u symbol s.db)
  unfolding apply_buyer_trade
  apply_buyer_trade-quantity trade s u symbol h =
      grind
        (arith, debit_user-positions, set_reserved_amount-positions, add_position-quantity, lock-db)

  apply_seller_trade-balance :
      (trade : Trade) (s : Session) {total : ℤ} (u : ℕ)
      → cost_for trade.price trade.quantity ≡ ok total
      → (apply_seller_trade faults trade s).0 ≡ ok tt
      → balance_of u (apply_seller_trade faults trade s).1.db
        ≡ (if trade.seller_user_id == u then balance_of u s.db +ℤ total else balance_of u s.db)
  unfolding apply_seller_trade
  apply_seller_trade-balance trade s {total} u e h =
      grind (arith, credit_user-users, set_reserved_amount-users, take_position-users, lock-db)

  apply_seller_trade-quantity :
      (trade : Trade) (s : Session) (u : ℕ) (symbol : Text)
      → (apply_seller_trade faults trade s).0 ≡ ok tt
      → quantity_of u symbol (apply_seller_trade faults trade s).1.db ≡ (
          if trade.seller_user_id == u && text_eq trade.symbol symbol
          then quantity_of u symbol s.db -ℤ trade.quantity
          else quantity_of u symbol s.db)
  unfolding apply_seller_trade
  apply_seller_trade-quantity trade s u symbol h =
      grind (
        arith, credit_user-positions, set_reserved_amount-positions, take_position-quantity,
        lock-db,
      )

  lock_accounts-db :
      (buyer seller : ℕ) (s : Session) → (lock_accounts faults buyer seller s).1.db ≡ s.db
  unfolding lock_account lock_accounts
  lock_accounts-db buyer seller s = ground arith

  apply_trade-balance :
      (trade : Trade) (s : Session) {total : ℤ} (u : ℕ)
      → cost_for trade.price trade.quantity ≡ ok total
      → (apply_trade faults trade s).0 ≡ ok tt
      → balance_of u (apply_trade faults trade s).1.db ≡ settled_balance trade total u s.db
  unfolding apply_trade
  apply_trade-balance trade s {total} u e h =
      grind (arith, apply_buyer_trade-balance, apply_seller_trade-balance, lock_accounts-db)

  apply_trade-quantity :
      (trade : Trade) (s : Session) (u : ℕ) (symbol : Text)
      → (apply_trade faults trade s).0 ≡ ok tt
      → quantity_of u symbol (apply_trade faults trade s).1.db
        ≡ settled_quantity trade u symbol s.db
  unfolding apply_trade
  apply_trade-quantity trade s u symbol h =
      grind (arith, apply_buyer_trade-quantity, apply_seller_trade-quantity, lock_accounts-db)

  apply_buyer_trade-cost :
      (trade : Trade) (s : Session) {e : MoneyError}
      → cost_for trade.price trade.quantity ≡ err e
      → (apply_buyer_trade faults trade s).0 ≡ err (money e)
  unfolding apply_buyer_trade
  apply_buyer_trade-cost trade s e = ground arith

  apply_trade-cost :
      (trade : Trade) (s : Session) {e : MoneyError}
      → cost_for trade.price trade.quantity ≡ err e
      → (apply_trade faults trade s).0 ≢ ok tt
  unfolding apply_trade
  apply_trade-cost trade s {e} h = grind (arith, apply_buyer_trade-cost)

  apply_trade_costs :
      (trade : Trade) (s : Session)
      → (apply_trade faults trade s).0 ≡ ok tt
      → (total : ℤ) × (cost_for trade.price trade.quantity ≡ ok total)
  apply_trade_costs trade s done = elim (Result-cases (cost_for trade.price trade.quantity)) [
    | inl found ↦ found
    | inr (e, refused) ↦ absurd (apply_trade-cost trade s refused done)
  ]

  -- If processTrade returns true, CostFor computes a cost of the trade, and every user's balance is
  -- as before, less the cost for the buyer and more the cost for the seller; and every position is
  -- as before, with the quantity more for the buyer's and less for the seller's.
  pub process_trade_settles :
      (trade : Trade) (group : Text) (s : Session)
      → (process_trade faults trade group s).0 ≡ ok true
      → let after = (process_trade faults trade group s).1.db in
        (total : ℤ) × (cost_for trade.price trade.quantity ≡ ok total)
        × ((u : ℕ) → balance_of u after ≡ settled_balance trade total u s.db)
        × ((u : ℕ) (symbol : Text)
            → quantity_of u symbol after ≡ settled_quantity trade u symbol s.db)
  unfolding process_trade
  process_trade_settles trade group s h =
      let (_, done, left) =
        process_once_effect faults group trade.id (apply_trade faults trade) s h in
      let start = ticked (ticked s) in
      let (total, e) = apply_trade_costs trade start done in
      (
        total,
        e,
        λ u. ap (balance_of u) left ∙ apply_trade-balance trade start u e done,
        λ u symbol. ap (quantity_of u symbol) left ∙ apply_trade-quantity trade start u symbol done,
      )
