-- ===== src/Portfolio/Ledger.antt =====
-- services/portfolio-service/kafka/consumer.go: what any sequence of deliveries to the trade consumer
-- amounts to. The abstract view is a ledger without transactions, marks or errors.
use mathlib.Core.Path.{fun_ext}
use tradesphere.Base.{
  suc, ◌&&◌, ℕ, ◌≡◌, ◌≢◌, refl, sym, ap, ◌∙◌, Bool, Bool-cases, true, false, ◌&&◌, ◌||◌, ◌++◌, ◌+◌,
  length, ◌⊎◌, inl, inr, List, [], ◌∷◌, Option, none, some, if◌then◌else◌, ◌==◌, Result, ok, err,
  arith,
}
use tradesphere.Kafka.{consume}
use tradesphere.Int.{ℤ, pos, ◌+ℤ◌, ◌-ℤ◌}
use tradesphere.Text.{Text, text_eq, text_eq_refl}
use tradesphere.Model.{Trade}
use tradesphere.Money.Decimal.{cost_for}
use tradesphere.Portfolio.Database.{
  Db, DbError, Session, ticked, debit_user, credit_user, apply_buyer_trade, apply_seller_trade,
  set_reserved_amount, add_position, take_position, lock_order_reservation, lock_account,
  is_event_processed, mark_event_processed,
}
use tradesphere.Portfolio.Consumer.{
  is_ok, lock_accounts, apply_trade, process_trade, process_once, trade_round, in_transaction,
}
use tradesphere.Portfolio.Atomic.{process_once_effect, process_once_atomic}
use tradesphere.Portfolio.Settlement.{balance_of, quantity_of, process_trade_settles}

-- The balances, and the quantities of the positions
pub record Ledger : Type 0 where
  pub balance : ℕ → ℤ
  pub quantity : ℕ → Text → ℤ

abbrev pub ledger_of : Db → Ledger
ledger_of db = record {
  balance = λ u. balance_of u db;
  quantity = λ u symbol. quantity_of u symbol db;
}

-- The cost of a trade, where it has one
abbrev pub cost_of : Trade → ℤ
cost_of trade = elim (cost_for trade.price trade.quantity) [ ok total ↦ total | err e ↦ pos 0 ]

-- Money goes from the buyer to the seller, and the quantity goes the other way.
abbrev pub post_at : ℤ → Trade → Ledger → Ledger
post_at cost trade l = record {
  balance = λ u.
      let paid = if trade.buyer_user_id == u then l.balance u -ℤ cost else l.balance u in
      if trade.seller_user_id == u then paid +ℤ cost else paid;
  quantity = λ u symbol.
      let here = text_eq trade.symbol symbol in
      let old = l.quantity u symbol in
      let bought = if trade.buyer_user_id == u && here then old +ℤ trade.quantity else old in
      if trade.seller_user_id == u && here then bought -ℤ trade.quantity else bought;
}

abbrev pub post : Trade → Ledger → Ledger
post trade l = post_at (cost_of trade) trade l

abbrev pub post_all : List Trade → Ledger → Ledger
post_all [] l = l
post_all (t ∷ ts) l = post_all ts (post t l)

-- No trade of the list was seen before, nor earlier in the list.
abbrev pub IsFresh : (ℕ → Bool) → List Trade → Type 0
IsFresh seen [] = Unit
IsFresh seen (t ∷ ts) = (seen t.id ≡ false) × IsFresh (λ i. t.id == i || seen i) ts

abbrev pub occurs : ℕ → List Trade → Bool
occurs i [] = false
occurs i (t ∷ ts) = t.id == i || occurs i ts

-- A transaction that was committed with its work
abbrev pub is_applied : Result DbError Bool → Bool
is_applied (ok b) = b
is_applied (err e) = false

is_applied_cases :
    (r : Result DbError Bool) → (r ≡ ok true) ⊎ ((is_applied r ≡ false) × (r ≢ ok true))
is_applied_cases (ok true) = inl refl
is_applied_cases (ok false) = inr (refl, ground arith)
is_applied_cases (err e) = inr (refl, ground arith)

module _ (faults : ℕ → Bool) (group : Text) where
  -- What the loop of StartTradeConsumer leaves, from the offset `n` on, after a sequence of messages, which
  -- may be redelivered and may not decode
  abbrev pub consumed : (ℕ → Bool) → List (Option Trade) → Session → ℕ → ℕ → Session
  consumed commits ds s n k = (consume (trade_round faults group) commits n ds s k).0

  -- The trades that the rounds apply
  abbrev pub applied : List (Option Trade) → Session → List Trade
  applied [] s = []
  applied (none ∷ ds) s = applied ds s
  applied (some t ∷ ds) s =
      let (r, s') = process_trade faults t group s in
      let rest = applied ds s' in if is_applied r then t ∷ rest else rest

  post_once :
      (t : Trade) (s : Session)
      → (process_trade faults t group s).0 ≡ ok true
      → ledger_of (process_trade faults t group s).1.db ≡ post t (ledger_of s.db)
  post_once t s h =
      let (total, e, money, goods) = process_trade_settles faults t group s h in
      let cost : cost_of t ≡ total = rw (e, cost_of) in
      rw (fun_ext money, fun_ext (λ u. fun_ext (goods u)))
        (ap (λ c. post_at c t (ledger_of s.db)) (sym cost))

  apply_buyer_trade-marks :
      (trade : Trade) (s : Session)
      → (apply_buyer_trade faults trade s).1.db.processed_events ≡ s.db.processed_events
  unfolding apply_buyer_trade debit_user set_reserved_amount add_position lock_order_reservation
  apply_buyer_trade-marks trade s = ground arith

  apply_seller_trade-marks :
      (trade : Trade) (s : Session)
      → (apply_seller_trade faults trade s).1.db.processed_events ≡ s.db.processed_events
  unfolding apply_seller_trade credit_user set_reserved_amount take_position lock_order_reservation
  apply_seller_trade-marks trade s = ground arith

  apply_trade-marks :
      (trade : Trade) (s : Session)
      → (apply_trade faults trade s).1.db.processed_events ≡ s.db.processed_events
  unfolding apply_trade lock_accounts lock_account
  apply_trade-marks trade s = grind (arith, apply_buyer_trade-marks, apply_seller_trade-marks)

  mark_once :
      (t : Trade) (s : Session)
      → (process_trade faults t group s).0 ≡ ok true
      → (i : ℕ)
      → (process_trade faults t group s).1.db.processed_events group i
        ≡ (t.id == i || s.db.processed_events group i)
  unfolding process_trade
  mark_once t s h i =
      let (_, done, left) = process_once_effect faults group t.id (apply_trade faults t) s h in
      rw (left, apply_trade-marks t (ticked (ticked s)), text_eq_refl group)

  new_once :
      (t : Trade) (s : Session)
      → (process_trade faults t group s).0 ≡ ok true
      → s.db.processed_events group t.id ≡ false
  unfolding process_trade
  new_once t s h = (process_once_effect faults group t.id (apply_trade faults t) s h).0

  kept_once :
      (t : Trade) (s : Session)
      → (process_trade faults t group s).0 ≢ ok true
      → (process_trade faults t group s).1.db ≡ s.db
  unfolding process_trade
  kept_once t s h = process_once_atomic faults group t.id (apply_trade faults t) s h

  module _ (commits : ℕ → Bool) where
    -- For any messages, of which some may be redelivered, may not decode or may fail at any call: the
    -- balances and positions after the loop of StartTradeConsumer are those of a ledger in which
    -- exactly the applied trades were posted, in their order; no applied trade was marked before, and
    -- none is applied twice; and the marked trades are those marked before and the applied ones.
    pub consume_refines :
        (ds : List (Option Trade)) (s : Session) (n k : ℕ)
        → let after = consumed commits ds s n k in
          (ledger_of after.db ≡ post_all (applied ds s) (ledger_of s.db))
          × IsFresh (s.db.processed_events group) (applied ds s)
          × ((i : ℕ)
              → after.db.processed_events group i
                ≡ (occurs i (applied ds s) || s.db.processed_events group i))
    unfolding consume trade_round
    consume_refines [] s n k = (refl, tt, λ i. refl)
    consume_refines (none ∷ ds) s n k = consume_refines ds s (suc n) k
    consume_refines (some t ∷ ds) s n k =
        let r = process_trade faults t group s in
        let k' = if is_ok faults r.0 && commits n then suc n else k in
        let (l, f, m) = consume_refines ds r.1 (suc n) k' in
        elim (is_applied_cases r.0) [
          | inl done ↦
              let marks = mark_once t s done in
              rw done (
                l ∙ ap (post_all (applied ds r.1)) (post_once t s done),
                (new_once t s done, rw (fun_ext marks) at f),
                λ i. m i ∙ ground (arith, marks i),
              )
          | inr (skipped, other) ↦
              let kept = kept_once t s other in
              rw skipped (rw kept at l, rw kept at f, rw kept at m)
        ]

  acknowledged_once :
      (t : Trade) (s : Session)
      → (trade_round faults group (some t) s).0 ≡ true
      → (trade_round faults group (some t) s).1.db.processed_events group t.id ≡ true
  unfolding trade_round process_trade process_once in_transaction is_event_processed
      mark_event_processed
  acknowledged_once t s h =
      ground (arith, apply_trade-marks t (ticked (ticked s)), text_eq_refl group)

  acknowledged_round :
      (d : Option Trade) (s : Session)
      → (trade_round faults group d s).0 ≡ true
      → (t : Trade) × (d ≡ some t)
        × ((trade_round faults group d s).1.db.processed_events group t.id ≡ true)
  unfolding trade_round
  acknowledged_round none s h = absurd cc
  acknowledged_round (some t) s h = (t, refl, acknowledged_once t s h)

  stays_marked :
      (commits : ℕ → Bool) (i : ℕ) (ds : List (Option Trade)) (s : Session) (n k : ℕ)
      → s.db.processed_events group i ≡ true
      → (consumed commits ds s n k).db.processed_events group i ≡ true
  stays_marked commits i ds s n k h =
      let (_, _, m) = consume_refines commits ds s n k in ground (arith, m i, h)

  -- Whatever is redelivered, does not decode or fails: if the offset of the group moved from `k`
  -- in the loop of StartTradeConsumer over the messages from the offset `n` on, then it stands right
  -- behind a message that decodes as a trade, and this trade is marked as processed after the loop.
  pub consume_acknowledged :
      (commits : ℕ → Bool) (ds : List (Option Trade)) (s : Session) (n k : ℕ)
      → let (after, k') = consume (trade_round faults group) commits n ds s k in
        (k' ≡ k)
        ⊎ ((before later : List (Option Trade)) × (t : Trade) × (ds ≡ before ++ some t ∷ later)
            × (k' ≡ suc (n + length before))
            × (after.db.processed_events group t.id ≡ true))
  unfolding consume
  consume_acknowledged commits [] s n k = inl refl
  consume_acknowledged commits (d ∷ ds) s n k =
      let r = trade_round faults group d s in
      let moved = r.0 && commits n in
      elim (consume_acknowledged commits ds r.1 (suc n) (if moved then suc n else k)) [
        | inr (before, later, t, e, there, marked) ↦
            inr (d ∷ before, later, t, ap (λ x. d ∷ x) e, there ∙ omega arith, marked)
        | inl kept ↦ elim (Bool-cases moved) [
          | inr same ↦ inl (kept ∙ ap (λ (m : Bool). if m then suc n else k) same)
          | inl here ↦
              let (t, e, marked) = acknowledged_round d s (ground (arith, here)) in
              inr (
                [],
                ds,
                t,
                ap (λ x. x ∷ ds) e,
                kept ∙ ap (λ (m : Bool). if m then suc n else k) here ∙ omega arith,
                stays_marked commits t.id ds r.1 (suc n) (if moved then suc n else k) marked,
              )
        ]
      ]
