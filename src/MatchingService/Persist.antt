-- ===== src/MatchingService/Persist.antt =====
-- services/matching-engine/database/db.go: what PersistMatchResultsTx adds to the tables.
use mathlib.Core.List.{append_assoc, append-nil}
use tradesphere.Base.{
  ℕ, ◌≡◌, refl, sym, ap, ◌∙◌, Option, none, some, List, [], ◌∷◌, ◌++◌, ok, arith,
}
use tradesphere.Text.{Text, codes}
use tradesphere.Model.{Order, Trade, OrderEventType, order_update}
use tradesphere.Sql.{◌>>◌, ◌>>=◌, >>=-succeeds}
use tradesphere.MatchingService.Database.{
  Tables, OutboxEvent, new_event, Session, Host, encoded, event_of, insert_trade,
  enqueue_outbox_event, enqueue_order_event, update_order_state, persist_trade, persist_order,
  persist_trades, persist_orders, persist_match_results,
}

-- An event that waits to be published: its topic and key, and no attempt yet.
abbrev pub IsPending : Text → Text → OutboxEvent → Type 0
IsPending topic key e =
    (e.topic ≡ topic)
    × (e.event_key ≡ key)
    × (e.published_at ≡ none)
    × (e.claimed_at ≡ none)
    × (e.publish_attempts ≡ 0)

-- One event for each trade, in their order, with the trade's id and its encoding
abbrev pub AnnounceTrades : Host → List Trade → List OutboxEvent → Type 0
AnnounceTrades h [] [] = Unit
AnnounceTrades h [] (e ∷ es) = ⊥
AnnounceTrades h (t ∷ ts) [] = ⊥
AnnounceTrades h (t ∷ ts) (e ∷ es) =
    ((e.id ≡ t.id) × (h.marshal_trade t ≡ some e.payload) × IsPending (codes "trades") t.symbol e)
    × AnnounceTrades h ts es

-- One event for each order, in their order
abbrev pub AnnounceOrders : List Order → List OutboxEvent → Type 0
AnnounceOrders [] [] = Unit
AnnounceOrders [] (e ∷ es) = ⊥
AnnounceOrders (o ∷ os) [] = ⊥
AnnounceOrders (o ∷ os) (e ∷ es) =
    IsPending (codes "order-events") o.symbol e × AnnounceOrders os es

-- What one round adds
abbrev pub AddsTrade : Host → Trade → Tables → Tables → Type 0
AddsTrade h t before after =
    (e : OutboxEvent) × (after.trade_outbox ≡ before.trade_outbox ++ e ∷ [])
    × (after.trades ≡ before.trades ++ t ∷ [])
    × AnnounceTrades h (t ∷ []) (e ∷ [])

module _ (h : Host) where
  enqueue_outbox_event-ok :
      (id : ℕ) (topic key payload : Text) (s : Session)
      → (enqueue_outbox_event h id topic key payload s).0 ≡ ok tt
      → (e : OutboxEvent) × ((enqueue_outbox_event h id topic key payload s).1.db
          ≡ record s.db { trade_outbox = s.db.trade_outbox ++ e ∷ [] })
        × (e.id ≡ id)
        × (e.payload ≡ payload)
        × IsPending topic key e
  unfolding enqueue_outbox_event
  enqueue_outbox_event-ok id topic key payload s done = (
    new_event id topic key payload (h.now s.calls) (h.clock s.calls),
    ground arith,
    refl,
    refl,
    (refl, refl, refl, refl, refl),
  )

  insert_trade-ok :
      (t : Trade) (s : Session)
      → (insert_trade h t s).0 ≡ ok tt
      → (insert_trade h t s).1.db ≡ record s.db { trades = s.db.trades ++ t ∷ [] }
  unfolding insert_trade
  insert_trade-ok t s done = ground arith

  update_order_state-ok :
      (o : Order) (s : Session)
      → ((update_order_state h o s).1.db.trade_outbox ≡ s.db.trade_outbox)
        × ((update_order_state h o s).1.db.trades ≡ s.db.trades)
  unfolding update_order_state
  update_order_state-ok o s = ground arith

  -- A round of the loop over the trades, behind json.Marshal
  insert_and_enqueue-ok :
      (t : Trade) (payload : Text) (s : Session)
      → let m = insert_trade h t >> enqueue_outbox_event h t.id (codes "trades") t.symbol payload in
        h.marshal_trade t ≡ some payload → (m s).0 ≡ ok tt → AddsTrade h t s.db (m s).1.db
  insert_and_enqueue-ok t payload s encoded done =
      let enqueue = enqueue_outbox_event h t.id (codes "trades") t.symbol payload in
      let (_, first, both) = >>=-succeeds (insert_trade h t) (λ _. enqueue) s done in
      let s' = (insert_trade h t s).1 in
      let inserted = insert_trade-ok t s first in
      let (e, added, id, sent, pending) =
        enqueue_outbox_event-ok t.id (codes "trades") t.symbol payload s'
          (sym (ap (λ r. r.0) both) ∙ done) in
      let after = ap (λ r. r.1.db) both ∙ added in
      (
        e,
        ap (λ (db : Tables). db.trade_outbox) after
            ∙ ap (λ (db : Tables). db.trade_outbox ++ e ∷ []) inserted,
        ap (λ (db : Tables). db.trades) after ∙ ap (λ (db : Tables). db.trades) inserted,
        ((id, encoded ∙ ap some (sym sent), pending), tt),
      )

  encoded_trade-ok :
      (t : Trade) (r : Option Text) (s : Session)
      → let m = encoded h r >>= λ payload.
          insert_trade h t >> enqueue_outbox_event h t.id (codes "trades") t.symbol payload in
        h.marshal_trade t ≡ r → (m s).0 ≡ ok tt → AddsTrade h t s.db (m s).1.db
  encoded_trade-ok t none s e done = absurd (cc)
  encoded_trade-ok t (some payload) s e done = insert_and_enqueue-ok t payload s e done

  persist_trade-ok :
      (t : Trade) (s : Session)
      → (persist_trade h t s).0 ≡ ok tt
      → AddsTrade h t s.db (persist_trade h t s).1.db
  unfolding persist_trade
  persist_trade-ok t s done = encoded_trade-ok t (h.marshal_trade t) s refl done

  persist_trades-ok :
      (ts : List Trade) (s : Session)
      → (persist_trades h ts s).0 ≡ ok tt
      → let after = (persist_trades h ts s).1.db in
        (es : List OutboxEvent) × (after.trade_outbox ≡ s.db.trade_outbox ++ es)
        × (after.trades ≡ s.db.trades ++ ts)
        × AnnounceTrades h ts es
  unfolding persist_trades
  persist_trades-ok [] s done = ([], sym (append-nil _), sym (append-nil _), tt)
  persist_trades-ok (t ∷ ts) s done =
      let (_, first, both) = >>=-succeeds (persist_trade h t) (λ _. persist_trades h ts) s done in
      let s' = (persist_trade h t s).1 in
      let (e, queued, kept, (one, _)) = persist_trade-ok t s first in
      let (es, queued', kept', all) = persist_trades-ok ts s' (sym (ap (λ r. r.0) both) ∙ done) in
      (
        e ∷ es,
        ap (λ r. r.1.db.trade_outbox) both
            ∙ queued'
            ∙ ap (λ q. q ++ es) queued
            ∙ append_assoc _ (e ∷ []) es,
        ap (λ r. r.1.db.trades) both ∙ kept' ∙ ap (λ q. q ++ ts) kept ∙ append_assoc _ (t ∷ []) ts,
        (one, all),
      )

  -- A round of the loop over the orders
  abbrev AddsOrder : Order → Tables → Tables → Type 0
  AddsOrder o before after =
      (e : OutboxEvent) × (after.trade_outbox ≡ before.trade_outbox ++ e ∷ [])
      × (after.trades ≡ before.trades)
      × IsPending (codes "order-events") o.symbol e

  encoded_order-ok :
      (id : ℕ) (o : Order) (r : Option Text) (s : Session)
      → let m = encoded h r >>= λ payload.
          enqueue_outbox_event h id (codes "order-events") o.symbol payload in
        (m s).0 ≡ ok tt → AddsOrder o s.db (m s).1.db
  encoded_order-ok id o none s done = absurd (cc)
  encoded_order-ok id o (some payload) s done =
      let (e, added, _, _, pending) =
        enqueue_outbox_event-ok id (codes "order-events") o.symbol payload s done in
      (
        e,
        ap (λ (db : Tables). db.trade_outbox) added,
        ap (λ (db : Tables). db.trades) added,
        pending,
      )

  enqueue_order_event-ok :
      (type : OrderEventType) (o : Order) (s : Session)
      → (enqueue_order_event h type o s).0 ≡ ok tt
      → AddsOrder o s.db (enqueue_order_event h type o s).1.db
  unfolding enqueue_order_event
  enqueue_order_event-ok type o s done =
      encoded_order-ok (h.new_uuid s.calls) o (h.marshal_event (event_of h type o s)) s done

  persist_order-ok :
      (o : Order) (s : Session)
      → (persist_order h o s).0 ≡ ok tt
      → AddsOrder o s.db (persist_order h o s).1.db
  unfolding persist_order
  persist_order-ok o s done =
      let (_, first, both) =
        >>=-succeeds (update_order_state h o) (λ _. enqueue_order_event h order_update o) s done in
      let (same, kept) = update_order_state-ok o s in
      let (e, queued, kept', pending) =
        enqueue_order_event-ok order_update o (update_order_state h o s).1
          (sym (ap (λ r. r.0) both) ∙ done) in
      (
        e,
        ap (λ r. r.1.db.trade_outbox) both ∙ queued ∙ ap (λ q. q ++ e ∷ []) same,
        ap (λ r. r.1.db.trades) both ∙ kept' ∙ kept,
        pending,
      )

  persist_orders-ok :
      (os : List Order) (s : Session)
      → (persist_orders h os s).0 ≡ ok tt
      → let after = (persist_orders h os s).1.db in
        (es : List OutboxEvent) × (after.trade_outbox ≡ s.db.trade_outbox ++ es)
        × (after.trades ≡ s.db.trades)
        × AnnounceOrders os es
  unfolding persist_orders
  persist_orders-ok [] s done = ([], sym (append-nil _), refl, tt)
  persist_orders-ok (o ∷ os) s done =
      let (_, first, both) = >>=-succeeds (persist_order h o) (λ _. persist_orders h os) s done in
      let (e, queued, kept, one) = persist_order-ok o s first in
      let (es, queued', kept', all) =
        persist_orders-ok os (persist_order h o s).1 (sym (ap (λ r. r.0) both) ∙ done) in
      (
        e ∷ es,
        ap (λ r. r.1.db.trade_outbox) both
            ∙ queued'
            ∙ ap (λ q. q ++ es) queued
            ∙ append_assoc _ (e ∷ []) es,
        ap (λ r. r.1.db.trades) both ∙ kept' ∙ kept,
        (one, all),
      )

  -- If PersistMatchResultsTx succeeds, then it has appended the trades to their table, and to the
  -- outbox one pending event for each trade, with its encoding and its symbol as the key, and then
  -- one for each order, both in the order of the lists; nothing else was added to the outbox.
  pub persist_match_results-ok :
      (ts : List Trade) (os : List Order) (s : Session)
      → (persist_match_results h ts os s).0 ≡ ok tt
      → let after = (persist_match_results h ts os s).1.db in
        (after.trades ≡ s.db.trades ++ ts)
        × ((es ds : List OutboxEvent) × (after.trade_outbox ≡ (s.db.trade_outbox ++ es) ++ ds)
            × AnnounceTrades h ts es
            × AnnounceOrders os ds)
  unfolding persist_match_results
  persist_match_results-ok ts os s done =
      let (_, first, both) = >>=-succeeds (persist_trades h ts) (λ _. persist_orders h os) s done in
      let (es, queued, kept, trades) = persist_trades-ok ts s first in
      let (ds, queued', kept', orders) =
        persist_orders-ok os (persist_trades h ts s).1 (sym (ap (λ r. r.0) both) ∙ done) in
      (
        ap (λ r. r.1.db.trades) both ∙ kept' ∙ kept,
        (
          es,
          ds,
          ap (λ r. r.1.db.trade_outbox) both ∙ queued' ∙ ap (λ q. q ++ ds) queued,
          trades,
          orders,
        ),
      )
