-- ===== src/WebsocketService/Events.antt =====
-- services/websocket-service/main.go: an event from Kafka becomes a broadcast, once its transaction
-- has found that it is new. json is a parameter. The hub that processEvent starts from is the one that
-- broadcast copies; before that it does not look at the hub.
use mathlib.Core.List.{Memᴰ}
use tradesphere.Base.{
  ℕ, ◌≡◌, ◌⊎◌, inl, inr, Bool, Bool-cases, true, false, not, ◌&&◌, Option, Option-cases, none, some,
  List, if◌then◌else◌, Result, ok, err, arith,
}
use tradesphere.Text.{Text, codes, text_eq}
use tradesphere.Sql.{Session, Act, undone}
use tradesphere.WebsocketService.Hub.{Hub, has, broadcast, broadcast_reaches}

-- What is called of the package database, with ErrEventAlreadyProcessed
pub record EventStore (D E : Type 0) : Type 0 where
  pub begin : Act D E (Unit {0})
  pub is_event_processed : Text → ℕ → Act D E Bool
  pub mark_event_processed : Text → ℕ → Act D E (Unit {0})
  pub commit : Act D E (Unit {0})
  pub is_already_processed : E → Bool

pub data EventError (E : Type 0) : Type 0 where
  invalid_payload invalid_id : EventError E
  store : E → EventError E

-- The database and the hub
pub record Service (D : Type 0) : Type 0 where
  pub session : Session D
  pub hub : Hub

-- The fields of tradeMessage and orderEvent, and outboundMessage
pub record Inbound : Type 0 where
  pub id : Text
  pub type : Text
  pub symbol : Text

pub record OutboundMessage : Type 0 where
  pub type : Text
  pub symbol : Text
  pub data_text : Text

module _ (decode : Text → Option Inbound) (encode : OutboundMessage → Option Text) where
  -- buildTradeMessage: the payload and the id
  unfoldable pub build_trade_message : Text → Option (Text × Text)
  build_trade_message raw = elim (decode raw) [
    | none ↦ none
    | some trade ↦
        elim (encode (record { type = codes "TRADE"; symbol = trade.symbol; data_text = raw })) [
          | none ↦ none
          | some payload ↦ some (payload, trade.id)
        ]
  ]

  -- buildOrderEventMessage: no payload for an event of another type
  abbrev pub message_type : Text → Option Text
  message_type t =
      if text_eq t (codes "ORDER_UPDATE")
      then some (codes "ORDER_UPDATE")
      else if text_eq t (codes "ORDER_CANCELLED")
      then some (codes "CANCEL")
      else none

  unfoldable pub build_order_event_message : Text → Option (Option Text × Text)
  build_order_event_message raw = elim (decode raw) [
    | none ↦ none
    | some event ↦ elim (message_type event.type) [
      | none ↦ some (none, event.id)
      | some t ↦ elim (encode (record { type = t; symbol = event.symbol; data_text = raw })) [
        | none ↦ none
        | some payload ↦ some (some payload, event.id)
      ]
    ]
  ]

module _ {D E : Type 0} (events : EventStore D E) (parse_uuid : Text → Option ℕ)
    (refuses : ℕ → ℕ → Bool) (meanwhile : ℕ → Hub → Hub) (range : List ℕ → List ℕ) where
  abbrev pub Handled : Type 0
  Handled = Result (EventError E) (Unit {0}) × Service D

  abbrev pub stored : Result E (Unit {0}) → Result (EventError E) (Unit {0})
  stored (ok tt) = ok tt
  stored (err e) = err (store e)

  -- processEvent from MarkEventProcessed on; an event that was marked meanwhile is no error.
  unfoldable pub mark_and_commit : Text → ℕ → D → Hub → Session D → Handled
  mark_and_commit group id before hub s =
      let (r, s') = events.mark_event_processed group id s in
      elim r [
        | err e ↦ (
          if events.is_already_processed e then ok tt else err (store e),
          record { session = undone before s'; hub = hub },
        )
        | ok _ ↦ let (c, s'') = events.commit s' in (stored c, record { session = s''; hub = hub })
      ]

  -- From Begin on
  unfoldable pub process_new_event : Text → ℕ → Text → Service D → Handled
  process_new_event group id payload w =
      let (b, s1) = events.begin w.session in
      let (p, s2) = events.is_event_processed group id s1 in
      let (c, s3) = events.commit s2 in
      elim b [
        | err e ↦ (err (store e), record w { session = s1 })
        | ok _ ↦ elim p [
          | err e ↦ (err (store e), record w { session = undone w.session.db s2 })
          | ok seen ↦
              if seen
              then (stored c, record w { session = s3 })
              else mark_and_commit group id w.session.db
                  (broadcast refuses meanwhile range payload w.hub) s2
        ]
      ]

  -- processEvent
  unfoldable pub process_event : Text → Text → Text → Service D → Handled
  process_event group event_id payload w = elim (parse_uuid event_id) [
    | none ↦ (err invalid_id, w)
    | some id ↦ process_new_event group id payload w
  ]

  -- The rounds of consumeTrades and consumeOrderEvents: whether they go on to CommitMessages
  abbrev pub is_ok : {A B : Type 0} → Result A B → Bool
  is_ok (ok a) = true
  is_ok (err e) = false

  module _ (decode : Text → Option Inbound) (encode : OutboundMessage → Option Text) where
    unfoldable pub trade_round : Text → Service D → Bool × Service D
    trade_round raw w = elim (build_trade_message decode encode raw) [
      | none ↦ (false, w)
      | some (payload, id) ↦
          let (r, w') = process_event (codes "websocket-service-trades") id payload w in
          (is_ok r, w')
    ]

    unfoldable pub order_event_round : Text → Service D → Bool × Service D
    order_event_round raw w = elim (build_order_event_message decode encode raw) [
      | none ↦ (false, w)
      | some (none, id) ↦ (true, w)
      | some (some payload, id) ↦
          let (r, w') = process_event (codes "websocket-service-order-events") id payload w in
          (is_ok r, w')
    ]

  -- If processEvent succeeds, then the event's id is a uuid; and either the database has it as
  -- processed, and the hub is as it was; or it has it as new, and then, whatever other goroutines do to
  -- the hub while the clients are written to: a client that broadcast copied and whose connection did
  -- not fail has got the payload; the copied clients whose connection failed are removed; and
  -- every other client that is there by then stays, also one that came meanwhile. It is required that
  -- Go's visit of the clients finds exactly the clients.
  pub process_event_reaches :
      (group event_id payload : Text) (w : Service D) (c : ℕ)
      → ((cs : List ℕ) (d : ℕ) → has d (range cs) ≡ has d cs)
      → let out = process_event group event_id payload w in
        let n = w.hub.broadcasts in
        out.0 ≡ ok tt
        → (id : ℕ) × (parse_uuid event_id ≡ some id)
          × (let seen = (events.is_event_processed group id (events.begin w.session).1).0 in
              ((seen ≡ ok true) × (out.1.hub ≡ w.hub))
              ⊎ ((seen ≡ ok false)
                  × (((has c w.hub.clients && not (refuses c n)) ≡ false)
                      ⊎ Memᴰ (c, payload) out.1.hub.delivered)
                  × (has c out.1.hub.clients ≡ (
                      has c (meanwhile n w.hub).clients
                      && not (has c w.hub.clients && refuses c n)))))
  unfolding process_event process_new_event mark_and_commit
  process_event_reaches group event_id payload w c same done =
      elim (Option-cases (parse_uuid event_id)) [
        | inl e ↦ absurd (ground arith)
        | inr (id, e) ↦
            let out = process_event group event_id payload w in
            let seen = (events.is_event_processed group id (events.begin w.session).1).0 in
            let sent = broadcast refuses meanwhile range payload w.hub in
            let (stays, got, _) = broadcast_reaches refuses meanwhile range payload w.hub same in
            let either : ((seen ≡ ok true) × (out.1.hub ≡ w.hub))
                ⊎ ((seen ≡ ok false) × (out.1.hub ≡ sent)) =
              ground arith in
            let reached : (out.1.hub ≡ sent)
                → ((has c w.hub.clients && not (refuses c w.hub.broadcasts)) ≡ false)
                  ⊎ Memᴰ (c, payload) out.1.hub.delivered =
              λ hub. elim (Bool-cases (has c w.hub.clients && not (refuses c w.hub.broadcasts))) [
                | inl both ↦ inr (rw hub (got c (ground (arith, both)) (ground (arith, both))))
                | inr absent ↦ inl absent
              ] in
            (
              id,
              e,
              elim either [
                | inl old ↦ inl old
                | inr (new, hub) ↦ inr (new, reached hub, rw hub (stays c))
              ],
            )
      ]
