-- ===== src/OrderService/Producer.antt =====
-- services/order-service/kafka/producer.go: the commands that are sent to the matching engine, which
-- reads them by decodeOrderCommand. json, uuid.New, time.Now and the connection to Kafka are
-- parameters. All topics have one writer, which writes to the topic `orders`.
use tradesphere.Base.{
  ℕ, ◌≡◌, ◌⊎◌, refl, Bool, Option, Option-cases, none, some, List, [], ◌∷◌, ◌++◌, if◌then◌else◌,
  inl, inr, true, false, arith,
}
use tradesphere.Text.{Text, codes}
use tradesphere.Model.{Order, CancelRequest, OrderCommand, create_order, cancel_order}
use tradesphere.MatchingService.Consumer.{decode_order_command, is_supported_command_type}

pub record Message : Type 0 where
  pub key : Text
  pub value : Text

-- The topic `orders`, and what the producer calls. The next write returns no error, and the message is in
-- the topic; or it returns an error, and the message may be there all the same. What do json.Marshal,
-- uuid.New and time.Now give?
pub record Producer : Type 0 where
  pub writes : List Message → Option Bool
  pub marshal : OrderCommand → Option Text
  pub new_uuid : List Message → ℕ
  pub now : List Message → ℕ

module _ (p : Producer) where
  -- The writer of writerForTopic, whatever the topic
  abbrev pub write_message : Text → Message → List Message → Bool × List Message
  write_message topic m log = elim (p.writes log) [
    | none ↦ (true, log ++ m ∷ [])
    | some arrived ↦ (false, if arrived then log ++ m ∷ [] else log)
  ]

  unfoldable pub publish_raw_message : Text → Text → Text → List Message → Bool × List Message
  publish_raw_message topic key payload log =
      write_message topic (record { key = key; value = payload }) log

  unfoldable pub publish_command : OrderCommand → List Message → Bool × List Message
  publish_command command log = elim (p.marshal command) [
    | none ↦ (false, log)
    | some payload ↦ publish_raw_message (codes "orders") command.symbol payload log
  ]

  abbrev pub create_command : Order → OrderCommand
  create_command order = record {
    id = order.id;
    type = create_order;
    symbol = order.symbol;
    order = some order;
    cancel = none;
    created_at = order.created_at;
  }

  abbrev pub cancel_command : CancelRequest → List Message → OrderCommand
  cancel_command cancel log = record {
    id = p.new_uuid log;
    type = cancel_order;
    symbol = cancel.symbol;
    order = none;
    cancel = some cancel;
    created_at = p.now log;
  }

  unfoldable pub publish_order : Order → List Message → Bool × List Message
  publish_order order = publish_command (create_command order)

  unfoldable pub publish_cancel : CancelRequest → List Message → Bool × List Message
  publish_cancel cancel log = publish_command (cancel_command cancel log) log

-- A message with this key was added from which the matching engine reads the command.
abbrev pub IsSent :
    (Text → Option OrderCommand)
    → (Text → Option Order)
    → OrderCommand
    → List Message
    → List Message
    → Type 0
IsSent as_command as_order command log log' =
    (m : Message) × (log' ≡ log ++ m ∷ [])
    × (m.key ≡ command.symbol)
    × (decode_order_command (as_command m.value) (as_order m.value) ≡ some command)

module _ (p : Producer) (as_command : Text → Option OrderCommand) (as_order : Text → Option Order)
    (reads : (c : OrderCommand) (t : Text) → p.marshal c ≡ some t → as_command t ≡ some c) where
  -- What a call that sends a command leaves
  abbrev pub Sends : OrderCommand → List Message → Bool × List Message → Type 0
  Sends command log (sent, log') =
      IsSent as_command as_order command log log' ⊎ ((sent ≡ false) × (log' ≡ log))

  publish_command-Sends :
      (command : OrderCommand) (log : List Message)
      → is_supported_command_type command.type ≡ true
      → Sends command log (publish_command p command log)
  unfolding publish_command publish_raw_message decode_order_command
  publish_command-Sends command log supported = elim (Option-cases (p.marshal command)) [
    | inl e ↦ inr (rw (publish_command, e), rw (publish_command, e))
    | inr (t, e) ↦
        let m : Message = record { key = command.symbol; value = t } in
        let is_read : decode_order_command (as_command t) (as_order t) ≡ some command =
          rw (decode_order_command, reads command t e, supported) refl in
        elim (Option-cases (p.writes log)) [
          | inl taken ↦ inl (m, ground (arith, e, taken), refl, is_read)
          | inr (true, late) ↦ inl (m, ground (arith, e, late), refl, is_read)
          | inr (false, lost) ↦ inr (ground (arith, e, lost), ground (arith, e, lost))
        ]
  ]

  -- If json.Unmarshal reads a command back from what json.Marshal makes of it: PublishOrder and
  -- PublishCancel add one message to the topic, under the order's symbol as its key, from which
  -- decodeOrderCommand reads exactly the command, with the order or the request; or else they return an
  -- error and add none.
  decode_order_command-publish_command :
      (order : Order) (cancel : CancelRequest) (log : List Message)
      → Sends (create_command p order) log (publish_order p order log)
        × Sends (cancel_command p cancel log) log (publish_cancel p cancel log)
  unfolding publish_order publish_cancel
  decode_order_command-publish_command order cancel log = (
    publish_command-Sends (create_command p order) log refl,
    publish_command-Sends (cancel_command p cancel log) log refl,
  )
