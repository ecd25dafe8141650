-- ===== src/MatchingService/Publisher.antt =====
-- services/matching-engine/kafka/producer.go: the publisher of the outbox. `broker` is what
-- WriteMessages does, by the number of writes before: it returns no error, and the message is in the
-- log; or it returns an error with this text, and then the message may be in the log or not.
use tradesphere.Base.{
  ℕ, suc, ◌+◌, ◌^◌, Bool, ◌||◌, Option, none, some, List, [], ◌∷◌, ◌++◌, leb, if◌then◌else◌, Result,
  ok, err,
}
use tradesphere.Int.{ℤ, pos, negsuc}
use tradesphere.Text.{Text, codes, text_eq}
use tradesphere.MatchingService.Database.{OutboxEvent, DbError, Session, Host}
use tradesphere.MatchingService.Outbox.{
  seconds, claim_pending_outbox_events, mark_outbox_event_published, record_outbox_publish_failure,
}

-- kafka.Message, with the topic of its writer
pub record Message : Type 0 where
  pub topic : Text
  pub key : Text
  pub value : Text

-- The database, the messages written so far, and the calls of WriteMessages
pub record Bus : Type 0 where
  pub session : Session
  pub sent : List Message
  pub writes : ℕ

pub data PublishError : Type 0 where
  database : DbError → PublishError
  unsupported_topic : Text → PublishError
  write_failed : Text → PublishError
  unrecorded : Text → DbError → PublishError

abbrev pub Published : Type 0
Published = Result PublishError (Unit {0}) × Bus

abbrev pub message : Text → OutboxEvent → Message
message topic e = record { topic = topic; key = e.event_key; value = e.payload }

-- maxDLQAttempts
abbrev pub max_dlq_attempts : ℕ
max_dlq_attempts = 10

-- outboxBackoff
unfoldable pub outbox_backoff : ℤ → ℕ
outbox_backoff (negsuc n) = seconds 1
outbox_backoff (pos n) = if leb n 5 then seconds (2 ^ n) else seconds (2 ^ 5)

-- dlqTopic
abbrev pub dlq_topic : Text → Text
dlq_topic topic = topic ++ codes "-dlq"

-- writerForTopic: whether there is a writer
abbrev pub has_writer : Text → Bool
has_writer topic =
    text_eq topic (codes "trades")
    || text_eq topic (codes "trades-dlq")
    || text_eq topic (codes "order-events")
    || text_eq topic (codes "order-events-dlq")

-- The log after a write, by whether the message arrived
abbrev pub log_with : Bool → Message → List Message → List Message
log_with arrived m log = if arrived then log ++ m ∷ [] else log

module _ (h : Host) (broker : ℕ → Option (Text × Bool)) where
  -- WriteMessages
  abbrev pub write : Message → Bus → Option Text × Bus
  write m b =
      let b' = record b { writes = suc b.writes } in
      elim (broker b.writes) [
        | none ↦ (none, record b' { sent = b.sent ++ m ∷ [] })
        | some (e, arrived) ↦ (some e, record b' { sent = log_with arrived m b.sent })
      ]

  abbrev pub on_session : {A : Type 0} → (Session → A × Session) → Bus → A × Bus
  on_session f b = let (a, s) = f b.session in (a, record b { session = s })

  -- The branch of publishPendingTradeEvents for the dead letters
  abbrev pub after_dlq_write : OutboxEvent → Option Text × Bus → Bus
  after_dlq_write e (none, b) = (on_session (mark_outbox_event_published h e.id) b).1
  after_dlq_write e (some error, b) = b

  unfoldable pub publish_to_dlq : OutboxEvent → Bus → Bus
  publish_to_dlq e b =
      if has_writer (dlq_topic e.topic)
      then after_dlq_write e (write (message (dlq_topic e.topic) e) b)
      else b

  abbrev pub as_published : Result DbError (Unit {0}) × Bus → Published
  as_published (ok tt, b) = (ok tt, b)
  as_published (err e, b) = (err (database e), b)

  -- The rest of the round after a write that failed, and after one that did not
  abbrev pub after_write : OutboxEvent → Option Text × Bus → Published
  after_write e (none, b) = as_published (on_session (mark_outbox_event_published h e.id) b)
  after_write e (some error, b) =
      let retry_at = h.now b.session.calls + outbox_backoff (pos e.publish_attempts) in
      let (r, b') = on_session (record_outbox_publish_failure h e.id retry_at error) b in
      elim r [ ok _ ↦ (err (write_failed error), b') | err e' ↦ (err (unrecorded error e'), b') ]

  -- A round of its loop
  unfoldable pub publish_event : OutboxEvent → Bus → Published
  publish_event e b =
      if leb max_dlq_attempts e.publish_attempts
      then (ok tt, publish_to_dlq e b)
      else if has_writer e.topic
      then after_write e (write (message e.topic e) b)
      else (err (unsupported_topic e.topic), b)

  unfoldable pub publish_events : List OutboxEvent → Bus → Published
  publish_events [] b = (ok tt, b)
  publish_events (e ∷ es) b =
      let (r, b') = publish_event e b in
      let rest = publish_events es b' in elim r [ ok _ ↦ rest | err x ↦ (err x, b') ]

  module _ (rank : ℕ → ℕ) (returned : List OutboxEvent → List OutboxEvent) where
    -- publishPendingTradeEvents
    unfoldable pub publish_pending_trade_events : Text → Bus → Published
    publish_pending_trade_events worker b =
        let (r, b') = on_session (claim_pending_outbox_events h rank returned worker 100) b in
        elim r [ ok events ↦ publish_events events b' | err e ↦ (err (database e), b') ]
