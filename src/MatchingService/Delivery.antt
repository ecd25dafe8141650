-- ===== src/MatchingService/Delivery.antt =====
-- services/matching-engine/kafka/producer.go: a row of the outbox is published only after its
-- message was written.
use mathlib.Core.List.{Memᴰ}
use mathlib.Core.List.Memᴰ
use tradesphere.Base.{
  ℕ, ◌+◌, ◌≡◌, refl, inl, inr, Bool-cases, Bool, Option, Option-cases, none, some, List, [], ◌∷◌,
  leb, Result, Result-cases, ok, err,
}
use tradesphere.Int.{pos}
use tradesphere.Text.{Text}
use tradesphere.MatchingService.Database.{OutboxEvent, DbError, Host}
use tradesphere.MatchingService.Outbox.{
  update_pending, published, refused, mark_outbox_event_published, record_outbox_publish_failure,
}
use tradesphere.MatchingService.Publisher.{
  Message, Bus, message, dlq_topic, max_dlq_attempts, has_writer, outbox_backoff, write, on_session,
  after_dlq_write, publish_to_dlq, as_published, after_write, publish_event, publish_events,
}
use tradesphere.MatchingService.Delivered.{
  AllDelivered-map, Continues-map, Continues-refl, Delivered-append, Delivered-log_with, Names,
  Names-Continues, Safe, Safe-trans, Written, published-Delivered, refused-Delivered, rows,
  update_pending-Keeps,
}

module _ (h : Host) (broker : ℕ → Option (Text × Bool)) where
  mark-Safe :
      (e : OutboxEvent) (b : Bus)
      → Names (rows b) e
      → Written b.sent e
      → Safe b (on_session h broker (mark_outbox_event_published h e.id) b).1
  unfolding mark_outbox_event_published
  mark-Safe e b n w = elim (Bool-cases (h.faults b.session.calls)) [
    | inl f ↦ rw f (Continues-refl (rows b), λ d. d)
    | inr f ↦
        let g = update_pending e.id (published (h.clock b.session.calls)) in
        rw f (
          Continues-map g (rows b) (
              update_pending-Keeps e.id (published (h.clock b.session.calls))
                (λ r. (refl, refl, refl, refl))),
          AllDelivered-map b.sent g (rows b)
              (λ q m. published-Delivered (h.clock b.session.calls) b.sent e q (n q m) w),
        )
  ]

  refuse-Safe :
      (id next : ℕ) (error : Text) (b : Bus)
      → Safe b (on_session h broker (record_outbox_publish_failure h id next error) b).1
  unfolding record_outbox_publish_failure
  refuse-Safe id next error b = elim (Bool-cases (h.faults b.session.calls)) [
    | inl f ↦ rw (f, write) (Continues-refl (rows b), λ d. d)
    | inr f ↦
        let g = update_pending id (refused next error) in
        rw f (
          Continues-map g (rows b)
              (update_pending-Keeps id (refused next error) (λ r. (refl, refl, refl, refl))),
          AllDelivered-map b.sent g (rows b) (λ q m. refused-Delivered id next error b.sent q),
        )
  ]

  write-Safe : (m : Message) (b : Bus) → Safe b (write h broker m b).1
  write-Safe m b = elim (Option-cases (broker b.writes)) [
    | inl f ↦ rw (f, write) (Continues-refl (rows b), λ d r x. Delivered-append b.sent m r (d r x))
    | inr ((x, arrived), f) ↦
        rw (f, write)
          (
            Continues-refl (rows b),
            λ d r inside. Delivered-log_with arrived b.sent m r (d r inside),
          )
  ]

  as_published_bus :
      (r : Result DbError (Unit {0})) (b : Bus) → (as_published h broker (r, b)).1 ≡ b
  as_published_bus (ok tt) b = refl
  as_published_bus (err e) b = refl

  write_sends :
      (m : Message) (b : Bus) → (write h broker m b).0 ≡ none → Memᴰ m (write h broker m b).1.sent
  write_sends m b = elim (Option-cases (broker b.writes)) [
    | inl f ↦ rw (f, write) (λ n. Memᴰ.append_right b.sent (Memᴰ.head refl))
    | inr (x, f) ↦ rw (f, write) (λ n. absurd (cc))
  ]

  rows-write : (m : Message) (b : Bus) → rows (write h broker m b).1 ≡ rows b
  rows-write m b = elim (Option-cases (broker b.writes)) [
    | inl f ↦ rw (f, write) refl
    | inr (x, f) ↦ rw (f, write) refl
  ]

  after_dlq_write-Safe :
      (e : OutboxEvent) (r : Option Text) (b : Bus)
      → Names (rows b) e
      → (r ≡ none → Written b.sent e)
      → Safe b (after_dlq_write h broker e (r, b))
  after_dlq_write-Safe e none b n w = mark-Safe e b n (w refl)
  after_dlq_write-Safe e (some error) b n w = (Continues-refl (rows b), λ d. d)

  after_write-Safe :
      (e : OutboxEvent) (r : Option Text) (b : Bus)
      → Names (rows b) e
      → (r ≡ none → Written b.sent e)
      → Safe b (after_write h broker e (r, b)).1
  after_write-Safe e none b n w =
      rw
        (as_published_bus (mark_outbox_event_published h e.id b.session).0
          (on_session h broker (mark_outbox_event_published h e.id) b).1)
        (mark-Safe e b n (w refl))
  after_write-Safe e (some error) b n w =
      let retry_at = h.now b.session.calls + outbox_backoff (pos e.publish_attempts) in
      elim (Result-cases (record_outbox_publish_failure h e.id retry_at error b.session).0) [
        | inl (x, f) ↦ rw (f, after_write) (refuse-Safe e.id retry_at error b)
        | inr (x, f) ↦ rw (f, after_write) (refuse-Safe e.id retry_at error b)
      ]

  publish_event-Safe :
      (e : OutboxEvent) (b : Bus) → Names (rows b) e → Safe b (publish_event h broker e b).1
  unfolding publish_event publish_to_dlq
  publish_event-Safe e b n =
      let m = message e.topic e in
      let dead = message (dlq_topic e.topic) e in
      let out = write h broker m b in
      let dlq = write h broker dead b in
      elim (Bool-cases (leb max_dlq_attempts e.publish_attempts)) [
        | inr c ↦ elim (Bool-cases (has_writer e.topic)) [
          | inr d ↦ rw (c, d) (Continues-refl (rows b), λ x. x)
          | inl d ↦
              rw (c, d)
                (Safe-trans b out.1 (after_write h broker e out).1 (write-Safe m b) (
                  after_write-Safe e out.0 out.1 (rw (rows-write m b) n)
                    (λ x. inl (write_sends m b x))))
        ]
        | inl c ↦ elim (Bool-cases (has_writer (dlq_topic e.topic))) [
          | inr d ↦ rw (c, d) (Continues-refl (rows b), λ x. x)
          | inl d ↦
              rw (c, d)
                (Safe-trans b dlq.1 (after_dlq_write h broker e dlq) (write-Safe dead b) (
                  after_dlq_write-Safe e dlq.0 dlq.1 (rw (rows-write dead b) n)
                    (λ x. inr (write_sends dead b x))))
        ]
      ]

  pub publish_events-Safe :
      (es : List OutboxEvent) (b : Bus)
      → ((e : OutboxEvent) → Memᴰ e es → Names (rows b) e)
      → Safe b (publish_events h broker es b).1
  unfolding publish_events
  publish_events-Safe [] b n = (Continues-refl (rows b), λ d. d)
  publish_events-Safe (e ∷ es) b n =
      let first = publish_event-Safe e b (n e (Memᴰ.head refl)) in
      let b' = (publish_event h broker e b).1 in
      elim (Result-cases (publish_event h broker e b).0) [
        | inr (x, f) ↦ rw (f, publish_events) first
        | inl (x, f) ↦
            rw (f, publish_events)
              (Safe-trans b b' (publish_events h broker es b').1 first (
                publish_events-Safe es b'
                  (λ e' m. Names-Continues (rows b) (rows b') e' first.0 (n e' (Memᴰ.tail m)))))
      ]
