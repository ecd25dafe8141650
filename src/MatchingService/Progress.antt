-- ===== src/MatchingService/Progress.antt =====
-- services/matching-engine/kafka/producer.go: publishPendingTradeEvents publishes what is due.
use mathlib.Core.List.{Memᴰ}
use mathlib.Core.List.{append-nil, append_assoc}
use mathlib.Core.List.Memᴰ
use mathlib.Core.Path.{subst}
use tradesphere.Base.{
  ℕ, suc, ◌≤◌, ◌≡◌, refl, sym, ap, inl, inr, true, false, Bool, Option, Option-cases, none, some,
  List, [], ◌∷◌, ◌++◌, ◌∙◌, map, ltb, if◌then◌else◌, length, ok, arith,
}
use tradesphere.Text.{Text}
use tradesphere.MatchingService.Database.{OutboxEvent, Host}
use tradesphere.MatchingService.Outbox.{
  is_none, is_due, due_rows, update_pending, published, claimed, claim_rows,
  claim_pending_outbox_events, mark_outbox_event_published,
}
use tradesphere.MatchingService.Publisher.{
  Message, Bus, message, dlq_topic, has_writer, publish_to_dlq, publish_event, publish_events,
  publish_pending_trade_events,
}
use tradesphere.MatchingService.Rows.{SameContent, Keeps, chosen-Memᴰ, due_chosen-Memᴰ}
use tradesphere.MatchingService.Delivered.{
  rows, Continues, Continues-map, Continues-row, update_pending-Keeps,
}
use tradesphere.MatchingService.AtLeastOnce.{
  chosen_events, claimed_events, after_claim, after_claim-Safe,
}

-- The publisher has writers for the topic and for its dead letters.
abbrev pub HasWriters : OutboxEvent → Type 0
HasWriters e = (has_writer e.topic ≡ true) × (has_writer (dlq_topic e.topic) ≡ true)

-- No row with the event's id waits to be published.
abbrev pub IsDone : ℕ → List OutboxEvent → Type 0
IsDone id rs = (r : OutboxEvent) → Memᴰ r rs → r.id ≡ id → is_none r.published_at ≡ false

abbrev settle : ℕ → ℕ → OutboxEvent → OutboxEvent
settle id now = update_pending id (published now)

settle-IsDone : (id now : ℕ) (rs : List OutboxEvent) → IsDone id (map (settle id now) rs)
settle-IsDone id now rs r m same =
    let (q, _, e) = Memᴰ.of_map (settle id now) rs m in
    ground (arith, e, ap (λ (x : OutboxEvent). x.published_at) e, ap (λ (x : OutboxEvent). x.id) e)

IsDone-settle :
    (id j now : ℕ) (rs : List OutboxEvent) → IsDone j rs → IsDone j (map (settle id now) rs)
IsDone-settle id j now rs d r m same =
    let (q, m', e) = Memᴰ.of_map (settle id now) rs m in
    ground
      (arith, d q m', ap (λ (x : OutboxEvent). x.published_at) e, ap (λ (x : OutboxEvent). x.id) e)

is_published :
    (r : OutboxEvent) → is_none r.published_at ≡ false → (now : ℕ) × (r.published_at ≡ some now)
is_published r done = elim (Option-cases r.published_at) [
  | inl e ↦ absurd (ground arith)
  | inr (now, e) ↦ (now, e)
]

settle-Keeps : (id now : ℕ) → Keeps (settle id now)
settle-Keeps id now = update_pending-Keeps id (published now) (λ r. (refl, refl, refl, refl))

-- The message that an event is due: the one for its topic, or from the tenth attempt on the one for
-- the dead letters
abbrev pub due_message : OutboxEvent → Message
due_message e = message (if ltb e.publish_attempts 10 then e.topic else dlq_topic e.topic) e

module _ (h : Host) (broker : ℕ → Option (Text × Bool)) (no_faults : (n : ℕ) → h.faults n ≡ false)
    (accepts : (n : ℕ) → broker n ≡ none) where
  publish_event-ok :
      (e : OutboxEvent) (b : Bus)
      → HasWriters e
      → let out = publish_event h broker e b in
        (out.0 ≡ ok tt)
        × (rows out.1 ≡ map (settle e.id (h.clock b.session.calls)) (rows b))
        × (out.1.sent ≡ b.sent ++ due_message e ∷ [])
  unfolding publish_event publish_to_dlq mark_outbox_event_published
  publish_event-ok e b (w, w') = ground (arith, accepts b.writes, no_faults b.session.calls, w, w')

  -- The loop keeps what is done, and does the rest.
  publish_events-ok :
      (es : List OutboxEvent) (b : Bus)
      → ((e : OutboxEvent) → Memᴰ e es → HasWriters e)
      → let out = publish_events h broker es b in
        (out.0 ≡ ok tt)
        × Continues (rows b) (rows out.1)
        × (out.1.sent ≡ b.sent ++ map due_message es)
        × ((j : ℕ) → IsDone j (rows b) → IsDone j (rows out.1))
        × ((e : OutboxEvent) → Memᴰ e es → IsDone e.id (rows out.1))
  unfolding publish_events
  publish_events-ok [] b w =
      (refl, refl, sym (append-nil b.sent), λ j d. d, λ e m. absurd (Memᴰ.not-nil m))
  publish_events-ok (e ∷ es) b w =
      let b' = (publish_event h broker e b).1 in
      let now = h.clock b.session.calls in
      let (done, settled, wrote) = publish_event-ok e b (w e (Memᴰ.head refl)) in
      let (done', continues, added, keep, all) =
        publish_events-ok es b' (λ e' m. w e' (Memᴰ.tail m)) in
      let step : (j : ℕ) → IsDone j (rows b) → IsDone j (rows b') =
        λ j d. rw settled (IsDone-settle e.id j now (rows b) d) in
      let this : IsDone e.id (rows b') = rw settled (settle-IsDone e.id now (rows b)) in
      rw (done, publish_events)
        (
          done',
          continues ∙ rw settled (Continues-map (settle e.id now) (rows b) (settle-Keeps e.id now)),
          added ∙ rw wrote (append_assoc b.sent (due_message e ∷ []) (map due_message es)),
          λ j d. keep j (step j d),
          λ e' m. elim (Memᴰ.cases_cons m) [
            | inl x ↦
                subst (λ (j : ℕ). IsDone j (rows (publish_events h broker es b').1))
                  (ap (λ (y : OutboxEvent). y.id) (sym x)) (keep e.id this)
            | inr m' ↦ all e' m'
          ],
        )

  module _ (rank : ℕ → ℕ) (returned : List OutboxEvent → List OutboxEvent) where
    publish_pending_trade_events_run :
        (worker : Text) (b : Bus)
        → publish_pending_trade_events h broker rank returned worker b
          ≡ publish_events h broker
              (claimed_events h rank returned broker worker b)
              (after_claim h rank returned broker worker b)
    unfolding publish_pending_trade_events claim_pending_outbox_events claim_rows
    publish_pending_trade_events_run worker b =
        let n = b.session.calls in
        ground (arith, no_faults n, no_faults (suc n), no_faults (suc (suc n)))

    -- If no call of the database and no write fails, at most 100 rows are due, the returned rows
    -- are those that were claimed, and the publisher has writers for the topics of the rows and for
    -- their dead letters, then publishPendingTradeEvents succeeds, and a row that was due when the
    -- claim was made is published: its message is in the log, for its topic if it had less than ten
    -- attempts and for the dead letters of its topic if not; and the outbox still has a row with
    -- its id, topic, key and payload, which has the time of its publication.
    pub publish_pending_trade_events_progress :
        (worker : Text) (b : Bus) (r : OutboxEvent)
        → length (due_rows (h.clock (suc b.session.calls)) (rows b)) ≤ 100
        → ((xs : List OutboxEvent) (e : OutboxEvent)
            → (Memᴰ e (returned xs) → Memᴰ e xs) × (Memᴰ e xs → Memᴰ e (returned xs)))
        → ((q : OutboxEvent) → Memᴰ q (rows b) → HasWriters q)
        → Memᴰ r (rows b)
        → is_due (h.clock (suc b.session.calls)) r ≡ true
        → let out = publish_pending_trade_events h broker rank returned worker b in
          (out.0 ≡ ok tt)
          × Memᴰ (due_message r) out.1.sent
          × ((r' : OutboxEvent) × Memᴰ r' (rows out.1)
              × SameContent r' r
              × ((now : ℕ) × (r'.published_at ≡ some now)))
    publish_pending_trade_events_progress worker b r few same writers inside due =
        let now = h.clock (suc b.session.calls) in
        let chosen = chosen_events h rank returned broker b in
        let claim = claimed now worker in
        let es = claimed_events h rank returned broker worker b in
        let b1 = after_claim h rank returned broker worker b in
        let b2 = (publish_events h broker es b1).1 in
        let writes : (e : OutboxEvent) → Memᴰ e es → HasWriters e = λ e m.
          let (q, mq, x) = Memᴰ.of_map claim chosen ((same (map claim chosen) e).0 m) in
          subst HasWriters x (writers q (chosen-Memᴰ rank 100 now (rows b) q mq)) in
        let (done, continues, added, _, all) = publish_events-ok es b1 writes in
        let taken = Memᴰ.map claim (due_chosen-Memᴰ rank 100 now (rows b) r few inside due) in
        let there = (same (map claim chosen) (claim r)).1 taken in
        let kept = continues ∙ (after_claim-Safe h rank returned broker worker b).0 in
        let (r', m', c) = Continues-row (rows b2) (rows b) r kept inside in
        rw (publish_pending_trade_events_run worker b) (
          done,
          subst (Memᴰ (due_message (claim r))) (sym added)
              (Memᴰ.append_right b1.sent (Memᴰ.map due_message there)),
          (
            r',
            m',
            (sym c.0, sym c.1, sym c.2, sym c.3),
            is_published r' (all (claim r) there r' m' (sym c.0)),
          ),
        )
