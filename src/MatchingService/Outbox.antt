-- ===== src/MatchingService/Outbox.antt =====
-- services/matching-engine/database/db.go: the statements on trade_outbox. `rank` is the order that
-- PostgreSQL gives to rows of the same age, and `returned` the order of the rows that a statement
-- returns, which ORDER BY in its subquery does not fix. One worker claims at a time.
use tradesphere.Base.{
  ℕ, suc, ◌+◌, ◌*◌, Bool, true, false, ◌&&◌, ◌||◌, Option, none, some, List, map, ltb, leb, ◌==◌,
  if◌then◌else◌, take, ok, err,
}
use tradesphere.Query.{select, order_by}
use tradesphere.Text.{Text}
use tradesphere.Sql
use tradesphere.Sql.{ticked, undone}
use tradesphere.MatchingService.Database.{Tables, OutboxEvent, failed, Tx, Host, has_event}

-- Nanoseconds
abbrev pub seconds : ℕ → ℕ
seconds n = n * 1000000000

abbrev pub is_none : {A : Type 0} → Option A → Bool
is_none none = true
is_none (some a) = false

-- The condition of ClaimPendingOutboxEvents on a row
abbrev pub is_due : ℕ → OutboxEvent → Bool
is_due now e =
    is_none e.published_at
    && leb e.next_attempt_at now
    && elim e.claimed_at [ none ↦ true | some t ↦ ltb (t + seconds 30) now ]

abbrev pub due_rows : ℕ → List OutboxEvent → List OutboxEvent
due_rows now es = select (is_due now) es

-- The rows with an id, as far as they are not published, after an update
abbrev pub update_pending : ℕ → (OutboxEvent → OutboxEvent) → OutboxEvent → OutboxEvent
update_pending id f r = if (r.id == id) && is_none r.published_at then f r else r

abbrev pub published : ℕ → OutboxEvent → OutboxEvent
published now r = record r {
  published_at = some now;
  claimed_at = none;
  claimed_by = none;
  last_error = none;
}

abbrev pub refused : ℕ → Text → OutboxEvent → OutboxEvent
refused next_attempt error r = record r {
  publish_attempts = suc r.publish_attempts;
  next_attempt_at = next_attempt;
  claimed_at = none;
  claimed_by = none;
  last_error = some error;
}

abbrev pub claimed : ℕ → Text → OutboxEvent → OutboxEvent
claimed now worker r = record r { claimed_by = some worker; claimed_at = some now }

-- The tables with each row of the outbox changed
abbrev pub each_event : (OutboxEvent → OutboxEvent) → Tables → Tables
each_event f db = record db { trade_outbox = map f db.trade_outbox }

module _ (rank : ℕ → ℕ) where
  abbrev pub is_before : OutboxEvent → OutboxEvent → Bool
  is_before a b =
      ltb a.created_at b.created_at
      || ((a.created_at == b.created_at) && leb (rank a.id) (rank b.id))

  -- ORDER BY created_at ASC
  abbrev pub by_age : List OutboxEvent → List OutboxEvent
  by_age es = order_by is_before es

module _ (h : Host) (rank : ℕ → ℕ) (returned : List OutboxEvent → List OutboxEvent) where
  -- The statement of ClaimPendingOutboxEvents, the scan of its rows included
  unfoldable pub claim_rows : Text → ℕ → Tx (List OutboxEvent)
  claim_rows worker limit s =
      let now = h.clock s.calls in
      let chosen = take limit (by_age rank (due_rows now s.db.trade_outbox)) in
      let claim = λ (r : OutboxEvent). if has_event r.id chosen then claimed now worker r else r in
      if h.faults s.calls then (err failed, ticked s) else (
        ok (returned (map (claimed now worker) chosen)),
        record { db = each_event claim s.db; calls = suc s.calls },
      )

  -- ClaimPendingOutboxEvents
  unfoldable pub claim_pending_outbox_events : Text → ℕ → Tx (List OutboxEvent)
  claim_pending_outbox_events worker limit s =
      if h.faults s.calls
      then (err failed, ticked s)
      else (let (r, s') = claim_rows worker limit (ticked s) in
          elim r [
            | err e ↦ (err e, undone s.db s')
            | ok events ↦ Sql.commit failed h.faults s.db events s'
          ])

module _ (h : Host) where
  -- MarkOutboxEventPublished
  unfoldable pub mark_outbox_event_published : ℕ → Tx (Unit {0})
  mark_outbox_event_published id s =
      Sql.exec failed h.faults
        (λ db. ok (each_event (update_pending id (published (h.clock s.calls))) db)) s

  -- RecordOutboxPublishFailure
  unfoldable pub record_outbox_publish_failure : ℕ → ℕ → Text → Tx (Unit {0})
  record_outbox_publish_failure id next_attempt error =
      Sql.exec failed h.faults
        (λ db. ok (each_event (update_pending id (refused next_attempt error)) db))
