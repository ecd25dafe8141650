-- ===== src/Portfolio/Atomic.antt =====
-- services/portfolio-service/kafka/consumer.go: what one call of processTrade or processOrderEvent
-- leaves of the tables.
use tradesphere.Base.{ℕ, ◌≡◌, ◌≢◌, Bool, true, false, ◌&&◌, ◌||◌, ◌==◌, ok, arith}
use tradesphere.Text.{Text, text_eq}
use tradesphere.Portfolio.Database.{
  Db, Session, Tx, ticked, is_event_processed, mark_event_processed,
}
use tradesphere.Portfolio.Consumer.{in_transaction, process_once}

-- The tables with the event marked
abbrev pub marked : Text → ℕ → Db → Db
marked group id db = record db {
  processed_events = λ g i. (text_eq group g && id == i) || db.processed_events g i;
}

module _ (faults : ℕ → Bool) (group : Text) (id : ℕ) (work : Tx (Unit {0})) (s : Session) where
  -- Whatever the work is and whichever calls fail: if the handler does not return true, the tables
  -- are as they were.
  pub process_once_atomic :
      (process_once faults group id work s).0 ≢ ok true
      → (process_once faults group id work s).1.db ≡ s.db
  unfolding process_once in_transaction is_event_processed mark_event_processed
  process_once_atomic h = ground arith

  -- If it returns true, the event was new, its work succeeded on the tables as they were, and the
  -- tables are those that the work left, with the event marked.
  pub process_once_effect :
      (process_once faults group id work s).0 ≡ ok true
      → let after = work (ticked (ticked s)) in
        (s.db.processed_events group id ≡ false)
        × (after.0 ≡ ok tt)
        × ((process_once faults group id work s).1.db ≡ marked group id after.1.db)
  unfolding process_once in_transaction is_event_processed mark_event_processed
  process_once_effect h = ground arith
