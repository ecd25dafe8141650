-- ===== src/MatchingService/Effect.antt =====
-- services/matching-engine/kafka/consumer.go: what a create command does when it succeeds.
use tradesphere.Base.{
  ℕ, ◌≡◌, ◌≢◌, sym, ap, ◌∙◌, inl, inr, true, false, some, List, map, ◌++◌, Result-cases, ok, arith,
}
use tradesphere.Text.{Text, text_eq_refl}
use tradesphere.Model.{Order, Trade, OrderCommand, World}
use tradesphere.Engine.{MatchingEngine, allocate, process_order, snapshot_symbol, restore_symbol}
use tradesphere.Sql.{ticked}
use tradesphere.MatchingService.Database.{
  Tables, OutboxEvent, Session, Host, is_event_processed, mark_event_processed,
  persist_match_results,
}
use tradesphere.MatchingService.Persist.{AnnounceTrades, AnnounceOrders, persist_match_results-ok}
use tradesphere.MatchingService.Consumer.{
  skip_command, mark_and_commit, match_and_persist, begin_command, process_create_command,
}

-- The tables have the trades, and the outbox an event for each trade and each order.
abbrev pub Records : Host → List Trade → List Order → Tables → Tables → Type 0
Records h ts os before after =
    (after.trades ≡ before.trades ++ ts)
    × ((es ds : List OutboxEvent) × (after.trade_outbox ≡ (before.trade_outbox ++ es) ++ ds)
        × AnnounceTrades h ts es
        × AnnounceOrders os ds)

module _ (h : Host) (w : World) (range pick : List ℕ → List ℕ) where
  mark_and_commit-ok :
      (group : Text) (id : ℕ) (before : Tables) (kept back : MatchingEngine) (s : Session)
      → let out = mark_and_commit h w range pick group id before kept back s in
        out.0 ≡ ok true
        → (out.1 ≡ kept)
          × (out.2.db.trades ≡ s.db.trades)
          × (out.2.db.trade_outbox ≡ s.db.trade_outbox)
          × (out.2.db.processed_events group id ≡ true)
  unfolding mark_and_commit mark_event_processed
  mark_and_commit-ok group id before kept back s done = ground (arith, text_eq_refl group)

  match_and_persist-ok :
      (o id : ℕ) (group : Text) (before : Tables) (me : MatchingEngine) (s : Session)
      → let out = match_and_persist h w range pick o id group before me s in
        let (me', trades, updated) = process_order w range o me in
        out.0 ≡ ok true
        → (out.1 ≡ me')
          × Records h trades (map me'.store.cells updated) s.db out.2.db
          × (out.2.db.processed_events group id ≡ true)
  unfolding match_and_persist
  match_and_persist-ok o id group before me s done =
      let (me', trades, updated) = process_order w range o me in
      let back = restore_symbol (snapshot_symbol pick (me.store.cells o).symbol me) me' in
      let os = map me'.store.cells updated in
      let s' = (persist_match_results h trades os s).1 in
      elim (Result-cases (persist_match_results h trades os s).0) [
        | inr (x, e) ↦ absurd (ground arith)
        | inl (tt, e) ↦
            let ran : match_and_persist h w range pick o id group before me s
                ≡ mark_and_commit h w range pick group id before me' back s' =
              ground arith in
            let (kept, ts, q, seen) =
              mark_and_commit-ok group id before me' back s' (sym (ap (λ r. r.0) ran) ∙ done) in
            let (ts', (es, ds, q', a, b)) = persist_match_results-ok h trades os s e in
            (
              ap (λ r. r.1) ran ∙ kept,
              (
                ap (λ r. r.2.db.trades) ran ∙ ts ∙ ts',
                (es, ds, ap (λ r. r.2.db.trade_outbox) ran ∙ q ∙ q', a, b),
              ),
              ap (λ r. r.2.db.processed_events group id) ran ∙ seen,
            )
      ]

  -- If processCreateCommand returns true, then its event was not marked as processed before and is
  -- now; the memory is the one that ProcessOrder leaves, with the new order's object; the trades of
  -- ProcessOrder are appended to their table; and the outbox has one pending event more for each
  -- of them and then for each order that ProcessOrder reported, as it is in that memory.
  pub process_create_command_effect :
      (command : OrderCommand) (order : Order) (group : Text) (me : MatchingEngine) (s : Session)
      → let out = process_create_command h w range pick command group me s in
        let (me', trades, updated) = process_order w range me.next (allocate order me) in
        command.order ≡ some order
        → out.0 ≡ ok true
        → (s.db.processed_events group command.id ≡ false)
          × (out.1 ≡ me')
          × Records h trades (map me'.store.cells updated) s.db out.2.db
          × (out.2.db.processed_events group command.id ≡ true)
  unfolding process_create_command begin_command skip_command is_event_processed
  process_create_command_effect command order group me s e done =
      let me1 = allocate order me in
      let s' = ticked (ticked s) in
      let work = match_and_persist h w range pick me.next command.id group s.db me1 s' in
      let both : (s.db.processed_events group command.id ≡ false)
          × (process_create_command h w range pick command group me s ≡ work) =
        ground arith in
      let (kept, (added, (es, ds, queued, ts, os)), seen) =
        match_and_persist-ok me.next command.id group s.db me1 s'
          (sym (ap (λ r. r.0) both.1) ∙ done) in
      (
        both.0,
        ap (λ r. r.1) both.1 ∙ kept,
        (
          ap (λ r. r.2.db.trades) both.1 ∙ added,
          (es, ds, ap (λ r. r.2.db.trade_outbox) both.1 ∙ queued, ts, os),
        ),
        ap (λ r. r.2.db.processed_events group command.id) both.1 ∙ seen,
      )

  process_create_command_seen :
      (command : OrderCommand) (order : Order) (group : Text) (me : MatchingEngine) (s : Session)
      → let out = process_create_command h w range pick command group me s in
        command.order ≡ some order
        → s.db.processed_events group command.id ≡ true
        → (out.0 ≢ ok true) × (out.1 ≡ allocate order me) × (out.2.db ≡ s.db)
  unfolding process_create_command begin_command skip_command is_event_processed
  process_create_command_seen command order group me s e seen = ground arith

  -- If processCreateCommand returns true and Kafka delivers the same command again, then the second
  -- run changes no table, does not return true, and leaves the memory as it was but for the new object
  -- that was decoded.
  pub process_create_command_once :
      (command : OrderCommand) (order : Order) (group : Text) (me : MatchingEngine) (s : Session)
      → let first = process_create_command h w range pick command group me s in
        let second = process_create_command h w range pick command group first.1 first.2 in
        command.order ≡ some order
        → first.0 ≡ ok true
        → (second.0 ≢ ok true) × (second.1 ≡ allocate order first.1) × (second.2.db ≡ first.2.db)
  process_create_command_once command order group me s e done =
      let first = process_create_command h w range pick command group me s in
      let (_, _, _, seen) = process_create_command_effect command order group me s e done in
      process_create_command_seen command order group first.1 first.2 e seen
