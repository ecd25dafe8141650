-- ===== src/MatchingService/Atomic.antt =====
-- services/matching-engine/kafka/consumer.go: what a command leaves of the tables and of memory.
use tradesphere.Base.{
  ℕ, ◌≡◌, ◌⊎◌, refl, inl, inr, true, Option-cases, some, List, map, ok, err, arith,
}
use tradesphere.Text.{Text}
use tradesphere.Model.{Order, OrderCommand, CancelRequest, World, cancelled}
use tradesphere.Engine.{MatchingEngine, allocate, process_order, snapshot_symbol, restore_symbol}
use tradesphere.Dict.{lookup, nat_eq}
use tradesphere.Engine.Cancel.{cancel_found}
use tradesphere.Sql.{ticked}
use tradesphere.MatchingService.Database.{
  Tables, failed, Session, Host, is_event_processed, mark_event_processed, persist_match_results,
  persist_cancelled_order,
}
use tradesphere.MatchingService.Consumer.{
  Outcome, skip_command, mark_and_commit, match_and_persist, begin_command, process_create_command,
  cancel_and_persist, mark_missing, cancel_row, process_cancel_command, cancelled_order, database,
}

-- Either true was returned, or the tables are as they were and memory is one of two.
abbrev pub Leaves : Tables → MatchingEngine → MatchingEngine → Outcome → Type 0
Leaves before me back out =
    (out.0 ≡ ok true) ⊎ ((out.2.db ≡ before) × ((out.1 ≡ me) ⊎ (out.1 ≡ back)))

module _ (h : Host) (w : World) (range pick : List ℕ → List ℕ) where
  mark_and_commit-Leaves :
      (group : Text) (id : ℕ) (before : Tables) (me kept back : MatchingEngine) (s : Session)
      → Leaves before me back (mark_and_commit h w range pick group id before kept back s)
  unfolding mark_and_commit mark_event_processed
  mark_and_commit-Leaves group id before me kept back s = ground arith

  match_and_persist-Leaves :
      (o id : ℕ) (group : Text) (before : Tables) (me : MatchingEngine) (s : Session)
      → let back =
          restore_symbol
            (snapshot_symbol pick (me.store.cells o).symbol me)
            (process_order w range o me).0 in
        Leaves before me back (match_and_persist h w range pick o id group before me s)
  unfolding match_and_persist
  match_and_persist-Leaves o id group before me s =
      let (me', trades, updated) = process_order w range o me in
      let back = restore_symbol (snapshot_symbol pick (me.store.cells o).symbol me) me' in
      let s' = (persist_match_results h trades (map me'.store.cells updated) s).1 in
      ground (arith, mark_and_commit-Leaves group id before me me' back s')

  begin_command-Leaves :
      (group : Text) (id : ℕ) (me back : MatchingEngine) (work : Session → Outcome) (s : Session)
      → ((s' : Session) → Leaves s.db me back (work s'))
      → Leaves s.db me back (begin_command h w range pick group id me work s)
  unfolding begin_command skip_command is_event_processed
  begin_command-Leaves group id me back work s k =
      ground (arith, k (is_event_processed h group id (ticked s)).1)

  -- Unless processCreateCommand returns true, the tables are as they were, whichever call fails; and
  -- the engine's memory is as it was with the new order's object, or it is what RestoreSymbol makes
  -- of the memory that ProcessOrder left, from the snapshot that was taken before.
  pub process_create_command_atomic :
      (command : OrderCommand) (order : Order) (group : Text) (me : MatchingEngine) (s : Session)
      → command.order ≡ some order
      → let out = process_create_command h w range pick command group me s in
        let me1 = allocate order me in
        (out.0 ≡ ok true)
        ⊎ ((out.2.db ≡ s.db)
            × ((out.1 ≡ me1)
                ⊎ (out.1
                    ≡ restore_symbol
                        (snapshot_symbol pick (me1.store.cells me.next).symbol me1)
                        (process_order w range me.next me1).0)))
  unfolding process_create_command
  process_create_command_atomic command order group me s e =
      let me1 = allocate order me in
      let back =
        restore_symbol (snapshot_symbol pick (me1.store.cells me.next).symbol me1)
          (process_order w range me.next me1).0 in
      rw e (
        begin_command-Leaves group command.id me1 back
          (match_and_persist h w range pick me.next command.id group s.db me1) s
          (match_and_persist-Leaves me.next command.id group s.db me1))

  cancel_and_persist_tables :
      (order : Order) (id : ℕ) (group : Text) (before : Tables) (me : MatchingEngine) (s : Session)
      → let out = cancel_and_persist h w range pick order id group before me s in
        (out.0 ≡ ok true) ⊎ (out.2.db ≡ before)
  unfolding cancel_and_persist mark_and_commit
  cancel_and_persist_tables order id group before me s = ground arith

  cancel_row_tables :
      (cancel : CancelRequest) (id : ℕ) (group : Text) (before : Tables) (me : MatchingEngine)
      (s : Session)
      → let out = cancel_row h w range pick cancel id group before me s in
        (out.0 ≡ ok true) ⊎ (out.2.db ≡ before)
  unfolding cancel_row mark_missing mark_and_commit
  cancel_row_tables cancel id group before me s = grind (arith, cancel_and_persist_tables)

  -- Unless processCancelCommand returns true, the tables are as they were, whichever call fails.
  pub process_cancel_command_atomic :
      (command : OrderCommand) (group : Text) (me : MatchingEngine) (s : Session)
      → let out = process_cancel_command h w range pick command group me s in
        (out.0 ≡ ok true) ⊎ (out.2.db ≡ s.db)
  unfolding process_cancel_command begin_command skip_command is_event_processed
  process_cancel_command_atomic command group me s = elim (Option-cases command.cancel) [
    | inl e ↦ rw e (inr refl)
    | inr (cancel, e) ↦ rw e (
        ground (
          arith,
          cancel_row_tables cancel command.id group s.db me
              (is_event_processed h group command.id (ticked s)).1,
        ))
  ]

  -- If the row of an open order is cancelled and then MarkEventProcessed fails, then
  -- the tables are as they were, with the order open, while the engine has it as cancelled.
  pub cancel_and_persist_diverges :
      (order : Order) (id p : ℕ) (group : Text) (before : Tables) (me : MatchingEngine)
      (s s' : Session)
      → lookup nat_eq order.id me.orders ≡ some p
      → persist_cancelled_order h (some (cancelled_order order)) s ≡ (ok tt, s')
      → h.faults s'.calls ≡ true
      → let out = cancel_and_persist h w range pick order id group before me s in
        (out.0 ≡ err (database failed))
        × (out.2.db ≡ before)
        × ((out.1.store.cells p).status ≡ cancelled)
  unfolding cancel_and_persist mark_and_commit mark_event_processed
  cancel_and_persist_diverges order id p group before me s s' found done fault =
      ground (arith, cancel_found order.id p me found)
