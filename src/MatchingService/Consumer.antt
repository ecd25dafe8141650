-- ===== src/MatchingService/Consumer.antt =====
-- services/matching-engine/kafka/consumer.go: a command changes the tables in one transaction and
-- the engine's memory, which the code puts back by hand. `range` and `pick` are the orders in which
-- ProcessOrder and SnapshotSymbol visit Go's maps. Logs and metrics are left out.
use tradesphere.Base.{
  ℕ, Bool, true, false, not, ◌&&◌, Option, none, some, List, map, if◌then◌else◌, Result, ok, err,
}
use tradesphere.Int.{ℤ, pos, ltb_ℤ}
use tradesphere.Text.{Text, codes, is_empty}
use tradesphere.Model.{
  Order, OrderStatus, cancelled, limit, other_type, OrderCommand, OrderCommandType, create_order,
  cancel_order, other_command, CancelRequest, World, is_limit, is_cancelled, is_filled,
}
use tradesphere.Engine.{
  MatchingEngine, EngineError, SymbolSnapshot, allocate, process_order, snapshot_symbol,
  restore_symbol, restore_order,
}
use tradesphere.Engine
use tradesphere.Sql
use tradesphere.Sql.{ticked, undone}
use tradesphere.MatchingService.Database.{
  Tables, DbError, failed, no_rows, already_processed, Session, Tx, Host, is_event_processed,
  mark_event_processed, persist_match_results, persist_cancelled_order, get_order_for_update,
}

pub data CommandError : Type 0 where
  missing_order missing_cancel : CommandError
  database : DbError → CommandError

-- What a handler leaves: its result, the memory and the tables.
abbrev pub Outcome : Type 0
Outcome = Result CommandError Bool × MatchingEngine × Session

abbrev pub lifted : {A : Type 0} → Result DbError A → Result CommandError A
lifted (ok a) = ok a
lifted (err e) = err (database e)

-- The test for ErrEventAlreadyProcessed behind MarkEventProcessed: it is no error.
abbrev pub unless_duplicate : DbError → Result CommandError Bool
unless_duplicate already_processed = ok false
unless_duplicate e = err (database e)

-- isSupportedCommandType
abbrev pub is_supported_command_type : OrderCommandType → Bool
is_supported_command_type (other_command t) = false
is_supported_command_type _ = true

-- decodeOrderCommand on what json.Unmarshal reads of the bytes, as a command and as an order
unfoldable pub decode_order_command : Option OrderCommand → Option Order → Option OrderCommand
decode_order_command command legacy_order =
    let legacy : Option OrderCommand = elim legacy_order [
      | none ↦ none
      | some o ↦ some (record {
        id = o.id;
        type = create_order;
        symbol = o.symbol;
        order = some o;
        cancel = none;
        created_at = o.created_at;
      })
    ] in
    elim command [
      | none ↦ legacy
      | some c ↦ if is_supported_command_type c.type then some c else legacy
    ]

-- The order may still be cancelled.
abbrev pub is_open : Order → Bool
is_open o =
    not (is_filled o.status) && not (is_cancelled o.status) && ltb_ℤ (pos 0) o.remaining_quantity

abbrev pub cancelled_order : Order → Order
cancelled_order o = record o { remaining_quantity = pos 0; status = cancelled }

-- The undo of a cancellation in memory: RestoreOrder with what CancelOrder returned
abbrev pub uncancel : ℕ → Result EngineError (ℤ × OrderStatus) → MatchingEngine → MatchingEngine
uncancel id (err e) me = me
uncancel id (ok (remaining, status)) me = (restore_order id remaining status me).1

-- The defaults of StartOrderConsumer: an order with no type is a limit order.
abbrev pub with_default_type : Order → Order
with_default_type order = elim order.type [
  | other_type t ↦ if is_empty t then record order { type = limit } else order
  | _ ↦ order
]

module _ (h : Host) (w : World) (range pick : List ℕ → List ℕ) where
  abbrev pub commit : {A : Type 0} → Tables → A → Tx A
  commit = Sql.commit failed h.faults

  -- The end of a command that was there already
  unfoldable pub skip_command : Tables → MatchingEngine → Session → Outcome
  skip_command before me s = let (r, s') = commit before false s in (lifted r, me, s')

  -- From MarkEventProcessed to the end: `kept` is the memory after a commit, `back` after an error.
  unfoldable pub mark_and_commit :
      Text → ℕ → Tables → MatchingEngine → MatchingEngine → Session → Outcome
  mark_and_commit group id before kept back s =
      let (r, s') = mark_event_processed h group id s in
      elim r [
        | err e ↦ (unless_duplicate e, back, undone before s')
        | ok _ ↦
            let (r', s'') = commit before true s' in
            (lifted r', elim r' [ ok _ ↦ kept | err _ ↦ back ], s'')
      ]

  -- processCreateCommand behind the test for a duplicate, for the order at `o`
  unfoldable pub match_and_persist : ℕ → ℕ → Text → Tables → MatchingEngine → Session → Outcome
  match_and_persist o id group before me s =
      let snapshot = snapshot_symbol pick (me.store.cells o).symbol me in
      let (me', trades, updated) = process_order w range o me in
      let back = restore_symbol snapshot me' in
      let (r, s') = persist_match_results h trades (map me'.store.cells updated) s in
      elim r [
        | err e ↦ (err (database e), back, undone before s')
        | ok _ ↦ mark_and_commit group id before me' back s'
      ]

  -- What both handlers begin with: Begin, and the test for a duplicate
  unfoldable pub begin_command : Text → ℕ → MatchingEngine → (Session → Outcome) → Session → Outcome
  begin_command group id me work s =
      if h.faults s.calls
      then (err (database failed), me, ticked s)
      else (let (r, s') = is_event_processed h group id (ticked s) in
          elim r [
            | err e ↦ (err (database e), me, undone s.db s')
            | ok seen ↦ if seen then skip_command s.db me s' else work s'
          ])

  -- processCreateCommand; the message's order is a new object.
  unfoldable pub process_create_command : OrderCommand → Text → MatchingEngine → Session → Outcome
  process_create_command command group me s = elim command.order [
    | none ↦ (err missing_order, me, s)
    | some order ↦
        let me1 = allocate order me in
        begin_command group command.id me1 (match_and_persist me.next command.id group s.db me1) s
  ]

  -- processCancelCommand for an open row: memory first, then the tables. After the last two calls
  -- memory stays as it is, whatever they return.
  unfoldable pub cancel_and_persist : Order → ℕ → Text → Tables → MatchingEngine → Session → Outcome
  cancel_and_persist order id group before me s =
      let (c, me') = Engine.cancel_order order.id me in
      let (r, s') = persist_cancelled_order h (some (cancelled_order order)) s in
      elim r [
        | err e ↦ (err (database e), uncancel order.id c me', undone before s')
        | ok _ ↦ mark_and_commit group id before me' me' s'
      ]

  -- processCancelCommand for an id that has no row: an error of MarkEventProcessed is an error here,
  -- also for a duplicate.
  unfoldable pub mark_missing : Text → ℕ → Tables → MatchingEngine → Session → Outcome
  mark_missing group id before me s =
      let (r, s') = mark_event_processed h group id s in
      elim r [
        | err e ↦ (err (database e), me, undone before s')
        | ok _ ↦ let (r', s'') = commit before true s' in (lifted r', me, s'')
      ]

  -- processCancelCommand behind the test for a duplicate
  unfoldable pub cancel_row : CancelRequest → ℕ → Text → Tables → MatchingEngine → Session → Outcome
  cancel_row cancel id group before me s =
      let (r, s') = get_order_for_update h cancel.order_id s in
      elim r [
        | ok order ↦
            if is_open order
            then cancel_and_persist order id group before me s'
            else mark_and_commit group id before me me s'
        | err e ↦ elim e [
          | no_rows ↦ mark_missing group id before me s'
          | other ↦ (err (database other), me, undone before s')
        ]
      ]

  unfoldable pub process_cancel_command : OrderCommand → Text → MatchingEngine → Session → Outcome
  process_cancel_command command group me s = elim command.cancel [
    | none ↦ (err missing_cancel, me, s)
    | some cancel ↦ begin_command group command.id me (cancel_row cancel command.id group s.db me) s
  ]

  -- A round of StartOrderConsumer on a command: whether it goes on to CommitMessages
  unfoldable pub handle_create :
      OrderCommand → MatchingEngine → Session → Bool × MatchingEngine × Session
  handle_create command me s = elim command.order [
    | none ↦ (false, me, s)
    | some sent ↦
        let order = with_default_type sent in
        let (r, me', s') =
          process_create_command (record command { order = some order })
            (codes "matching-engine-orders") me s in
        if is_limit order.type
        then (elim r [ ok _ ↦ true | err _ ↦ false ], me', s')
        else (false, me, s)
  ]

  unfoldable pub handle_command :
      OrderCommand → MatchingEngine → Session → Bool × MatchingEngine × Session
  handle_command command me s = elim command.type [
    | create_order ↦ handle_create command me s
    | cancel_order ↦
        let (r, me', s') = process_cancel_command command (codes "matching-engine-cancel") me s in
        (elim r [ ok _ ↦ true | err _ ↦ false ], me', s')
    | other_command t ↦ (false, me, s)
  ]

  -- A round of StartOrderConsumer on what json.Unmarshal reads of a message
  unfoldable pub order_round :
      Option OrderCommand × Option Order
      → MatchingEngine × Session
      → Bool × (MatchingEngine × Session)
  order_round (raw, legacy) (me, s) = elim (decode_order_command raw legacy) [
    | none ↦ (false, (me, s))
    | some command ↦ let (done, me', s') = handle_command command me s in (done, (me', s'))
  ]
