-- ===== src/Tests/Commands.antt =====
-- Concrete inputs for the consumer of commands.
use tradesphere.Base.{
  ℕ, ◌+◌, ◌<◌, ◌≡◌, ◌≢◌, ◌⊎◌, inl, inr, refl, arith, Bool, true, false, none, some, List, [], ◌∷◌,
  map, ◌==◌, ok, err,
}
use tradesphere.Int.{◌+ℤ◌, ◌-ℤ◌, sub64, wrap64}
use tradesphere.Text.{Text, codes}
use tradesphere.Model.{OrderCommand, create_order, cancel_order, buy, cancelled}
use tradesphere.Heap.{push, pop, up, down, swap, first_child}
use tradesphere.Matching.{
  match_against, match_loop, match_round, trade_quantity, traded, traded_cells, dropped,
}
use tradesphere.OrderBook
use tradesphere.Engine
use tradesphere.Engine.{
  allocate, process_order, snapshot_symbol, restore_symbol, update_order_status, update_statuses,
  changed_by, add_changed, of_symbol,
}
use tradesphere.MatchingService.Database.{
  Tables, Host, Session, failed, is_event_processed, mark_event_processed, persist_match_results,
  persist_trades, persist_orders, persist_trade, persist_order, insert_trade, update_order_state,
  enqueue_order_event, enqueue_outbox_event, persist_cancelled_order,
}
use tradesphere.MatchingService.Consumer.{
  process_create_command, process_cancel_command, begin_command, match_and_persist, mark_and_commit,
  cancel_and_persist, cancelled_order, database,
}
use tradesphere.MatchingService.Atomic.{
  process_create_command_atomic, process_cancel_command_atomic, cancel_and_persist_diverges,
}
use tradesphere.MatchingService.Effect.{
  Records, process_create_command_effect, process_create_command_once,
}
use tradesphere.MatchingService.Rollback.{process_create_command-HasValidBooks}
use tradesphere.Engine.Books.{HasValidBooks}
use tradesphere.Engine.Filling.{IsIn}
use tradesphere.Engine.Settled.{IsSettled}
use tradesphere.Dict.{values}
use mathlib.Core.Path.{subst}
use mathlib.Core.List.{Memᴰ}
use tradesphere.Tests.Books.{
  engine, world, cells, book, cells-ranged, engine-HasValidBooks, only_book,
}

-- The rows of the three orders that rest and of the one that comes.
abbrev tables : Tables
tables = record {
  trades = [];
  orders = (10, cells 0) ∷ (11, cells 1) ∷ (12, cells 2) ∷ (13, cells 3) ∷ [];
  trade_outbox = [];
  processed_events = λ group id. false;
}

abbrev host_with : (ℕ → Bool) → Host
host_with faults = record {
  faults = faults;
  clock = λ n. 100 + n;
  now = λ n. 100 + n;
  new_uuid = λ n. 7000 + n;
  marshal_trade = λ t. some (codes "trade");
  marshal_event = λ e. some (codes "event");
}

abbrev host : Host
host = host_with (λ n. false)

-- The 3rd call fails.
abbrev failing : Host
failing = host_with (λ n. n == 3)

abbrev session : Session
session = record { db = tables; calls = 0 }

abbrev group : Text
group = codes "matching-engine-orders"

abbrev create : OrderCommand
create = record {
  id = 500;
  type = create_order;
  symbol = codes "ABC";
  order = some (cells 0);
  cancel = none;
  created_at = 1;
}

abbrev cancel : OrderCommand
cancel = record {
  id = 501;
  type = cancel_order;
  symbol = codes "ABC";
  order = none;
  cancel = some (record { order_id = 12; user_id = 1; symbol = codes "ABC"; side = buy });
  created_at = 1;
}

created :
    (process_create_command host world (λ xs. xs) (λ xs. xs) create group engine session).0
    ≡ ok true
unfolding process_create_command begin_command is_event_processed match_and_persist mark_and_commit
    mark_event_processed persist_match_results persist_trades persist_orders persist_trade
    persist_order insert_trade update_order_state enqueue_order_event enqueue_outbox_event
    snapshot_symbol of_symbol process_order update_order_status update_statuses changed_by
    add_changed OrderBook.process_order OrderBook.match_buy_order match_against match_loop
    match_round trade_quantity traded traded_cells dropped pop push down up swap first_child ◌+ℤ◌
    ◌-ℤ◌ sub64 wrap64
created = refl

abbrev same : List ℕ → List ℕ
same xs = xs

-- The engine with the object of the new order
abbrev with_order : Engine.MatchingEngine
with_order = allocate (cells 0) engine

process_create_command_atomic_example :
    let out = process_create_command failing world same same create group engine session in
    (out.0 ≡ ok true)
    ⊎ ((out.2.db ≡ tables)
        × ((out.1 ≡ with_order)
            ⊎ (out.1
                ≡ restore_symbol
                    (snapshot_symbol same (codes "ABC") with_order)
                    (process_order world same 5 with_order).0)))
process_create_command_atomic_example =
    process_create_command_atomic failing world same same create (cells 0) group engine session refl

listed_cases : (p : ℕ) → Memᴰ p (values engine.orders) → (p ≡ 1) ⊎ (p ≡ 2) ⊎ (p ≡ 3)
listed_cases p (Memᴰ.head e) = inl e
listed_cases p (Memᴰ.tail (Memᴰ.head e)) = inr (inl e)
listed_cases p (Memᴰ.tail (Memᴰ.tail (Memᴰ.head e))) = inr (inr e)
listed_cases p (Memᴰ.tail (Memᴰ.tail (Memᴰ.tail m))) = elim m [ ]

engine-IsSettled : IsSettled engine
engine-IsSettled = record {
  valid = engine-HasValidBooks;
  older = λ symbol ob found.
      subst (λ b. (p : ℕ) → IsIn p b → p < 5) (only_book symbol ob found)
        (λ p inside. ground arith);
  rests = λ p m live. (
    book,
    elim (listed_cases p m) [
      | inl e ↦ rw e refl
      | inr (inl e) ↦ rw e refl
      | inr (inr e) ↦ rw e refl
    ],
    ground (arith, listed_cases p m),
  );
  known = λ p m. ground (arith, listed_cases p m);
}

process_create_command-HasValidBooks_example :
    HasValidBooks (process_create_command failing world same same create group engine session).1
process_create_command-HasValidBooks_example =
    process_create_command-HasValidBooks failing world same same create (cells 0) group engine
      session (λ ps p m. m) engine-IsSettled (cells-ranged 0) (cells-ranged 0) refl

process_create_command_effect_example :
    let out = process_create_command host world same same create group engine session in
    let (me', trades, updated) = process_order world same 5 with_order in
    (false ≡ false)
    × (out.1 ≡ me')
    × Records host trades (map me'.store.cells updated) tables out.2.db
    × (out.2.db.processed_events group 500 ≡ true)
process_create_command_effect_example =
    process_create_command_effect host world same same create (cells 0) group engine session refl
      created

process_create_command_once_example :
    let first = process_create_command host world same same create group engine session in
    let second = process_create_command host world same same create group first.1 first.2 in
    (second.0 ≢ ok true) × (second.1 ≡ allocate (cells 0) first.1) × (second.2.db ≡ first.2.db)
process_create_command_once_example =
    process_create_command_once host world same same create (cells 0) group engine session refl
      created

process_cancel_command_atomic_example :
    let out = process_cancel_command failing world same same cancel group engine session in
    (out.0 ≡ ok true) ⊎ (out.2.db ≡ tables)
process_cancel_command_atomic_example =
    process_cancel_command_atomic failing world same same cancel group engine session

-- The call after the two that write the cancelled order fails.
abbrev late : Host
late = host_with (λ n. n == 2)

late_fails :
    late.faults (persist_cancelled_order late (some (cancelled_order (cells 2))) session).1.calls
    ≡ true
unfolding persist_cancelled_order update_order_state enqueue_order_event enqueue_outbox_event
late_fails = refl

persisted :
    persist_cancelled_order late (some (cancelled_order (cells 2))) session
    ≡ (ok tt, (persist_cancelled_order late (some (cancelled_order (cells 2))) session).1)
unfolding persist_cancelled_order update_order_state enqueue_order_event enqueue_outbox_event
persisted = refl

cancel_and_persist_diverges_example :
    let out = cancel_and_persist late world same same (cells 2) 501 group tables engine session in
    (out.0 ≡ err (database failed))
    × (out.2.db ≡ tables)
    × ((out.1.store.cells 2).status ≡ cancelled)
cancel_and_persist_diverges_example =
    cancel_and_persist_diverges late world same same (cells 2) 501 2 group tables engine session
      (persist_cancelled_order late (some (cancelled_order (cells 2))) session).1 refl persisted
      late_fails
