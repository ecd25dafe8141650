-- ===== src/Tests/Publisher.antt =====
-- Concrete inputs for the publisher of the outbox.
use mathlib.Core.List.{Memᴰ}
use mathlib.Core.Path.{subst}
use tradesphere.Base.{map, ◌⊎◌, inr}
use tradesphere.Model.{Order}
use tradesphere.Dict.{values}
use tradesphere.Sql.{Session}
use tradesphere.Tests.Books.{cells, store}
use tradesphere.Engine.{MatchingEngine}
use tradesphere.Engine.Books.{HasValidBooks}
use tradesphere.MatchingService.Database.{scanned}
use tradesphere.MatchingService.Recovery.{load_open_orders, is_wanted}
use tradesphere.MatchingService.Startup.{start, IsSound, IsResting, start_recovers}
use tradesphere.Base.{
  sym, inl, ◌≤◌, length, ℕ, ◌+◌, ◌≡◌, refl, Bool, true, false, Option, none, some, List, [], ◌∷◌,
  ◌==◌, leb, if◌then◌else◌, ok, err, arith,
}
use tradesphere.Text.{Text, codes}
use tradesphere.MatchingService.Database.{Tables, Host, OutboxEvent}
use tradesphere.MatchingService.Outbox.{is_due, due_rows}
use tradesphere.Query.{select, order_by, insert_row}
use tradesphere.MatchingService.Publisher.{
  Bus, publish_event, publish_pending_trade_events, write_failed, message,
}
use tradesphere.MatchingService.Rows.{SameContent}
use tradesphere.MatchingService.Delivered.{rows, Delivered, AllDelivered, Continues}
use tradesphere.MatchingService.AtLeastOnce.{IsKeyed, publish_pending_trade_events-AllDelivered}
use tradesphere.MatchingService.Progress.{HasWriters, publish_pending_trade_events_progress}
use tradesphere.MatchingService.Retry.{publish_event_retry}

abbrev row : ℕ → Text → ℕ → OutboxEvent
row id topic attempts = record {
  id = id;
  topic = topic;
  event_key = codes "ABC";
  payload = codes "{}";
  created_at = 10 + id;
  published_at = none;
  publish_attempts = attempts;
  next_attempt_at = 20;
  claimed_by = none;
  claimed_at = none;
  last_error = none;
}

-- The second event has been tried ten times.
abbrev first_event : OutboxEvent
first_event = row 1 (codes "trades") 0

abbrev second_event : OutboxEvent
second_event = row 2 (codes "order-events") 10

abbrev tables : Tables
tables = record {
  trades = [];
  orders = [];
  trade_outbox = first_event ∷ second_event ∷ [];
  processed_events = λ group id. false;
}

abbrev host : Host
host = record {
  faults = λ n. false;
  clock = λ n. 100 + n;
  now = λ n. 100 + n;
  new_uuid = λ n. 7000 + n;
  marshal_trade = λ t. none;
  marshal_event = λ e. none;
}

abbrev bus : Bus
bus = record { session = record { db = tables; calls = 0 }; sent = []; writes = 0 }

-- The second write fails, though its message arrives.
abbrev flaky : ℕ → Option (Text × Bool)
flaky n = if n == 1 then some (codes "timeout", true) else none

abbrev steady : ℕ → Option (Text × Bool)
steady n = none

abbrev same : List OutboxEvent → List OutboxEvent
same es = es

abbrev rank : ℕ → ℕ
rank n = n

abbrev worker : Text
worker = codes "w"

-- What holds of the two rows holds of every row.
each_row :
    (P : OutboxEvent → Type 0)
    → P first_event
    → P second_event
    → (r : OutboxEvent) → Memᴰ r (rows bus)
    → P r
each_row P one two r (Memᴰ.head e) = subst P (sym e) one
each_row P one two r (Memᴰ.tail (Memᴰ.head e)) = subst P (sym e) two
each_row P one two r (Memᴰ.tail (Memᴰ.tail m)) = elim m [ ]

rows-IsKeyed : IsKeyed (rows bus)
rows-IsKeyed a b ma mb =
    each_row (λ x. x.id ≡ b.id → SameContent x b)
      (each_row (λ y. 1 ≡ y.id → SameContent first_event y) (λ k. (refl, refl, refl, refl))
        (λ k. absurd (omega (arith, k))) b mb)
      (each_row (λ y. 2 ≡ y.id → SameContent second_event y) (λ k. absurd (omega (arith, k)))
        (λ k. (refl, refl, refl, refl)) b mb)
      a ma

rows-AllDelivered : AllDelivered [] (rows bus)
rows-AllDelivered = each_row (Delivered []) (inl refl) (inl refl)

rows-HasWriters : (q : OutboxEvent) → Memᴰ q (rows bus) → HasWriters q
rows-HasWriters = each_row HasWriters (refl, refl) (refl, refl)

few : length (due_rows 101 (rows bus)) ≤ 100
unfolding select
few = omega arith

publish_pending_trade_events-AllDelivered_example :
    let b' = (publish_pending_trade_events host flaky rank same worker bus).1 in
    AllDelivered b'.sent (rows b') × Continues (rows bus) (rows b')
publish_pending_trade_events-AllDelivered_example =
    publish_pending_trade_events-AllDelivered host rank same flaky worker bus rows-IsKeyed
      (λ xs e m. m) rows-AllDelivered

publish_pending_trade_events_progress_example :
    let out = publish_pending_trade_events host steady rank same worker bus in
    (out.0 ≡ ok tt)
    × Memᴰ (message (codes "order-events-dlq") second_event) out.1.sent
    × ((r' : OutboxEvent) × Memᴰ r' (rows out.1)
        × SameContent r' second_event
        × ((now : ℕ) × (r'.published_at ≡ some now)))
publish_pending_trade_events_progress_example =
    publish_pending_trade_events_progress host steady (λ n. refl) (λ n. refl) rank same worker bus
      second_event (few) (λ xs e. (λ m. m, λ m. m)) rows-HasWriters (Memᴰ.tail (Memᴰ.head refl))
      refl

publish_event_retry_example :
    let out = publish_event host (λ n. some (codes "timeout", true)) first_event bus in
    (out.0 ≡ err (write_failed (codes "timeout")))
    × (out.1.sent ≡ message (codes "trades") first_event ∷ [])
    × ((r' : OutboxEvent) × Memᴰ r' (rows out.1)
        × SameContent r' first_event
        × (r'.publish_attempts ≡ 1)
        × ((now : ℕ) → is_due now r' ≡ leb 1000000100 now))
publish_event_retry_example =
    publish_event_retry host (λ n. some (codes "timeout", true)) first_event first_event bus
      (codes "timeout") true refl refl refl (omega arith) (Memᴰ.head refl) refl refl

-- Two asks and a bid are open.
abbrev crashed : Session Tables
crashed = record {
  db = record tables { orders = (11, cells 1) ∷ (12, cells 2) ∷ (13, cells 3) ∷ [] };
  calls = 0;
}

abbrev is_less : Text → Text → Bool
is_less a b = false

abbrev open_orders : List Order
open_orders = map scanned (cells 1 ∷ cells 2 ∷ cells 3 ∷ [])

loaded : (load_open_orders is_less host crashed).0 ≡ ok open_orders
unfolding load_open_orders order_by insert_row select
loaded = refl

row_cases :
    (row : Order)
    → Memᴰ row (values crashed.db.orders)
    → (row ≡ cells 1) ⊎ (row ≡ cells 2) ⊎ (row ≡ cells 3)
row_cases entry (Memᴰ.head e) = inl e
row_cases entry (Memᴰ.tail (Memᴰ.head e)) = inr (inl e)
row_cases entry (Memᴰ.tail (Memᴰ.tail (Memᴰ.head e))) = inr (inr e)
row_cases entry (Memᴰ.tail (Memᴰ.tail (Memᴰ.tail m))) = elim m [ ]

rows-IsSound : IsSound (values crashed.db.orders)
rows-IsSound = record {
  ranged = λ row m. ground (arith, row_cases row m);
  uncrossed = λ symbol b a mb ma wb wa rb ra. ground (arith, row_cases b mb, row_cases a ma);
}

start_recovers_example :
    (me : MatchingEngine) × (n : ℕ) × ((start is_less host store 20 crashed).0 ≡ some (me, n))
    × HasValidBooks me
    × ((row : Order)
        → Memᴰ row (values crashed.db.orders)
        → is_wanted row ≡ true
        → (p : ℕ) × (me.store.cells p ≡ scanned row) × IsResting me p)
start_recovers_example =
    start_recovers is_less host store 20 crashed open_orders loaded (λ p. ground arith) rows-IsSound
