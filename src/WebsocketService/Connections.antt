-- ===== src/WebsocketService/Connections.antt =====
-- services/websocket-service/main.go: how clients come and go, and the gauge of their number.
-- handleConnections puts a client into the map under the mutex and adds one to the gauge after it; what
-- removes clients sets the gauge under the mutex. The steps of different connections interleave. The
-- two gauges are changed side by side and are one number here; an upgrade that fails changes nothing.
use tradesphere.Base.{
  ℕ, suc, ◌+◌, ◌-◌, ◌<◌, ◌≤◌, ◌≡◌, refl, Bool, true, false, List, [], ◌∷◌, if◌then◌else◌, length,
  arith,
}
use tradesphere.Heap.Slice.{count}
use tradesphere.WebsocketService.Hub.{
  Hub, has, add_client, remove_client, without_client, without_clients,
}

-- `waiting` counts the handlers between the map and the gauge.
pub record Connections : Type 0 where
  pub hub : Hub
  pub gauge : ℕ
  pub waiting : ℕ

-- handleConnections up to the end of its critical section, and its next line
unfoldable pub accept : ℕ → Connections → Connections
accept c s = record s { hub = add_client c s.hub; waiting = suc s.waiting }

unfoldable pub count_connection : Connections → Connections
count_connection s = record s { gauge = suc s.gauge; waiting = s.waiting - 1 }

-- removeClient
unfoldable pub remove : ℕ → Connections → Connections
remove c s = let hub = remove_client c s.hub in record s { hub = hub; gauge = length hub.clients }

-- A tick of the ping loop: a control message that fails ends the loop, which removes the client.
unfoldable pub ping : Bool → ℕ → Connections → Connections
ping failed c s = if failed then remove c s else s

-- The second critical section of broadcast
unfoldable pub drop_failed : List ℕ → Connections → Connections
drop_failed [] s = s
drop_failed (c ∷ cs) s =
    let left = without_clients (c ∷ cs) s.hub.clients in
    record s { hub = record s.hub { clients = left }; gauge = length left }

-- One step of any goroutine; a new client is a new pointer.
pub data Step : Connections → Connections → Type 0 where
  accepted : (c : ℕ) (s : Connections) → has c s.hub.clients ≡ false → Step s (accept c s)
  counted : (s : Connections) → 0 < s.waiting → Step s (count_connection s)
  pinged : (failed : Bool) (c : ℕ) (s : Connections) → Step s (ping failed c s)
  cut_off : (cs : List ℕ) (s : Connections) → Step s (drop_failed cs s)

pub data Steps (s : Connections) : Connections → Type 0 where
  here : Steps s s
  next : {t u : Connections} → Steps s t → Step t u → Steps s u

-- The map has each client once, and the gauge misses only those that are still to be counted.
pub record IsCounted (s : Connections) : Type 0 where
  pub once : (c : ℕ) → count c s.hub.clients ≤ 1
  pub counted_all : length s.hub.clients ≤ s.gauge + s.waiting

count-has : (c : ℕ) (cs : List ℕ) → has c cs ≡ false → count c cs ≡ 0
count-has c [] h = refl
count-has c (d ∷ ds) h = ground (arith, count-has c ds)

count-without : (c d : ℕ) (cs : List ℕ) → count c (without_client d cs) ≤ count c cs
unfolding without_client
count-without c d [] = omega arith
count-without c d (x ∷ xs) = ground (arith, count-without c d xs)

count-without_all : (c : ℕ) (ds cs : List ℕ) → count c (without_clients ds cs) ≤ count c cs
unfolding without_clients
count-without_all c [] cs = omega arith
count-without_all c (d ∷ ds) cs =
    omega (arith, count-without_all c ds (without_client d cs), count-without c d cs)

Step-IsCounted : {s t : Connections} → Step s t → IsCounted s → IsCounted t
unfolding accept count_connection ping remove drop_failed add_client remove_client
Step-IsCounted (accepted c s new) v = rw new record {
  once = λ d. ground (arith, v.once d, count-has c s.hub.clients new);
  counted_all = omega (arith, v.counted_all);
}
Step-IsCounted (counted s some_wait) v = record {
  once = v.once;
  counted_all = omega (arith, v.counted_all, some_wait);
}
Step-IsCounted (pinged true c s) v = record {
  once = λ d. omega (arith, v.once d, count-without d c s.hub.clients);
  counted_all = omega arith;
}
Step-IsCounted (pinged false c s) v = v
Step-IsCounted (cut_off [] s) v = v
Step-IsCounted (cut_off (c ∷ cs) s) v = record {
  once = λ d. omega (arith, v.once d, count-without_all d (c ∷ cs) s.hub.clients);
  counted_all = omega arith;
}

abbrev pub no_connections : Connections
no_connections = record {
  hub = record { clients = []; delivered = []; broadcasts = 0 };
  gauge = 0;
  waiting = 0;
}

-- However the handlers, the ping loops and the broadcasts interleave, from a start without clients:
-- each client is in the map at most once, and the gauge and the handlers that have not counted their
-- client yet are together at least the number of clients.
pub Steps-IsCounted : {s : Connections} → Steps no_connections s → IsCounted s
Steps-IsCounted here = record { once = λ c. omega arith; counted_all = omega arith }
Steps-IsCounted (next rs st) = Step-IsCounted st (Steps-IsCounted rs)
