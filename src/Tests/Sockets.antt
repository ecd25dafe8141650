-- ===== src/Tests/Sockets.antt =====
-- Concrete inputs for the websocket service and for the consumers' loop.
use mathlib.Core.List.{Memᴰ}
use tradesphere.Base.{length, ◌<◌, arith}
use tradesphere.WebsocketService.Hub.{remove_client, without_client, add_client}
use tradesphere.WebsocketService.Connections.{
  Connections, count_connection, remove, accept, ping, no_connections, IsCounted, Steps-IsCounted,
  here, next, accepted, counted, pinged,
}
use tradesphere.Base.{
  ℕ, suc, ◌≡◌, ◌⊎◌, refl, Bool, true, false, Option, none, some, List, [], ◌∷◌, ◌==◌, ok,
}
use tradesphere.Text.{Text, codes}
use tradesphere.WebsocketService.Hub.{Hub, has, without_client}
use tradesphere.WebsocketService.Events.{
  EventStore, Service, process_event, process_new_event, mark_and_commit, process_event_reaches,
}
use tradesphere.Kafka.{consume}

-- A database that counts the events it has marked, and finds none processed.
abbrev events : EventStore ℕ Bool
events = record {
  begin = λ s. (ok tt, s);
  is_event_processed = λ group id s. (ok false, s);
  mark_event_processed = λ group id s. (ok tt, record { db = suc s.db; calls = suc s.calls });
  commit = λ s. (ok tt, s);
  is_already_processed = λ e. e;
}

abbrev parse_uuid : Text → Option ℕ
parse_uuid [] = none
parse_uuid (c ∷ t) = some c

-- Client 2 is gone.
abbrev refuses : ℕ → ℕ → Bool
refuses c n = c == 2

abbrev hub : Hub
hub = record { clients = 1 ∷ 2 ∷ 3 ∷ []; delivered = []; broadcasts = 0 }

abbrev service : Service ℕ
service = record { session = record { db = 0; calls = 0 }; hub = hub }

-- Client 4 connects while the others are written to.
abbrev joined : ℕ → Hub → Hub
joined n h = record h { clients = 4 ∷ h.clients }

abbrev same : List ℕ → List ℕ
same cs = cs

sent :
    (process_event events parse_uuid refuses joined same
      (codes "g")
      (70 ∷ [])
      (codes "m")
      service).0
    ≡ ok tt
unfolding process_event process_new_event mark_and_commit
sent = refl

process_event_reaches_example :
    let out =
      process_event events parse_uuid refuses joined same
        (codes "g")
        (70 ∷ [])
        (codes "m")
        service in
    (id : ℕ) × (parse_uuid (70 ∷ []) ≡ some id)
    × (let seen = (events.is_event_processed (codes "g") id service.session).0 in
        ((seen ≡ ok true) × (out.1.hub ≡ hub))
        ⊎ ((seen ≡ ok false)
            × ((true ≡ false) ⊎ Memᴰ (3, codes "m") out.1.hub.delivered)
            × (has 3 out.1.hub.clients ≡ true)))
process_event_reaches_example =
    process_event_reaches events parse_uuid refuses joined same (codes "g") (70 ∷ []) (codes "m")
      service 3 (λ cs d. refl) sent

-- Of three messages the first fails; the group starts again at the offset 3.
run-consume : (consume (λ (m s : ℕ). (m == 1, suc s)) (λ n. true) 0 (0 ∷ 1 ∷ 1 ∷ []) 0 0).1 ≡ 3
unfolding consume
run-consume = refl

-- A client comes while another one goes: the gauge ends above the number of clients.
abbrev overcounted : Connections
overcounted = count_connection (remove 4 (accept 5 (count_connection (accept 4 no_connections))))

overcounted_by_one : (overcounted.gauge ≡ 2) × (length overcounted.hub.clients ≡ 1)
unfolding count_connection remove accept add_client remove_client without_client
overcounted_by_one = (refl, refl)

four_waits : 0 < (accept 4 no_connections).waiting
unfolding accept
four_waits = omega arith

five_is_new : has 5 (count_connection (accept 4 no_connections)).hub.clients ≡ false
unfolding count_connection accept add_client
five_is_new = refl

Steps-IsCounted_example :
    IsCounted (ping true 4 (accept 5 (count_connection (accept 4 no_connections))))
Steps-IsCounted_example = Steps-IsCounted (
    next
      (next
        (next (next here (accepted 4 no_connections refl))
          (counted (accept 4 no_connections) four_waits))
        (accepted 5 (count_connection (accept 4 no_connections)) five_is_new))
      (pinged true 4 (accept 5 (count_connection (accept 4 no_connections)))))
