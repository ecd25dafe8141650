-- ===== src/WebsocketService/Hub.antt =====
-- services/websocket-service/main.go: the clients and the broadcast. A client is its address.
-- broadcast holds the mutex twice, and other goroutines may do anything to the hub in between: what
-- they do is a parameter, `meanwhile`, by the number of the broadcast.
use mathlib.Core.List.{Memᴰ}
use mathlib.Core.List.Memᴰ
use tradesphere.Base.{
  ℕ, suc, ◌≡◌, refl, sym, ap, inl, inr, Bool, true, false, Bool-cases, not, ◌&&◌, ◌∙◌, List, [],
  ◌∷◌, ◌++◌, ◌==◌, ==_iff, if◌then◌else◌, arith,
}
use tradesphere.Text.{Text}

-- `clients`, the messages that the connections took, and the number of broadcasts
pub record Hub : Type 0 where
  pub clients : List ℕ
  pub delivered : List (ℕ × Text)
  pub broadcasts : ℕ

abbrev pub has : ℕ → List ℕ → Bool
has c [] = false
has c (d ∷ ds) = let rest = has c ds in if c == d then true else rest

-- `clients[client] = true`
unfoldable pub add_client : ℕ → Hub → Hub
add_client c hub = if has c hub.clients then hub else record hub { clients = c ∷ hub.clients }

-- `delete(clients, client)`, for one client and for several
unfoldable pub without_client : ℕ → List ℕ → List ℕ
without_client c [] = []
without_client c (d ∷ ds) = let rest = without_client c ds in if c == d then rest else d ∷ rest

unfoldable pub without_clients : List ℕ → List ℕ → List ℕ
without_clients [] cs = cs
without_clients (d ∷ ds) cs = without_clients ds (without_client d cs)

-- removeClient
unfoldable pub remove_client : ℕ → Hub → Hub
remove_client c hub = record hub { clients = without_client c hub.clients }

module _ (refuses : ℕ → ℕ → Bool) where
  -- The loop of broadcast over the clients: those that failed, and what was delivered
  unfoldable pub write_each : ℕ → Text → List ℕ → List ℕ × List (ℕ × Text)
  write_each n m [] = ([], [])
  write_each n m (c ∷ cs) =
      let (failed, done) = write_each n m cs in
      if refuses c n then (c ∷ failed, done) else (failed, (c, m) ∷ done)

  -- The copy of the clients under the mutex, the writes without it, and the removal of the failed
  -- clients from the clients that there are by then
  unfoldable pub broadcast : (ℕ → Hub → Hub) → (List ℕ → List ℕ) → Text → Hub → Hub
  broadcast meanwhile range m hub =
      let (failed, done) = write_each hub.broadcasts m (range hub.clients) in
      let now = meanwhile hub.broadcasts hub in
      record {
        clients = without_clients failed now.clients;
        delivered = now.delivered ++ done;
        broadcasts = suc now.broadcasts;
      }

without_client-has :
    (c d : ℕ) (cs : List ℕ) → has c (without_client d cs) ≡ (if c == d then false else has c cs)
unfolding without_client
without_client-has c d [] = ground arith
without_client-has c d (x ∷ xs) = ground (arith, without_client-has c d xs)

without_clients-has :
    (c : ℕ) (ds cs : List ℕ)
    → has c (without_clients ds cs) ≡ (if has c ds then false else has c cs)
unfolding without_clients
without_clients-has c [] cs = refl
without_clients-has c (d ∷ ds) cs =
    ground (arith, without_clients-has c ds (without_client d cs), without_client-has c d cs)

module _ (refuses : ℕ → ℕ → Bool) where
  write_each-failed :
      (n : ℕ) (m : Text) (c : ℕ) (cs : List ℕ)
      → has c (write_each refuses n m cs).0 ≡ (if has c cs then refuses c n else false)
  unfolding write_each
  write_each-failed n m c [] = refl
  write_each-failed n m c (d ∷ ds) = ground (arith, write_each-failed n m c ds)

  write_each-done :
      (n : ℕ) (m : Text) (c : ℕ) (cs : List ℕ)
      → has c cs ≡ true
      → refuses c n ≡ false
      → Memᴰ (c, m) (write_each refuses n m cs).1
  unfolding write_each
  write_each-done n m c [] h ok = absurd (cc)
  write_each-done n m c (d ∷ ds) h ok = elim (Bool-cases (c == d)) [
    | inl e ↦
        let same : c ≡ d = (==_iff c d).0 e in
        rw (ap (λ x. refuses x n) (sym same) ∙ ok) (Memᴰ.head (λ i. (same i, m)))
    | inr e ↦
        let later = write_each-done n m c ds (ground arith) ok in
        elim (Bool-cases (refuses d n)) [ inl r ↦ rw r later | inr r ↦ rw r (Memᴰ.tail later) ]
  ]

  -- Whatever other goroutines do meanwhile: after a broadcast the clients are those that are there by
  -- then, without those that it copied and whose connection failed, so a client that came meanwhile
  -- stays; each client that it copied and whose connection did not fail has got the message, whatever
  -- happened to the others; and what was delivered by then is still so. It is required that Go's visit
  -- of the clients finds exactly the clients.
  pub broadcast_reaches :
      (meanwhile : ℕ → Hub → Hub) (range : List ℕ → List ℕ) (m : Text) (hub : Hub)
      → ((cs : List ℕ) (c : ℕ) → has c (range cs) ≡ has c cs)
      → let n = hub.broadcasts in
        let hub' = broadcast refuses meanwhile range m hub in
        ((c : ℕ)
          → has c hub'.clients
            ≡ (has c (meanwhile n hub).clients && not (has c hub.clients && refuses c n)))
        × ((c : ℕ) → has c hub.clients ≡ true → refuses c n ≡ false → Memᴰ (c, m) hub'.delivered)
        × ((x : ℕ × Text) → Memᴰ x (meanwhile n hub).delivered → Memᴰ x hub'.delivered)
  unfolding broadcast
  broadcast_reaches meanwhile range m hub same =
      let n = hub.broadcasts in
      let (failed, done) = write_each refuses n m (range hub.clients) in
      let later = meanwhile n hub in
      (
        λ c. ground (
          arith,
          without_clients-has c failed later.clients,
          write_each-failed n m c (range hub.clients),
          same hub.clients c,
        ),
        λ c here took.
            Memᴰ.append_right later.delivered
              (write_each-done n m c (range hub.clients) (same hub.clients c ∙ here) took),
        λ x d. Memᴰ.append_left done d,
      )
