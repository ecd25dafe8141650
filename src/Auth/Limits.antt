-- ===== src/Auth/Limits.antt =====
-- RateLimit: each client has a bucket of its own.
use tradesphere.Base.{ℕ, ◌≡◌, refl, inl, inr, Bool, Bool-cases, List, [], ◌∷◌, ◌++◌, if◌then◌else◌}
use tradesphere.Text.{Text, text_eq, text_eq→eq, Lacks, last_index-append, take_front}
use tradesphere.Query.{select}
use tradesphere.Auth.{Bucket, Clients, client_ip, admit, set_client, limiter_of}

-- A request: when it comes, and from which address
abbrev pub Arrival : Type 0
Arrival = ℕ × Text

module _ {L : Type 0} (b : Bucket L) where
  -- Which of some requests are admitted
  abbrev pub admissions : List Arrival → Clients L → List Bool
  admissions [] clients = []
  admissions ((now, remote_addr) ∷ rs) clients =
      let (allowed, clients') = admit b now remote_addr clients in allowed ∷ admissions rs clients'

  -- The same, but only what the client with this address is answered
  abbrev pub admissions_of : Text → List Arrival → Clients L → List Bool
  admissions_of ip [] clients = []
  admissions_of ip ((now, remote_addr) ∷ rs) clients =
      let (allowed, clients') = admit b now remote_addr clients in
      let rest = admissions_of ip rs clients' in
      if text_eq (client_ip remote_addr) ip then allowed ∷ rest else rest

  abbrev pub is_from : Text → Arrival → Bool
  is_from ip (now, remote_addr) = text_eq (client_ip remote_addr) ip

  admissions_alone :
      (ip : Text) (rs : List Arrival) (clients others : Clients L)
      → clients ip ≡ others ip
      → admissions_of ip rs clients ≡ admissions (select (is_from ip) rs) others
  unfolding admit select
  admissions_alone ip [] clients others e = refl
  admissions_alone ip ((now, addr) ∷ rs) clients others e =
      elim (Bool-cases (text_eq (client_ip addr) ip)) [
        | inl mine ↦
            let same = text_eq→eq (client_ip addr) ip mine in
            let here : clients (client_ip addr) ≡ others (client_ip addr) = rw same e in
            let limiter = (b.allow now (limiter_of b (others (client_ip addr)))).1 in
            rw (
              mine,
              here,
              admissions_alone ip rs (set_client clients (client_ip addr) limiter)
                  (set_client others (client_ip addr) limiter) (rw mine),
            )
        | inr foreign ↦ rw foreign (admissions_alone ip rs _ others (rw foreign e))
      ]

  -- Whether a client's requests are admitted depends on its own requests alone: the answers to them
  -- among any requests are those to them without the others.
  pub admit_alone :
      (ip : Text) (rs : List Arrival) (clients : Clients L)
      → admissions_of ip rs clients ≡ admissions (select (is_from ip) rs) clients
  admit_alone ip rs clients = admissions_alone ip rs clients clients refl

-- The port of an address is cut off.
pub client_ip_host : (host port : Text) → Lacks b':' port → client_ip (host ++ b':' ∷ port) ≡ host
unfolding client_ip
client_ip_host host port h =
    rw (last_index-append b':' host port h, client_ip) (take_front host (b':' ∷ port))
