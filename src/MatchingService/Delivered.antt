-- ===== src/MatchingService/Delivered.antt =====
-- services/matching-engine/kafka/producer.go: what it means that a row is published only with its message
-- written, and what keeps it.
use mathlib.Core.List.{Memᴰ}
use mathlib.Core.List.Memᴰ
use mathlib.Core.Path.{subst}
use tradesphere.Base.{
  ℕ, ◌≡◌, ◌⊎◌, refl, sym, ap, ◌∙◌, inl, inr, Bool, true, false, Bool-cases, ◌&&◌, none, List, [],
  ◌∷◌, ◌++◌, map, ◌==◌, arith,
}
use tradesphere.Text.{Text}
use tradesphere.MatchingService.Database.{OutboxEvent}
use tradesphere.MatchingService.Outbox.{is_none, update_pending, published, refused}
use tradesphere.MatchingService.Publisher.{Message, Bus, message, dlq_topic, log_with}
use tradesphere.MatchingService.Rows.{SameContent, Keeps}

abbrev pub rows : Bus → List OutboxEvent
rows b = b.session.db.trade_outbox

-- The row is not published, or its message is in the log, for its topic or for its dead letters.
abbrev pub Delivered : List Message → OutboxEvent → Type 0
Delivered sent r =
    (r.published_at ≡ none)
    ⊎ (Memᴰ (message r.topic r) sent ⊎ Memᴰ (message (dlq_topic r.topic) r) sent)

-- The event has the content of each row with its id.
abbrev pub Names : List OutboxEvent → OutboxEvent → Type 0
Names rs e = (r : OutboxEvent) → Memᴰ r rs → r.id ≡ e.id → SameContent r e

-- What no statement changes of a row: its id, topic, key and payload
abbrev pub content : OutboxEvent → ℕ × Text × Text × Text
content r = (r.id, r.topic, r.event_key, r.payload)

-- The rows after are the rows before, one for one, with their content: none is lost or added.
abbrev pub Continues : List OutboxEvent → List OutboxEvent → Type 0
Continues before after = map content after ≡ map content before

content-SameContent : (r q : OutboxEvent) → content r ≡ content q → SameContent r q
content-SameContent r q e = (
  ap (λ (x : ℕ × Text × Text × Text). x.0) e,
  ap (λ (x : ℕ × Text × Text × Text). x.1) e,
  ap (λ (x : ℕ × Text × Text × Text). x.2) e,
  ap (λ (x : ℕ × Text × Text × Text). x.3) e,
)

pub Continues-row :
    (before after : List OutboxEvent) (r : OutboxEvent)
    → map content before ≡ map content after
    → Memᴰ r after
    → (q : OutboxEvent) × Memᴰ q before × SameContent r q
Continues-row before after r c m =
    let there : Memᴰ (content r) (map content before) =
      subst (Memᴰ (content r)) (sym c) (Memᴰ.map content m) in
    let (q, m', e) = Memᴰ.of_map content before there in (q, m', content-SameContent r q (sym e))

pub Names-Continues :
    (before after : List OutboxEvent) (e : OutboxEvent)
    → Continues before after
    → Names before e
    → Names after e
Names-Continues before after e c n r m same =
    let (q, m', (i, t, k, p)) = Continues-row before after r (sym c) m in
    let (i', t', k', p') = n q m' (sym i ∙ same) in (i ∙ i', t ∙ t', k ∙ k', p ∙ p')

pub Delivered-append :
    (sent : List Message) (m : Message) (r : OutboxEvent)
    → Delivered sent r
    → Delivered (sent ++ m ∷ []) r
Delivered-append sent m r (inl n) = inl n
Delivered-append sent m r (inr (inl d)) = inr (inl (Memᴰ.append_left (m ∷ []) d))
Delivered-append sent m r (inr (inr d)) = inr (inr (Memᴰ.append_left (m ∷ []) d))

pub Delivered-log_with :
    (arrived : Bool) (sent : List Message) (m : Message) (r : OutboxEvent)
    → Delivered sent r
    → Delivered (log_with arrived m sent) r
Delivered-log_with true sent m r d = Delivered-append sent m r d
Delivered-log_with false sent m r d = d

pub Continues-refl : (rs : List OutboxEvent) → Continues rs rs
Continues-refl rs = refl

pub Continues-trans :
    (ps qs rs : List OutboxEvent) → Continues ps qs → Continues qs rs → Continues ps rs
Continues-trans ps qs rs ab bc = bc ∙ ab

pub Continues-map :
    (f : OutboxEvent → OutboxEvent) (rs : List OutboxEvent) → Keeps f → Continues rs (map f rs)
Continues-map f [] k = refl
Continues-map f (r ∷ rs) k =
    let (i, t, key, p) = k r in λ j. (i j, t j, key j, p j) ∷ Continues-map f rs k j

pub update_pending-Keeps :
    (id : ℕ) (f : OutboxEvent → OutboxEvent) → Keeps f → Keeps (update_pending id f)
update_pending-Keeps id f k r = elim (Bool-cases ((r.id == id) && is_none r.published_at)) [
  | inl c ↦ rw c (k r)
  | inr c ↦ rw c (refl, refl, refl, refl)
]

abbrev pub AllDelivered : List Message → List OutboxEvent → Type 0
AllDelivered sent rs = (r : OutboxEvent) → Memᴰ r rs → Delivered sent r

pub AllDelivered-map :
    (sent : List Message) (f : OutboxEvent → OutboxEvent) (rs : List OutboxEvent)
    → ((q : OutboxEvent) → Memᴰ q rs → Delivered sent q → Delivered sent (f q))
    → AllDelivered sent rs
    → AllDelivered sent (map f rs)
AllDelivered-map sent f rs k d r m =
    let (q, m', e) = Memᴰ.of_map f rs m in subst (Delivered sent) e (k q m' (d q m'))

-- One of the two messages of an event is in the log.
abbrev pub Written : List Message → OutboxEvent → Type 0
Written sent e = Memᴰ (message e.topic e) sent ⊎ Memᴰ (message (dlq_topic e.topic) e) sent

pub Written-SameContent :
    (sent : List Message) (q e : OutboxEvent) → SameContent q e → Written sent e → Written sent q
Written-SameContent sent q e (i, t, k, p) (inl w) =
    inl (Memᴰ.cast (λ j. record { topic = t j; key = k j; value = p j }) w)
Written-SameContent sent q e (i, t, k, p) (inr w) =
    inr (Memᴰ.cast (λ j. record { topic = dlq_topic (t j); key = k j; value = p j }) w)

pub published-Delivered :
    (now : ℕ) (sent : List Message) (e q : OutboxEvent)
    → (q.id ≡ e.id → SameContent q e)
    → Written sent e
    → Delivered sent q
    → Delivered sent (update_pending e.id (published now) q)
published-Delivered now sent e q same w d =
    elim (Bool-cases ((q.id == e.id) && is_none q.published_at)) [
      | inl c ↦ rw c (inr (Written-SameContent sent q e (same (ground arith)) w))
      | inr c ↦ rw c d
    ]

pub refused-Delivered :
    (id next : ℕ) (error : Text) (sent : List Message) (q : OutboxEvent)
    → Delivered sent q
    → Delivered sent (update_pending id (refused next error) q)
refused-Delivered id next error sent q d =
    elim (Bool-cases ((q.id == id) && is_none q.published_at)) [ inl c ↦ rw c d | inr c ↦ rw c d ]

-- What every part of the publisher does
abbrev pub Safe : Bus → Bus → Type 0
Safe b b' =
    Continues (rows b) (rows b') × (AllDelivered b.sent (rows b) → AllDelivered b'.sent (rows b'))

pub Safe-trans : (a b c : Bus) → Safe a b → Safe b c → Safe a c
Safe-trans a b c (f, g) (f', g') = (Continues-trans (rows a) (rows b) (rows c) f f', λ d. g' (g d))
