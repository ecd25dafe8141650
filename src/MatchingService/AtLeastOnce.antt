-- ===== src/MatchingService/AtLeastOnce.antt =====
-- services/matching-engine/kafka/producer.go: what publishPendingTradeEvents leaves of the outbox.
use mathlib.Core.List.{Memᴰ}
use mathlib.Core.List.Memᴰ
use mathlib.Core.Path.{subst}
use tradesphere.Base.{
  ℕ, suc, ◌≡◌, ◌⊎◌, refl, sym, ap, ◌∙◌, inl, inr, Bool, Bool-cases, Option, List, map,
  if◌then◌else◌, take, arith,
}
use tradesphere.Text.{Text}
use tradesphere.MatchingService.Database.{OutboxEvent, Session, Host, has_event}
use tradesphere.MatchingService.Outbox.{
  due_rows, claimed, each_event, by_age, claim_rows, claim_pending_outbox_events,
}
use tradesphere.MatchingService.Publisher.{
  Message, Bus, Published, publish_events, publish_pending_trade_events,
}
use tradesphere.MatchingService.Rows.{SameContent, Keeps, chosen-Memᴰ}
use tradesphere.MatchingService.Delivery.{publish_events-Safe}
use tradesphere.MatchingService.Delivered.{
  rows, Delivered, AllDelivered, AllDelivered-map, Names, Continues, Continues-row, Continues-refl,
  Continues-map, Safe, Safe-trans,
}

-- Rows with the same id have the same content: so the primary key has it.
abbrev pub IsKeyed : List OutboxEvent → Type 0
IsKeyed rs = (a b : OutboxEvent) → Memᴰ a rs → Memᴰ b rs → a.id ≡ b.id → SameContent a b

module _ (h : Host) (rank : ℕ → ℕ) (returned : List OutboxEvent → List OutboxEvent) where
  -- The claim of a row by the statement, if it was chosen
  abbrev claim_row : List OutboxEvent → ℕ → Text → OutboxEvent → OutboxEvent
  claim_row chosen now worker r = if has_event r.id chosen then claimed now worker r else r

  claim_row-Keeps :
      (chosen : List OutboxEvent) (now : ℕ) (worker : Text) → Keeps (claim_row chosen now worker)
  claim_row-Keeps chosen now worker r = elim (Bool-cases (has_event r.id chosen)) [
    | inl c ↦ rw c (refl, refl, refl, refl)
    | inr c ↦ rw c (refl, refl, refl, refl)
  ]

  claim_row-Delivered :
      (chosen : List OutboxEvent) (now : ℕ) (worker : Text) (sent : List Message) (r : OutboxEvent)
      → Delivered sent r
      → Delivered sent (claim_row chosen now worker r)
  claim_row-Delivered chosen now worker sent r d = elim (Bool-cases (has_event r.id chosen)) [
    | inl c ↦ rw c d
    | inr c ↦ rw c d
  ]

  -- What a claim returns, if it does, and what it leaves
  abbrev Claims : List OutboxEvent → Session → Type 0
  Claims es s' = (e : OutboxEvent) → Memᴰ e es → Names s'.db.trade_outbox e

  claim-Names :
      (chosen rs : List OutboxEvent) (now : ℕ) (worker : Text)
      → IsKeyed rs
      → ((xs : List OutboxEvent) (e : OutboxEvent) → Memᴰ e (returned xs) → Memᴰ e xs)
      → ((e : OutboxEvent) → Memᴰ e chosen → Memᴰ e rs)
      → (e : OutboxEvent) → Memᴰ e (returned (map (claimed now worker) chosen))
      → Names (map (claim_row chosen now worker) rs) e
  claim-Names chosen rs now worker keyed sound inside e m r m' same =
      let (q, mq, eq) =
        Memᴰ.of_map (claimed now worker) chosen (sound (map (claimed now worker) chosen) e m) in
      let (p, mp, (i, t, k, c)) =
        Continues-row rs (map (claim_row chosen now worker) rs) r
          (sym (Continues-map (claim_row chosen now worker) rs (claim_row-Keeps chosen now worker)))
          m' in
      let qe = ap (λ (x : OutboxEvent). x.id) eq in
      let (i', t', k', c') = keyed p q mp (inside q mq) (sym i ∙ same ∙ sym qe) in
      (
        same,
        t ∙ t' ∙ ap (λ (x : OutboxEvent). x.topic) eq,
        k ∙ k' ∙ ap (λ (x : OutboxEvent). x.event_key) eq,
        c ∙ c' ∙ ap (λ (x : OutboxEvent). x.payload) eq,
      )

  module _ (broker : ℕ → Option (Text × Bool)) where
    -- The events that a claim chooses, and what the loop over them starts from
    abbrev pub chosen_events : Bus → List OutboxEvent
    chosen_events b = take 100 (by_age rank (due_rows (h.clock (suc b.session.calls)) (rows b)))

    abbrev pub claimed_events : Text → Bus → List OutboxEvent
    claimed_events worker b =
        returned (map (claimed (h.clock (suc b.session.calls)) worker) (chosen_events b))

    abbrev pub after_claim : Text → Bus → Bus
    after_claim worker b = record b {
      session = record {
        db =
            each_event (claim_row (chosen_events b) (h.clock (suc b.session.calls)) worker)
              b.session.db;
        calls = suc (suc (suc b.session.calls));
      };
    }

    -- The claim fails and leaves nothing, or the loop runs over the claimed events.
    publish_pending_trade_events_cases :
        (worker : Text) (b : Bus)
        → let out = publish_pending_trade_events h broker rank returned worker b in
          ((rows out.1 ≡ rows b) × (out.1.sent ≡ b.sent))
          ⊎ (out ≡ publish_events h broker (claimed_events worker b) (after_claim worker b))
    unfolding publish_pending_trade_events claim_pending_outbox_events claim_rows
    publish_pending_trade_events_cases worker b = ground arith

    pub after_claim-Safe : (worker : Text) (b : Bus) → Safe b (after_claim worker b)
    after_claim-Safe worker b =
        let now = h.clock (suc b.session.calls) in
        let claim = claim_row (chosen_events b) now worker in
        (
          Continues-map claim (rows b) (claim_row-Keeps (chosen_events b) now worker),
          AllDelivered-map b.sent claim (rows b)
              (λ q _. claim_row-Delivered (chosen_events b) now worker b.sent q),
        )

    -- If rows with the same id have the same content, and the returned rows are rows that were
    -- claimed, then publishPendingTradeEvents, whichever calls and writes fail in it, keeps this: a
    -- row of the outbox that is published has its message in the log, for its topic or for the
    -- dead letters of its topic. The rows after it are the rows before it, one for one and in their
    -- order, with the same ids, topics, keys and payloads: none is lost or added.
    pub publish_pending_trade_events-AllDelivered :
        (worker : Text) (b : Bus)
        → IsKeyed (rows b)
        → ((xs : List OutboxEvent) (e : OutboxEvent) → Memᴰ e (returned xs) → Memᴰ e xs)
        → AllDelivered b.sent (rows b)
        → let b' = (publish_pending_trade_events h broker rank returned worker b).1 in
          AllDelivered b'.sent (rows b') × Continues (rows b) (rows b')
    publish_pending_trade_events-AllDelivered worker b keyed sound d =
        let out = publish_pending_trade_events h broker rank returned worker b in
        let b1 = after_claim worker b in
        let now = h.clock (suc b.session.calls) in
        elim (publish_pending_trade_events_cases worker b) [
          | inl (same, kept) ↦ rw (same, kept) (d, Continues-refl (rows b))
          | inr run ↦
              let b2 = publish_events h broker (claimed_events worker b) b1 in
              let safe = publish_events-Safe h broker (claimed_events worker b) b1 (
                claim-Names (chosen_events b) (rows b) now worker keyed sound
                  (chosen-Memᴰ rank 100 now (rows b))) in
              let (continues, delivered) = Safe-trans b b1 b2.1 (after_claim-Safe worker b) safe in
              subst
                (λ (o : Published).
                  AllDelivered o.1.sent (rows o.1) × Continues (rows b) (rows o.1))
                (sym run) (delivered d, continues)
        ]
