-- ===== src/MatchingService/Retry.antt =====
-- services/matching-engine/kafka/producer.go: a write that fails is tried again later.
use mathlib.Core.List.{Memᴰ}
use mathlib.Core.List.Memᴰ
use tradesphere.Base.{
  ℕ, zero, suc, ◌+◌, ◌*◌, ◌^◌, ◌≤◌, ◌<◌, ◌≡◌, refl, sym, inl, inr, Bool, Bool-cases, [], ◌∷◌, ◌++◌,
  ltb, if◌then◌else◌, true, false, Option, none, some, map, leb, err, arith,
}
use tradesphere.Int.{ℤ, pos, negsuc}
use tradesphere.Text.{Text}
use tradesphere.MatchingService.Database.{OutboxEvent, Host}
use tradesphere.MatchingService.Outbox.{
  seconds, is_due, update_pending, refused, record_outbox_publish_failure,
}
use tradesphere.MatchingService.Publisher.{
  Bus, message, write_failed, max_dlq_attempts, has_writer, outbox_backoff, publish_event,
}
use tradesphere.MatchingService.Rows.{SameContent}
use tradesphere.MatchingService.Delivered.{rows}

power_bounds : (n : ℕ) → n ≤ 5 → (1 ≤ 2 ^ n) × (2 ^ n ≤ 32)
power_bounds zero le = (omega arith, omega arith)
power_bounds (suc zero) le = (omega arith, omega arith)
power_bounds (suc (suc zero)) le = (omega arith, omega arith)
power_bounds (suc (suc (suc zero))) le = (omega arith, omega arith)
power_bounds (suc (suc (suc (suc zero)))) le = (omega arith, omega arith)
power_bounds (suc (suc (suc (suc (suc zero))))) le = (omega arith, omega arith)
power_bounds (suc (suc (suc (suc (suc (suc n)))))) le = absurd (omega (arith, le))

-- outboxBackoff is from one second to 32 seconds for every number of attempts, negative ones
-- included; it doubles with each attempt up to the fifth, and from there it stays.
pub outbox_backoff_bounds :
    (attempt : ℤ) (n : ℕ)
    → (seconds 1 ≤ outbox_backoff attempt)
      × (outbox_backoff attempt ≤ seconds 32)
      × (n < 5 → outbox_backoff (pos (suc n)) ≡ 2 * outbox_backoff (pos n))
      × (5 ≤ n → outbox_backoff (pos n) ≡ seconds 32)
unfolding outbox_backoff
outbox_backoff_bounds (negsuc k) n = (ground arith, ground arith, ground arith, ground arith)
outbox_backoff_bounds (pos k) n =
    (ground (arith, power_bounds k), ground (arith, power_bounds k), ground arith, ground arith)

-- The power of two is that of the attempts, up to the fifth.
outbox_backoff_power :
    (n : ℕ) → outbox_backoff (pos n) ≡ (2 ^ (if ltb n 5 then n else 5)) * 1000000000
unfolding outbox_backoff
outbox_backoff_power n = elim (Bool-cases (ltb n 5)) [
  | inl less ↦ ground (arith, less)
  | inr more ↦ elim (Bool-cases (leb n 5)) [
    | inl le ↦ let five : n ≡ 5 = ground (arith, more, le) in rw five refl
    | inr gt ↦ ground (arith, more, gt)
  ]
]

module _ (h : Host) (broker : ℕ → Option (Text × Bool)) where
  -- If the write of an event's message fails before the tenth attempt, and the database records
  -- that, then the round ends with the write's error, and the log has the message only if it arrived
  -- in spite of the error. A row with the event's id that was not published has one attempt more and
  -- the same content; and it may be claimed as soon as 2 ^ n seconds have passed since the failure,
  -- with n the attempts before it but at most 5, and not before.
  pub publish_event_retry :
      (e r : OutboxEvent) (b : Bus) (error : Text) (arrived : Bool)
      → broker b.writes ≡ some (error, arrived)
      → h.faults b.session.calls ≡ false
      → has_writer e.topic ≡ true
      → e.publish_attempts < max_dlq_attempts
      → Memᴰ r (rows b)
      → r.id ≡ e.id
      → r.published_at ≡ none
      → let out = publish_event h broker e b in
        let n = if ltb e.publish_attempts 5 then e.publish_attempts else 5 in
        (out.0 ≡ err (write_failed error))
        × (out.1.sent ≡ (if arrived then b.sent ++ message e.topic e ∷ [] else b.sent))
        × ((r' : OutboxEvent) × Memᴰ r' (rows out.1)
            × SameContent r' r
            × (r'.publish_attempts ≡ suc r.publish_attempts)
            × ((now : ℕ) → is_due now r' ≡ leb (h.now b.session.calls + (2 ^ n) * 1000000000) now))
  unfolding publish_event record_outbox_publish_failure
  publish_event_retry e r b error arrived fails recorded known early inside same pending =
      let retry_at = h.now b.session.calls + outbox_backoff (pos e.publish_attempts) in
      let f = update_pending e.id (refused retry_at error) in
      let now_refused : f r ≡ refused retry_at error r = ground arith in
      let run : ((publish_event h broker e b).0 ≡ err (write_failed error))
          × ((publish_event h broker e b).1.sent
              ≡ (if arrived then b.sent ++ message e.topic e ∷ [] else b.sent))
          × (rows (publish_event h broker e b).1 ≡ map f (rows b)) =
        ground arith in
      (
        run.0,
        run.1,
        (
          refused retry_at error r,
          rw run.2 (Memᴰ.cast (sym now_refused) (Memᴰ.map f inside)),
          (refl, refl, refl, refl),
          refl,
          λ now. ground (arith, outbox_backoff_power e.publish_attempts),
        ),
      )
