-- ===== src/Kafka.antt =====
-- The loops of the consumers: StartOrderConsumer (services/matching-engine/kafka/consumer.go),
-- StartTradeConsumer and StartOrderEventConsumer (services/portfolio-service/kafka/consumer.go),
-- consumeTrades and consumeOrderEvents (services/websocket-service/main.go). They are one loop, whose
-- round says whether the code goes on to CommitMessages. The reader returns one message after
-- the other, also behind a message that was not committed, and a commit of a message is one of all
-- messages before it: so kafka-go documents FetchMessage and CommitMessages of a consumer group.
use tradesphere.Base.{
  ℕ, suc, ◌+◌, ◌≡◌, ap, ◌∙◌, Bool, true, ◌&&◌, List, [], ◌∷◌, ◌++◌, if◌then◌else◌, length, arith,
}

module _ {M S : Type 0} (round : M → S → Bool × S) (commits : ℕ → Bool) where
  -- From the message at the offset `n` on: the state after the loop, and the offset from which the
  -- group would start again, which is `k` before it.
  unfoldable pub consume : ℕ → List M → S → ℕ → S × ℕ
  consume n [] s k = (s, k)
  consume n (m ∷ ms) s k =
      let (done, s') = round m s in consume (suc n) ms s' (if done && commits n then suc n else k)

  -- If the last message that was fetched is handled and its commit succeeds, then the group starts
  -- again behind it: each message before it counts as handled, also one whose round failed.
  pub consume_passes_over :
      (n : ℕ) (ms : List M) (m : M) (s : S) (k : ℕ)
      → (round m (consume n ms s k).0).0 ≡ true
      → commits (n + length ms) ≡ true
      → (consume n (ms ++ m ∷ []) s k).1 ≡ suc (n + length ms)
  unfolding consume
  consume_passes_over n [] m s k done committed =
      let here : commits n ≡ true = ap commits (omega arith) ∙ committed in
      rw (done, here) (omega arith)
  consume_passes_over n (x ∷ ms) m s k done committed =
      let k' = if (round x s).0 && commits n then suc n else k in
      let there : commits (suc n + length ms) ≡ true = ap commits (omega arith) ∙ committed in
      consume_passes_over (suc n) ms m (round x s).1 k' done there ∙ omega arith
