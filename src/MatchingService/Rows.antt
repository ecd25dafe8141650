-- ===== src/MatchingService/Rows.antt =====
-- services/matching-engine/database/db.go: what a claim and an update leave of a row of trade_outbox.
use mathlib.Core.List.{Memᴰ}
use tradesphere.Base.{ℕ, ◌≤◌, ◌≡◌, true, List, take, length, arith}
use tradesphere.Query.{
  take-Memᴰ, take_all, select-Memᴰ, Memᴰ-select, order_by-Memᴰ, length-order_by,
}
use tradesphere.MatchingService.Database.{OutboxEvent}
use tradesphere.MatchingService.Outbox.{is_due, due_rows, is_before, by_age}

-- What no statement changes
abbrev pub SameContent : OutboxEvent → OutboxEvent → Type 0
SameContent a b =
    (a.id ≡ b.id) × (a.topic ≡ b.topic) × (a.event_key ≡ b.event_key) × (a.payload ≡ b.payload)

-- A function of rows that keeps them
abbrev pub Keeps : (OutboxEvent → OutboxEvent) → Type 0
Keeps f = (r : OutboxEvent) → SameContent (f r) r

module _ (rank : ℕ → ℕ) where
  -- The claim's choice is of rows of the table that are due.
  pub chosen-Memᴰ :
      (n now : ℕ) (es : List OutboxEvent) (e : OutboxEvent)
      → Memᴰ e (take n (by_age rank (due_rows now es)))
      → Memᴰ e es
  chosen-Memᴰ n now es e m =
      let due = due_rows now es in
      (select-Memᴰ (is_due now) es e
        ((order_by-Memᴰ (is_before rank) due e).0 (take-Memᴰ n (by_age rank due) e m))).0

  -- With at most `n` rows due it leaves out none.
  pub due_chosen-Memᴰ :
      (n now : ℕ) (es : List OutboxEvent) (e : OutboxEvent)
      → length (due_rows now es) ≤ n
      → Memᴰ e es
      → is_due now e ≡ true
      → Memᴰ e (take n (by_age rank (due_rows now es)))
  due_chosen-Memᴰ n now es e le m d =
      let due = due_rows now es in
      let all =
        take_all n (by_age rank due) (omega (arith, length-order_by (is_before rank) due, le)) in
      rw all ((order_by-Memᴰ (is_before rank) due e).1 (Memᴰ-select (is_due now) es e m d))
