-- ===== src/Engine/Keys.antt =====
-- What the heaps compare does not change when statuses and remaining quantities do.
use tradesphere.Base.{ℕ, ◌≡◌, ◌∙◌}
use tradesphere.Int.{pos, ◌<ℤ◌, InInt64}
use tradesphere.Model.{Order}
use tradesphere.Heap.{at, parent}
use tradesphere.Matching.{less_at, max_before, min_before}
use tradesphere.OrderBook.{OrderBook}
use tradesphere.OrderBook.Invariant.{IsValid}

-- The two states agree on what the heaps compare.
unfoldable pub SameKeys : (ℕ → Order) → (ℕ → Order) → Type 0
SameKeys cells cells' =
    (p : ℕ) → ((cells' p).price ≡ (cells p).price) × ((cells' p).created_at ≡ (cells p).created_at)

module _ (cells cells' : ℕ → Order) (same : SameKeys cells cells') where
  less_max : (i j : ℕ) → less_at max_before cells' i j ≡ less_at max_before cells i j
  unfolding SameKeys
  less_max i j = rw ((same i).0, (same j).0, (same i).1, (same j).1)

  less_min : (i j : ℕ) → less_at min_before cells' i j ≡ less_at min_before cells i j
  unfolding SameKeys
  less_min i j = rw ((same i).0, (same j).0, (same i).1, (same j).1)

-- A book stays valid when the heaps compare the same, and no order comes to life.
pub IsValid-SameKeys :
    (cells cells' : ℕ → Order) (ob : OrderBook)
    → IsValid ob cells
    → SameKeys cells cells'
    → ((p : ℕ) → InInt64 (cells' p).remaining_quantity)
    → ((p : ℕ) → pos 0 <ℤ (cells' p).remaining_quantity → pos 0 <ℤ (cells p).remaining_quantity)
    → IsValid ob cells'
unfolding SameKeys
IsValid-SameKeys cells cells' ob v same ranged lives = record {
  bids = λ c lt inside.
      less_max cells cells' same (at ob.buy_orders c) (at ob.buy_orders (parent c))
      ∙ v.bids c lt inside;
  asks = λ c lt inside.
      less_min cells cells' same (at ob.sell_orders c) (at ob.sell_orders (parent c))
      ∙ v.asks c lt inside;
  ranged = ranged;
  uncrossed = λ b a hb ha lb la.
      rw ((same b).0, (same a).0) (v.uncrossed b a hb ha (lives b lb) (lives a la));
}
