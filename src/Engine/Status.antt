-- ===== src/Engine/Status.antt =====
-- The statuses that the engine gives, and cancelling with its undo.
use native.Mathlib.Decide.{ℕ_discrete}
use tradesphere.Base.{ℕ, ◌≡◌, refl, List, [], ◌∷◌, ltb, if◌then◌else◌, arith}
use tradesphere.Int.{ℤ, pos, ◌<ℤ◌, ◌≤ℤ◌}
use tradesphere.Model.{
  Order, OrderStatus, new, partially_filled, filled, cancelled, other_status, update,
}
use tradesphere.Heap.Slice.{count}
use tradesphere.Engine.{update_order_status, update_statuses}

-- What a status says of the quantities.
abbrev pub Says : OrderStatus → ℤ → ℤ → Type 0
Says new remaining quantity = (pos 0 <ℤ remaining) × (quantity ≤ℤ remaining)
Says partially_filled remaining quantity = (pos 0 <ℤ remaining) × (remaining <ℤ quantity)
Says filled remaining quantity = remaining ≡ pos 0
Says cancelled remaining quantity = ⊥
Says (other_status t) remaining quantity = ⊥

abbrev pub IsConsistent : Order → Type 0
IsConsistent order = Says order.status order.remaining_quantity order.quantity

-- Updating twice is updating once.
pub update_order_status_idempotent :
    (order : Order) → update_order_status (update_order_status order) ≡ update_order_status order
unfolding update_order_status
update_order_status_idempotent order = ground arith

-- The loop over the changed orders updates each of them once, in whatever order it visits them.
pub update_statuses_at :
    (ps : List ℕ) (cells : ℕ → Order) (p : ℕ)
    → update_statuses ps cells p
      ≡ (if ltb 0 (count p ps) then update_order_status (cells p) else cells p)
unfolding update_statuses
update_statuses_at [] cells p = refl
update_statuses_at (q ∷ ps) cells p = elim (ℕ_discrete q p) [
  | yes e ↦ ground (
    arith,
    update_statuses_at ps (update cells q (update_order_status (cells q))) p,
    update_order_status_idempotent (cells p),
  )
  | no ne ↦ ground (arith, update_statuses_at ps (update cells q (update_order_status (cells q))) p)
]
