-- ===== src/Engine/Cancel.antt =====
-- CancelOrder and its undo, and what a cancellation does to the books.
use tradesphere.Base.{ℕ, ◌≡◌, refl, inl, inr, some, none, Option-cases, ok, err, arith}
use tradesphere.Int.{ℤ, pos}
use tradesphere.Model.{Order, OrderStatus, cancelled, update}
use tradesphere.Dict.{lookup, nat_eq}
use tradesphere.OrderBook.{OrderBook}
use tradesphere.OrderBook.Invariant.{IsValid}
use tradesphere.Engine.Keys.{SameKeys, IsValid-SameKeys}
use tradesphere.Engine.{
  MatchingEngine, order_not_found, write_order, cancel_order, restore_order, set_state,
}

undone :
    (cells : ℕ → Order) (p : ℕ) {remaining : ℤ} {status : OrderStatus}
    → (cells p).remaining_quantity ≡ remaining
    → (cells p).status ≡ status
    → (q : ℕ)
    → update
        (update cells p (set_state (pos 0) cancelled (cells p)))
        p
        (set_state remaining status (update cells p (set_state (pos 0) cancelled (cells p)) p))
        q
      ≡ cells q
undone cells p h k q = ground arith

module _ (id p : ℕ) (me : MatchingEngine) (found : lookup nat_eq id me.orders ≡ some p) where
  pub cancel_found : cancel_order id me ≡ (
    ok ((me.store.cells p).remaining_quantity, (me.store.cells p).status),
    write_order p (set_state (pos 0) cancelled (me.store.cells p)) me,
  )
  unfolding cancel_order
  cancel_found = rw (found, cancel_order)

  pub restore_found :
      (remaining : ℤ) (status : OrderStatus)
      → restore_order id remaining status me
        ≡ (ok tt, write_order p (set_state remaining status (me.store.cells p)) me)
  unfolding restore_order
  restore_found remaining status = rw (found, restore_order)

-- The undo of a cancellation, on an engine that does not have the order, reports that too.
pub cancel_missing :
    (id : ℕ) (me : MatchingEngine)
    → lookup nat_eq id me.orders ≡ none
    → cancel_order id me ≡ (err order_not_found, me)
unfolding cancel_order
cancel_missing id me missing = rw (missing, cancel_order)

-- If CancelOrder succeeds, then RestoreOrder with what it returned succeeds too, and leaves the
-- map, the books and every object as they were before.
pub restore_order-cancel_order :
    (id : ℕ) (me : MatchingEngine) {remaining : ℤ} {status : OrderStatus}
    → (cancel_order id me).0 ≡ ok (remaining, status)
    → let (r, me') = restore_order id remaining status (cancel_order id me).1 in
      (r ≡ ok tt)
      × (me'.orders ≡ me.orders)
      × (me'.order_books ≡ me.order_books)
      × ((p : ℕ) → me'.store.cells p ≡ me.store.cells p)
restore_order-cancel_order id me {remaining} {status} h =
    elim (Option-cases (lookup nat_eq id me.orders)) [
      | inl missing ↦ absurd (cc (rw (cancel_missing id me missing) at h))
      | inr (p, found) ↦
          let me' = write_order p (set_state (pos 0) cancelled (me.store.cells p)) me in
          let same = rw (cancel_found id p me found) at h in
          rw (cancel_found id p me found, restore_found id p me' found remaining status)
            (refl, refl, refl, undone me.store.cells p (cc same) (cc same))
    ]

cancel_keys :
    (cells : ℕ → Order) (p : ℕ)
    → SameKeys cells (update cells p (set_state (pos 0) cancelled (cells p)))
unfolding SameKeys
cancel_keys cells p q = ground arith

-- A valid book stays valid when CancelOrder writes to an order object, in the book or not: nothing
-- left of it, and the status CANCELLED.
pub cancel-IsValid :
    (ob : OrderBook) (cells : ℕ → Order) (p : ℕ)
    → IsValid ob cells
    → IsValid ob (update cells p (set_state (pos 0) cancelled (cells p)))
cancel-IsValid ob cells p v =
    let after = update cells p (set_state (pos 0) cancelled (cells p)) in
    IsValid-SameKeys cells after ob v (cancel_keys cells p) (λ q. ground (arith, v.ranged q))
      (λ q l. ground arith)
