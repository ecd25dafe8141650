-- ===== src/OrderService/Create.antt =====
-- services/order-service/main.go: what createOrderHandler does on an order that it accepts.
use mathlib.Core.Path.{subst}
use tradesphere.Base.{ℕ, ◌≡◌, ◌⊎◌, sym, ap, ◌∙◌, true, Option, some, [], ok, arith}
use tradesphere.Int.{pos, ◌<ℤ◌}
use tradesphere.Text.{Text, codes}
use tradesphere.Model.{buy, sell, limit, new, Order}
use tradesphere.Sql.{Session, ◌>>=◌, >>=-succeeds}
use tradesphere.OrderService.Handlers.{
  validate_with_portfolio, call_portfolio_reservation, store_order, check_risk, reserve_order,
  place_order, read_order, create_order_handler,
}
use tradesphere.OrderService.Requests.{
  CreateOrderRequest, Backend, calculate_reserved_amount, token_matches, side_text, side_text,
}

module _ {D : Type 0} (b : Backend D) (to_upper : Text → Text) (parse_uuid : Text → Option ℕ)
    (uuid_text : ℕ → Text) where
  -- What an order that is read from a request has
  abbrev pub IsReadFrom : CreateOrderRequest → Option Text → Order → Type 0
  IsReadFrom req token order =
      (parse_uuid req.user_id ≡ some order.user_id)
      × (token_matches token req.user_id ≡ true)
      × ((order.side ≡ buy) ⊎ (order.side ≡ sell))
      × (order.type ≡ limit)
      × (order.status ≡ new)
      × (order.remaining_quantity ≡ order.quantity)
      × (pos 0 <ℤ order.quantity)
      × (pos 0 <ℤ order.price)
      × (calculate_reserved_amount order.side order.price order.quantity ≡ ok order.reserved_amount)

  pub read_order_state :
      (req : CreateOrderRequest) (token : Option Text) (s : Session D)
      → (read_order b to_upper parse_uuid uuid_text req token s).1 ≡ s
  unfolding read_order
  read_order_state req token s = ground arith

  pub read_order-ok :
      (req : CreateOrderRequest) (token : Option Text) (order : Order) (s : Session D)
      → (read_order b to_upper parse_uuid uuid_text req token s).0 ≡ ok order
      → IsReadFrom req token order × (order.id ≡ b.new_uuid s)
  unfolding read_order
  read_order-ok req token order s h = ground arith

  -- portfolio-service allows the order, then it answers the reservation with 200, and then the order
  -- is stored, which leaves the second state.
  abbrev pub IsPlaced : Text → Session D → Session D → Order → Type 0
  IsPlaced user_id s s' order =
      let allow =
        validate_with_portfolio b to_upper parse_uuid uuid_text user_id order.symbol
          (side_text order.side) order.price order.quantity s in
      let reserve =
        call_portfolio_reservation b to_upper parse_uuid uuid_text (codes "reserve") order
          allow.1 in
      (allow.0 ≡ some true)
      × (reserve.0 ≡ some (200, []))
      × (b.insert_order_with_outbox order reserve.1 ≡ (true, s'))

  place_order-ok :
      (user_id : Text) (order kept : Order) (s : Session D)
      → let out = place_order b to_upper parse_uuid uuid_text user_id order s in
        out.0 ≡ ok kept → (order ≡ kept) × IsPlaced user_id s out.1 order
  unfolding place_order check_risk reserve_order store_order call_portfolio_reservation
  place_order-ok user_id order kept s done = ground arith

  -- If createOrderHandler accepts an order, then the token is of the user that the request names;
  -- the order is new, a limit order that buys or sells, with its whole quantity remaining, a price
  -- and a quantity above zero, and the amount to reserve that calculateReservedAmount gives; and
  -- portfolio-service has allowed it, then answered its reservation with 200, and then the order
  -- was stored, which is the last thing that the handler does.
  pub create_order_handler-ok :
      (req : CreateOrderRequest) (token : Option Text) (order : Order) (s : Session D)
      → let out = create_order_handler b to_upper parse_uuid uuid_text true (some req) token s in
        out.0 ≡ ok order
        → IsReadFrom req token order
          × (order.id ≡ b.new_uuid s)
          × IsPlaced req.user_id s out.1 order
  unfolding create_order_handler
  create_order_handler-ok req token order s done =
      let read = read_order b to_upper parse_uuid uuid_text req token in
      let place = place_order b to_upper parse_uuid uuid_text req.user_id in
      let (order', first, both) = >>=-succeeds read place s done in
      let ran = both ∙ ap (place order') (read_order_state req token s) in
      let (same, placed) =
        place_order-ok req.user_id order' order s (sym (ap (λ r. r.0) ran) ∙ done) in
      let (read_from, id) = read_order-ok req token order' s first in
      subst
        (λ (o : Order).
          IsReadFrom req token o
          × (o.id ≡ b.new_uuid s)
          × IsPlaced req.user_id s ((read >>= place) s).1 o)
        same
        (
          read_from,
          id,
          subst (λ s'. IsPlaced req.user_id s s' order') (ap (λ r. r.1) (sym ran)) placed,
        )
