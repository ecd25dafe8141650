-- ===== src/OrderService/Handlers.antt =====
-- services/order-service/main.go: the handlers that take an order and a request to cancel one. A
-- handler ends in its answer or in an http.Error. What it reaches over the network is a record of
-- operations: the portfolio service; InsertOrderWithOutbox and EnqueueCancelCommand, which are not in
-- the repository; uuid.New and time.Now. Upper case and uuids are parameters. Logs and metrics are
-- left out.
use tradesphere.Base.{
  ℕ, Bool, true, false, not, ◌||◌, Option, none, some, [], ◌==◌, if◌then◌else◌, ok, err,
}
use tradesphere.Int.{ℤ, pos, leb_ℤ}
use tradesphere.Text.{trim_prefix, Text, codes, is_empty, trim_space}
use tradesphere.Model.{Side, is_buy, is_sell, OrderType, limit, is_limit, new, Order, CancelRequest}
use tradesphere.Money.Decimal.{format_decimal}
use tradesphere.Sql
use tradesphere.Sql.{Session, ◌>>=◌, ◌>>◌, raise, raise_if}
use tradesphere.OrderService.Requests.{
  Backend, CreateOrderRequest, HttpError, Reply, calculate_reserved_amount, get_order, has_suffix,
  is_closed, no_reply, order_type_of, refusal, reply, reservation_request, side_of, side_text,
  token_matches, trim_suffix,
}

module _ {D : Type 0} (b : Backend D) (to_upper : Text → Text) (parse_uuid : Text → Option ℕ)
    (uuid_text : ℕ → Text) where
  abbrev Web : Type 0 → Type 0
  Web A = Sql.Act D HttpError A

  abbrev pub or_error : {A : Type 0} → HttpError → Option A → Web A
  or_error e none s = (err e, s)
  or_error e (some a) s = (ok a, s)

  -- validateWithPortfolio: whether the order is allowed, or none for an error
  abbrev pub validated : Reply (Option Bool) → Option Bool
  validated no_reply = none
  validated (reply status body) = if status == 200 then body else none

  unfoldable pub validate_with_portfolio :
      Text → Text → Text → ℤ → ℤ → Session D → Option Bool × Session D
  validate_with_portfolio user_id symbol side price quantity s =
      let (r, s') =
        b.validate
          (record {
            user_id = user_id;
            symbol = symbol;
            side = side;
            price = format_decimal price;
            quantity = format_decimal quantity;
          })
          s in
      (validated r, s')

  -- The status and the message of a reply, or none for an error
  abbrev pub answered : Reply (Option Text) → Option (ℕ × Text)
  answered no_reply = none
  answered (reply status body) =
      if status == 200
      then some (200, [])
      else some (
        status,
        elim body [
          | none ↦ codes "portfolio request failed"
          | some m ↦ if is_empty m then codes "portfolio request failed" else m
        ],
      )

  -- callPortfolioReservation
  unfoldable pub call_portfolio_reservation :
      Text → Order → Session D → Option (ℕ × Text) × Session D
  call_portfolio_reservation path order s =
      let (r, s') = b.reservation path (reservation_request uuid_text order) s in (answered r, s')

  -- rollbackReservation: whether it succeeds
  unfoldable pub rollback_reservation : Order → Session D → Bool × Session D
  rollback_reservation order s =
      let (r, s') = call_portfolio_reservation (codes "release") order s in
      (elim r [ none ↦ false | some (status, message) ↦ status == 200 ], s')

  -- The end of createOrderHandler: from InsertOrderWithOutbox on
  unfoldable pub store_order : Order → Web Order
  store_order order s =
      let (stored, s') = b.insert_order_with_outbox order s in
      if stored
      then (ok order, s')
      else (err (refusal (codes "failed to persist order") 500), (rollback_reservation order s').1)

  -- Its middle: validateWithPortfolio and the reservation
  unfoldable pub check_risk : Text → Order → Web (Unit {0})
  check_risk user_id order s =
      let (r, s') =
        validate_with_portfolio user_id order.symbol (side_text order.side) order.price
          order.quantity s in
      elim r [
        | none ↦ (err (refusal (codes "risk check unavailable") 500), s')
        | some allowed ↦
            (if allowed then ok tt else err (refusal (codes "Risk check failed") 400), s')
      ]

  unfoldable pub reserve_order : Order → Web (Unit {0})
  reserve_order order s =
      let (r, s') = call_portfolio_reservation (codes "reserve") order s in
      elim r [
        | none ↦ (err (refusal (codes "reservation service unavailable") 500), s')
        | some (status, message) ↦
            (if status == 200 then ok tt else err (refusal message status), s')
      ]

  unfoldable pub place_order : Text → Order → Web Order
  place_order user_id order = do check_risk user_id order; reserve_order order; store_order order

  abbrev pub requested_type : Text → OrderType
  requested_type t = if is_empty t then limit else order_type_of (to_upper (trim_space t))

  abbrev pub reserved_or_refuse : Side → ℤ → ℤ → Web ℤ
  reserved_or_refuse side price quantity s = (
    elim (calculate_reserved_amount side price quantity) [
      | ok v ↦ ok v
      | err e ↦ err (refusal (codes "price and quantity cannot be represented exactly") 400)
    ],
    s,
  )

  abbrev pub new_order : ℕ → Text → Side → ℤ → ℤ → ℤ → Session D → Order
  new_order user_id symbol side price quantity reserved s = record {
    id = b.new_uuid s;
    user_id = user_id;
    symbol = symbol;
    side = side;
    type = limit;
    price = price;
    quantity = quantity;
    remaining_quantity = quantity;
    reserved_amount = reserved;
    status = new;
    created_at = b.now s;
  }

  -- Its beginning: the order that a request asks for, or the answer that refuses it
  unfoldable pub read_order : CreateOrderRequest → Option Text → Web Order
  read_order req token = do
    user_id ← or_error (refusal (codes "invalid user_id") 400) (parse_uuid req.user_id)
    raise_if (not (token_matches token req.user_id))
        (refusal (codes "user_id in request does not match token") 401)
    let side = side_of (to_upper (trim_space req.side))
    raise_if (not (is_buy side || is_sell side)) (refusal (codes "side must be BUY or SELL") 400)
    raise_if (not (is_limit (requested_type req.type)))
        (refusal (codes "only LIMIT orders are supported") 400)
    let symbol = to_upper (trim_space req.symbol)
    raise_if (is_empty symbol || leb_ℤ req.quantity (pos 0))
        (refusal (codes "symbol and quantity must be valid") 400)
    raise_if (leb_ℤ req.price (pos 0)) (refusal (codes "price must be valid for LIMIT orders") 400)
    reserved ← reserved_or_refuse side req.price req.quantity
    λ s. (ok (new_order user_id symbol side req.price req.quantity reserved s), s)

  -- createOrderHandler
  unfoldable pub create_order_handler : Bool → Option CreateOrderRequest → Option Text → Web Order
  create_order_handler false body token = raise (refusal (codes "method not allowed") 405)
  create_order_handler true none token = raise (refusal (codes "invalid request") 400)
  create_order_handler true (some req) token = read_order req token >>= place_order req.user_id

  -- orderActionHandler from EnqueueCancelCommand on, from GetOrder on, and with the path of the URL
  abbrev pub cancel_request : Order → CancelRequest
  cancel_request order = record {
    order_id = order.id;
    user_id = order.user_id;
    symbol = order.symbol;
    side = order.side;
  }

  unfoldable pub request_cancel : Order → Web Order
  request_cancel order s =
      let (queued, s') = b.enqueue_cancel_command (cancel_request order) s in
      (
        if queued then ok order else err (refusal (codes "failed to enqueue cancel request") 500),
        s',
      )

  unfoldable pub cancel_order_with : ℕ → Option Text → Web Order
  cancel_order_with id token s =
      (do
        order ← or_error (refusal (codes "order not found") 404) (get_order b id s)
        raise_if (not (token_matches token (uuid_text order.user_id)))
            (refusal (codes "forbidden: order belongs to another user") 403)
        raise_if (is_closed order) (refusal (codes "order is not cancelable") 400)
        request_cancel order)
        s

  -- The text of the order's id in a path
  abbrev pub id_in_path : Text → Text
  id_in_path path = trim_space (trim_suffix (codes "/") (trim_suffix (codes "/cancel") path))

  unfoldable pub order_action_handler : Bool → Text → Option Text → Web Order
  order_action_handler post url_path token = do
    raise_if (not post) (refusal (codes "method not allowed") 405)
    let path = trim_prefix (codes "/orders/") url_path
    raise_if (not (has_suffix (codes "/cancel") path)) (refusal (codes "404 page not found") 404)
    id ← or_error (refusal (codes "invalid order_id") 400) (parse_uuid (id_in_path path))
    cancel_order_with id token
