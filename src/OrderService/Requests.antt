-- ===== src/OrderService/Requests.antt =====
-- services/order-service/main.go: the requests, what the handlers reach over the network, and the tests on
-- texts and orders that they make.
use tradesphere.Base.{ℕ, Bool, false, ◌||◌, Option, none, some, [], ◌∷◌, if◌then◌else◌, Result, ok}
use tradesphere.Int.{ℤ, pos, leb_ℤ}
use tradesphere.Text.{Text, codes, text_eq, is_empty}
use tradesphere.Model.{
  Side, buy, sell, other_side, is_buy, OrderType, limit, market, other_type, is_filled,
  is_cancelled, Order, CancelRequest,
}
use tradesphere.Money.Decimal.{MoneyError, cost_for}
use tradesphere.Portfolio.Handlers.{ReserveRequest}
use tradesphere.Portfolio.Validate.{ValidateRequest}
use tradesphere.Sql.{Session}

pub record CreateOrderRequest : Type 0 where
  pub user_id : Text
  pub symbol : Text
  pub side : Text
  pub type : Text
  pub price : ℤ
  pub quantity : ℤ

-- http.Error
pub record HttpError : Type 0 where
  pub message : Text
  pub code : ℕ

-- What http.Client returns: an error, or a status and the decoded body.
pub data Reply (B : Type 0) : Type 0 where
  no_reply : Reply B
  reply : ℕ → B → Reply B

-- What the handlers reach; a body is `none` if it cannot be decoded. The texts of `validate` stand in
-- a URL as they are; what portfolio-service reads of them is up to the operation.
pub record Backend (D : Type 0) : Type 0 where
  pub validate : ValidateRequest → Session D → Reply (Option Bool) × Session D
  pub reservation : Text → ReserveRequest → Session D → Reply (Option Text) × Session D
  pub insert_order_with_outbox : Order → Session D → Bool × Session D
  pub order_row : ℕ → Session D → Option Order
  pub enqueue_cancel_command : CancelRequest → Session D → Bool × Session D
  pub new_uuid : Session D → ℕ
  pub now : Session D → ℕ

abbrev pub refusal : Text → ℕ → HttpError
refusal message code = record { message = message; code = code }

-- model.Side and model.OrderType of a text
abbrev pub side_of : Text → Side
side_of t =
    if text_eq t (codes "BUY") then buy else if text_eq t (codes "SELL") then sell else other_side t

abbrev pub order_type_of : Text → OrderType
order_type_of t =
    if text_eq t (codes "LIMIT")
    then limit
    else if text_eq t (codes "MARKET")
    then market
    else other_type t

abbrev pub side_text : Side → Text
side_text buy = codes "BUY"
side_text sell = codes "SELL"
side_text (other_side t) = t

-- calculateReservedAmount
unfoldable pub calculate_reserved_amount : Side → ℤ → ℤ → Result MoneyError ℤ
calculate_reserved_amount side price quantity =
    if is_buy side then cost_for price quantity else ok quantity

-- strings.HasSuffix and TrimSuffix
abbrev pub has_suffix : Text → Text → Bool
has_suffix p [] = is_empty p
has_suffix p (c ∷ s) = text_eq p (c ∷ s) || has_suffix p s

abbrev pub trim_suffix : Text → Text → Text
trim_suffix p [] = []
trim_suffix p (c ∷ s) = let rest = trim_suffix p s in if text_eq p (c ∷ s) then [] else c ∷ rest

-- GetOrder: the row, whose type is not read
unfoldable pub get_order : {D : Type 0} → Backend D → ℕ → Session D → Option Order
get_order b id s = elim (b.order_row id s) [
  | none ↦ none
  | some row ↦ some (record row { type = other_type [] })
]

-- Is the order past cancelling?
abbrev pub is_closed : Order → Bool
is_closed o = is_filled o.status || is_cancelled o.status || leb_ℤ o.remaining_quantity (pos 0)

-- The body that callPortfolioReservation sends
abbrev pub reservation_request : (ℕ → Text) → Order → ReserveRequest
reservation_request uuid_text order = record {
  order_id = uuid_text order.id;
  user_id = uuid_text order.user_id;
  symbol = order.symbol;
  side = side_text order.side;
  price = order.price;
  quantity = order.quantity;
  reserved_amount = order.reserved_amount;
}

-- Is the token's user the one with this text?
abbrev pub token_matches : Option Text → Text → Bool
token_matches none user_id = false
token_matches (some t) user_id = text_eq user_id t
