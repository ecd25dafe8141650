-- ===== src/Tests/Orders.antt =====
-- Concrete inputs for the order service, alone and on the portfolio service, and for the websocket
-- service.
use tradesphere.Base.{
  ℕ, ◌≡◌, ◌⊎◌, refl, Bool, true, false, Option, none, some, [], ◌∷◌, ◌++◌, ◌==◌, if◌then◌else◌, ok,
  err,
}
use tradesphere.Int.{pos, ◌+ℤ◌, ◌-ℤ◌, ◌*ℤ◌, sub64, wrap64}
use tradesphere.Text.{Text, codes, trim_space, trim_left, trim_right, is_space, split}
use tradesphere.Model.{Order, buy, limit, other_type, new}
use tradesphere.Money.Decimal.{
  cost_for, multiply_scaled, format_decimal, money_from_decimal, parse_decimal, parse_signed,
  parse_unsigned, is_digits, set_string, print_padded, print_nat, digits, value,
}
use tradesphere.Portfolio.Database.{Db, Session, lock_order_reservation}
use tradesphere.Portfolio.Handlers.{
  reserve_handler, by_side, in_handler, reserve_buy, reserve_balance,
}
use tradesphere.Portfolio.Release.{release_handler, release_buy, take_reserved, unreserve_balance}
use tradesphere.Portfolio.Validate.{validate_handler}
use tradesphere.OrderService.Handlers.{
  create_order_handler, read_order, place_order, check_risk, reserve_order, store_order,
  validate_with_portfolio, call_portfolio_reservation, order_action_handler, cancel_order_with,
  request_cancel,
}
use tradesphere.OrderService.Requests.{
  CreateOrderRequest, refusal, reply, Backend, calculate_reserved_amount, get_order,
  reservation_request,
}
use tradesphere.OrderService.Conserve.{IsStranded}
use tradesphere.OrderService.Reservation.{held, release_handler_undoes}
use tradesphere.OrderService.Backend.{portfolio_backend, create_order_handler_keeps_reserves}

-- The text of a uuid here is one character.
abbrev pub uuid_text : ℕ → Text
uuid_text n = n ∷ []

abbrev pub parse_uuid : Text → Option ℕ
parse_uuid [] = none
parse_uuid (c ∷ []) = some c
parse_uuid (c ∷ d ∷ t) = none

abbrev pub to_upper : Text → Text
to_upper t = t

-- User 77 has 200 and has reserved 50.
abbrev pub db : Db
db = record {
  users = λ id.
      if id == 77
      then some (record { balance = pos 20000000000; reserved_balance = pos 5000000000 })
      else none;
  positions = λ id symbol. none;
  orders = λ id. none;
  processed_events = λ group id. false;
}

abbrev pub session : Session
session = record { db = db; calls = 0 }

abbrev pub no_faults : ℕ → Bool
no_faults n = false

abbrev pub request : CreateOrderRequest
request = record {
  user_id = 77 ∷ [];
  symbol = codes "ABC";
  side = codes "BUY";
  type = [];
  price = pos 5000000000;
  quantity = pos 200000000;
}

abbrev pub order : Order
order = record {
  id = 900;
  user_id = 77;
  symbol = codes "ABC";
  side = buy;
  type = limit;
  price = pos 5000000000;
  quantity = pos 200000000;
  remaining_quantity = pos 200000000;
  reserved_amount = pos 10000000000;
  status = new;
  created_at = 4;
}

-- A backend that allows everything, and stores an order if `stores` is true.
abbrev pub backend : Bool → Backend Db
backend stores = record {
  validate = λ req s. (reply 200 (some true), s);
  reservation = λ path req s. (reply 200 none, s);
  insert_order_with_outbox = λ o s. (stores, s);
  order_row = λ id s. if id == 900 then some order else none;
  enqueue_cancel_command = λ c s. (true, s);
  new_uuid = λ s. 900;
  now = λ s. 4;
}

accepted :
    (create_order_handler
      (backend true)
      to_upper
      parse_uuid
      uuid_text
      true
      (some request)
      (some (77 ∷ []))
      session).0
    ≡ ok order
unfolding create_order_handler read_order place_order check_risk reserve_order store_order
    validate_with_portfolio call_portfolio_reservation calculate_reserved_amount cost_for
    multiply_scaled ◌*ℤ◌ trim_space trim_left trim_right is_space
accepted = refl

-- The portfolio service, in front of a table of orders that takes none
abbrev nobody_stores : Backend Db
nobody_stores =
    portfolio_backend no_faults no_faults to_upper parse_uuid (λ r. codes "refused") (backend false)

not_stored :
    (create_order_handler nobody_stores to_upper parse_uuid uuid_text true
      (some request)
      (some (77 ∷ []))
      session).0
    ≡ err (refusal (codes "failed to persist order") 500)
unfolding create_order_handler read_order place_order check_risk reserve_order store_order
    validate_with_portfolio call_portfolio_reservation calculate_reserved_amount cost_for
    multiply_scaled ◌*ℤ◌ ◌+ℤ◌ ◌-ℤ◌ sub64 wrap64 trim_space trim_left trim_right is_space split
    validate_handler money_from_decimal parse_decimal parse_signed parse_unsigned is_digits
    set_string format_decimal print_padded reserve_handler by_side in_handler reserve_buy
    reserve_balance print_nat digits value
not_stored = refl

create_order_handler_keeps_reserves_example :
    let out =
      create_order_handler nobody_stores to_upper parse_uuid uuid_text true
        (some request)
        (some (77 ∷ []))
        session in
    (held out.1 ≡ held session)
    ⊎ ((o : Order) × ((read_order nobody_stores to_upper parse_uuid uuid_text request
            (some (77 ∷ []))
            session).0
          ≡ ok o)
        × IsStranded nobody_stores to_upper parse_uuid uuid_text request.user_id o session)
create_order_handler_keeps_reserves_example =
    create_order_handler_keeps_reserves no_faults no_faults to_upper parse_uuid
      (λ r. codes "refused") (backend false) uuid_text request (some (77 ∷ [])) session
      (refusal (codes "failed to persist order") 500) (λ id. refl) (λ o s h. refl) refl not_stored

reserved :
    (reserve_handler no_faults to_upper parse_uuid true
      (some (reservation_request uuid_text order))
      session).0
    ≡ ok tt
unfolding reserve_handler by_side in_handler reserve_buy reserve_balance ◌+ℤ◌ ◌-ℤ◌ sub64 wrap64
    trim_space trim_left trim_right is_space
reserved = refl

-- The tables after the reservation
abbrev after_reserve : Session
after_reserve =
    (reserve_handler no_faults to_upper parse_uuid true (some (reservation_request uuid_text order))
      session).1

released :
    (release_handler no_faults to_upper parse_uuid true
      (some (reservation_request uuid_text order))
      after_reserve).0
    ≡ ok tt
unfolding release_handler release_buy take_reserved unreserve_balance lock_order_reservation
    reserve_handler by_side in_handler reserve_buy reserve_balance ◌+ℤ◌ ◌-ℤ◌ sub64 wrap64 trim_space
    trim_left trim_right is_space
released = refl

fresh_after : after_reserve.db.orders 900 ≡ none
unfolding reserve_handler by_side in_handler reserve_buy reserve_balance ◌+ℤ◌ ◌-ℤ◌ sub64 wrap64
    trim_space trim_left trim_right is_space
fresh_after = refl

release_handler_undoes_example :
    held
      (release_handler no_faults to_upper parse_uuid true
        (some (reservation_request uuid_text order))
        after_reserve).1
    ≡ held session
release_handler_undoes_example =
    release_handler_undoes no_faults to_upper parse_uuid (reservation_request uuid_text order) 900
      session after_reserve refl fresh_after reserved refl released

requested :
    (order_action_handler
      (backend true)
      to_upper
      parse_uuid
      uuid_text
      true
      (codes "/orders/" ++ 900 ∷ codes "/cancel")
      (some (77 ∷ []))
      session).0
    ≡ ok (record order { type = other_type [] })
unfolding order_action_handler cancel_order_with request_cancel get_order trim_space trim_left
    trim_right is_space
requested = refl
