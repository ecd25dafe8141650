-- ===== src/Tests/Access.antt =====
-- Concrete inputs for access tokens, the layers before the handlers, and the routes behind them.
use tradesphere.Base.{
  ℕ, ◌+◌, ◌-◌, ◌*◌, ◌/◌, ◌<◌, ◌≤◌, ◌≡◌, refl, sym, inl, inr, Bool-cases, Bool, true, false, ◌&&◌,
  Option, none, some, List, [], ◌∷◌, ◌++◌, ◌==◌, ltb, if◌then◌else◌, ok, err, arith,
}
use tradesphere.Int.{ℤ, pos, ◌*ℤ◌}
use tradesphere.Text.{
  Text, codes, text_eq, text_eq→eq, split, trim_space, trim_left, trim_right, is_space, trim_prefix,
}
use tradesphere.Model.{other_type}
use tradesphere.Money.Decimal.{cost_for, multiply_scaled}
use tradesphere.Query.{select}
use tradesphere.Tests.Orders.{
  uuid_text, parse_uuid, to_upper, db, session, no_faults, request, order, backend,
}
use tradesphere.Portfolio.Database.{Db, Session}
use tradesphere.Portfolio.Pages.{
  Page, full_page, portfolio_handler, portfolio_of, portfolio_page, get_full_portfolio,
  position_rows, scan_rows, holdings_of, balance_row,
}
use tradesphere.Portfolio.Positions.{IsScan}
use tradesphere.Portfolio.Owner.{Shows}
use tradesphere.Portfolio.Route.{portfolio_route, portfolio_route-Shows}
use tradesphere.OrderService.Authenticated.{
  orders_route, orders_route-ok, order_action_route, order_action_route-ok,
}
use tradesphere.OrderService.Create.{IsReadFrom, IsPlaced}
use tradesphere.OrderService.Cancel.{IsRequested}
use tradesphere.OrderService.Handlers.{
  create_order_handler, read_order, place_order, check_risk, reserve_order, store_order,
  validate_with_portfolio, call_portfolio_reservation, order_action_handler, cancel_order_with,
  request_cancel, id_in_path,
}
use tradesphere.OrderService.Requests.{get_order, calculate_reserved_amount}
use tradesphere.Auth.{
  Claims, Jwt, generate_access_token, get_secret, authorize, validate_token, served, rejected,
  Bucket, Clients, admit, client_ip,
}
use tradesphere.Auth.Layers.{layers}
use tradesphere.Auth.Tokens.{IsJwt, IsAuthorized, authorize-generate_access_token}
use tradesphere.Auth.Limits.{admissions, admissions_of, is_from, admit_alone}

abbrev secret : Text
secret = get_secret []

-- The library cuts a time to seconds.
abbrev numeric_date : ℕ → ℕ
numeric_date t = t / 1000000000 * 1000000000

-- The claims of user 77 for a token made 7 nanoseconds after the second 5
abbrev claims : Claims
claims = record {
  user_id = 77;
  role = codes "user";
  expires_at = numeric_date (5000000007 + 15 * 60 * 1000000000);
  issued_at = numeric_date 5000000009;
  issuer = codes "tradesphere-auth";
  subject = uuid_text 77;
}

abbrev are_claims : Claims → Bool
are_claims c =
    c.user_id == 77
    && text_eq c.role (codes "user")
    && c.expires_at == claims.expires_at
    && c.issued_at == claims.issued_at
    && text_eq c.issuer (codes "tradesphere-auth")
    && text_eq c.subject (uuid_text 77)

abbrev has_key : Option Text → Bool
has_key none = false
has_key (some key) = text_eq key secret

-- A library that signs only these claims with this key.
abbrev jwt : Jwt
jwt = record {
  signed_string = λ key c. if text_eq key secret && are_claims c then some (codes "t") else none;
  parse_with_claims = λ now t key_of.
      if text_eq t (codes "t") && has_key (key_of true)
      then if ltb now claims.expires_at
        then ok (record { claims = some claims; valid = true })
        else err (record { is_expired = true; text = [] })
      else err (record { is_expired = false; text = [] });
  new_numeric_date = numeric_date;
}

are_claims_same : (c : Claims) → are_claims c ≡ true → c ≡ claims
are_claims_same c h = ground (
  arith,
  text_eq→eq c.role (codes "user"),
  text_eq→eq c.issuer (codes "tradesphere-auth"),
  text_eq→eq c.subject (uuid_text 77),
)

made_of :
    (key : Text) (c : Claims) (t : Text) (key_of : Bool → Option Text)
    → jwt.signed_string key c ≡ some t
    → key_of true ≡ some key
    → (c ≡ claims) × (text_eq t (codes "t") && has_key (key_of true) ≡ true)
made_of key c t key_of made has = elim (Bool-cases (text_eq key secret && are_claims c)) [
  | inr other ↦ absurd (ground arith)
  | inl these ↦
      let same : codes "t" ≡ t = ground arith in
      (are_claims_same c (ground arith), rw (sym same, has) (ground arith))
]

ltb-true : (a b : ℕ) → a < b → ltb a b ≡ true
ltb-true a b h = ground arith

ltb-false : (a b : ℕ) → b ≤ a → ltb a b ≡ false
ltb-false a b h = ground arith

jwt-IsJwt : IsJwt jwt
jwt-IsJwt = record {
  dated = λ t. ground arith;
  signed = λ key c t key_of now e i made has before.
      let (same, accepted) = made_of key c t key_of made has in
      let early : ltb now claims.expires_at ≡ true =
        ltb-true now claims.expires_at (rw same at before) in
      rw (accepted, early, same);
  stale = λ key c t key_of now e i made has after.
      let (same, accepted) = made_of key c t key_of made has in
      let late : ltb now claims.expires_at ≡ false =
        ltb-false now claims.expires_at (rw same at after) in
      (record { is_expired = true; text = [] }, rw (accepted, late), refl);
}

-- A bucket with room for two requests
abbrev bucket : Bucket ℕ
bucket = record {
  new_limiter = 2;
  allow = λ now left. if left == 0 then (false, 0) else (true, left - 1);
}

abbrev no_clients : Clients ℕ
no_clients ip = none

abbrev arrivals : List (ℕ × Text)
arrivals =
    (1, codes "1.1.1.1:50")
    ∷ (2, codes "1.1.1.1:51")
    ∷ (3, codes "2.2.2.2:50")
    ∷ (4, codes "1.1.1.1:52")
    ∷ []

admit_alone_example :
    admissions_of bucket (codes "1.1.1.1") arrivals no_clients
    ≡ admissions bucket (select (is_from bucket (codes "1.1.1.1")) arrivals) no_clients
admit_alone_example = admit_alone bucket (codes "1.1.1.1") arrivals no_clients

one_client : admissions_of bucket (codes "1.1.1.1") arrivals no_clients ≡ true ∷ true ∷ false ∷ []
unfolding admit client_ip
one_client = refl

made :
    generate_access_token jwt [] uuid_text 5000000007 5000000009 77 (codes "user")
    ≡ some (codes "t")
unfolding generate_access_token
made = refl

authorize-generate_access_token_example :
    authorize jwt [] uuid_text (codes "user" ∷ []) 904000000000 (codes "Bearer " ++ codes "t") ≡ (
      if ltb 904000000000 (numeric_date (5000000007 + 15 * 60 * 1000000000))
      then served (uuid_text 77)
      else rejected (codes "token has expired") 401)
authorize-generate_access_token_example =
    authorize-generate_access_token jwt jwt-IsJwt [] uuid_text 5000000007 5000000009 77
      (codes "user") (codes "t") (codes "user" ∷ []) made refl 904000000000

abbrev header : Text
header = codes "Bearer t"

abbrev address : Text
address = codes "1.1.1.1:50"

-- User 77 has a position, which grows between the two queries.
abbrev with_position : ℤ → Db
with_position quantity = record db {
  positions = λ id symbol.
      if (77 == id) && text_eq (codes "ABC") symbol
      then some (record { quantity = quantity; reserved_quantity = pos 0 })
      else none;
}

abbrev scan : Db → List (ℕ × Text)
scan _ = (77, codes "ABC") ∷ []

abbrev meanwhile : Db → Db
meanwhile _ = with_position (pos 500000000)

abbrev owner_session : Session
owner_session = record { db = with_position (pos 300000000); calls = 0 }

with_position-IsScan :
    (quantity : ℤ) → IsScan (with_position quantity) (scan (with_position quantity))
with_position-IsScan quantity id symbol =
    elim (Bool-cases ((77 == id) && text_eq (codes "ABC") symbol)) [
      | inl e ↦ rw e refl
      | inr e ↦ rw e refl
    ]

abbrev portfolio_path : Text
portfolio_path = codes "/portfolio/" ++ 77 ∷ []

abbrev shown_page : Page
shown_page =
    full_page (77 ∷ []) (pos 20000000000)
      (record { symbol = codes "ABC"; quantity = pos 500000000 } ∷ [])

shown :
    (portfolio_route jwt [] uuid_text bucket no_faults parse_uuid scan meanwhile 6000000000 address
      header portfolio_path
      (no_clients, owner_session)).0
    ≡ served (ok shown_page)
unfolding layers authorize validate_token admit client_ip portfolio_handler portfolio_of
    portfolio_page get_full_portfolio balance_row position_rows scan_rows holdings_of split
    trim_space trim_left trim_right is_space
shown = refl

portfolio_route-Shows_example :
    (user : Text) × (auth : IsAuthorized jwt [] uuid_text
      (codes "user" ∷ [])
      6000000000
      header
      user)
    × Shows no_faults parse_uuid scan meanwhile
        (uuid_text auth.claims.user_id)
        (with_position (pos 300000000))
        shown_page
portfolio_route-Shows_example =
    portfolio_route-Shows jwt [] uuid_text bucket no_faults parse_uuid scan meanwhile 6000000000
      address header portfolio_path no_clients owner_session shown_page
      (with_position-IsScan (pos 300000000)) (with_position-IsScan (pos 500000000)) shown

taken :
    (orders_route jwt [] bucket
      (backend true)
      to_upper
      parse_uuid
      uuid_text
      (λ n. refl)
      6000000000
      address
      header
      request
      (no_clients, session)).0
    ≡ served (ok order)
unfolding layers authorize validate_token admit client_ip create_order_handler read_order
    place_order check_risk reserve_order store_order validate_with_portfolio
    call_portfolio_reservation calculate_reserved_amount cost_for multiply_scaled ◌*ℤ◌ trim_space
    trim_left trim_right is_space
taken = refl

orders_route-ok_example :
    let out =
      orders_route jwt [] bucket
        (backend true)
        to_upper
        parse_uuid
        uuid_text
        (λ n. refl)
        6000000000
        address
        header
        request
        (no_clients, session) in
    (user : Text) × ((auth : IsAuthorized jwt [] uuid_text
        (codes "user" ∷ [])
        6000000000
        header
        user)
      × (77 ≡ auth.claims.user_id))
    × IsReadFrom (backend true) to_upper parse_uuid uuid_text request (some user) order
    × IsPlaced (backend true) to_upper parse_uuid uuid_text (77 ∷ []) session out.1.1 order
orders_route-ok_example =
    orders_route-ok jwt [] bucket (backend true) to_upper parse_uuid uuid_text (λ n. refl)
      6000000000 address header request no_clients session order taken

abbrev cancel_path : Text
cancel_path = codes "/orders/" ++ 900 ∷ codes "/cancel"

cancel_taken :
    (order_action_route jwt [] bucket
      (backend true)
      to_upper
      parse_uuid
      uuid_text
      (λ n. refl)
      6000000000
      address
      header
      cancel_path
      (no_clients, session)).0
    ≡ served (ok (record order { type = other_type [] }))
unfolding layers authorize validate_token admit client_ip order_action_handler cancel_order_with
    request_cancel get_order trim_space trim_left trim_right is_space
cancel_taken = refl

order_action_route-ok_example :
    let out =
      order_action_route jwt [] bucket
        (backend true)
        to_upper
        parse_uuid
        uuid_text
        (λ n. refl)
        6000000000
        address
        header
        cancel_path
        (no_clients, session) in
    let path = trim_prefix (codes "/orders/") cancel_path in
    (user : Text) × ((auth : IsAuthorized jwt [] uuid_text
        (codes "user" ∷ [])
        6000000000
        header
        user)
      × (77 ≡ auth.claims.user_id))
    × ((id : ℕ) × (parse_uuid (id_in_path (backend true) to_upper parse_uuid uuid_text path)
          ≡ some id)
        × (get_order (backend true) id session ≡ some (record order { type = other_type [] })))
    × IsRequested
        (backend true)
        to_upper
        parse_uuid
        uuid_text
        (some user)
        session
        out.1.1
        (record order { type = other_type [] })
order_action_route-ok_example =
    order_action_route-ok jwt [] bucket (backend true) to_upper parse_uuid uuid_text (λ n. refl)
      6000000000 address header cancel_path no_clients session
      (record order { type = other_type [] }) cancel_taken
