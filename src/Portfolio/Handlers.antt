-- ===== src/Portfolio/Handlers.antt =====
-- services/portfolio-service/main.go: the handlers that test, reserve and release what an order
-- needs. The upper case and the ids are read by libraries, which are parameters. A handler ends in
-- its answer or in a refusal; logs, metrics and the writing of the answer are left out.
use tradesphere.Base.{
  ℕ, suc, Bool, true, false, ◌||◌, Option, none, some, if◌then◌else◌, Result, ok, err,
}
use tradesphere.Int.{ℤ, pos, ◌+ℤ◌, ltb_ℤ, leb_ℤ, sub64}
use tradesphere.Text.{Text, codes, text_eq, trim_space}
use tradesphere.Money.Decimal.{cost_for}
use tradesphere.Portfolio.Database.{
  User, Position, Db, DbError, failed, Session, Act, Tx, ◌>>=◌, ◌>>◌, pure, raise, raise_if, ticked,
  query, write_user, write_position,
}

-- The messages of writeJSONError
pub data Refusal : Type 0 where
  method_not_allowed missing_parameters invalid_user_id invalid_price : Refusal
  invalid_quantity invalid_request invalid_side invalid_order_id : Refusal
  user_not_found position_not_found inexact_cost : Refusal
  insufficient_balance insufficient_position : Refusal
  insufficient_reserved_balance insufficient_reserved_quantity : Refusal
  db_error reservation_failed reservation_commit_failed : Refusal
  release_failed release_commit_failed : Refusal

-- The status code that goes with a message
unfoldable pub status_code : Refusal → ℕ
status_code method_not_allowed = 405
status_code db_error = 500
status_code reservation_failed = 500
status_code reservation_commit_failed = 500
status_code release_failed = 500
status_code release_commit_failed = 500
status_code other = 400

-- The body of a request, decoded
pub record ReserveRequest : Type 0 where
  pub order_id : Text
  pub user_id : Text
  pub symbol : Text
  pub side : Text
  pub price : ℤ
  pub quantity : ℤ
  pub reserved_amount : ℤ

-- An error of any kind becomes one message.
abbrev pub or_refuse : {A : Type 0} → Refusal → Tx A → Act Refusal A
or_refuse refusal m s =
    let (r, s') = m s in elim r [ ok a ↦ (ok a, s') | err e ↦ (err refusal, s') ]

abbrev pub cost_or_refuse : ℤ → ℤ → Act Refusal ℤ
cost_or_refuse price quantity s =
    (elim (cost_for price quantity) [ ok v ↦ ok v | err e ↦ err inexact_cost ], s)

-- `cost := req.ReservedAmount; if cost <= 0 { cost, err = money.CostFor(…) }`
abbrev pub requested_cost : ReserveRequest → Act Refusal ℤ
requested_cost req =
    if leb_ℤ req.reserved_amount (pos 0)
    then cost_or_refuse req.price req.quantity
    else pure req.reserved_amount

-- `if releaseQty <= 0 { releaseQty = req.Quantity }`
abbrev pub or_quantity : ℤ → ReserveRequest → ℤ
or_quantity amount req = if leb_ℤ amount (pos 0) then req.quantity else amount

-- A transaction of a handler after `Begin`: a refusal and a failed commit leave no trace.
abbrev pub close :
    (ℕ → Bool)
    → Refusal
    → Db
    → Result Refusal (Unit {0}) × Session
    → Result Refusal (Unit {0}) × Session
close faults refusal before (err e, s) = (err e, record s { db = before })
close faults refusal before (ok u, s) =
    if faults s.calls
    then (err refusal, record { db = before; calls = suc s.calls })
    else (ok u, ticked s)

abbrev pub with_id : Refusal → (ℕ → Act Refusal (Unit {0})) → Option ℕ → Act Refusal (Unit {0})
with_id refusal f none = raise refusal
with_id refusal f (some id) = f id

abbrev pub user_row : ℕ → Db → Result DbError User
user_row id db = elim (db.users id) [ none ↦ err failed | some u ↦ ok u ]

abbrev pub position_row : ℕ → Text → Db → Result DbError Position
position_row id symbol db = elim (db.positions id symbol) [ none ↦ err failed | some p ↦ ok p ]

module _ (faults : ℕ → Bool) where
  unfoldable pub in_handler : Refusal → Act Refusal (Unit {0}) → Act Refusal (Unit {0})
  in_handler refusal body s =
      if faults s.calls
      then (err db_error, ticked s)
      else close faults refusal s.db (body (ticked s))

  -- A statement whose count of rows is not read
  abbrev pub exec_any : (Db → Result DbError Db) → Tx (Unit {0})
  exec_any f s = if faults s.calls then (err failed, ticked s) else elim (f s.db) [
    | err e ↦ (err e, ticked s)
    | ok db' ↦ (ok tt, record { db = db'; calls = suc s.calls })
  ]

  -- UPDATE users SET reserved_balance = reserved_balance + $1
  unfoldable pub reserve_balance : ℕ → ℤ → Tx (Unit {0})
  reserve_balance id amount = exec_any (λ db. elim (db.users id) [
    | none ↦ ok db
    | some u ↦ write_user id (record u { reserved_balance = u.reserved_balance +ℤ amount }) db
  ])

  -- UPDATE positions SET reserved_quantity = reserved_quantity + $1
  unfoldable pub reserve_quantity : ℕ → Text → ℤ → Tx (Unit {0})
  reserve_quantity id symbol amount = exec_any (λ db. elim (db.positions id symbol) [
    | none ↦ ok db
    | some p ↦
        write_position id symbol (record p { reserved_quantity = p.reserved_quantity +ℤ amount }) db
  ])

  -- The branch BUY of reserveHandler, for the user with this id
  unfoldable pub reserve_buy : ℕ → ReserveRequest → Act Refusal (Unit {0})
  reserve_buy id req = do
    u ← or_refuse user_not_found (query faults (user_row id))
    cost ← requested_cost req
    let available = sub64 u.balance u.reserved_balance
    raise_if (ltb_ℤ available cost) insufficient_balance
    or_refuse reservation_failed (reserve_balance id cost)

  -- Its other branch
  unfoldable pub reserve_sell : ℕ → ReserveRequest → Act Refusal (Unit {0})
  reserve_sell id req = do
    p ← or_refuse position_not_found (query faults (position_row id req.symbol))
    let available = sub64 p.quantity p.reserved_quantity
    let amount = or_quantity req.reserved_amount req
    raise_if (ltb_ℤ available amount) insufficient_position
    or_refuse reservation_failed (reserve_quantity id req.symbol amount)

module _ (faults : ℕ → Bool) (to_upper : Text → Text) (parse_uuid : Text → Option ℕ) where
  -- What is common to reserveHandler and releaseHandler: the request is decoded, its side read, and
  -- one of two branches runs in a transaction. A user id that is no UUID fails the first query.
  unfoldable pub by_side :
      Refusal
      → (ℕ → ReserveRequest → Act Refusal (Unit {0}))
      → (ℕ → ReserveRequest → Act Refusal (Unit {0}))
      → Bool
      → Option ReserveRequest
      → Act Refusal (Unit {0})
  by_side refusal buy sell false body s = (err method_not_allowed, s)
  by_side refusal buy sell true none s = (err invalid_request, s)
  by_side refusal buy sell true (some req) s =
      let side = to_upper (trim_space req.side) in
      let buying = text_eq side (codes "BUY") in
      let selling = text_eq side (codes "SELL") in
      let missing = if buying then user_not_found else position_not_found in
      let branch =
        with_id missing (λ id. if buying then buy id req else sell id req)
          (parse_uuid req.user_id) in
      if buying || selling then in_handler faults refusal branch s else (err invalid_side, s)

  unfoldable pub reserve_handler : Bool → Option ReserveRequest → Act Refusal (Unit {0})
  reserve_handler = by_side reservation_commit_failed (reserve_buy faults) (reserve_sell faults)
