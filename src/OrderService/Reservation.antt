-- ===== src/OrderService/Reservation.antt =====
-- services/order-service/main.go on services/portfolio-service/main.go: the handlers of the second
-- keep what the first relies on.
use mathlib.Core.Path.{subst}
use tradesphere.Base.{
  ℕ, ◌≡◌, ◌⊎◌, sym, ap, ◌∙◌, inl, inr, Bool, true, false, ◌&&◌, Option, Option-cases, none, some,
  [], ◌==◌, if◌then◌else◌, Result-cases, ok, err, arith,
}
use tradesphere.Int.{ℤ, ◌+ℤ◌, ◌-ℤ◌, eq_of_parts, +ℤ_parts, -ℤ_parts}
use tradesphere.Text.{Text, codes, text_eq, text_eq→eq, trim_space}
use tradesphere.Portfolio.Database as Portfolio
use tradesphere.Portfolio.Database.{Db, Session, ticked, lock_order_reservation}
use tradesphere.Portfolio.Handlers.{
  Refusal, ReserveRequest, requested_cost, or_quantity, by_side, in_handler, reserve_handler,
  reserve_buy, reserve_sell, reserve_balance, reserve_quantity, reservation_commit_failed,
}
use tradesphere.Portfolio.Release.{
  release_handler, release_buy, release_sell, take_reserved, unreserve_balance, unreserve_quantity,
}
use tradesphere.Portfolio.Handlers.{release_commit_failed}
use tradesphere.Portfolio.Validate.{ValidateRequest, validate_handler}
use tradesphere.Portfolio.Effect.{reserved_of, reserved_quantity_of, reserve_sell_reserves}

-- The balance reserved of each user, and the quantity of each position
abbrev pub held_in : Db → (ℕ → ℤ) × (ℕ → Text → ℤ)
held_in db = (λ j. reserved_of j db, λ j symbol. reserved_quantity_of j symbol db)

abbrev pub held : Session → (ℕ → ℤ) × (ℕ → Text → ℤ)
held s = held_in s.db

-- There is no row of `orders` with the id.
abbrev pub HasNoOrder : ℕ → Session → Type 0
HasNoOrder id s = s.db.orders id ≡ none

module _ (faults : ℕ → Bool) (to_upper : Text → Text) (parse_uuid : Text → Option ℕ) where
  pub validate_handler_keeps :
      (req : ValidateRequest) (s : Session)
      → (validate_handler faults to_upper parse_uuid req s).1.db ≡ s.db
  unfolding validate_handler
  validate_handler_keeps req s = ground arith

  pub reserve_handler_refused :
      (req : ReserveRequest) (e : Refusal) (s : Session)
      → (reserve_handler faults to_upper parse_uuid true (some req) s).0 ≡ err e
      → (reserve_handler faults to_upper parse_uuid true (some req) s).1.db ≡ s.db
  unfolding reserve_handler by_side in_handler
  reserve_handler_refused req e s h = ground arith

  pub reserve_handler_orders :
      (req : ReserveRequest) (s : Session)
      → (reserve_handler faults to_upper parse_uuid true (some req) s).1.db.orders ≡ s.db.orders
  unfolding reserve_handler by_side in_handler reserve_buy reserve_sell reserve_balance
      reserve_quantity
  reserve_handler_orders req s = ground arith

  release_buy_releases :
      (id oid : ℕ) (req : ReserveRequest) (amount : ℤ) (s : Session)
      → parse_uuid req.order_id ≡ some oid
      → s.db.orders oid ≡ none
      → (requested_cost req s).0 ≡ ok amount
      → (release_buy faults to_upper parse_uuid id req s).0 ≡ ok tt
      → (j : ℕ)
      → reserved_of j (release_buy faults to_upper parse_uuid id req s).1.db
        ≡ (if id == j then reserved_of j s.db -ℤ amount else reserved_of j s.db)
  unfolding release_buy take_reserved unreserve_balance lock_order_reservation
  release_buy_releases id oid req amount s e fresh a h j = grind arith

  release_sell_releases :
      (id oid : ℕ) (req : ReserveRequest) (s : Session)
      → parse_uuid req.order_id ≡ some oid
      → s.db.orders oid ≡ none
      → (release_sell faults to_upper parse_uuid id req s).0 ≡ ok tt
      → (j : ℕ) (symbol : Text)
      → let after = (release_sell faults to_upper parse_uuid id req s).1.db in
        (reserved_quantity_of j symbol after ≡ (
          if id == j && text_eq req.symbol symbol
          then reserved_quantity_of j symbol s.db -ℤ or_quantity req.reserved_amount req
          else reserved_quantity_of j symbol s.db))
        × (reserved_of j after ≡ reserved_of j s.db)
  unfolding release_sell take_reserved unreserve_quantity lock_order_reservation
  release_sell_releases id oid req s e fresh h j symbol =
      grind (arith, text_eq→eq req.symbol symbol)

  release_buy_quantity :
      (id oid : ℕ) (req : ReserveRequest) (s : Session)
      → parse_uuid req.order_id ≡ some oid
      → s.db.orders oid ≡ none
      → (release_buy faults to_upper parse_uuid id req s).1.db.positions ≡ s.db.positions
  unfolding release_buy take_reserved unreserve_balance lock_order_reservation
  release_buy_quantity id oid req s e fresh = ground arith

  reserve_buy_amount :
      (id : ℕ) (req : ReserveRequest) (s : Session)
      → (reserve_buy faults id req s).0 ≡ ok tt
      → (amount : ℤ) × ((s' : Session) → (requested_cost req s').0 ≡ ok amount)
        × ((j : ℕ)
            → reserved_of j (reserve_buy faults id req s).1.db
              ≡ (if id == j then reserved_of j s.db +ℤ amount else reserved_of j s.db))
        × ((reserve_buy faults id req s).1.db.positions ≡ s.db.positions)
  unfolding reserve_buy reserve_balance
  reserve_buy_amount id req s h = elim (Result-cases (requested_cost req s).0) [
    | inr (e, x) ↦ absurd (ground arith)
    | inl (amount, x) ↦ (amount, λ s'. ground arith, λ j. grind arith, ground arith)
  ]

  reserve_sell_balance :
      (id : ℕ) (req : ReserveRequest) (s : Session)
      → (reserve_sell faults id req s).1.db.users ≡ s.db.users
  unfolding reserve_sell reserve_quantity
  reserve_sell_balance id req s = ground arith

  -- What a handler does when it succeeds: one of its two branches
  abbrev Ran :
      (ℕ → ReserveRequest → Portfolio.Act Refusal (Unit {0}))
      → (ℕ → ReserveRequest → Portfolio.Act Refusal (Unit {0}))
      → ReserveRequest
      → Session
      → Session
      → Type 0
  Ran buy sell req s s' =
      let buying = text_eq (to_upper (trim_space req.side)) (codes "BUY") in
      (id : ℕ) × (parse_uuid req.user_id ≡ some id)
      × (((buying ≡ true)
            × ((buy id req (ticked s)).0 ≡ ok tt)
            × (s'.db ≡ (buy id req (ticked s)).1.db))
          ⊎ ((buying ≡ false)
              × ((sell id req (ticked s)).0 ≡ ok tt)
              × (s'.db ≡ (sell id req (ticked s)).1.db)))

  by_side_runs :
      (refusal : Refusal) (buy sell : ℕ → ReserveRequest → Portfolio.Act Refusal (Unit {0}))
      (req : ReserveRequest) (s : Session)
      → let out = by_side faults to_upper parse_uuid refusal buy sell true (some req) s in
        out.0 ≡ ok tt → Ran buy sell req s out.1
  unfolding by_side in_handler
  by_side_runs refusal buy sell req s h = elim (Option-cases (parse_uuid req.user_id)) [
    | inl e ↦ absurd (ground arith)
    | inr (id, e) ↦ (id, e, ground arith)
  ]

  plus_minus : (a b : ℤ) → (a +ℤ b) -ℤ b ≡ a
  plus_minus a b = eq_of_parts ((a +ℤ b) -ℤ b) a (omega (arith, +ℤ_parts a b, -ℤ_parts (a +ℤ b) b))

  undo_buy :
      (id oid : ℕ) (req : ReserveRequest) (s s' : Session)
      → parse_uuid req.order_id ≡ some oid
      → s'.db.orders oid ≡ none
      → (reserve_buy faults id req s).0 ≡ ok tt
      → held s' ≡ held (reserve_buy faults id req s).1
      → (release_buy faults to_upper parse_uuid id req s').0 ≡ ok tt
      → held (release_buy faults to_upper parse_uuid id req s').1 ≡ held s
  undo_buy id oid req s s' e fresh reserved same released =
      let (amount, asks, grows, kept) = reserve_buy_amount id req s reserved in
      let falls = release_buy_releases id oid req amount s' e fresh (asks s') released in
      let kept' = release_buy_quantity id oid req s' e fresh in
      let balance : (j : ℕ)
          → reserved_of j (release_buy faults to_upper parse_uuid id req s').1.db
            ≡ reserved_of j s.db =
        λ j.
          grind (
            arith,
            falls j,
            grows j,
            ap (λ f. f.0 j) same,
            plus_minus (reserved_of j s.db) amount,
          ) in
      let quantity : (j : ℕ) (y : Text)
          → reserved_quantity_of j y (release_buy faults to_upper parse_uuid id req s').1.db
            ≡ reserved_quantity_of j y s.db =
        λ j y. grind (arith, kept, kept', ap (λ f. f.1 j y) same) in
      λ i. (λ j. balance j i, λ j y. quantity j y i)

  undo_sell :
      (id oid : ℕ) (req : ReserveRequest) (s s' : Session)
      → parse_uuid req.order_id ≡ some oid
      → s'.db.orders oid ≡ none
      → (reserve_sell faults id req s).0 ≡ ok tt
      → held s' ≡ held (reserve_sell faults id req s).1
      → (release_sell faults to_upper parse_uuid id req s').0 ≡ ok tt
      → held (release_sell faults to_upper parse_uuid id req s').1 ≡ held s
  undo_sell id oid req s s' e fresh reserved same released =
      let grows = reserve_sell_reserves faults id req s reserved in
      let falls = release_sell_releases id oid req s' e fresh released in
      let kept = reserve_sell_balance id req s in
      let balance : (j : ℕ)
          → reserved_of j (release_sell faults to_upper parse_uuid id req s').1.db
            ≡ reserved_of j s.db =
        λ j. grind (arith, (falls j []).1, kept, ap (λ f. f.0 j) same) in
      let quantity : (j : ℕ) (y : Text)
          → reserved_quantity_of j y (release_sell faults to_upper parse_uuid id req s').1.db
            ≡ reserved_quantity_of j y s.db =
        λ j y. grind (
          arith,
          (falls j y).0,
          grows j y,
          ap (λ f. f.1 j y) same,
          plus_minus (reserved_quantity_of j y s.db) (or_quantity req.reserved_amount req),
        ) in
      λ i. (λ j. balance j i, λ j y. quantity j y i)

  -- If reserveHandler succeeds on a request, and then, while what is reserved stays the same,
  -- releaseHandler succeeds on the same request, whose order id has no row, then every user's
  -- reserved balance and the reserved quantity of every position are as before both.
  pub release_handler_undoes :
      (req : ReserveRequest) (oid : ℕ) (s s' : Session)
      → parse_uuid req.order_id ≡ some oid
      → s'.db.orders oid ≡ none
      → (reserve_handler faults to_upper parse_uuid true (some req) s).0 ≡ ok tt
      → held s' ≡ held (reserve_handler faults to_upper parse_uuid true (some req) s).1
      → (release_handler faults to_upper parse_uuid true (some req) s').0 ≡ ok tt
      → held (release_handler faults to_upper parse_uuid true (some req) s').1 ≡ held s
  unfolding reserve_handler release_handler
  release_handler_undoes req oid s s' e fresh reserved same released =
      let (id, found, first) =
        by_side_runs reservation_commit_failed (reserve_buy faults) (reserve_sell faults) req s
          reserved in
      let (id', found', second) =
        by_side_runs release_commit_failed (release_buy faults to_upper parse_uuid)
          (release_sell faults to_upper parse_uuid) req s' released in
      let one : id' ≡ id = cc in
      elim first [
        | inl (buys, done, left) ↦ elim second [
          | inl (_, done', left') ↦
              ap held_in left'
              ∙ undo_buy id' oid req (ticked s) (ticked s') e fresh
                  (subst (λ n. (reserve_buy faults n req (ticked s)).0 ≡ ok tt) (sym one) done)
                  (same
                    ∙ ap held_in left
                    ∙ ap (λ n. held (reserve_buy faults n req (ticked s)).1) (sym one))
                  done'
          | inr (sells, _, _) ↦ absurd (cc)
        ]
        | inr (sells, done, left) ↦ elim second [
          | inl (buys, _, _) ↦ absurd (cc)
          | inr (_, done', left') ↦
              ap held_in left'
              ∙ undo_sell id' oid req (ticked s) (ticked s') e fresh
                  (subst (λ n. (reserve_sell faults n req (ticked s)).0 ≡ ok tt) (sym one) done)
                  (same
                    ∙ ap held_in left
                    ∙ ap (λ n. held (reserve_sell faults n req (ticked s)).1) (sym one))
                  done'
        ]
      ]
