-- ===== src/OrderService/Backend.antt =====
-- services/order-service/main.go on services/portfolio-service/main.go: the second's handlers as the
-- backend of the first. A reply may be lost: `lost` says whether it is, by the calls of the database
-- that have been made when it is sent.
use tradesphere.Base.{
  ℕ, ◌≡◌, ◌⊎◌, ap, ◌∙◌, inl, inr, Bool, true, false, Option, none, some, ◌==◌, if◌then◌else◌,
  Result-cases, ok, err, arith,
}
use tradesphere.Text.{Text, codes, text_eq}
use tradesphere.Model.{Order}
use tradesphere.Portfolio.Database.{Db, Session}
use tradesphere.Portfolio.Handlers.{Refusal, ReserveRequest, status_code, reserve_handler}
use tradesphere.Portfolio.Release.{release_handler}
use tradesphere.Portfolio.Validate.{ValidateRequest, validate_handler}
use tradesphere.OrderService.Handlers.{read_order, create_order_handler}
use tradesphere.OrderService.Requests.{
  CreateOrderRequest, HttpError, Reply, no_reply, reply, Backend, reservation_request,
}
use tradesphere.OrderService.Conserve.{IsConserving, IsStranded, create_order_handler_conserves}
use tradesphere.OrderService.Reservation.{
  held_in, held, HasNoOrder, validate_handler_keeps, reserve_handler_refused,
  reserve_handler_orders, release_handler_undoes,
}

-- A reply, unless it is lost
abbrev pub sent_back : {B : Type 0} → Bool → Reply B → Reply B
sent_back lost r = if lost then no_reply else r

module _ (faults lost : ℕ → Bool) (to_upper : Text → Text) (parse_uuid : Text → Option ℕ)
    (message_of : Refusal → Text) (rest : Backend Db) where
  abbrev pub portfolio_reservation : Text → ReserveRequest → Session → Reply (Option Text) × Session
  portfolio_reservation path req s =
      let (r, s') =
        if text_eq path (codes "reserve")
        then reserve_handler faults to_upper parse_uuid true (some req) s
        else release_handler faults to_upper parse_uuid true (some req) s in
      (
        sent_back (lost s'.calls) (elim r [
          | ok _ ↦ reply 200 none
          | err e ↦ reply (status_code e) (some (message_of e))
        ]),
        s',
      )

  abbrev pub portfolio_validate : ValidateRequest → Session → Reply (Option Bool) × Session
  portfolio_validate req s =
      let (r, s') = validate_handler faults to_upper parse_uuid req s in
      (
        sent_back (lost s'.calls)
            (elim r [ ok allowed ↦ reply 200 (some allowed) | err e ↦ reply (status_code e) none ]),
        s',
      )

  abbrev pub portfolio_backend : Backend Db
  portfolio_backend = record rest {
    validate = portfolio_validate;
    reservation = portfolio_reservation;
  }

  status_code-ne-200 : (e : Refusal) → (status_code e == 200) ≡ false
  unfolding status_code
  status_code-ne-200 e = ground arith

  -- An answer with 200 is one of a handler that succeeded, and any other answer of one that did not.
  reserve_answer :
      (req : ReserveRequest) (code : ℕ) (body : Option Text) (s : Session)
      → (portfolio_reservation (codes "reserve") req s).0 ≡ reply code body
      → let out = reserve_handler faults to_upper parse_uuid true (some req) s in
        ((code ≡ 200) × (out.0 ≡ ok tt))
        ⊎ (((code == 200) ≡ false) × ((e : Refusal) × (out.0 ≡ err e)))
  reserve_answer req code body s h =
      elim (Result-cases (reserve_handler faults to_upper parse_uuid true (some req) s).0) [
        | inl (u, e) ↦ inl (ground arith, e)
        | inr (x, e) ↦ inr (ground (arith, status_code-ne-200 x), (x, e))
      ]

  release_answer :
      (req : ReserveRequest) (body : Option Text) (s : Session)
      → (portfolio_reservation (codes "release") req s).0 ≡ reply 200 body
      → (release_handler faults to_upper parse_uuid true (some req) s).0 ≡ ok tt
  release_answer req body s h =
      elim (Result-cases (release_handler faults to_upper parse_uuid true (some req) s).0) [
        | inl (tt, e) ↦ e
        | inr (x, e) ↦ absurd (ground (arith, status_code-ne-200 x))
      ]

  -- The handlers of portfolio-service, whose calls of the database may fail and whose replies may be
  -- lost, keep what order-service relies on: reserved balances and quantities are what is held. It
  -- is required that an insertion that fails leaves the tables as they are, and that uuid.Parse reads
  -- back what String writes.
  pub portfolio_backend-IsConserving :
      (uuid_text : ℕ → Text)
      → ((id : ℕ) → parse_uuid (uuid_text id) ≡ some id)
      → ((order : Order) (s : Session)
          → (rest.insert_order_with_outbox order s).0 ≡ false
          → (rest.insert_order_with_outbox order s).1.db ≡ s.db)
      → IsConserving portfolio_backend uuid_text held HasNoOrder
  portfolio_backend-IsConserving uuid_text reads_back undone = record {
    validate_keeps = λ req s.
        let same = validate_handler_keeps faults to_upper parse_uuid req s in
        (ap held_in same, λ id fresh. ap (λ (db : Db). db.orders id) same ∙ fresh);
    reserve_refused = λ req code body s answer bad. elim (reserve_answer req code body s answer) [
      | inl (good, _) ↦ absurd (ground arith)
      | inr (_, (x, e)) ↦ ap held_in (reserve_handler_refused faults to_upper parse_uuid req x s e)
    ];
    insert_refused = λ order s failed.
        let same = undone order s failed in
        (ap held_in same, λ fresh. ap (λ (db : Db). db.orders order.id) same ∙ fresh);
    reserve_keeps_fresh = λ req id s fresh.
        ap (λ f. f id) (reserve_handler_orders faults to_upper parse_uuid req s) ∙ fresh;
    release_undoes = λ order body body' s s' fresh reserved same released.
        elim (reserve_answer (reservation_request uuid_text order) 200 body s reserved) [
          | inl (_, done) ↦
              release_handler_undoes faults to_upper parse_uuid
                (reservation_request uuid_text order) order.id s s' (reads_back order.id) fresh done
                same (release_answer (reservation_request uuid_text order) body' s' released)
          | inr (bad, _) ↦ absurd (ground arith)
        ];
  }

  -- With the handlers of portfolio-service behind it, whose calls of the database may fail and whose
  -- replies may be lost: if createOrderHandler refuses a request, then every user's reserved balance
  -- and the reserved quantity of every position are as before; or else it had read an order from the
  -- request, and in this very run the call that reserves for it got no reply, or that call was granted
  -- and then the insertion failed and the release after it did not succeed. It is required that
  -- uuid.New is an id without a row, that an insertion that fails leaves the tables as they are, and
  -- that uuid.Parse reads back what String writes.
  pub create_order_handler_keeps_reserves :
      (uuid_text : ℕ → Text) (req : CreateOrderRequest) (token : Option Text) (s : Session)
      (e : HttpError)
      → ((id : ℕ) → parse_uuid (uuid_text id) ≡ some id)
      → ((order : Order) (s' : Session)
          → (rest.insert_order_with_outbox order s').0 ≡ false
          → (rest.insert_order_with_outbox order s').1.db ≡ s'.db)
      → s.db.orders (rest.new_uuid s) ≡ none
      → let out =
          create_order_handler portfolio_backend to_upper parse_uuid uuid_text true
            (some req)
            token
            s in
        out.0 ≡ err e
        → (held out.1 ≡ held s)
          ⊎ ((order : Order) × ((read_order portfolio_backend to_upper parse_uuid uuid_text req
                  token s).0
                ≡ ok order)
              × IsStranded portfolio_backend to_upper parse_uuid uuid_text req.user_id order s)
  create_order_handler_keeps_reserves uuid_text req token s e reads_back undone fresh =
      create_order_handler_conserves portfolio_backend to_upper parse_uuid uuid_text held HasNoOrder
        (portfolio_backend-IsConserving uuid_text reads_back undone) req token s e fresh
