-- ===== src/OrderService/Conserve.antt =====
-- services/order-service/main.go: what createOrderHandler leaves reserved for an order that it refuses.
use mathlib.Core.Path.{subst}
use tradesphere.Base.{
  ℕ, ◌≡◌, ◌⊎◌, refl, sym, ap, ◌∙◌, inl, inr, Bool, true, false, Bool-cases, Option, some, ◌==◌,
  ==_iff, ok, Result-cases, err, arith,
}
use tradesphere.Text.{Text, codes}
use tradesphere.Model.{Order}
use tradesphere.Money.Decimal.{format_decimal}
use tradesphere.Portfolio.Handlers.{ReserveRequest}
use tradesphere.Portfolio.Validate.{ValidateRequest}
use tradesphere.Sql.{Session, ◌>>=◌}
use tradesphere.OrderService.Handlers.{
  validate_with_portfolio, call_portfolio_reservation, rollback_reservation, store_order,
  check_risk, reserve_order, place_order, read_order, create_order_handler,
}
use tradesphere.OrderService.Requests.{
  CreateOrderRequest, HttpError, Reply, no_reply, reply, Backend, reservation_request, side_text,
  side_text,
}
use tradesphere.OrderService.Create.{read_order_state, read_order-ok}

Reply-cases :
    {B : Type 0} (r : Reply B) → (r ≡ no_reply) ⊎ ((code : ℕ) × (body : B) × (r ≡ reply code body))
Reply-cases no_reply = inl refl
Reply-cases (reply code body) = inr (code, body, refl)

-- What the operations of a backend promise of what is held, with `Fresh`, the ids without an order.
pub record IsConserving {D H : Type 0} (b : Backend D) (uuid_text : ℕ → Text) (held : Session D → H)
    (Fresh : ℕ → Session D → Type 0) : Type 0 where
  pub validate_keeps :
      (req : ValidateRequest) (s : Session D)
      → (held (b.validate req s).1 ≡ held s)
        × ((id : ℕ) → Fresh id s → Fresh id (b.validate req s).1)
  pub reserve_refused :
      (req : ReserveRequest) (code : ℕ) (body : Option Text) (s : Session D)
      → (b.reservation (codes "reserve") req s).0 ≡ reply code body
      → (code == 200) ≡ false
      → held (b.reservation (codes "reserve") req s).1 ≡ held s
  pub insert_refused :
      (order : Order) (s : Session D)
      → (b.insert_order_with_outbox order s).0 ≡ false
      → (held (b.insert_order_with_outbox order s).1 ≡ held s)
        × (Fresh order.id s → Fresh order.id (b.insert_order_with_outbox order s).1)
  pub reserve_keeps_fresh :
      (req : ReserveRequest) (id : ℕ) (s : Session D)
      → Fresh id s
      → Fresh id (b.reservation (codes "reserve") req s).1
  pub release_undoes :
      (order : Order) (body body' : Option Text) (s s' : Session D)
      → let req = reservation_request uuid_text order in
        Fresh order.id s'
        → (b.reservation (codes "reserve") req s).0 ≡ reply 200 body
        → held s' ≡ held (b.reservation (codes "reserve") req s).1
        → (b.reservation (codes "release") req s').0 ≡ reply 200 body'
        → held (b.reservation (codes "release") req s').1 ≡ held s

module _ {D : Type 0} (b : Backend D) (to_upper : Text → Text) (parse_uuid : Text → Option ℕ)
    (uuid_text : ℕ → Text) where
  -- The call that reserves for an order, and the insertion after it, as a run on `s` makes them
  abbrev pub reserve_call : Text → Order → Session D → Reply (Option Text) × Session D
  reserve_call user_id order s =
      let s1 =
        (validate_with_portfolio b to_upper parse_uuid uuid_text user_id order.symbol
          (side_text order.side) order.price order.quantity s).1 in
      b.reservation (codes "reserve") (reservation_request uuid_text order) s1

  abbrev pub insert_call : Text → Order → Session D → Bool × Session D
  insert_call user_id order s = b.insert_order_with_outbox order (reserve_call user_id order s).1

  -- The two failures in a run on `s` that can leave a reservation behind: the call that reserves got no
  -- reply; or it was granted, the insertion failed, and the release after that did not succeed.
  abbrev pub IsStranded : Text → Order → Session D → Type 0
  IsStranded user_id order s =
      ((reserve_call user_id order s).0 ≡ no_reply)
      ⊎ (((body : Option Text) × ((reserve_call user_id order s).0 ≡ reply 200 body))
          × ((insert_call user_id order s).0 ≡ false)
          × ((rollback_reservation b to_upper parse_uuid uuid_text order
                (insert_call user_id order s).1).0
              ≡ false))

  rollback_reservation_answer :
      (order : Order) (s : Session D)
      → let back = rollback_reservation b to_upper parse_uuid uuid_text order s in
        let release = b.reservation (codes "release") (reservation_request uuid_text order) s in
        back.0 ≡ true → (body : Option Text) × (release.0 ≡ reply 200 body) × (back.1 ≡ release.1)
  unfolding rollback_reservation call_portfolio_reservation
  rollback_reservation_answer order s done =
      let release = b.reservation (codes "release") (reservation_request uuid_text order) s in
      elim (Reply-cases release.0) [
        | inl lost ↦ absurd (ground arith)
        | inr (code, body, answer) ↦
            let good : code ≡ 200 = ground arith in
            (body, answer ∙ ap (λ c. reply c body) good, refl)
      ]

  module _ {H : Type 0} (held : Session D → H) (Fresh : ℕ → Session D → Type 0)
      (laws : IsConserving b uuid_text held Fresh) where
    store_order_conserves :
        (order : Order) (body : Option Text) (s s1 : Session D) (e : HttpError)
        → let reserve = b.reservation (codes "reserve") (reservation_request uuid_text order) s1 in
          Fresh order.id reserve.1
          → reserve.0 ≡ reply 200 body
          → held s1 ≡ held s
          → (store_order b to_upper parse_uuid uuid_text order reserve.1).0 ≡ err e
          → (held (store_order b to_upper parse_uuid uuid_text order reserve.1).1 ≡ held s)
            ⊎ (((b.insert_order_with_outbox order reserve.1).0 ≡ false)
                × ((rollback_reservation b to_upper parse_uuid uuid_text order
                      (b.insert_order_with_outbox order reserve.1).1).0
                    ≡ false))
    unfolding store_order
    store_order_conserves order body s s1 e fresh reserved same refused =
        let s2 = (b.reservation (codes "reserve") (reservation_request uuid_text order) s1).1 in
        let s3 = (b.insert_order_with_outbox order s2).1 in
        elim (Bool-cases (b.insert_order_with_outbox order s2).0) [
          | inl stored ↦ absurd (ground arith)
          | inr stored ↦
              let (kept, fresh') = laws.insert_refused order s2 stored in
              let back = rollback_reservation b to_upper parse_uuid uuid_text order s3 in
              let left : (store_order b to_upper parse_uuid uuid_text order s2).1 ≡ back.1 =
                ground arith in
              elim (Bool-cases back.0) [
                | inr failed ↦ inr (stored, failed)
                | inl released ↦
                    let (body', answer, state) = rollback_reservation_answer order s3 released in
                    inl (
                      ap held (left ∙ state)
                      ∙ laws.release_undoes order body body' s1 s3 (fresh' fresh) reserved kept
                          answer
                      ∙ same)
              ]
        ]

    place_order_conserves :
        (user_id : Text) (order : Order) (s : Session D) (e : HttpError)
        → Fresh order.id s
        → let out = place_order b to_upper parse_uuid uuid_text user_id order s in
          out.0 ≡ err e → (held out.1 ≡ held s) ⊎ IsStranded user_id order s
    unfolding place_order check_risk reserve_order validate_with_portfolio
        call_portfolio_reservation
    place_order_conserves user_id order s e fresh refused =
        let query : ValidateRequest = record {
          user_id = user_id;
          symbol = order.symbol;
          side = side_text order.side;
          price = format_decimal order.price;
          quantity = format_decimal order.quantity;
        } in
        let req = reservation_request uuid_text order in
        let s1 = (b.validate query s).1 in
        let s2 = (b.reservation (codes "reserve") req s1).1 in
        let (kept, fresh') = laws.validate_keeps query s in
        let stored = store_order b to_upper parse_uuid uuid_text order s2 in
        elim (Reply-cases (b.reservation (codes "reserve") req s1).0) [
          | inl lost ↦ inr (inl lost)
          | inr (code, body, answer) ↦ elim (Bool-cases (code == 200)) [
            | inr bad ↦
                let same = laws.reserve_refused req code body s1 answer bad in
                ground (arith, kept, same ∙ kept)
            | inl good ↦
                let answer' : (b.reservation (codes "reserve") req s1).0 ≡ reply 200 body =
                  answer ∙ ap (λ c. reply c body) ((==_iff code 200).0 good) in
                let fresh'' = laws.reserve_keeps_fresh req order.id s1 (fresh' order.id fresh) in
                let out = place_order b to_upper parse_uuid uuid_text user_id order s in
                let ran : (out.1 ≡ s1) ⊎ (out ≡ stored) = ground arith in
                elim ran [
                  | inl stop ↦ inl (ap held stop ∙ kept)
                  | inr e' ↦
                      let conserved =
                        store_order_conserves order body s s1 e fresh'' answer' kept
                          (sym (ap (λ r. r.0) e') ∙ refused) in
                      elim conserved [
                        | inl h ↦ inl (ap (λ r. held r.1) e' ∙ h)
                        | inr (failed, kept_back) ↦ inr (inr ((body, answer'), failed, kept_back))
                      ]
                ]
          ]
        ]

    -- If createOrderHandler refuses a request, then what is held is as it was before, or else it had read
    -- an order from the request, and in this run the call that reserves for it got no reply, or was
    -- granted before an insertion that failed and a release that did not succeed: under the laws of
    -- the backend, and if uuid.New is an id without an order.
    pub create_order_handler_conserves :
        (req : CreateOrderRequest) (token : Option Text) (s : Session D) (e : HttpError)
        → Fresh (b.new_uuid s) s
        → let out = create_order_handler b to_upper parse_uuid uuid_text true (some req) token s in
          out.0 ≡ err e
          → (held out.1 ≡ held s)
            ⊎ ((order : Order) × ((read_order b to_upper parse_uuid uuid_text req token s).0
                  ≡ ok order)
                × IsStranded req.user_id order s)
    unfolding create_order_handler
    create_order_handler_conserves req token s e fresh refused =
        let read = read_order b to_upper parse_uuid uuid_text req token in
        let place = place_order b to_upper parse_uuid uuid_text req.user_id in
        elim (Result-cases (read s).0) [
          | inr (x, stop) ↦
              let ran : (read >>= place) s ≡ (err x, (read s).1) = ground arith in
              inl (
                ap (λ r. held r.1) ran
                ∙ ap held (read_order_state b to_upper parse_uuid uuid_text req token s))
          | inl (order, first) ↦
              let ran : (read >>= place) s ≡ place order (read s).1 = ground arith in
              let ran' =
                ran
                ∙ ap (place order) (read_order_state b to_upper parse_uuid uuid_text req token s) in
              let (_, id) = read_order-ok b to_upper parse_uuid uuid_text req token order s first in
              let conserved =
                place_order_conserves req.user_id order s e (subst (λ n. Fresh n s) (sym id) fresh)
                  (sym (ap (λ r. r.0) ran') ∙ refused) in
              elim conserved [
                | inl h ↦ inl (ap (λ r. held r.1) ran' ∙ h)
                | inr x ↦ inr (order, first, x)
              ]
        ]
