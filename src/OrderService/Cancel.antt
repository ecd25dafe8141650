-- ===== src/OrderService/Cancel.antt =====
-- services/order-service/main.go: what orderActionHandler does on a request that it accepts.
use mathlib.Core.Path.{subst}
use tradesphere.Base.{
  ℕ, ◌≡◌, refl, sym, ap, ◌∙◌, inl, inr, Bool, true, false, Bool-cases, Option, Option-cases, some,
  ok, arith,
}
use tradesphere.Text.{trim_prefix, Text, codes}
use tradesphere.Model.{Order}
use tradesphere.Sql.{Session}
use tradesphere.OrderService.Handlers.{
  cancel_request, request_cancel, cancel_order_with, id_in_path, order_action_handler,
}
use tradesphere.OrderService.Requests.{Backend, get_order, is_closed, token_matches, has_suffix}

module _ {D : Type 0} (b : Backend D) (to_upper : Text → Text) (parse_uuid : Text → Option ℕ)
    (uuid_text : ℕ → Text) where
  -- The order may be cancelled by the token's user, and the request for it is enqueued, which
  -- leaves the second state.
  abbrev pub IsRequested : Option Text → Session D → Session D → Order → Type 0
  IsRequested token s s' order =
      (token_matches token (uuid_text order.user_id) ≡ true)
      × (is_closed order ≡ false)
      × (b.enqueue_cancel_command (cancel_request b to_upper parse_uuid uuid_text order) s
          ≡ (true, s'))

  cancel_order_with-ok :
      (id : ℕ) (token : Option Text) (order : Order) (s : Session D)
      → let out = cancel_order_with b to_upper parse_uuid uuid_text id token s in
        out.0 ≡ ok order → (get_order b id s ≡ some order) × IsRequested token s out.1 order
  unfolding cancel_order_with request_cancel
  cancel_order_with-ok id token order s done = elim (Option-cases (get_order b id s)) [
    | inl e ↦ absurd (ground arith)
    | inr (o, e) ↦
        let ran : (o ≡ order)
            × (token_matches token (uuid_text o.user_id) ≡ true)
            × (is_closed o ≡ false)
            × (b.enqueue_cancel_command (cancel_request b to_upper parse_uuid uuid_text o) s
                ≡ (true, (cancel_order_with b to_upper parse_uuid uuid_text id token s).1)) =
          ground arith in
        (
          e ∙ ap some ran.0,
          subst
              (λ (q : Order).
                IsRequested token s (cancel_order_with b to_upper parse_uuid uuid_text id token s).1
                  q)
              ran.0 (ran.1, ran.2, ran.3),
        )
  ]

  -- If orderActionHandler accepts a request, then it is a POST to a path that ends in /cancel and
  -- has the id of the order; the token is of the order's user; the order is neither filled nor
  -- cancelled and has a quantity remaining; and the request to cancel exactly this order was
  -- enqueued, which is all that changes.
  pub order_action_handler-ok :
      (post : Bool) (url_path : Text) (token : Option Text) (order : Order) (s : Session D)
      → let out = order_action_handler b to_upper parse_uuid uuid_text post url_path token s in
        let path = trim_prefix (codes "/orders/") url_path in
        out.0 ≡ ok order
        → (post ≡ true)
          × (has_suffix (codes "/cancel") path ≡ true)
          × ((id : ℕ) × (parse_uuid (id_in_path b to_upper parse_uuid uuid_text path) ≡ some id)
              × (get_order b id s ≡ some order))
          × IsRequested token s out.1 order
  unfolding order_action_handler
  order_action_handler-ok false url_path token order s done = absurd (cc)
  order_action_handler-ok true url_path token order s done =
      let path = trim_prefix (codes "/orders/") url_path in
      let cancel = cancel_order_with b to_upper parse_uuid uuid_text in
      elim (Bool-cases (has_suffix (codes "/cancel") path)) [
        | inr c ↦ absurd (ground arith)
        | inl c ↦
            elim (Option-cases (parse_uuid (id_in_path b to_upper parse_uuid uuid_text path))) [
              | inl e ↦ absurd (ground arith)
              | inr (id, e) ↦
                  let ran : order_action_handler b to_upper parse_uuid uuid_text true url_path token
                        s
                      ≡ cancel id token s =
                    ground arith in
                  let (found, requested) =
                    cancel_order_with-ok id token order s (sym (ap (λ r. r.0) ran) ∙ done) in
                  (
                    refl,
                    c,
                    (id, e, found),
                    subst (λ s'. IsRequested token s s' order) (ap (λ r. r.1) (sym ran)) requested,
                  )
            ]
      ]
