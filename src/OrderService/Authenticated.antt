-- ===== src/OrderService/Authenticated.antt =====
-- services/order-service/main.go: the two handlers behind the layers of pkg/auth, as startup puts
-- them: what a user can do to orders.
use tradesphere.Base.{ℕ, ◌≡◌, sym, ap, ◌∙◌, true, Option, some, [], ◌∷◌, Result, ok, arith}
use mathlib.Core.Path.{subst}
use tradesphere.Text.{Text, codes, text_eq→eq, trim_prefix}
use tradesphere.Model.{Order}
use tradesphere.Sql.{Session}
use tradesphere.Auth.{Jwt, Bucket, Clients, Answer, served}
use tradesphere.Auth.Tokens.{IsAuthorized}
use tradesphere.Auth.Layers.{auth_middleware, layers-IsServed}
use tradesphere.OrderService.Requests.{Backend, HttpError, CreateOrderRequest, get_order}
use tradesphere.OrderService.Handlers.{create_order_handler, order_action_handler, id_in_path}
use tradesphere.OrderService.Create.{IsReadFrom, IsPlaced, create_order_handler-ok}
use tradesphere.OrderService.Cancel.{IsRequested, order_action_handler-ok}

module _ {D L : Type 0} (j : Jwt) (env : Text) (bucket : Bucket L) (b : Backend D)
    (to_upper : Text → Text) (parse_uuid : Text → Option ℕ) (uuid_text : ℕ → Text)
    (parses : (n : ℕ) → parse_uuid (uuid_text n) ≡ some n) where
  -- The handler of /orders, and that of a path below it
  abbrev Routed : Type 0
  Routed = Clients L × Session D → Answer (Result HttpError Order) × (Clients L × Session D)

  abbrev pub orders_route : ℕ → Text → Text → CreateOrderRequest → Routed
  orders_route now remote_addr header req =
      auth_middleware j env uuid_text bucket
        (λ user. create_order_handler b to_upper parse_uuid uuid_text true (some req) (some user))
        now remote_addr header

  abbrev pub order_action_route : ℕ → Text → Text → Text → Routed
  order_action_route now remote_addr header url_path =
      auth_middleware j env uuid_text bucket
        (λ user. order_action_handler b to_upper parse_uuid uuid_text true url_path (some user)) now
        remote_addr header

  uuid_text_injective : (m n : ℕ) → uuid_text m ≡ uuid_text n → m ≡ n
  uuid_text_injective m n e = ground (arith, parses m, parses n)

  -- If the route /orders accepts an order: the request has a token that ValidateToken accepts, and the
  -- order is of the user whom the claims of this token name; it is read from the request, allowed,
  -- reserved for and stored, as createOrderHandler does it.
  pub orders_route-ok :
      (now : ℕ) (remote_addr header : Text) (req : CreateOrderRequest) (clients : Clients L)
      (s : Session D) (order : Order)
      → let out = orders_route now remote_addr header req (clients, s) in
        out.0 ≡ served (ok order)
        → (user : Text) × ((auth : IsAuthorized j env uuid_text (codes "user" ∷ []) now header user)
            × (order.user_id ≡ auth.claims.user_id))
          × IsReadFrom b to_upper parse_uuid uuid_text req (some user) order
          × IsPlaced b to_upper parse_uuid uuid_text req.user_id s out.1.1 order
  orders_route-ok now remote_addr header req clients s order h =
      let next = λ (user : Text).
        create_order_handler b to_upper parse_uuid uuid_text true (some req) (some user) in
      let (user, room, auth, ran) =
        layers-IsServed j env uuid_text bucket next (codes "user" ∷ []) now remote_addr header
          clients s (ok order) h in
      let (read, id, placed) =
        create_order_handler-ok b to_upper parse_uuid uuid_text req (some user) order s
          (ap (λ r. r.0) (sym ran)) in
      let named : req.user_id ≡ uuid_text auth.claims.user_id =
        text_eq→eq req.user_id user read.1 ∙ auth.subject in
      let same : some order.user_id ≡ some auth.claims.user_id =
        sym read.0 ∙ ap parse_uuid named ∙ parses auth.claims.user_id in
      (
        user,
        (auth, ground (arith, same)),
        read,
        subst (λ s'. IsPlaced b to_upper parse_uuid uuid_text req.user_id s s' order)
            (ap (λ r. r.1) (sym ran)) placed,
      )

  -- If the route below /orders accepts a request to cancel an order: the request has a token that
  -- ValidateToken accepts, the order is of the user whom the claims of this token name, may be
  -- cancelled, and stands under the id in the path; and the request for it was enqueued.
  pub order_action_route-ok :
      (now : ℕ) (remote_addr header url_path : Text) (clients : Clients L) (s : Session D)
      (order : Order)
      → let out = order_action_route now remote_addr header url_path (clients, s) in
        let path = trim_prefix (codes "/orders/") url_path in
        out.0 ≡ served (ok order)
        → (user : Text) × ((auth : IsAuthorized j env uuid_text (codes "user" ∷ []) now header user)
            × (order.user_id ≡ auth.claims.user_id))
          × ((id : ℕ) × (parse_uuid (id_in_path b to_upper parse_uuid uuid_text path) ≡ some id)
              × (get_order b id s ≡ some order))
          × IsRequested b to_upper parse_uuid uuid_text (some user) s out.1.1 order
  order_action_route-ok now remote_addr header url_path clients s order h =
      let next = λ (user : Text).
        order_action_handler b to_upper parse_uuid uuid_text true url_path (some user) in
      let (user, room, auth, ran) =
        layers-IsServed j env uuid_text bucket next (codes "user" ∷ []) now remote_addr header
          clients s (ok order) h in
      let (_, _, found, requested) =
        order_action_handler-ok b to_upper parse_uuid uuid_text true url_path (some user) order s
          (ap (λ r. r.0) (sym ran)) in
      let named : uuid_text order.user_id ≡ uuid_text auth.claims.user_id =
        text_eq→eq (uuid_text order.user_id) user requested.0 ∙ auth.subject in
      (
        user,
        (auth, uuid_text_injective order.user_id auth.claims.user_id named),
        found,
        subst (λ s'. IsRequested b to_upper parse_uuid uuid_text (some user) s s' order)
            (ap (λ r. r.1) (sym ran)) requested,
      )
