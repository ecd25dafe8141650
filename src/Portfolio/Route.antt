-- ===== src/Portfolio/Route.antt =====
-- services/portfolio-service/main.go: the pages of a portfolio behind the layers of pkg/auth.
use mathlib.Core.Path.{subst}
use tradesphere.Base.{ℕ, ◌≡◌, sym, ap, Bool, Option, some, List, [], ◌∷◌, Result, ok, arith}
use tradesphere.Text.{Text, codes}
use tradesphere.Auth.{Jwt, Bucket, Clients, Answer, served}
use tradesphere.Auth.Tokens.{IsAuthorized}
use tradesphere.Auth.Layers.{auth_middleware, layers-IsServed}
use tradesphere.Portfolio.Database.{Db, Session}
use tradesphere.Portfolio.Pages.{PageError, Page, portfolio_handler}
use tradesphere.Portfolio.Positions.{IsScan}
use tradesphere.Portfolio.Owner.{Shows, portfolio_handler-Shows}

module _ {L : Type 0} (j : Jwt) (env : Text) (uuid_text : ℕ → Text) (bucket : Bucket L)
    (faults : ℕ → Bool) (parse_uuid : Text → Option ℕ) (scan : Db → List (ℕ × Text))
    (meanwhile : Db → Db) where
  -- The handler of /portfolio/ behind the layers
  abbrev pub portfolio_route :
      ℕ
      → Text
      → Text
      → Text
      → Clients L × Session
      → Answer (Result PageError Page) × (Clients L × Session)
  portfolio_route now remote_addr header url_path =
      auth_middleware j env uuid_text bucket
        (λ user. portfolio_handler faults parse_uuid scan meanwhile url_path (some user)) now
        remote_addr header

  -- If the route /portfolio/ answers a request with a page, whichever calls of the database fail, then
  -- the request has a token that ValidateToken accepts, and the page is that of the user whom the claims
  -- of this token name: it shows the balance; or the user's rows of positions, each once and with its
  -- quantity; or both, where the positions are those of the tables after what others committed between
  -- the two queries. It is required that the database goes through each row of positions once.
  pub portfolio_route-Shows :
      (now : ℕ) (remote_addr header url_path : Text) (clients : Clients L) (s : Session)
      (page : Page)
      → IsScan s.db (scan s.db)
      → IsScan (meanwhile s.db) (scan (meanwhile s.db))
      → (portfolio_route now remote_addr header url_path (clients, s)).0 ≡ served (ok page)
      → (user : Text) × (auth : IsAuthorized j env uuid_text (codes "user" ∷ []) now header user)
        × Shows faults parse_uuid scan meanwhile (uuid_text auth.claims.user_id) s.db page
  portfolio_route-Shows now remote_addr header url_path clients s page scanned later h =
      let next =
        λ (user : Text). portfolio_handler faults parse_uuid scan meanwhile url_path (some user) in
      let (user, room, auth, ran) =
        layers-IsServed j env uuid_text bucket next (codes "user" ∷ []) now remote_addr header
          clients s (ok page) h in
      let (owner, same, shown) =
        portfolio_handler-Shows faults parse_uuid scan meanwhile url_path (some user) s page scanned
          later (ap (λ r. r.0) (sym ran)) in
      let named : owner ≡ uuid_text auth.claims.user_id = ground (arith, same, auth.subject) in
      (user, auth, subst (λ u. Shows faults parse_uuid scan meanwhile u s.db page) named shown)
