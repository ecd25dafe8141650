-- ===== src/Portfolio/Pages.antt =====
-- services/portfolio-service/main.go: the pages of a portfolio, behind the layers of pkg/auth. `scan` is
-- the order in which the database goes through the rows of positions, each by its key. The two queries
-- of getFullPortfolio are not one transaction: `meanwhile` is what others commit between them. The
-- metrics and the JSON texts of the answers are left out.
use tradesphere.Base.{
  false, ℕ, Bool, not, Option, none, some, List, [], ◌∷◌, ◌==◌, if◌then◌else◌, Result, ok, err,
}
use tradesphere.Int.{ℤ}
use tradesphere.Text.{Text, codes, text_eq, is_empty, trim_space, trim_prefix, split}
use tradesphere.Portfolio.Database.{
  Db, DbError, failed, Session, Act, ◌>>=◌, ◌>>◌, pure, raise, raise_if, ticked, query,
}
use tradesphere.Portfolio.Handlers.{user_row}

-- Position of main.go
pub record Holding : Type 0 where
  pub symbol : Text
  pub quantity : ℤ

-- The answers, each for a user id
pub data Page : Type 0 where
  balance_page : Text → ℤ → Page
  positions_page : Text → List Holding → Page
  full_page : Text → ℤ → List Holding → Page

-- The messages of http.Error
pub data PageError : Type 0 where
  missing_user_id other_user no_user no_page fetch_failed scan_failed : PageError

-- The status code that goes with a message
abbrev pub page_status : PageError → ℕ
page_status missing_user_id = 400
page_status other_user = 403
page_status no_user = 404
page_status no_page = 404
page_status fetch_failed = 500
page_status scan_failed = 500

abbrev Pages : Type 0 → Type 0
Pages A = Act PageError A

-- The rows with WHERE user_id = $1, symbol and quantity, of the rows with these keys
unfoldable pub holdings_of : ℕ → Db → List (ℕ × Text) → List Holding
holdings_of id db [] = []
holdings_of id db ((user, symbol) ∷ keys) =
    let rest = holdings_of id db keys in
    if user == id
    then (elim (db.positions id symbol) [
      | none ↦ rest
      | some p ↦ record { symbol = symbol; quantity = p.quantity } ∷ rest
    ])
    else rest

module _ (faults : ℕ → Bool) (parse_uuid : Text → Option ℕ) (scan : Db → List (ℕ × Text))
    (meanwhile : Db → Db) where
  abbrev or_page_error : {A : Type 0} → PageError → Act DbError A → Pages A
  or_page_error e m s = let (r, s') = m s in elim r [ ok a ↦ (ok a, s') | err x ↦ (err e, s') ]

  -- A text that is no UUID fails the query.
  abbrev with_uuid : {A : Type 0} → Text → (ℕ → Db → Result DbError A) → Db → Result DbError A
  with_uuid user_id f db = elim (parse_uuid user_id) [ none ↦ err failed | some id ↦ f id db ]

  -- SELECT balance FROM users WHERE id = $1
  unfoldable pub balance_row : Text → Pages ℤ
  balance_row user_id = do
    u ← or_page_error no_user (query faults (with_uuid user_id user_row))
    pure u.balance

  -- The loop over the rows; each Scan may fail.
  unfoldable pub scan_rows : List Holding → Pages (List Holding)
  scan_rows [] = pure []
  scan_rows (p ∷ ps) = do
    row ← or_page_error scan_failed (query faults (λ db. ok p))
    rest ← scan_rows ps
    pure (row ∷ rest)

  -- SELECT symbol, quantity FROM positions WHERE user_id = $1, the loop, and the test of rows.Err
  unfoldable pub position_rows : Text → Pages (List Holding)
  position_rows user_id = do
    rows ←
        or_page_error fetch_failed
          (query faults (with_uuid user_id (λ id db. ok (holdings_of id db (scan db)))))
    positions ← scan_rows rows
    or_page_error fetch_failed (query faults (λ db. ok positions))

  -- What happens to the tables between two statements
  abbrev pub others_commit : Pages (Unit {0})
  others_commit s = (ok tt, record s { db = meanwhile s.db })

  unfoldable pub get_balance : Text → Pages Page
  get_balance user_id = do balance ← balance_row user_id; pure (balance_page user_id balance)

  unfoldable pub get_positions : Text → Pages Page
  get_positions user_id = do
    positions ← position_rows user_id
    pure (positions_page user_id positions)

  unfoldable pub get_full_portfolio : Text → Pages Page
  get_full_portfolio user_id = do
    balance ← balance_row user_id
    others_commit
    positions ← position_rows user_id
    pure (full_page user_id balance positions)

  -- The parts of the path behind the user id
  unfoldable pub portfolio_page : Text → List Text → Pages Page
  portfolio_page user_id [] = get_full_portfolio user_id
  portfolio_page user_id (page ∷ []) =
      if text_eq page (codes "balance")
      then get_balance user_id
      else if text_eq page (codes "positions")
      then get_positions user_id
      else raise no_page
  portfolio_page user_id (page ∷ more ∷ rest) = raise no_page

  -- Is the user of the context, if it has one, the one with this text?
  abbrev pub is_owner : Option Text → Text → Bool
  is_owner none user_id = false
  is_owner (some user) user_id = text_eq user_id user

  -- portfolioHandler from the test of the first part on; strings.Split returns at least one part.
  unfoldable pub portfolio_of : List Text → Option Text → Pages Page
  portfolio_of [] user = raise missing_user_id
  portfolio_of (user_id ∷ rest) user =
      raise_if (is_empty (trim_space user_id)) missing_user_id
      >> (raise_if (not (is_owner user user_id)) other_user >> portfolio_page user_id rest)

  -- portfolioHandler, with the user's id of the context, which may be missing
  unfoldable pub portfolio_handler : Text → Option Text → Pages Page
  portfolio_handler url_path user =
      portfolio_of (split b'/' (trim_prefix (codes "/portfolio/") url_path)) user

  -- healthHandler: does Ping answer?
  unfoldable pub health_handler : Session → Bool × Session
  health_handler s = (not (faults s.calls), ticked s)
