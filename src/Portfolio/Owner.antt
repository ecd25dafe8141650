-- ===== src/Portfolio/Owner.antt =====
-- A page of a portfolio is shown to its owner alone, and shows what the tables have.
use mathlib.Core.Path.{subst}
use tradesphere.Base.{
  ℕ, ◌≡◌, ◌≢◌, refl, sym, ap, ◌∙◌, inl, inr, Bool, Bool-cases, Option, Option-cases, none, some,
  List, [], ◌∷◌, Result-cases, ok_injective, ok, arith,
}
use tradesphere.Int.{ℤ}
use tradesphere.Text.{Text, codes, text_eq, text_eq→eq, is_empty, trim_space}
use tradesphere.Portfolio.Database.{Db, Session, ◌>>=◌, ◌>>◌, pure, ticked}
use tradesphere.Sql.{>>=-succeeds}
use tradesphere.Portfolio.Settlement.{balance_of}
use tradesphere.Portfolio.Pages.{
  Holding, Page, balance_page, positions_page, full_page, portfolio_handler, portfolio_of,
  portfolio_page, get_balance, get_positions, get_full_portfolio, balance_row, position_rows,
  scan_rows, holdings_of, others_commit,
}
use tradesphere.Portfolio.Positions.{IsScan, ArePositions, holdings_of-ArePositions}

module _ (faults : ℕ → Bool) (parse_uuid : Text → Option ℕ) (scan : Db → List (ℕ × Text))
    (meanwhile : Db → Db) where
  -- A page shows the user's balance, or the rows of its positions, or both, of which the positions are
  -- read later.
  abbrev ShowsRows : Text → Db → Page → Type 0
  ShowsRows user db (balance_page u balance) =
      (u ≡ user) × ((id : ℕ) × (parse_uuid user ≡ some id) × (balance ≡ balance_of id db))
  ShowsRows user db (positions_page u positions) =
      (u ≡ user)
      × ((id : ℕ) × (parse_uuid user ≡ some id) × (positions ≡ holdings_of id db (scan db)))
  ShowsRows user db (full_page u balance positions) =
      (u ≡ user)
      × ((id : ℕ) × (parse_uuid user ≡ some id)
          × (balance ≡ balance_of id db)
          × (positions ≡ holdings_of id (meanwhile db) (scan (meanwhile db))))

  -- The same, of the tables themselves
  abbrev pub Shows : Text → Db → Page → Type 0
  Shows user db (balance_page u balance) =
      (u ≡ user) × ((id : ℕ) × (parse_uuid user ≡ some id) × (balance ≡ balance_of id db))
  Shows user db (positions_page u positions) =
      (u ≡ user) × ((id : ℕ) × (parse_uuid user ≡ some id) × ArePositions id db positions)
  Shows user db (full_page u balance positions) =
      (u ≡ user)
      × ((id : ℕ) × (parse_uuid user ≡ some id)
          × (balance ≡ balance_of id db)
          × ArePositions id (meanwhile db) positions)

  Shows-ShowsRows :
      (user : Text) (db : Db) (page : Page)
      → IsScan db (scan db)
      → IsScan (meanwhile db) (scan (meanwhile db))
      → ShowsRows user db page
      → Shows user db page
  Shows-ShowsRows user db (balance_page u balance) now later shown = shown
  Shows-ShowsRows user db (positions_page u positions) now later (same, (id, e, rows)) =
      (same, (id, e, rw rows (holdings_of-ArePositions id db (scan db) now)))
  Shows-ShowsRows user db (full_page u balance positions) now later (same, (id, e, money, rows)) =
      (same, (id, e, money, rw rows (holdings_of-ArePositions id (meanwhile db) _ later)))

  balance_row_shows :
      (user : Text) (s : Session) (balance : ℤ)
      → (balance_row faults parse_uuid scan meanwhile user s).0 ≡ ok balance
      → ((id : ℕ) × (parse_uuid user ≡ some id) × (balance ≡ balance_of id s.db))
        × ((balance_row faults parse_uuid scan meanwhile user s).1.db ≡ s.db)
  unfolding balance_row
  balance_row_shows user s balance h = elim (Option-cases (parse_uuid user)) [
    | inl e ↦ absurd (ground arith)
    | inr (id, e) ↦ ((id, e, ground arith), ground arith)
  ]

  scan_rows-db :
      (ps : List Holding) (s : Session)
      → (scan_rows faults parse_uuid scan meanwhile ps s).1.db ≡ s.db
  unfolding scan_rows
  scan_rows-db [] s = refl
  scan_rows-db (p ∷ ps) s = ground (arith, scan_rows-db ps (ticked s))

  scan_rows_same :
      (ps qs : List Holding) (s : Session)
      → (scan_rows faults parse_uuid scan meanwhile ps s).0 ≡ ok qs
      → qs ≡ ps
  unfolding scan_rows
  scan_rows_same [] qs s h = ground arith
  scan_rows_same (p ∷ ps) qs s h =
      elim (Result-cases (scan_rows faults parse_uuid scan meanwhile ps (ticked s)).0) [
        | inl (rest, e) ↦ ground (arith, scan_rows_same ps rest (ticked s) e)
        | inr (x, e) ↦ absurd (ground arith)
      ]

  position_rows-db :
      (user : Text) (s : Session)
      → (position_rows faults parse_uuid scan meanwhile user s).1.db ≡ s.db
  unfolding position_rows
  position_rows-db user s = grind (arith, scan_rows-db)

  position_rows_shows :
      (user : Text) (s : Session) (positions : List Holding)
      → (position_rows faults parse_uuid scan meanwhile user s).0 ≡ ok positions
      → (id : ℕ) × (parse_uuid user ≡ some id) × (positions ≡ holdings_of id s.db (scan s.db))
  unfolding position_rows
  position_rows_shows user s positions h = elim (Option-cases (parse_uuid user)) [
    | inl e ↦ absurd (ground arith)
    | inr (id, e) ↦
        elim (Result-cases
          (scan_rows faults parse_uuid scan meanwhile (holdings_of id s.db (scan s.db))
            (ticked s)).0) [
              | inl (rows, scanned) ↦ (
                id,
                e,
                ground (
                  arith,
                  scan_rows_same (holdings_of id s.db (scan s.db)) rows (ticked s) scanned,
                ),
              )
              | inr (x, lost) ↦ absurd (ground arith)
            ]
  ]

  get_full_portfolio-Shows :
      (user : Text) (s : Session) (page : Page)
      → (get_full_portfolio faults parse_uuid scan meanwhile user s).0 ≡ ok page
      → ShowsRows user s.db page
  unfolding get_full_portfolio
  get_full_portfolio-Shows user s page h =
      let (balance, first, both) =
        >>=-succeeds (balance_row faults parse_uuid scan meanwhile user)
          (λ b. do
            others_commit faults parse_uuid scan meanwhile
            ps ← position_rows faults parse_uuid scan meanwhile user
            pure (full_page user b ps))
          s h in
      let s' = (balance_row faults parse_uuid scan meanwhile user s).1 in
      let ((id, e, found), kept) = balance_row_shows user s balance first in
      let later = record s' { db = meanwhile s'.db } in
      let (positions, second, rest) =
        >>=-succeeds (position_rows faults parse_uuid scan meanwhile user)
          (λ ps. pure (full_page user balance ps)) later (sym (ap (λ r. r.0) both) ∙ h) in
      let (id', e', rows) = position_rows_shows user later positions second in
      let same : full_page user balance positions ≡ page =
        ok_injective (sym (ap (λ r. r.0) rest) ∙ (sym (ap (λ r. r.0) both) ∙ h)) in
      subst (ShowsRows user s.db) same (refl, (id, e, found, ground (arith, rows, kept, e, e')))

  get_positions-Shows :
      (user : Text) (s : Session) (page : Page)
      → (get_positions faults parse_uuid scan meanwhile user s).0 ≡ ok page
      → ShowsRows user s.db page
  unfolding get_positions
  get_positions-Shows user s page h =
      let (positions, first, both) =
        >>=-succeeds (position_rows faults parse_uuid scan meanwhile user)
          (λ ps. pure (positions_page user ps)) s h in
      let same : positions_page user positions ≡ page =
        ok_injective (sym (ap (λ r. r.0) both) ∙ h) in
      subst (ShowsRows user s.db) same (refl, position_rows_shows user s positions first)

  get_balance-Shows :
      (user : Text) (s : Session) (page : Page)
      → (get_balance faults parse_uuid scan meanwhile user s).0 ≡ ok page
      → ShowsRows user s.db page
  unfolding get_balance
  get_balance-Shows user s page h =
      let (balance, first, both) =
        >>=-succeeds (balance_row faults parse_uuid scan meanwhile user)
          (λ b. pure (balance_page user b)) s h in
      let same : balance_page user balance ≡ page = ok_injective (sym (ap (λ r. r.0) both) ∙ h) in
      subst (ShowsRows user s.db) same (refl, (balance_row_shows user s balance first).0)

  portfolio_page-Shows :
      (user : Text) (parts : List Text) (s : Session) (page : Page)
      → (portfolio_page faults parse_uuid scan meanwhile user parts s).0 ≡ ok page
      → ShowsRows user s.db page
  unfolding portfolio_page
  portfolio_page-Shows user [] s page h = get_full_portfolio-Shows user s page h
  portfolio_page-Shows user (p ∷ q ∷ rest) s page h = absurd (cc)
  portfolio_page-Shows user (p ∷ []) s page h = elim (Bool-cases (text_eq p (codes "balance"))) [
    | inl b ↦ get_balance-Shows user s page (rw b at h)
    | inr nb ↦ elim (Bool-cases (text_eq p (codes "positions"))) [
      | inl ps ↦ get_positions-Shows user s page (rw (nb, ps) at h)
      | inr none_such ↦ absurd (ground arith)
    ]
  ]

  portfolio_of-Shows :
      (parts : List Text) (user : Text) (s : Session) (page : Page)
      → (portfolio_of faults parse_uuid scan meanwhile parts (some user) s).0 ≡ ok page
      → ShowsRows user s.db page
  unfolding portfolio_of
  portfolio_of-Shows [] user s page h = absurd (cc)
  portfolio_of-Shows (user_id ∷ rest) user s page h =
      elim (Bool-cases (is_empty (trim_space user_id))) [
        | inl blank ↦ absurd (ground arith)
        | inr named ↦ elim (Bool-cases (text_eq user_id user)) [
          | inr other ↦ absurd (ground arith)
          | inl mine ↦
              portfolio_page-Shows user rest s page
                (rw (text_eq→eq user_id user mine) at (rw (named, mine) at h))
        ]
      ]

  portfolio_of-none :
      (parts : List Text) (s : Session) (page : Page)
      → (portfolio_of faults parse_uuid scan meanwhile parts none s).0 ≢ ok page
  unfolding portfolio_of
  portfolio_of-none [] s page h = cc
  portfolio_of-none (user_id ∷ rest) s page h = ground arith

  -- If portfolioHandler answers with a page, whatever the path and whichever calls of the database fail,
  -- then the context has the id of a user, and the page is that of this user: it shows the balance; or
  -- the user's rows of positions, each once and with its quantity; or both, where the positions are
  -- those of the tables after what others committed meanwhile. It is required that the database goes
  -- through each row of positions once.
  pub portfolio_handler-Shows :
      (url_path : Text) (token : Option Text) (s : Session) (page : Page)
      → IsScan s.db (scan s.db)
      → IsScan (meanwhile s.db) (scan (meanwhile s.db))
      → (portfolio_handler faults parse_uuid scan meanwhile url_path token s).0 ≡ ok page
      → (user : Text) × (token ≡ some user) × Shows user s.db page
  unfolding portfolio_handler
  portfolio_handler-Shows url_path none s page now later h = absurd (portfolio_of-none _ s page h)
  portfolio_handler-Shows url_path (some user) s page now later h =
      (user, refl, Shows-ShowsRows user s.db page now later (portfolio_of-Shows _ user s page h))
