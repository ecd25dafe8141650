-- ===== src/Portfolio/Positions.antt =====
-- services/portfolio-service/main.go: the query on positions returns the rows of its user.
use mathlib.Core.List.{Memᴰ}
use mathlib.Core.List.Memᴰ
use tradesphere.Base.{
  ℕ, ◌≡◌, ap, ◌∙◌, inl, inr, Bool-cases, Option, Option-cases, none, some, List, [], ◌∷◌, ◌==◌, ◌+◌,
  ◌*◌, ◌&&◌, if◌then◌else◌, arith,
}
use tradesphere.Text.{Text, text_eq, text_eq→eq}
use tradesphere.Portfolio.Database.{Db, Position}
use tradesphere.Portfolio.Pages.{Holding, holdings_of}

-- How often a key is in a list of keys, and a symbol among the rows of a page
abbrev pub key_count : ℕ → Text → List (ℕ × Text) → ℕ
key_count id symbol [] = 0
key_count id symbol ((user, name) ∷ keys) =
    (if (user == id) && text_eq name symbol then 1 else 0) + key_count id symbol keys

abbrev pub symbol_count : Text → List Holding → ℕ
symbol_count symbol [] = 0
symbol_count symbol (h ∷ hs) = (if text_eq h.symbol symbol then 1 else 0) + symbol_count symbol hs

abbrev pub one_if_row : Option Position → ℕ
one_if_row none = 0
one_if_row (some p) = 1

-- The keys are those of the rows of positions, each once: it is the table's primary key.
abbrev pub IsScan : Db → List (ℕ × Text) → Type 0
IsScan db keys =
    (id : ℕ) (symbol : Text) → key_count id symbol keys ≡ one_if_row (db.positions id symbol)

-- Each entry is a row of the user's positions with its quantity, and each row of the user's positions
-- is there exactly once.
abbrev pub ArePositions : ℕ → Db → List Holding → Type 0
ArePositions id db hs =
    ((h : Holding)
      → Memᴰ h hs
      → (p : Position) × (db.positions id h.symbol ≡ some p) × (h.quantity ≡ p.quantity))
    × ((symbol : Text) → symbol_count symbol hs ≡ one_if_row (db.positions id symbol))

holdings_of-row :
    (id : ℕ) (db : Db) (keys : List (ℕ × Text)) (h : Holding)
    → Memᴰ h (holdings_of id db keys)
    → (p : Position) × (db.positions id h.symbol ≡ some p) × (h.quantity ≡ p.quantity)
unfolding holdings_of
holdings_of-row id db [] h m = absurd (Memᴰ.not-nil m)
holdings_of-row id db ((user, symbol) ∷ keys) h m = elim (Bool-cases (user == id)) [
  | inr other ↦ holdings_of-row id db keys h (rw other at m)
  | inl mine ↦ elim (Option-cases (db.positions id symbol)) [
    | inl e ↦ holdings_of-row id db keys h (rw (mine, e) at m)
    | inr (p, e) ↦
        let n : Memᴰ h
            (record { symbol = symbol; quantity = p.quantity } ∷ holdings_of id db keys) =
          rw (mine, e) at m in
        elim (Memᴰ.cases_cons n) [
          | inl same ↦ (
            p,
            ap (λ (x : Holding). db.positions id x.symbol) same ∙ e,
            ap (λ (x : Holding). x.quantity) same,
          )
          | inr later ↦ holdings_of-row id db keys h later
        ]
  ]
]

holdings_of-count :
    (id : ℕ) (db : Db) (keys : List (ℕ × Text)) (symbol : Text)
    → symbol_count symbol (holdings_of id db keys)
      ≡ key_count id symbol keys * one_if_row (db.positions id symbol)
unfolding holdings_of
holdings_of-count id db [] symbol = omega arith
holdings_of-count id db ((user, name) ∷ keys) symbol =
    let ih = holdings_of-count id db keys symbol in
    elim (Bool-cases (user == id)) [
      | inr other ↦ ground (arith, other, ih)
      | inl mine ↦ elim (Bool-cases (text_eq name symbol)) [
        | inl here ↦
            let same = text_eq→eq name symbol here in
            elim (Option-cases (db.positions id symbol)) [
              | inl e ↦
                  let e' : db.positions id name ≡ none = ap (db.positions id) same ∙ e in
                  let ih' = rw e at ih in rw (e, e') (ground (arith, mine, here, ih'))
              | inr (p, e) ↦
                  let e' : db.positions id name ≡ some p = ap (db.positions id) same ∙ e in
                  let ih' = rw e at ih in rw (e, e') (ground (arith, mine, here, ih'))
            ]
        | inr apart ↦ elim (Option-cases (db.positions id name)) [
          | inl e ↦ rw e (ground (arith, mine, apart, ih))
          | inr (p, e) ↦ rw e (ground (arith, mine, apart, ih))
        ]
      ]
    ]

square_row : (o : Option Position) → one_if_row o * one_if_row o ≡ one_if_row o
square_row none = omega arith
square_row (some p) = omega arith

pub holdings_of-ArePositions :
    (id : ℕ) (db : Db) (keys : List (ℕ × Text))
    → IsScan db keys
    → ArePositions id db (holdings_of id db keys)
holdings_of-ArePositions id db keys scanned = (
  holdings_of-row id db keys,
  λ symbol.
      holdings_of-count id db keys symbol
      ∙ rw (scanned id symbol) (square_row (db.positions id symbol)),
)
