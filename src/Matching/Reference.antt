-- ===== src/Matching/Reference.antt =====
-- A description of the matching loops that has no heap, no shared objects and no early pop: the
-- resting orders stand in a list in the order of priority, and the incoming order takes from one
-- after the other.
use tradesphere.Base.{
  ℕ, suc, ◌+◌, ◌<◌, ◌≡◌, refl, inl, inr, Bool, true, false, ◌||◌, Bool-cases, List, [], ◌∷◌, ◌==◌,
  if◌then◌else◌, map, arith,
}
use tradesphere.Int.{ℤ, pos, ◌-ℤ◌, ◌≤ℤ◌, leb_ℤ}
use tradesphere.Model.{Order, Trade, World, is_sell}
use tradesphere.Heap.Slice.{count, SameItems}
use tradesphere.Heap.Order.{IsStrictWeak}
use tradesphere.Matching.{create_trade, min_quantity}
use tradesphere.Query.{insert_row, order_by}

-- The trades of an incoming order that wants some quantity with resting orders in the order of
-- priority, when `n` ids were drawn before.
unfoldable pub priority_trades :
    World → (Order → Order → Bool) → Order → ℤ → ℕ → List Order → List Trade
priority_trades w blocked order wants n [] = []
priority_trades w blocked order wants n (r ∷ rs) =
    let quantity = min_quantity wants r.remaining_quantity in
    if leb_ℤ wants (pos 0) || blocked order r
    then []
    else elim (leb_ℤ r.remaining_quantity (pos 0)) [
      | true ↦ priority_trades w blocked order wants n rs
      | false ↦
          create_trade w n r order quantity
          ∷ priority_trades w blocked order (wants -ℤ quantity) (suc n) rs
    ]

-- No later address comes before an earlier one.
abbrev pub IsSorted : (ℕ → ℕ → Bool) → List ℕ → Type 0
IsSorted less [] = Unit
IsSorted less (p ∷ ps) = ((q : ℕ) → 0 < count q ps → less q p ≡ false) × IsSorted less ps

pub IsSorted-same :
    {less less' : ℕ → ℕ → Bool} (ps : List ℕ)
    → ((i j : ℕ) → less' i j ≡ less i j)
    → IsSorted less ps
    → IsSorted less' ps
IsSorted-same [] same h = tt
IsSorted-same (p ∷ ps) same (first, h) = (λ q m. rw (same q p) (first q m), IsSorted-same ps same h)

pub count-insert_row :
    (less : ℕ → ℕ → Bool) (x : ℕ) (ps : List ℕ) (a : ℕ)
    → count a (insert_row less x ps) ≡ (if x == a then 1 else 0) + count a ps
unfolding insert_row
count-insert_row less x [] a = omega arith
count-insert_row less x (p ∷ ps) a = ground (arith, count-insert_row less x ps a)

-- ORDER BY keeps the rows.
pub order_by-SameItems : (less : ℕ → ℕ → Bool) (h : List ℕ) → SameItems (order_by less h) h
unfolding order_by
order_by-SameItems less [] a = refl
order_by-SameItems less (x ∷ h) a =
    omega (arith, count-insert_row less x (order_by less h) a, order_by-SameItems less h a)

module _ {less : ℕ → ℕ → Bool} (o : IsStrictWeak less) where
  insert_row-IsSorted :
      (x : ℕ) (ps : List ℕ) → IsSorted less ps → IsSorted less (insert_row less x ps)
  unfolding insert_row
  insert_row-IsSorted x [] h = (λ q m. absurd (omega (arith, m)), tt)
  insert_row-IsSorted x (p ∷ ps) (first, h) = elim (Bool-cases (less x p)) [
    | inl b ↦ rw b (
      λ q m. elim (Bool-cases (p == q)) [
        | inl e ↦ ground (arith, o.asym x p b)
        | inr ne ↦ o.ties x p q (o.asym x p b) (first q (ground arith))
      ],
      (first, h),
    )
    | inr b ↦ rw b (
      λ q m. elim (Bool-cases (x == q)) [
        | inl e ↦ ground arith
        | inr ne ↦ first q (ground (arith, count-insert_row less x ps q))
      ],
      insert_row-IsSorted x ps h,
    )
  ]

  -- ORDER BY sorts.
  pub order_by-IsSorted : (h : List ℕ) → IsSorted less (order_by less h)
  unfolding order_by
  order_by-IsSorted [] = tt
  order_by-IsSorted (x ∷ h) = insert_row-IsSorted x (order_by less h) (order_by-IsSorted h)

create_trade-terms :
    (w : World) (n : ℕ) (r order : Order) (x quantity : ℤ)
    → create_trade w n r (record order { remaining_quantity = x }) quantity
      ≡ create_trade w n r order quantity
create_trade-terms w n r order x quantity = elim (Bool-cases (is_sell r.side)) [
  | inl sells ↦ rw sells
  | inr buys ↦ rw buys
]

module _ (w : World) (blocked : Order → Order → Bool)
    (terms : (a b : Order) (x : ℤ)
      → blocked (record a { remaining_quantity = x }) b ≡ blocked a b) where
  -- Only the terms of the incoming order are read.
  pub priority_trades-terms :
      (order : Order) (x wants : ℤ) (n : ℕ) (rs : List Order)
      → priority_trades w blocked (record order { remaining_quantity = x }) wants n rs
        ≡ priority_trades w blocked order wants n rs
  unfolding priority_trades
  priority_trades-terms order x wants n [] = refl
  priority_trades-terms order x wants n (r ∷ rs) =
      elim (Bool-cases (leb_ℤ r.remaining_quantity (pos 0))) [
        | inl spent ↦ rw (terms order r x, spent, priority_trades-terms order x wants n rs)
        | inr left ↦
            let quantity = min_quantity wants r.remaining_quantity in
            rw (
              terms order r x,
              left,
              create_trade-terms w n r order x quantity,
              priority_trades-terms order x (wants -ℤ quantity) (suc n) rs,
            )
      ]

-- An order that wants nothing trades nothing.
pub priority_trades_filled :
    (w : World) (blocked : Order → Order → Bool) (order : Order) (wants : ℤ) (n : ℕ)
    (rs : List Order)
    → wants ≤ℤ pos 0
    → priority_trades w blocked order wants n rs ≡ []
unfolding priority_trades
priority_trades_filled w blocked order wants n [] h = refl
priority_trades_filled w blocked order wants n (r ∷ rs) h =
    let full : leb_ℤ wants (pos 0) ≡ true = ground arith in rw full

-- Two stores that agree on the addresses of a list show the same orders there.
pub map-agree :
    {A : Type 0} (f g : ℕ → A) (ps : List ℕ)
    → ((p : ℕ) → 0 < count p ps → f p ≡ g p)
    → map f ps ≡ map g ps
map-agree f g [] h = refl
map-agree f g (p ∷ ps) h = rw (h p (ground arith), map-agree f g ps (λ q m. h q (omega (arith, m))))
