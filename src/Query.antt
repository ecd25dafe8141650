-- ===== src/Query.antt =====
-- What a query does with the rows of a table: WHERE, ORDER BY and LIMIT.
use mathlib.Core.List.{Memᴰ}
use mathlib.Core.List.Memᴰ
use tradesphere.Base.{
  ℕ, zero, suc, ◌≤◌, ◌≡◌, refl, sym, ap, ◌∙◌, inl, inr, Bool, true, Bool-cases, List, [], ◌∷◌,
  if◌then◌else◌, take, length, arith,
}

module _ {A : Type 0} where
  -- The rows that satisfy a condition
  unfoldable pub select : (A → Bool) → List A → List A
  select p [] = []
  select p (x ∷ xs) = let rest = select p xs in if p x then x ∷ rest else rest

  unfoldable pub insert_row : (A → A → Bool) → A → List A → List A
  insert_row before x [] = x ∷ []
  insert_row before x (y ∷ ys) =
      let rest = insert_row before x ys in if before x y then x ∷ y ∷ ys else y ∷ rest

  -- The rows in order
  unfoldable pub order_by : (A → A → Bool) → List A → List A
  order_by before [] = []
  order_by before (x ∷ xs) = insert_row before x (order_by before xs)

  pub take-Memᴰ : (n : ℕ) (xs : List A) (x : A) → Memᴰ x (take n xs) → Memᴰ x xs
  take-Memᴰ zero xs x m = absurd (Memᴰ.not-nil m)
  take-Memᴰ (suc n) [] x m = m
  take-Memᴰ (suc n) (y ∷ ys) x (Memᴰ.head e) = Memᴰ.head e
  take-Memᴰ (suc n) (y ∷ ys) x (Memᴰ.tail m) = Memᴰ.tail (take-Memᴰ n ys x m)

  pub take_all : (n : ℕ) (xs : List A) → length xs ≤ n → take n xs ≡ xs
  take_all zero [] le = refl
  take_all zero (x ∷ xs) le = absurd (omega (arith, le))
  take_all (suc n) [] le = refl
  take_all (suc n) (x ∷ xs) le = ap (λ r. x ∷ r) (take_all n xs (omega (arith, le)))

  module _ (p : A → Bool) where
    pub select-Memᴰ : (xs : List A) (x : A) → Memᴰ x (select p xs) → Memᴰ x xs × (p x ≡ true)
    unfolding select
    select-Memᴰ [] x m = absurd (Memᴰ.not-nil m)
    select-Memᴰ (y ∷ ys) x m = elim (Bool-cases (p y)) [
      | inr d ↦ let (m', t) = select-Memᴰ ys x (rw d at m) in (Memᴰ.tail m', t)
      | inl d ↦ elim (Memᴰ.cases_cons (rw d at m)) [
        | inl e ↦ (Memᴰ.head e, ap p e ∙ d)
        | inr m' ↦ let (m'', t) = select-Memᴰ ys x m' in (Memᴰ.tail m'', t)
      ]
    ]

    pub Memᴰ-select : (xs : List A) (x : A) → Memᴰ x xs → p x ≡ true → Memᴰ x (select p xs)
    unfolding select
    Memᴰ-select [] x m t = elim m [ ]
    Memᴰ-select (y ∷ ys) x (Memᴰ.head e) t =
        let ty : p y ≡ true = ap p (sym e) ∙ t in rw ty (Memᴰ.head e)
    Memᴰ-select (y ∷ ys) x (Memᴰ.tail m) t = elim (Bool-cases (p y)) [
      | inl d ↦ rw d (Memᴰ.tail (Memᴰ-select ys x m t))
      | inr d ↦ rw d (Memᴰ-select ys x m t)
    ]

  module _ (before : A → A → Bool) where
    insert_row-Memᴰ :
        (x : A) (ys : List A) (z : A)
        → (Memᴰ z (insert_row before x ys) → Memᴰ z (x ∷ ys))
          × (Memᴰ z (x ∷ ys) → Memᴰ z (insert_row before x ys))
    unfolding insert_row
    insert_row-Memᴰ x [] z = (λ m. m, λ m. m)
    insert_row-Memᴰ x (y ∷ ys) z = elim (Bool-cases (before x y)) [
      | inl b ↦ rw b (λ m. m, λ m. m)
      | inr b ↦ rw b (
        λ m. elim (Memᴰ.cases_cons m) [
          | inl e ↦ Memᴰ.tail (Memᴰ.head e)
          | inr m' ↦ elim (Memᴰ.cases_cons ((insert_row-Memᴰ x ys z).0 m')) [
            | inl e ↦ Memᴰ.head e
            | inr m'' ↦ Memᴰ.tail (Memᴰ.tail m'')
          ]
        ],
        λ m. elim (Memᴰ.cases_cons m) [
          | inl e ↦ Memᴰ.tail ((insert_row-Memᴰ x ys z).1 (Memᴰ.head e))
          | inr m' ↦ elim (Memᴰ.cases_cons m') [
            | inl e ↦ Memᴰ.head e
            | inr m'' ↦ Memᴰ.tail ((insert_row-Memᴰ x ys z).1 (Memᴰ.tail m''))
          ]
        ],
      )
    ]

    pub order_by-Memᴰ :
        (xs : List A) (z : A)
        → (Memᴰ z (order_by before xs) → Memᴰ z xs) × (Memᴰ z xs → Memᴰ z (order_by before xs))
    unfolding order_by
    order_by-Memᴰ [] z = (λ m. m, λ m. m)
    order_by-Memᴰ (x ∷ xs) z =
        let (to, from) = order_by-Memᴰ xs z in
        let (out, into) = insert_row-Memᴰ x (order_by before xs) z in
        (
          λ m. elim (Memᴰ.cases_cons (out m)) [ inl e ↦ Memᴰ.head e | inr m' ↦ Memᴰ.tail (to m') ],
          λ m. elim (Memᴰ.cases_cons m) [
            | inl e ↦ into (Memᴰ.head e)
            | inr m' ↦ into (Memᴰ.tail (from m'))
          ],
        )

    length-insert_row : (x : A) (ys : List A) → length (insert_row before x ys) ≡ suc (length ys)
    unfolding insert_row
    length-insert_row x [] = refl
    length-insert_row x (y ∷ ys) = grind (arith, length-insert_row x ys)

    pub length-order_by : (xs : List A) → length (order_by before xs) ≡ length xs
    unfolding order_by
    length-order_by [] = refl
    length-order_by (x ∷ xs) =
        length-insert_row x (order_by before xs) ∙ ap suc (length-order_by xs)
