-- ===== src/Heap/Slice.antt =====
-- Slices of addresses: what a swap reads back, and how often an address occurs.
use tradesphere.Base.{
  ℕ, zero, suc, ◌+◌, ◌<◌, ◌≡◌, refl, List, [], ◌∷◌, ◌++◌, ◌==◌, if◌then◌else◌, length, set, take,
  length-set, arith,
}
use native.Mathlib.Decide.{ℕ_discrete}
use tradesphere.Heap.{at, swap}

-- How often an address occurs.
abbrev pub count : ℕ → List ℕ → ℕ
count a [] = 0
count a (x ∷ xs) = (if x == a then 1 else 0) + count a xs

-- Two slices hold the same addresses, as often.
abbrev pub SameItems : List ℕ → List ℕ → Type 0
SameItems xs ys = (a : ℕ) → count a xs ≡ count a ys

-- A new last entry counts once more.
pub count-append :
    (h : List ℕ) (x a : ℕ) → count a (h ++ x ∷ []) ≡ count a h + (if x == a then 1 else 0)
count-append [] x a = omega arith
count-append (y ∷ h) x a = omega (arith, count-append h x a)

-- A write trades the old entry for the new one.
count-set :
    (a : ℕ) (h : List ℕ) (i v : ℕ)
    → i < length h
    → count a (set h i v) + (if at h i == a then 1 else 0) ≡ count a h + (if v == a then 1 else 0)
count-set a [] i v lt = absurd (omega arith)
count-set a (x ∷ h) zero v lt = omega arith
count-set a (x ∷ h) (suc i) v lt = omega (arith, count-set a h i v (omega arith))

pub at-set :
    (h : List ℕ) (i v c : ℕ) → i < length h → at (set h i v) c ≡ (if i == c then v else at h c)
at-set [] i v c lt = absurd (omega arith)
at-set (x ∷ h) zero v zero lt = refl
at-set (x ∷ h) zero v (suc c) lt = ground arith
at-set (x ∷ h) (suc i) v zero lt = ground arith
at-set (x ∷ h) (suc i) v (suc c) lt = ground (arith, at-set h i v c (omega arith))

pub at-append : (h : List ℕ) (x c : ℕ) → c < length h → at (h ++ x ∷ []) c ≡ at h c
at-append [] x c lt = absurd (omega arith)
at-append (y ∷ h) x zero lt = refl
at-append (y ∷ h) x (suc c) lt = at-append h x c (omega arith)

pub at-take : (n : ℕ) (h : List ℕ) (c : ℕ) → c < n → at (take n h) c ≡ at h c
at-take zero h c lt = absurd (omega arith)
at-take (suc n) [] c lt = refl
at-take (suc n) (x ∷ h) zero lt = refl
at-take (suc n) (x ∷ h) (suc c) lt = at-take n h c (omega arith)

pub length-take_pred : (n : ℕ) (h : List ℕ) → length h ≡ suc n → length (take n h) ≡ n
length-take_pred n [] e = absurd (omega arith)
length-take_pred zero (x ∷ h) e = refl
length-take_pred (suc n) (x ∷ h) e = omega (arith, length-take_pred n h (omega arith))

-- Without its last entry a slice holds the others.
pub count-take_pred :
    (a n : ℕ) (h : List ℕ)
    → length h ≡ suc n
    → count a (take n h) + (if at h n == a then 1 else 0) ≡ count a h
count-take_pred a n [] e = absurd (omega arith)
count-take_pred a zero (x ∷ []) e = omega arith
count-take_pred a zero (x ∷ y ∷ h) e = absurd (omega arith)
count-take_pred a (suc n) (x ∷ h) e = omega (arith, count-take_pred a n h (omega arith))

pub length-swap : (h : List ℕ) (i j : ℕ) → length (swap h i j) ≡ length h
unfolding swap
length-swap h i j = simp length-set

module _ (h : List ℕ) (i j : ℕ) (hi : i < length h) (hj : j < length h) where
  pub at-swap :
      (c : ℕ) → at (swap h i j) c ≡ (if j == c then at h i else if i == c then at h j else at h c)
  unfolding swap
  at-swap c = ground (
    arith,
    length-set h i (at h j),
    at-set (set h i (at h j)) j (at h i) c,
    at-set h i (at h j) c,
  )

  pub swap-SameItems : SameItems (swap h i j) h
  unfolding swap
  swap-SameItems a = ground (
    arith,
    length-set h i (at h j),
    count-set a (set h i (at h j)) j (at h i),
    count-set a h i (at h j),
    at-set h i (at h j) j,
  )

-- An address that occurs stands at some index.
pub index_of_count : (a : ℕ) (h : List ℕ) → 0 < count a h → (i : ℕ) × (i < length h) × (at h i ≡ a)
index_of_count a [] lt = absurd (omega arith)
index_of_count a (x ∷ h) lt = elim (ℕ_discrete x a) [
  | yes e ↦ (0, omega arith, e)
  | no ne ↦ let (i, p, e) = index_of_count a h (ground arith) in (suc i, omega arith, e)
]

pub count_of_index : (h : List ℕ) (i : ℕ) → i < length h → 0 < count (at h i) h
count_of_index [] i lt = absurd (omega arith)
count_of_index (x ∷ h) zero lt = ground arith
count_of_index (x ∷ h) (suc i) lt = omega (arith, count_of_index h i (omega arith))
