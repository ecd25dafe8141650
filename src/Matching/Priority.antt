-- ===== src/Matching/Priority.antt =====
-- Price-time priority: the two Less methods are strict orders with ties, and they do not read the
-- remaining quantity.
use tradesphere.Base.{ℕ, ◌≡◌, refl, ap, ◌∙◌, Bool, true, false, arith}
use native.Mathlib.Decide.{ℕ_discrete}
use tradesphere.Int.{ℤ, sub64}
use tradesphere.Model.{Order, update, update_self, update-ne}
use tradesphere.Matching.{max_before, min_before, less_at, reduce}
use tradesphere.Heap.Order.{IsStrictWeak}

-- What the heaps need of a comparison of orders.
pub record IsPriority (before : Order → Order → Bool) : Type 0 where
  pub asym : (a b : Order) → before a b ≡ true → before b a ≡ false
  pub ties : (a b c : Order) → before b a ≡ false → before c b ≡ false → before c a ≡ false
  pub reads :
      (a b : Order) (x y : ℤ)
      → before (record a { remaining_quantity = x }) (record b { remaining_quantity = y })
        ≡ before a b

pub max_before-IsPriority : IsPriority max_before
max_before-IsPriority = record {
  asym = λ a b h. ground arith;
  ties = λ a b c h k. ground arith;
  reads = λ a b x y. refl;
}

pub min_before-IsPriority : IsPriority min_before
min_before-IsPriority = record {
  asym = λ a b h. ground arith;
  ties = λ a b c h k. ground arith;
  reads = λ a b x y. refl;
}

pub less_at-IsStrictWeak :
    {before : Order → Order → Bool}
    → IsPriority before
    → (cells : ℕ → Order) → IsStrictWeak (less_at before cells)
less_at-IsStrictWeak v cells = record {
  asym = λ a b h. v.asym (cells a) (cells b) h;
  ties = λ a b c h k. v.ties (cells a) (cells b) (cells c) h k;
}

-- Only remaining quantities differ between two states of the objects.
abbrev pub SameTerms : (ℕ → Order) → (ℕ → Order) → Type 0
SameTerms cells cells' =
    (p : ℕ) → cells' p ≡ record (cells p) { remaining_quantity = (cells' p).remaining_quantity }

pub less_at-SameTerms :
    {before : Order → Order → Bool}
    → IsPriority before
    → (cells cells' : ℕ → Order) → SameTerms cells cells'
    → (i j : ℕ) → less_at before cells' i j ≡ less_at before cells i j
less_at-SameTerms v cells cells' same i j = rw (same i, same j) (v.reads (cells i) (cells j) _ _)

pub SameTerms-trans : (a b c : ℕ → Order) → SameTerms a b → SameTerms b c → SameTerms a c
SameTerms-trans a b c h k p =
    k p ∙ ap (λ (r : Order). record r { remaining_quantity = (c p).remaining_quantity }) (h p)

pub set_remaining-SameTerms :
    (cells : ℕ → Order) (o : ℕ) (x : ℤ)
    → SameTerms cells (update cells o (record (cells o) { remaining_quantity = x }))
set_remaining-SameTerms cells o x p = elim (ℕ_discrete o p) [
  | yes e ↦ rw (e, update_self cells p)
  | no ne ↦ rw (update-ne cells o _ p ne)
]

-- Taking from one order leaves all terms.
pub update-SameTerms :
    (cells : ℕ → Order) (o : ℕ) (q : ℤ) → SameTerms cells (update cells o (reduce q (cells o)))
update-SameTerms cells o q = set_remaining-SameTerms cells o (sub64 (cells o).remaining_quantity q)
