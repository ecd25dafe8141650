-- ===== src/Heap/Order.antt =====
-- The order that a Less method must be, and the heap order of a slice.
use tradesphere.Base.{
  ℕ, zero, suc, ◌<◌, ◌≡◌, Bool, true, false, Bool-cases, inl, inr, List, length, arith,
}
use tradesphere.Heap.{at, parent}

-- `less` is a strict order whose incomparable entries are ties.
pub record IsStrictWeak (less : ℕ → ℕ → Bool) : Type 0 where
  pub asym : (a b : ℕ) → less a b ≡ true → less b a ≡ false
  pub ties : (a b c : ℕ) → less b a ≡ false → less c b ≡ false → less c a ≡ false

-- No entry of the first `n` comes before its parent.
abbrev pub IsHeapBelow : (ℕ → ℕ → Bool) → ℕ → List ℕ → Type 0
IsHeapBelow less n h = (c : ℕ) → 0 < c → c < n → less (at h c) (at h (parent c)) ≡ false

abbrev pub IsHeap : (ℕ → ℕ → Bool) → List ℕ → Type 0
IsHeap less h = IsHeapBelow less (length h) h

-- The edges past `i`, from its parent to its children, are in order.
abbrev pub IsBridged : (ℕ → ℕ → Bool) → ℕ → List ℕ → ℕ → Type 0
IsBridged less n h i =
    (c : ℕ) → 0 < c → c < n → parent c ≡ i → 0 < i → less (at h c) (at h (parent i)) ≡ false

pub less_irrefl : {less : ℕ → ℕ → Bool} → IsStrictWeak less → (a : ℕ) → less a a ≡ false
less_irrefl {less} o a = elim (Bool-cases (less a a)) [ inl e ↦ o.asym a a e | inr e ↦ e ]

module _ {less : ℕ → ℕ → Bool} (o : IsStrictWeak less) where
  root_first_below :
      (k : ℕ) (h : List ℕ) (i : ℕ)
      → IsHeap less h
      → i < k
      → i < length h
      → less (at h i) (at h 0) ≡ false
  root_first_below zero h i v f p = absurd (omega arith)
  root_first_below (suc k) h zero v f p = less_irrefl o (at h 0)
  root_first_below (suc k) h (suc i) v f p =
      o.ties (at h 0) (at h (parent (suc i))) (at h (suc i))
        (root_first_below k h (parent (suc i)) v (omega arith) (omega arith))
        (v (suc i) (omega arith) p)

  -- No entry of a heap comes before its root.
  pub root_first :
      (h : List ℕ) (i : ℕ) → IsHeap less h → i < length h → less (at h i) (at h 0) ≡ false
  root_first h i v p = root_first_below (suc i) h i v (omega arith) p
