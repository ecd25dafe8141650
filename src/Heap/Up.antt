-- ===== src/Heap/Up.antt =====
-- `up` restores the heap order above one entry.
use tradesphere.Base.{
  ℕ, zero, suc, ◌<◌, ◌≡◌, ◌≢◌, ◌∙◌, refl, Bool, true, false, List, ◌==◌, Bool-cases, inl, inr,
  length, arith,
}
use tradesphere.Heap.{at, swap, parent, up}
use tradesphere.Heap.Slice.{SameItems, length-swap, at-swap, swap-SameItems}
use tradesphere.Heap.Order.{IsStrictWeak, IsHeap, IsBridged}

-- Only the edge above `j` may be out of order.
pub record UpInv (less : ℕ → ℕ → Bool) (h : List ℕ) (j : ℕ) : Type 0 where
  pub inside : j < length h
  pub edges : (c : ℕ) → 0 < c → c < length h → c ≢ j → less (at h c) (at h (parent c)) ≡ false
  pub bridged : IsBridged less (length h) h j

-- `b` holds the entries of `h`, in heap order.
abbrev pub Sifted : (ℕ → ℕ → Bool) → List ℕ → List ℕ → Type 0
Sifted less h b = IsHeap less b × SameItems b h × (length b ≡ length h)

module _ {less : ℕ → ℕ → Bool} (o : IsStrictWeak less) where
  swap-UpInv :
      (h : List ℕ) (j : ℕ)
      → UpInv less h j
      → 0 < j
      → less (at h j) (at h (parent j)) ≡ true
      → UpInv less (swap h (parent j) j) (parent j)
  swap-UpInv h j v pos rises =
      let hp : parent j < length h = omega (arith, v.inside) in
      let read = at-swap h (parent j) j hp v.inside in
      let size = length-swap h (parent j) j in
      record {
        inside = omega (arith, size);
        edges = λ c p q r. ground (
          arith,
          size,
          read c,
          read (parent c),
          v.edges c,
          v.bridged c,
          v.edges (parent j),
          o.asym (at h j) (at h (parent j)),
          o.ties (at h j) (at h (parent j)) (at h c),
        );
        bridged = λ c p q r s. ground (
          arith,
          size,
          read c,
          read (parent (parent j)),
          v.edges c,
          v.edges (parent j),
          o.ties (at h (parent (parent j))) (at h (parent j)) (at h c),
        );
      }

  up_restores_step :
      (fuel : ℕ) (h : List ℕ) (j : ℕ)
      → UpInv less h j
      → Sifted less (swap h (parent j) j) (up less fuel (swap h (parent j) j) (parent j))
      → Sifted less h (up less fuel (swap h (parent j) j) (parent j))
  up_restores_step fuel h j v (ordered, same, size) =
      let hp : parent j < length h = omega (arith, v.inside) in
      (
        ordered,
        λ a. same a ∙ swap-SameItems h (parent j) j hp v.inside a,
        size ∙ length-swap h (parent j) j,
      )

  -- `up` turns a slice with one entry too low in the tree into a heap of the same entries.
  pub up_restores :
      (fuel : ℕ) (h : List ℕ) (j : ℕ) → j < fuel → UpInv less h j → Sifted less h (up less fuel h j)
  unfolding up
  up_restores zero h j f v = absurd (omega arith)
  up_restores (suc fuel) h j f v = elim (Bool-cases (parent j == j)) [
    | inl root ↦ rw root (λ c p q. v.edges c p q (ground arith), λ a. refl, refl)
    | inr inner ↦ elim (Bool-cases (less (at h j) (at h (parent j)))) [
      | inl rises ↦
          rw (inner, rises)
            (up_restores_step fuel h j v (
              up_restores fuel (swap h (parent j) j) (parent j) (ground arith)
                (swap-UpInv h j v (ground arith) rises)))
      | inr settled ↦ rw (inner, settled) (λ c p q. ground (arith, v.edges c), λ a. refl, refl)
    ]
  ]
