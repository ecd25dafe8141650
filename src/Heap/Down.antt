-- ===== src/Heap/Down.antt =====
-- `down` restores the heap order below one entry.
use tradesphere.Base.{
  ℕ, zero, suc, ◌+◌, ◌*◌, ◌≤◌, ◌<◌, ◌≡◌, ◌≢◌, ◌⊎◌, ◌∙◌, refl, Bool, true, false, List, leb, leb→le,
  Bool-cases, inl, inr, length, arith,
}
use tradesphere.Heap.{at, swap, parent, first_child, down}
use tradesphere.Heap.Slice.{SameItems, length-swap, at-swap, swap-SameItems}
use tradesphere.Heap.Order.{IsStrictWeak, IsHeapBelow, IsBridged, less_irrefl}

-- Among the first `n` entries only the edges below `i` may be out of order.
pub record DownInv (less : ℕ → ℕ → Bool) (n : ℕ) (h : List ℕ) (i : ℕ) : Type 0 where
  pub fits : n ≤ length h
  pub edges : (c : ℕ) → 0 < c → c < n → parent c ≢ i → less (at h c) (at h (parent c)) ≡ false
  pub bridged : IsBridged less n h i

-- The first `n` entries are in heap order; the others are where they were.
abbrev pub Sunk : (ℕ → ℕ → Bool) → ℕ → List ℕ → List ℕ → Type 0
Sunk less n h b =
    IsHeapBelow less n b
    × SameItems b h
    × (length b ≡ length h)
    × ((c : ℕ) → n ≤ c → at b c ≡ at h c)

-- `m` is the child of `i` that comes first.
record IsFirstChild (less : ℕ → ℕ → Bool) (n : ℕ) (h : List ℕ) (i m : ℕ) : Type 0 where
  inside : m < n
  child : (m ≡ 2 * i + 1) ⊎ (m ≡ 2 * i + 2)
  least : (c : ℕ) → 0 < c → c < n → parent c ≡ i → less (at h c) (at h m) ≡ false

module _ {less : ℕ → ℕ → Bool} (o : IsStrictWeak less) where
  first_child_lem :
      (n : ℕ) (h : List ℕ) (i : ℕ)
      → 2 * i + 1 < n
      → IsFirstChild less n h i (first_child less h i n)
  unfolding first_child
  first_child_lem n h i lt = record {
    inside = ground arith;
    child = ground arith;
    least = λ c p q r.
        ground (arith, less_irrefl o (at h c), o.asym (at h (2 * i + 1 + 1)) (at h (2 * i + 1)));
  }

  module _ (n : ℕ) (h : List ℕ) (i m : ℕ) (v : DownInv less n h i) (s : IsFirstChild less n h i m)
      (hi : i < length h) (hm : m < length h) where
    swap-DownInv : less (at h m) (at h i) ≡ true → DownInv less n (swap h i m) m
    swap-DownInv sinks =
        let read = at-swap h i m hi hm in
        record {
          fits = omega (arith, length-swap h i m, v.fits);
          edges = λ c p q r. ground (
            arith,
            s.child,
            read c,
            read (parent c),
            v.edges c,
            v.bridged c,
            v.bridged m,
            s.inside,
            s.least c,
            o.asym (at h m) (at h i),
          );
          bridged = λ c p q r t. ground (arith, s.child, read c, read (parent m), v.edges c);
        }

    down_step : (b : List ℕ) → Sunk less n (swap h i m) b → Sunk less n h b
    down_step b (ordered, same, size, beyond) = (
      ordered,
      λ a. same a ∙ swap-SameItems h i m hi hm a,
      size ∙ length-swap h i m,
      λ c p. ground (arith, s.inside, s.child, beyond c, at-swap h i m hi hm c),
    )

    down_settled : less (at h m) (at h i) ≡ false → Sunk less n h h
    down_settled settled = (
      λ c p q. ground (arith, v.edges c, s.least c, o.ties (at h i) (at h m) (at h c)),
      λ a. refl,
      refl,
      λ c p. refl,
    )

  down_leaf : (n : ℕ) (h : List ℕ) (i : ℕ) → DownInv less n h i → n ≤ 2 * i + 1 → Sunk less n h h
  down_leaf n h i v leaf = (λ c p q. v.edges c p q (omega arith), λ a. refl, refl, λ c p. refl)

  -- `down` turns a slice with one entry too high in the tree into a heap of the same entries.
  pub down_restores :
      (fuel n : ℕ) (h : List ℕ) (i : ℕ)
      → n < fuel + i + 1
      → DownInv less n h i
      → Sunk less n h (down less fuel h i n)
  unfolding down
  down_restores zero n h i f v = down_leaf n h i v (omega arith)
  down_restores (suc fuel) n h i f v = elim (Bool-cases (leb n (2 * i + 1))) [
    | inl leaf ↦ rw leaf (down_leaf n h i v (leb→le n (2 * i + 1) leaf))
    | inr inner ↦
        let m = first_child less h i n in
        let s = first_child_lem n h i (ground arith) in
        let hm : m < length h = omega (arith, s.inside, v.fits) in
        let hi : i < length h = omega (arith, s.inside, s.child) in
        elim (Bool-cases (less (at h m) (at h i))) [
          | inl sinks ↦
              rw (inner, sinks)
                (down_step n h i m v s hi hm (down less fuel (swap h i m) m n) (
                  down_restores fuel n (swap h i m) m (omega (arith, s.child))
                    (swap-DownInv n h i m v s hi hm sinks)))
          | inr settled ↦ rw (inner, settled) (down_settled n h i m v s hi hm settled)
        ]
  ]
