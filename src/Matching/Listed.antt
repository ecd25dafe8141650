-- ===== src/Matching/Listed.antt =====
-- The heap of a matching loop as a list in the order of priority.
use tradesphere.Base.{
  ℕ, ◌<◌, ◌≤◌, ◌≡◌, refl, sym, ◌∙◌, inl, inr, Bool, false, Bool-cases, List, [], ◌∷◌, ◌==◌, length,
  map, arith,
}
use tradesphere.Int.{pos, leb_ℤ}
use tradesphere.Model.{Trade, World}
use tradesphere.Heap.{at}
use tradesphere.Heap.Slice.{count, SameItems, count_of_index, index_of_count}
use tradesphere.Heap.Order.{root_first}
use tradesphere.Matching.{Rules, Matching, less_at}
use tradesphere.Matching.Priority.{IsPriority, less_at-IsStrictWeak}
use tradesphere.Matching.Step.{IsReady, Finished}
use tradesphere.Matching.Reference.{priority_trades, IsSorted, priority_trades_filled}

-- Each address occurs once, and of two orders one comes before the other.
pub record HasNoTies (less : ℕ → ℕ → Bool) (ps : List ℕ) : Type 0 where
  pub once : (p : ℕ) → count p ps ≤ 1
  pub apart :
      (p q : ℕ) → 0 < count p ps → 0 < count q ps → less p q ≡ false → less q p ≡ false → p ≡ q

-- A list of the heap's addresses, in the order of priority.
pub record IsListed (rules : Rules) (s : Matching) (ps : List ℕ) : Type 0 where
  pub sorted : IsSorted (less_at rules.before s.cells) ps
  pub same : SameItems s.heap ps
  pub strict : HasNoTies (less_at rules.before s.cells) ps

-- The trades still to come
abbrev pub coming : World → Rules → ℕ → Matching → List ℕ → List Trade
coming w rules o s ps =
    priority_trades w rules.blocked (s.cells o) (s.cells o).remaining_quantity s.draws
      (map s.cells ps)

pub HasNoTies-tail :
    {less : ℕ → ℕ → Bool} {p : ℕ} {ps : List ℕ} → HasNoTies less (p ∷ ps) → HasNoTies less ps
HasNoTies-tail {p = p} h = record {
  once = λ q. omega (arith, h.once q);
  apart = λ q r m n a b. h.apart q r (omega (arith, m)) (omega (arith, n)) a b;
}

pub HasNoTies-same :
    {less less' : ℕ → ℕ → Bool} {ps : List ℕ}
    → ((i j : ℕ) → less' i j ≡ less i j)
    → HasNoTies less ps
    → HasNoTies less' ps
HasNoTies-same same h = record {
  once = h.once;
  apart = λ q r m n a b. h.apart q r m n (sym (same q r) ∙ a) (sym (same r q) ∙ b);
}

pub HasNoTies-items :
    {less : ℕ → ℕ → Bool} {ps qs : List ℕ} → SameItems qs ps → HasNoTies less ps → HasNoTies less qs
HasNoTies-items same h = record {
  once = λ p. omega (arith, h.once p, same p);
  apart = λ p q m n a b. h.apart p q (omega (arith, same p)) (omega (arith, same q)) a b;
}

module _ (w : World) {rules : Rules} (v : IsPriority rules.before) (o : ℕ) where
  -- The first of the list is the root of the heap.
  pub first_root :
      (s : Matching) (p : ℕ) (ps : List ℕ)
      → IsReady rules o s
      → IsListed rules s (p ∷ ps)
      → (0 < length s.heap) × (at s.heap 0 ≡ p)
  first_root s p ps r k =
      let root = at s.heap 0 in
      let inside : 0 < count p s.heap = ground (arith, k.same p) in
      let (i, below, e) = index_of_count p s.heap inside in
      let first = rw e at (root_first (less_at-IsStrictWeak v s.cells) s.heap i r.ordered below) in
      let nonempty : 0 < length s.heap = omega arith in
      let inside_list : 0 < count root (p ∷ ps) =
        omega (arith, k.same root, count_of_index s.heap 0 nonempty) in
      elim (Bool-cases (p == root)) [
        | inl same ↦ (nonempty, ground arith)
        | inr other ↦ (
          nonempty,
          sym (
              k.strict.apart p root (ground arith) inside_list first
                (k.sorted.0 root (ground arith))),
        )
      ]

  -- If nothing more can be traded, no trades are to come.
  pub Finished-coming :
      (s : Matching) (ps : List ℕ)
      → IsReady rules o s
      → IsListed rules s ps
      → Finished rules o s
      → coming w rules o s ps ≡ []
  unfolding priority_trades
  Finished-coming s [] r k f = refl
  Finished-coming s (p ∷ ps) r k (inl filled) =
      priority_trades_filled w rules.blocked (s.cells o) _ s.draws (map s.cells (p ∷ ps)) filled
  Finished-coming s (p ∷ ps) r k (inr (inl empty)) =
      absurd (omega (arith, (first_root s p ps r k).0))
  Finished-coming s (p ∷ ps) r k (inr (inr blocked)) =
      let root = (first_root s p ps r k).1 in
      elim (Bool-cases (leb_ℤ (s.cells o).remaining_quantity (pos 0))) [
        | inl full ↦ rw full
        | inr wants ↦ rw (wants, rw root at blocked)
      ]
