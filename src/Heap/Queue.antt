-- ===== src/Heap/Queue.antt =====
-- heap.Push and heap.Pop: the heap order, and the entries.
use tradesphere.Base.{
  ℕ, suc, ◌+◌, ◌-◌, ◌<◌, ◌≡◌, ◌∙◌, Bool, List, [], ◌∷◌, ◌++◌, ◌==◌, if◌then◌else◌, length,
  length-append, arith,
}
use tradesphere.Heap.{at, swap, parent, down, push, pop}
use tradesphere.Heap.Slice.{
  count, count-append, at-append, at-take, length-take_pred, count-take_pred, length-swap, at-swap,
  swap-SameItems,
}
use tradesphere.Heap.Order.{IsStrictWeak, IsHeap}
use tradesphere.Heap.Up.{UpInv, up_restores}
use tradesphere.Heap.Down.{DownInv, down_restores}

-- What Push leaves of the heap `h` and the entry `x`.
pub record Pushed (less : ℕ → ℕ → Bool) (h : List ℕ) (x : ℕ) (r : List ℕ) : Type 0 where
  pub ordered : IsHeap less r
  pub same : (a : ℕ) → count a r ≡ count a h + (if x == a then 1 else 0)
  pub size : length r ≡ length h + 1

-- What Pop returns and leaves of the heap `h`.
pub record Popped (less : ℕ → ℕ → Bool) (h : List ℕ) (r : ℕ × List ℕ) : Type 0 where
  pub root : r.0 ≡ at h 0
  pub ordered : IsHeap less r.1
  pub same : (a : ℕ) → count a r.1 + (if at h 0 == a then 1 else 0) ≡ count a h
  pub size : length r.1 + 1 ≡ length h

module _ {less : ℕ → ℕ → Bool} (o : IsStrictWeak less) where
  -- heap.Push on a heap gives a heap with exactly one more entry, the one that was pushed.
  pub push_correct : (h : List ℕ) (x : ℕ) → IsHeap less h → Pushed less h x (push less h x)
  unfolding push
  push_correct h x v =
      let grown = h ++ x ∷ [] in
      let size = length-append h (x ∷ []) in
      let start : UpInv less grown (length grown - 1) = record {
        inside = omega (arith, size);
        edges = λ c p q r. ground (arith, size, v c, at-append h x c, at-append h x (parent c));
        bridged = λ c p q r s. absurd (omega (arith, size));
      } in
      let (ordered, same, kept) =
        up_restores o (length grown) grown (length grown - 1) (omega (arith, size)) start in
      record {
        ordered = ordered;
        same = λ a. omega (arith, same a, count-append h x a);
        size = kept ∙ size;
      }

  -- heap.Pop on a heap that is not empty returns its root, and leaves a heap of the others.
  pub pop_correct : (h : List ℕ) → IsHeap less h → 0 < length h → Popped less h (pop less h)
  unfolding pop
  pop_correct h v pos =
      let n = length h - 1 in
      let read = at-swap h 0 n pos (omega arith) in
      let start : DownInv less n (swap h 0 n) 0 = record {
        fits = omega (arith, length-swap h 0 n);
        edges = λ c p q r. ground (arith, v c, read c, read (parent c));
        bridged = λ c p q r s. absurd (omega arith);
      } in
      let (ordered, same, kept, beyond) =
        down_restores o (length h) n (swap h 0 n) 0 (omega arith) start in
      let sunk = down less (length h) (swap h 0 n) 0 n in
      let size : length sunk ≡ suc n = omega (arith, length-swap h 0 n, kept) in
      let last : at sunk n ≡ at h 0 = ground (arith, beyond n, read n) in
      let short = length-take_pred n sunk size in
      record {
        root = last;
        ordered =
            λ c p q. ground (arith, short, ordered c, at-take n sunk c, at-take n sunk (parent c));
        same = λ a. ground (
          arith,
          last,
          count-take_pred a n sunk size,
          same a,
          swap-SameItems h 0 n pos (omega arith) a,
        );
        size = omega (arith, short);
      }
