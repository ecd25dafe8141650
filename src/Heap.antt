-- ===== src/Heap.antt =====
-- container/heap over the slices of order pointers that MaxHeap and MinHeap are
-- (services/matching-engine/orderbook/orderbook.go): Push, Pop and the two sifting loops.
-- A pointer is an address. `less` is the Less method at two pointers. Every index that the loops
-- read or write is below the length, by their own tests, so reads and writes out of range, which
-- would panic, do not arise; here they read 0 and write nothing.
pub mod Slice
pub mod Order
pub mod Up
pub mod Down
pub mod Queue
use tradesphere.Base.{
  ℕ, zero, suc, ◌+◌, ◌-◌, ◌*◌, ◌/◌, Bool, not, ◌&&◌, ◌||◌, List, [], ◌∷◌, ◌++◌, ltb, leb, ◌==◌,
  if◌then◌else◌, length, get_or, set, take,
}

abbrev pub at : List ℕ → ℕ → ℕ
at h i = get_or h i 0

-- The Swap method
unfoldable pub swap : List ℕ → ℕ → ℕ → List ℕ
swap h i j = set (set h i (at h j)) j (at h i)

abbrev pub parent : ℕ → ℕ
parent c = (c - 1) / 2

-- `up`; the fuel bounds the rounds.
unfoldable pub up : (ℕ → ℕ → Bool) → ℕ → List ℕ → ℕ → List ℕ
up less zero h j = h
up less (suc fuel) h j =
    let i = parent j in
    let rest = up less fuel (swap h i j) i in
    if i == j || not (less (at h j) (at h i)) then h else rest

-- The child that `down` compares: the right one if it exists and comes first.
unfoldable pub first_child : (ℕ → ℕ → Bool) → List ℕ → ℕ → ℕ → ℕ
first_child less h i n =
    let left = 2 * i + 1 in
    let right = left + 1 in if ltb right n && less (at h right) (at h left) then right else left

-- `down` on the first `n` entries
unfoldable pub down : (ℕ → ℕ → Bool) → ℕ → List ℕ → ℕ → ℕ → List ℕ
down less zero h i n = h
down less (suc fuel) h i n =
    let j = first_child less h i n in
    let rest = down less fuel (swap h i j) j n in
    if leb n (2 * i + 1) then h else if not (less (at h j) (at h i)) then h else rest

-- `heap.Push`
unfoldable pub push : (ℕ → ℕ → Bool) → List ℕ → ℕ → List ℕ
push less h x = let grown = h ++ x ∷ [] in up less (length grown) grown (length grown - 1)

-- `heap.Pop` on a heap that is not empty: the entry that it returns, and what it leaves.
unfoldable pub pop : (ℕ → ℕ → Bool) → List ℕ → ℕ × List ℕ
pop less h =
    let n = length h - 1 in
    let sunk = down less (length h) (swap h 0 n) 0 n in (at sunk n, take n sunk)
