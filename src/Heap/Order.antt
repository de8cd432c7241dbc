-- ===== src/Heap/Order.antt =====
-- The order of the heap, and the pairing of keys with addresses.
use gocore.Common.{ℕ, zero, suc, ◌/◌, ◌≤◌, ◌<◌, ◌≡◌, arith, length, get_or}
use gocore.Common.Int.{pos}
use gocore.Heap.{Heap}

abbrev pub key : Heap → ℕ → ℕ
key h i = get_or h.heap_arr i 0

abbrev pub address : Heap → ℕ → ℕ
address h i = get_or h.value i 0

-- The slots 1 to `n` exist, in both slices.
pub record HasSlots (h : Heap) (n : ℕ) : Type 0 where
  pub sized : h.length ≡ pos n
  pub room : n < length h.heap_arr
  pub paired : length h.value ≡ length h.heap_arr

-- No entry among the slots 2 to `n` has a greater key than its parent.
abbrev pub IsOrdered : Heap → ℕ → Type 0
IsOrdered h n = (c : ℕ) → 2 ≤ c → c ≤ n → key h c ≤ key h (c / 2)

-- Each address among the slots 1 to `n` stands beside its key; `size` is the key that belongs to an address.
abbrev pub IsPaired : (ℕ → ℕ) → Heap → ℕ → Type 0
IsPaired size h n = (i : ℕ) → 1 ≤ i → i ≤ n → size (address h i) ≡ key h i

-- A heap of `n` entries.
pub record IsHeap (size : ℕ → ℕ) (h : Heap) (n : ℕ) : Type 0 where
  pub slots : HasSlots h n
  pub ordered : IsOrdered h n
  pub beside : IsPaired size h n

root_below :
    (k : ℕ) (h : Heap) (n i : ℕ) → IsOrdered h n → i < k → 1 ≤ i → i ≤ n → key h i ≤ key h 1
root_below zero h n i o f p q = elim f [ ]
root_below (suc k) h n i o f p q = ground (arith, o i, root_below k h n (i / 2) o)

-- The first slot of an ordered heap has the greatest key.
pub root_greatest : (h : Heap) (n i : ℕ) → IsOrdered h n → 1 ≤ i → i ≤ n → key h i ≤ key h 1
root_greatest h n i o p q = root_below (suc i) h n i o (omega arith) p q
