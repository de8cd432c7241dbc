-- ===== src/Heap/Peek.antt =====
-- `peekMax`, and what the deletion of the root does to the order.
use gocore.Common.{ℕ, suc, ◌≤◌, ◌≡◌, refl, arith, true}
use gocore.Common.Int.{pos, ltb_ℤ}
use gocore.Common.Run.{Returns}
use gocore.Common.Arrays.{load-ok}
use gocore.Heap.{Heap, peek_max}
use gocore.Heap.Order.{address, IsHeap, root_greatest}

-- On a heap that is not empty `peekMax` returns the address in the first slot, and no entry has a
-- greater key than that one.
pub peek_max-greatest :
    (size : ℕ → ℕ) (h : Heap) (m : ℕ)
    → IsHeap size h (suc m)
    → Returns
        (λ a. (a ≡ address h 1) × ((i : ℕ) → 1 ≤ i → i ≤ suc m → size (address h i) ≤ size a))
        (peek_max h)
unfolding peek_max
peek_max-greatest size h m v =
    let some_entry : ltb_ℤ (pos 0) (pos (suc m)) ≡ true = ground arith in
    rw (v.slots.sized, some_entry, load-ok h.value 1 (omega (arith, v.slots)))
      (refl, λ i p q. greatest i p q)
  where
    greatest : (i : ℕ) → 1 ≤ i → i ≤ suc m → size (address h i) ≤ size (address h 1)
    greatest i p q = omega (
      arith,
      v.beside i p q,
      v.beside 1 (omega arith) (omega arith),
      root_greatest h (suc m) i v.ordered p q,
    )
