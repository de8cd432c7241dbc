-- ===== src/Heap/Tests.antt =====
-- Heaps of four entries and of one, and the theorems of the heap at them.
use gocore.Common.{ℕ, zero, suc, ◌≤◌, ◌≡◌, refl, [], ◌∷◌, ◌/◌, arith}
use gocore.Common.Int.{pos, ◌+ℤ◌, ◌-ℤ◌}
use gocore.Common.Run.{ok, Returns}
use mathlib.Core.List.{Perm}
use gocore.Heap.{Heap, swap, grow, insert, delete, down, up}
use gocore.Heap.Order.{key, address, IsHeap}
use gocore.Heap.Entries.{entries}
use gocore.Heap.Insert.{insert-IsHeap}

-- The address of an entry is its key here.
abbrev same : ℕ → ℕ
same n = n

abbrev four : Heap
four = record {
  heap_arr = 0 ∷ 5 ∷ 3 ∷ 4 ∷ 1 ∷ 0 ∷ [];
  value = 0 ∷ 5 ∷ 3 ∷ 4 ∷ 1 ∷ 0 ∷ [];
  length = pos 4;
}

four-IsHeap : IsHeap same four 4
four-IsHeap = record {
  slots = record { sized = refl; room = omega arith; paired = refl };
  ordered = in_order;
  beside = paired;
}
  where
    in_order : (c : ℕ) → 2 ≤ c → c ≤ 4 → key four c ≤ key four (c / 2)
    in_order zero p q = elim p [ ]
    in_order (suc zero) p q = absurd (omega arith)
    in_order (suc (suc zero)) p q = omega arith
    in_order (suc (suc (suc zero))) p q = omega arith
    in_order (suc (suc (suc (suc zero)))) p q = omega arith
    in_order (suc (suc (suc (suc (suc c))))) p q = absurd (omega arith)

    paired : (c : ℕ) → 1 ≤ c → c ≤ 4 → same (address four c) ≡ key four c
    paired zero p q = elim p [ ]
    paired (suc zero) p q = refl
    paired (suc (suc zero)) p q = refl
    paired (suc (suc (suc zero))) p q = refl
    paired (suc (suc (suc (suc zero)))) p q = refl
    paired (suc (suc (suc (suc (suc c))))) p q = absurd (omega arith)

insert-IsHeap_example :
    Returns (λ h'. IsHeap same h' 5 × Perm (entries h' 5) (9 ∷ entries four 4)) (insert four 9 9)
insert-IsHeap_example = insert-IsHeap same four 4 9 9 four-IsHeap refl

-- After the deletion of the root, the last slot (key 4) stands below a smaller one (key 3).
delete-four :
    delete four (pos 1)
    ≡ ok (record {
      heap_arr = 0 ∷ 3 ∷ 1 ∷ 4 ∷ 5 ∷ 0 ∷ [];
      value = 0 ∷ 3 ∷ 1 ∷ 4 ∷ 5 ∷ 0 ∷ [];
      length = pos 3;
    })
unfolding delete swap down up ◌-ℤ◌
delete-four = refl

insert_nine :
    insert four 9 9
    ≡ ok (record {
      heap_arr = 0 ∷ 9 ∷ 5 ∷ 4 ∷ 1 ∷ 3 ∷ [];
      value = 0 ∷ 9 ∷ 5 ∷ 4 ∷ 1 ∷ 3 ∷ [];
      length = pos 5;
    })
unfolding insert grow swap down up ◌+ℤ◌
insert_nine = refl

-- The deletion of the root does not keep every heap a heap.
delete_root-disorders : ¬ (
    (size : ℕ → ℕ) (h : Heap) (m : ℕ)
    → IsHeap size h (suc m)
    → Returns (λ h'. IsHeap size h' m) (delete h (pos 1)))
delete_root-disorders all =
    let r = rw delete-four at (all same four 3 four-IsHeap) in
    absurd (omega (arith, r.ordered 3 (omega arith) (omega arith)))
