-- ===== src/Heap/Delete.antt =====
-- `delete` of the root: the last entry takes its place and sinks.
use mathlib.Core.List.{Perm}
use mathlib.Core.List.Perm
use gocore.Common.{
  ℕ, zero, suc, List, [], ◌∷◌, take, drop, ◌/◌, ◌≤◌, ◌<◌, ◌≡◌, refl, arith, length, set, get_or,
  length-set, ◌==◌, if◌then◌else◌,
}
use gocore.Common.Int.{pos, ◌-ℤ◌}
use gocore.Common.Run.{Run, ok, panic, out_of_fuel, Returns, Returns-map, ◌>>=◌}
use gocore.Common.Arrays.{length-exchange, get_or-exchange}
use gocore.Heap.{Heap, down, up, up_loop, delete}
use gocore.Heap.Swap.{exchanged, swap-exchanged, swap_self}
use gocore.Heap.Order.{key, address, HasSlots, IsPaired, IsHeap}
use gocore.Heap.Entries.{entries, entries_without_last, exchanged-perm}
use gocore.Heap.Down.{IsOrderedBelow, DownInv, IsSunk, down-IsSunk}

-- At the root `up` has nothing to do.
up_root : (h : Heap) → up h 1 ≡ ok h
unfolding up up_loop
up_root h = refl

-- The heap that `delete` hands to `down`, when the root is not the last slot.
abbrev cut : Heap → ℕ → Heap
cut h m = record (exchanged h 1 (suc m)) { length = pos m }

cut-DownInv :
    (size : ℕ → ℕ) (h : Heap) (m : ℕ) → 1 ≤ m → IsHeap size h (suc m) → DownInv size (cut h m) m 1
cut-DownInv size h m p v = record {
  slots = record {
    sized = refl;
    room = omega (arith, v.slots, length-exchange h.heap_arr 1 (suc m));
    paired =
        omega
          (arith, v.slots, length-exchange h.heap_arr 1 (suc m), length-exchange h.value 1 (suc m));
  };
  inside = omega arith;
  edges = λ c q r t. ground (arith, key_at c, key_at (c / 2), v.ordered c);
  bridged = λ c q r t u. absurd (omega arith);
  beside = λ c q r. rw (key_at c, address_at c) (ground (arith, v.beside (suc m), v.beside c));
}
  where
    key_at :
        (c : ℕ)
        → key (exchanged h 1 (suc m)) c
          ≡ (if suc m == c then key h 1 else if 1 == c then key h (suc m) else key h c)
    key_at c =
        get_or-exchange h.heap_arr 1 (suc m) c (omega (arith, v.slots)) (omega (arith, v.slots))

    address_at :
        (c : ℕ)
        → address (exchanged h 1 (suc m)) c
          ≡ (if suc m == c then address h 1 else if 1 == c then address h (suc m) else address h c)
    address_at c =
        get_or-exchange h.value 1 (suc m) c (omega (arith, v.slots)) (omega (arith, v.slots))

-- The root leaves the entries, and the others stay.
cut-perm :
    (h : Heap) (m : ℕ)
    → 1 ≤ m
    → HasSlots h (suc m)
    → Perm (address h 1 ∷ entries (cut h m) m) (entries h (suc m))
cut-perm h m p s =
    let w = set h.value 1 (get_or h.value (suc m) 0) in
    let longer : suc m < length w =
      omega (arith, s, length-set h.value 1 (get_or h.value (suc m) 0)) in
    Perm.trans (entries_without_last w m (address h 1) longer)
      (exchanged-perm h (suc m) 1 (suc m) s (omega arith) (omega arith) (omega arith))

-- What `delete` of the root leaves.
pub record IsCut (size : ℕ → ℕ) (h : Heap) (m : ℕ) (h' : Heap) : Type 0 where
  pub slots : HasSlots h' m
  pub ordered : IsOrderedBelow h' m
  pub beside : IsPaired size h' m
  pub same : Perm (address h 1 ∷ entries h' m) (entries h (suc m))

one_less : (n : ℕ) → pos (suc n) -ℤ pos 1 ≡ pos n
unfolding ◌-ℤ◌
one_less n = ground arith

only_entry : (v : List ℕ) → 1 < length v → take 1 (drop 1 v) ≡ get_or v 1 0 ∷ []
only_entry [] p = elim p [ ]
only_entry (x ∷ []) p = absurd (omega arith)
only_entry (x ∷ y ∷ v) p = refl

-- A heap of one entry: the slot is cleared.
delete_only :
    (h : Heap)
    → HasSlots h 1
    → delete h (pos 1)
      ≡ ok (record { heap_arr = set h.heap_arr 1 0; value = set h.value 1 0; length = pos 0 })
unfolding delete down up
delete_only h s =
    rw s.sized (rw (swap_self (record h { length = pos 1 }) 1 s.room s.paired, one_less 0) refl)

>>=-up_root : (r : Run Heap) → (r >>= λ h. up h 1) ≡ r
>>=-up_root (ok h) = up_root h
>>=-up_root panic = refl
>>=-up_root out_of_fuel = refl

delete-eq : (h : Heap) (m : ℕ) → 1 ≤ m → HasSlots h (suc m) → delete h (pos 1) ≡ down (cut h m) 1
unfolding delete
delete-eq h m p s =
    let moved =
      swap-exchanged (record h { length = pos (suc m) }) 1 (suc m) (omega (arith, s)) s.room
        s.paired (omega arith) in
    rw s.sized (rw (moved, one_less m) (>>=-up_root (down (cut h m) 1)))

-- `delete` of the root of a heap ends well. It takes exactly the root out and keeps each address
-- beside its key; all slots but the last one are in order after it.
pub delete_root :
    (size : ℕ → ℕ) (h : Heap) (m : ℕ)
    → IsHeap size h (suc m)
    → Returns (IsCut size h m) (delete h (pos 1))
delete_root size h zero v = rw (delete_only h v.slots) (record {
  slots = record {
    sized = refl;
    room = omega (arith, v.slots, length-set h.heap_arr 1 0);
    paired = omega (arith, v.slots, length-set h.heap_arr 1 0, length-set h.value 1 0);
  };
  ordered = λ c p q. absurd (omega arith);
  beside = λ c p q. absurd (omega arith);
  same = rw (only_entry h.value (omega (arith, v.slots))) (Perm.refl (address h 1 ∷ []));
})
delete_root size h (suc m) v =
    let sunk =
      down-IsSunk size (cut h (suc m)) (suc m) 1 (cut-DownInv size h (suc m) (omega arith) v) in
    rw (delete-eq h (suc m) (omega arith) v.slots) (
      Returns-map (IsSunk size (cut h (suc m)) (suc m)) (IsCut size h (suc m))
        (down (cut h (suc m)) 1) sunk
        (λ h' t. record {
          slots = t.slots;
          ordered = t.ordered;
          beside = t.beside;
          same =
              Perm.trans (Perm.cons (address h 1) t.same)
                (cut-perm h (suc m) (omega arith) v.slots);
        }))
