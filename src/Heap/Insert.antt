-- ===== src/Heap/Insert.antt =====
-- `insert`: room is made when the slices are full, the new entry goes behind the last and moves up.
use mathlib.Core.List.{Perm}
use mathlib.Core.List.Perm
use gocore.Common.{
  ℕ, suc, ◌+◌, ◌*◌, ◌/◌, ◌≤◌, ◌≡◌, refl, ap, ◌∙◌, List, ◌∷◌, ◌++◌, arith, length, set, replicate,
  length-append, length-set, Bool-cases, true, false, inl, inr, ◌==◌, if◌then◌else◌,
}
use native.Mathlib.Numerals.{add-one}
use gocore.Common.Int.{pos, ◌+ℤ◌, ltb_ℤ}
use gocore.Common.Run.{ok, Returns, Returns-map}
use gocore.Common.Arrays.{store-ok, get_or-append, get_or-set}
use gocore.Heap.{Heap, down_loop, down, grow, up, insert}
use gocore.Heap.Order.{key, address, HasSlots, IsHeap}
use gocore.Heap.Entries.{entries, entries-set, entries-append}
use gocore.Heap.Up.{UpInv, Settled, up-IsHeap}

-- At the last slot `down` has no child to look at.
down_at_last : (h : Heap) (n : ℕ) → 1 ≤ n → h.length ≡ pos n → down h n ≡ ok h
unfolding down
down_at_last h n p e =
    rw (e, add-one, down_loop)
      (rw (far (n * 2) (omega arith), far (n * 2 + 1) (omega arith), refl_test) refl)
  where
    far : (c : ℕ) → n ≤ c → ltb_ℤ (pos c) (pos n) ≡ false
    far c q = ground arith

    refl_test : (n == n) ≡ true
    refl_test = ground arith

-- `g` is `h` with one slot more, behind the `n` entries.
record IsRoom (h g : Heap) (n : ℕ) : Type 0 where
  slots : HasSlots g (suc n)
  keys : (i : ℕ) → i ≤ n → key g i ≡ key h i
  addresses : (i : ℕ) → i ≤ n → address g i ≡ address h i
  same : entries g n ≡ entries h n

grow-IsRoom :
    (h : Heap) (n : ℕ) → HasSlots h n → IsRoom h (grow (record h { length = pos (suc n) })) n
unfolding grow
grow-IsRoom h n s = elim (Bool-cases (ltb_ℤ (pos (suc n)) (pos (length h.heap_arr)))) [
  | inl fits ↦ rw fits (record {
    slots = record { sized = refl; room = ground arith; paired = s.paired };
    keys = λ i p. refl;
    addresses = λ i p. refl;
    same = refl;
  })
  | inr full ↦ rw full (record {
    slots = record {
      sized = refl;
      room = omega (arith, s.room, more h.heap_arr);
      paired = omega (arith, s.paired, more h.heap_arr, more h.value);
    };
    keys = λ i p. get_or-append h.heap_arr zeros i (omega (arith, s.room));
    addresses = λ i p. get_or-append h.value zeros i (omega (arith, s));
    same = entries-append h.value zeros n (omega (arith, s));
  })
]
  where
    zeros : List ℕ
    zeros = replicate 100 0

    more : (a : List ℕ) → length (a ++ replicate 100 0) ≡ length a + 100
    more a = length-append a (replicate 100 0)

-- The heap on which `down` and `up` are called.
abbrev placed : Heap → ℕ → ℕ → ℕ → Heap
placed g n k v = record { heap_arr = set g.heap_arr n k; value = set g.value n v; length = pos n }

placed-UpInv :
    (size : ℕ → ℕ) (h g : Heap) (n k v : ℕ)
    → IsHeap size h n
    → IsRoom h g n
    → size v ≡ k
    → UpInv size (placed g (suc n) k v) (suc n) (suc n)
placed-UpInv size h g n k v heap r e = record {
  slots = record {
    sized = refl;
    room = omega (arith, r.slots, length-set g.heap_arr (suc n) k);
    paired = omega (arith, r.slots, length-set g.heap_arr (suc n) k, length-set g.value (suc n) v);
  };
  inside = omega arith;
  edges =
      λ c p q t. ground (arith, key_at c, key_at (c / 2), r.keys c, r.keys (c / 2), heap.ordered c);
  bridged = λ c p q t. absurd (omega arith);
  beside =
      λ c p q. rw (key_at c, address_at c) (ground (arith, r.keys c, r.addresses c, heap.beside c));
}
  where
    key_at : (c : ℕ) → key (placed g (suc n) k v) c ≡ (if suc n == c then k else key g c)
    key_at c = get_or-set g.heap_arr (suc n) c k r.slots.room

    address_at :
        (c : ℕ) → address (placed g (suc n) k v) c ≡ (if suc n == c then v else address g c)
    address_at c = get_or-set g.value (suc n) c v (omega (arith, r.slots))

abbrev roomy : Heap → ℕ → Heap
roomy h n = grow (record h { length = pos (suc n) })

insert-eq-up :
    (h : Heap) (n k v : ℕ)
    → HasSlots h n
    → insert h k v ≡ up (placed (roomy h n) (suc n) k v) (suc n)
unfolding insert
insert-eq-up h n k v s =
    let r = grow-IsRoom h n s in
    let g = roomy h n in
    let len : h.length +ℤ pos 1 ≡ pos (suc n) = ap (λ l. l +ℤ pos 1) s.sized ∙ one_more n in
    let keys = store-ok g.heap_arr (suc n) k r.slots.room in
    let values = store-ok g.value (suc n) v (omega (arith, r.slots)) in
    let still = down_at_last (placed g (suc n) k v) (suc n) (omega arith) refl in
    rw (len, r.slots.sized) (rw (keys, values) (rw still refl))
  where
    one_more : (n : ℕ) → pos n +ℤ pos 1 ≡ pos (suc n)
    one_more n = unfold ◌+ℤ◌ in ground arith

-- `insert` ends well and gives a heap of one entry more: the new address beside the old ones.
pub insert-IsHeap :
    (size : ℕ → ℕ) (h : Heap) (n k v : ℕ)
    → IsHeap size h n
    → size v ≡ k
    → Returns
        (λ h'. IsHeap size h' (suc n) × Perm (entries h' (suc n)) (v ∷ entries h n))
        (insert h k v)
insert-IsHeap size h n k v heap e =
    let g = roomy h n in
    let r = grow-IsRoom h n heap.slots in
    let added = entries-set g.value n v (omega (arith, r.slots)) in
    rw (insert-eq-up h n k v heap.slots) (
      Returns-map (Settled size (placed g (suc n) k v) (suc n))
        (λ h'. IsHeap size h' (suc n) × Perm (entries h' (suc n)) (v ∷ entries h n))
        (up (placed g (suc n) k v) (suc n))
        (up-IsHeap size (placed g (suc n) k v) (suc n) (suc n)
          (placed-UpInv size h g n k v heap r e))
        (λ h' t. (t.0, Perm.trans t.1 (rw r.same at added))))
