-- ===== src/Heap/Up.antt =====
-- `up` repairs a heap in which one entry may be greater than its parent.
use gocore.Common.{
  ℕ, zero, suc, ◌+◌, ◌/◌, ◌≤◌, ◌<◌, ◌≡◌, ◌≢◌, arith, ltb, length, inl, inr, Bool-cases, ◌==◌,
  if◌then◌else◌,
}
use mathlib.Core.List.{Perm}
use mathlib.Core.List.Perm
use gocore.Common.Run.{Returns, Returns-map}
use gocore.Common.Arrays.{load-ok, length-exchange, get_or-exchange}
use gocore.Heap.{Heap, up_loop, up}
use gocore.Heap.Swap.{exchanged, swap-exchanged}
use gocore.Heap.Entries.{entries, exchanged-perm}
use gocore.Heap.Order.{key, address, HasSlots, IsPaired, IsHeap}

-- Only the edge above `i` may be out of order.
pub record UpInv (size : ℕ → ℕ) (h : Heap) (n i : ℕ) : Type 0 where
  pub slots : HasSlots h n
  pub inside : (1 ≤ i) × (i ≤ n)
  pub edges : (c : ℕ) → 2 ≤ c → c ≤ n → c ≢ i → key h c ≤ key h (c / 2)
  pub bridged : (c : ℕ) → 2 ≤ c → c ≤ n → c / 2 ≡ i → 2 ≤ i → key h c ≤ key h (i / 2)
  pub beside : IsPaired size h n

pub exchanged-HasSlots : (h : Heap) (n i j : ℕ) → HasSlots h n → HasSlots (exchanged h i j) n
exchanged-HasSlots h n i j s = record {
  sized = s.sized;
  room = omega (arith, s.room, length-exchange h.heap_arr i j);
  paired = omega (arith, s.paired, length-exchange h.heap_arr i j, length-exchange h.value i j);
}

module _ (size : ℕ → ℕ) (h : Heap) (n i : ℕ) (v : UpInv size h n i) (deep : 2 ≤ i)
    (above : key h (i / 2) < key h i) where
  key_at :
      (c : ℕ)
      → key (exchanged h i (i / 2)) c
        ≡ (if i / 2 == c then key h i else if i == c then key h (i / 2) else key h c)
  key_at c =
      get_or-exchange h.heap_arr i (i / 2) c (omega (arith, v.slots, v.inside))
        (omega (arith, v.slots, v.inside))

  address_at :
      (c : ℕ)
      → address (exchanged h i (i / 2)) c
        ≡ (if i / 2 == c then address h i else if i == c then address h (i / 2) else address h c)
  address_at c =
      get_or-exchange h.value i (i / 2) c (omega (arith, v.slots, v.inside))
        (omega (arith, v.slots, v.inside))

  step-UpInv : UpInv size (exchanged h i (i / 2)) n (i / 2)
  step-UpInv = record {
    slots = exchanged-HasSlots h n i (i / 2) v.slots;
    inside = omega (arith, v.inside);
    edges = λ c p q r. ground (arith, key_at c, key_at (c / 2), v.edges c p q, v.bridged c p q);
    bridged =
        λ c p q r t. ground (arith, key_at c, key_at (i / 2 / 2), v.edges c p q, v.edges (i / 2));
    beside = λ c p q.
        rw (key_at c, address_at c) (ground (arith, v.beside i, v.beside (i / 2), v.beside c));
  }

-- A heap of `n` entries, which are those of `h`.
abbrev pub Settled : (ℕ → ℕ) → Heap → ℕ → Heap → Type 0
Settled size h n h' = IsHeap size h' n × Perm (entries h' n) (entries h n)

up_loop-IsHeap :
    (fuel : ℕ) (size : ℕ → ℕ) (h : Heap) (n i : ℕ)
    → i < fuel
    → UpInv size h n i
    → Returns (Settled size h n) (up_loop fuel h i)
unfolding up_loop
up_loop-IsHeap zero size h n i f v = elim f [ ]
up_loop-IsHeap (suc fuel) size h n i f v = elim (Bool-cases (ltb 0 (i / 2))) [
  | inr root ↦ rw root (settled (ground arith))
  | inl inner ↦
      let deep : 2 ≤ i = ground arith in
      rw (inner, load-ok h.heap_arr i room_i, load-ok h.heap_arr (i / 2) room_p)
        (elim (Bool-cases (ltb (key h (i / 2)) (key h i))) [
          | inr low ↦ rw low (settled (ground arith))
          | inl above ↦
              rw (above, swap-exchanged h i (i / 2) room_i room_p v.slots.paired (omega arith))
                (Returns-map (Settled size (exchanged h i (i / 2)) n) (Settled size h n)
                  (up_loop fuel (exchanged h i (i / 2)) (i / 2))
                  (up_loop-IsHeap fuel size (exchanged h i (i / 2)) n (i / 2) (omega arith)
                    (step-UpInv size h n i v deep (ground arith)))
                  (λ h' t. (t.0, Perm.trans t.1 (reordered deep))))
        ])
]
  where
    room_i : i < length h.heap_arr
    room_i = omega (arith, v.slots, v.inside)

    room_p : i / 2 < length h.heap_arr
    room_p = omega (arith, v.slots, v.inside)

    reordered : 2 ≤ i → Perm (entries (exchanged h i (i / 2)) n) (entries h n)
    reordered deep =
        exchanged-perm h n i (i / 2) v.slots v.inside (omega (arith, v.inside))
          (omega (arith, v.inside))

    settled : (2 ≤ i → key h i ≤ key h (i / 2)) → Settled size h n h
    settled top = (
      record {
        slots = v.slots;
        ordered = λ c p q. ground (arith, v.edges c p q, top);
        beside = v.beside;
      },
      Perm.refl (entries h n),
    )

-- `up` ends well, and turns a heap with one entry too low in the tree into a heap of the same entries.
pub up-IsHeap :
    (size : ℕ → ℕ) (h : Heap) (n i : ℕ) → UpInv size h n i → Returns (Settled size h n) (up h i)
unfolding up
up-IsHeap size h n i v = up_loop-IsHeap (i + 1) size h n i (omega arith) v
