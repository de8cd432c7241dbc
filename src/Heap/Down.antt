-- ===== src/Heap/Down.antt =====
-- `down` compares with the children below `length` only, so it leaves the last slot out: it restores
-- the order of the slots before that one.
use mathlib.Core.List.{Perm}
use mathlib.Core.List.Perm
use mathlib.Core.Path.{subst}
use gocore.Common.{
  ℕ, zero, suc, ◌+◌, ◌*◌, ◌/◌, ◌≤◌, ◌<◌, ◌≡◌, ◌≢◌, refl, sym, arith, ltb, ◌⊎◌, inl, inr, true,
  false, Bool-cases, ◌==◌, if◌then◌else◌,
}
use gocore.Common.Int.{pos, ltb_ℤ, pos_part}
use gocore.Common.Run.{Run, ok, Returns, Returns-map, ◌>>=◌}
use gocore.Common.Arrays.{load-ok, get_or-exchange}
use gocore.Heap.{Heap, pick, down_loop, down, swap}
use gocore.Heap.Swap.{exchanged, swap-exchanged}
use gocore.Heap.Order.{key, address, HasSlots, IsPaired}
use gocore.Heap.Entries.{entries, exchanged-perm}
use gocore.Heap.Up.{exchanged-HasSlots}

-- The order of all slots but the last of `n`.
abbrev pub IsOrderedBelow : Heap → ℕ → Type 0
IsOrderedBelow h n = (c : ℕ) → 2 ≤ c → c < n → key h c ≤ key h (c / 2)

-- Only the edges below `i` may be out of order.
pub record DownInv (size : ℕ → ℕ) (h : Heap) (n i : ℕ) : Type 0 where
  pub slots : HasSlots h n
  pub inside : (1 ≤ i) × (i ≤ n)
  pub edges : (c : ℕ) → 2 ≤ c → c < n → c / 2 ≢ i → key h c ≤ key h (c / 2)
  pub bridged : (c : ℕ) → 2 ≤ c → c < n → c / 2 ≡ i → 2 ≤ i → key h c ≤ key h (i / 2)
  pub beside : IsPaired size h n

-- What is left of `h`: `n` slots, the same entries, each beside its key.
pub record IsSunk (size : ℕ → ℕ) (h : Heap) (n : ℕ) (h' : Heap) : Type 0 where
  pub slots : HasSlots h' n
  pub ordered : IsOrderedBelow h' n
  pub beside : IsPaired size h' n
  pub same : Perm (entries h' n) (entries h n)

abbrev choose : Heap → ℕ → ℕ → ℕ → ℕ
choose h n r c = if ltb c n then (if ltb (key h r) (key h c) then c else r) else r

pick-ok : (h : Heap) (n r c : ℕ) → HasSlots h n → r ≤ n → pick h r c ≡ ok (choose h n r c)
unfolding pick
pick-ok h n r c s p = rw s.sized (elim (Bool-cases (ltb c n)) [
  | inr far ↦ rw (outside far, far) refl
  | inl near ↦
      rw
        (
          within near,
          near,
          load-ok h.heap_arr r (omega (arith, s)),
          load-ok h.heap_arr c (ground (arith, s.room)),
        )
        refl
])
  where
    outside : ltb c n ≡ false → ltb_ℤ (pos c) (pos n) ≡ false
    outside e = ground arith

    within : ltb c n ≡ true → ltb_ℤ (pos c) (pos n) ≡ true
    within e = ground arith

-- The slot that `down` chooses: `i` or a child with a greater key, and no child has a greater one.
record IsChosen (h : Heap) (n i m : ℕ) : Type 0 where
  place : (m ≡ i) ⊎ (((m ≡ i * 2) ⊎ (m ≡ i * 2 + 1)) × (m < n) × (key h i < key h m))
  least : key h i ≤ key h m
  greatest : (c : ℕ) → 2 ≤ c → c < n → c / 2 ≡ i → key h c ≤ key h m

abbrev chosen : Heap → ℕ → ℕ → ℕ
chosen h n i = choose h n (choose h n i (i * 2)) (i * 2 + 1)

chosen-IsChosen : (h : Heap) (n i : ℕ) → 1 ≤ i → IsChosen h n i (chosen h n i)
chosen-IsChosen h n i p = record {
  place = ground arith;
  least = ground arith;
  greatest = λ c q r t. elim (child c t) [
    | inl e ↦ rw e (left (ground arith))
    | inr e ↦ rw e (right (ground arith))
  ];
}
  where
    child : (c : ℕ) → c / 2 ≡ i → (c ≡ i * 2) ⊎ (c ≡ i * 2 + 1)
    child c t = omega arith

    left : i * 2 < n → key h (i * 2) ≤ key h (chosen h n i)
    left f = ground arith

    right : i * 2 + 1 < n → key h (i * 2 + 1) ≤ key h (chosen h n i)
    right f = ground arith

module _ (size : ℕ → ℕ) (h : Heap) (n i m : ℕ) (v : DownInv size h n i) (w : IsChosen h n i m)
    (apart : i ≢ m) (inside : (i < m) × (m < n)) where
  key_at :
      (c : ℕ)
      → key (exchanged h i m) c ≡ (if m == c then key h i else if i == c then key h m else key h c)
  key_at c =
      get_or-exchange h.heap_arr i m c (omega (arith, v.slots, v.inside))
        (omega (arith, v.slots, inside))

  address_at :
      (c : ℕ)
      → address (exchanged h i m) c
        ≡ (if m == c then address h i else if i == c then address h m else address h c)
  address_at c =
      get_or-exchange h.value i m c (omega (arith, v.slots, v.inside))
        (omega (arith, v.slots, inside))

  below : m / 2 ≡ i
  below = ground (arith, w.place)

  step-DownInv : DownInv size (exchanged h i m) n m
  step-DownInv = record {
    slots = exchanged-HasSlots h n i m v.slots;
    inside = omega (arith, inside, v.inside);
    edges = λ c p q r.
        ground (arith, below, key_at c, key_at (c / 2), v.edges c p q, v.bridged m, w.greatest c);
    bridged = λ c p q r t. ground (arith, below, key_at c, key_at (m / 2), v.edges c p q);
    beside =
        λ c p q. rw (key_at c, address_at c) (ground (arith, v.beside i, v.beside m, v.beside c));
  }

  step-perm : Perm (entries (exchanged h i m) n) (entries h n)
  step-perm = exchanged-perm h n i m v.slots v.inside (omega (arith, inside, v.inside)) apart

-- One round, from the slot `m` that it chooses; `rest` is what the call on `m` does.
round-IsSunk :
    (size : ℕ → ℕ) (h : Heap) (n i m : ℕ) (rest : Heap → Run Heap)
    → DownInv size h n i
    → IsChosen h n i m
    → (i < m
        → DownInv size (exchanged h i m) n m
        → Returns (IsSunk size (exchanged h i m) n) (rest (exchanged h i m)))
    → Returns (IsSunk size h n) (if m == i then ok h else swap h i m >>= rest)
round-IsSunk size h n i m rest v w further = elim (Bool-cases (m == i)) [
  | inl e ↦ rw e (record {
    slots = v.slots;
    ordered = λ c p q. settled (ground arith) c p q;
    beside = v.beside;
    same = Perm.refl (entries h n);
  })
  | inr e ↦
      let apart : i ≢ m = ground arith in
      let inside : (i < m) × (m < n) = ground (arith, w.place, v.inside) in
      let moved =
        swap-exchanged h i m (omega (arith, inside, v.slots)) (omega (arith, inside, v.slots))
          v.slots.paired apart in
      rw (e, moved)
        (Returns-map (IsSunk size (exchanged h i m) n) (IsSunk size h n) (rest (exchanged h i m))
          (further inside.0 (step-DownInv size h n i m v w apart inside))
          (λ h' t. record {
            slots = t.slots;
            ordered = t.ordered;
            beside = t.beside;
            same = Perm.trans t.same (step-perm size h n i m v w apart inside);
          }))
]
  where
    settled : m ≡ i → IsOrderedBelow h n
    settled e c p q = ground (arith, v.edges c p q, w.greatest c p q)

down_loop-IsSunk :
    (fuel : ℕ) (size : ℕ → ℕ) (h : Heap) (n i : ℕ)
    → n < i + fuel
    → DownInv size h n i
    → Returns (IsSunk size h n) (down_loop fuel h i)
unfolding down_loop
down_loop-IsSunk zero size h n i f v = absurd (omega (arith, v.inside))
down_loop-IsSunk (suc fuel) size h n i f v =
    let m = chosen h n i in
    let one = pick-ok h n i (i * 2) v.slots v.inside.1 in
    let two = pick-ok h n (choose h n i (i * 2)) (i * 2 + 1) v.slots (ground (arith, v.inside)) in
    rw one (
      rw two (
        round-IsSunk size h n i m (λ h'. down_loop fuel h' m) v (chosen-IsChosen h n i v.inside.0)
          (λ deeper v'. down_loop-IsSunk fuel size (exchanged h i m) n m (omega arith) v')))

-- `down` ends well, and orders all the slots but the last of `n`.
pub down-IsSunk :
    (size : ℕ → ℕ) (h : Heap) (n i : ℕ) → DownInv size h n i → Returns (IsSunk size h n) (down h i)
unfolding down
down-IsSunk size h n i v =
    subst (λ l. Returns (IsSunk size h n) (down_loop (pos_part l + 1) h i)) (sym v.slots.sized)
      (down_loop-IsSunk (n + 1) size h n i (omega (arith, v.inside)) v)
