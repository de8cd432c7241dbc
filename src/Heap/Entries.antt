-- ===== src/Heap/Entries.antt =====
-- The addresses that a heap of `n` entries holds, and that an exchange only reorders them.
use mathlib.Core.List.{Perm, perm_middle, append-nil}
use mathlib.Core.List.Perm
use gocore.Common.{
  ℕ, zero, suc, ◌≤◌, ◌<◌, ◌≡◌, refl, ap, List, [], ◌∷◌, ◌++◌, arith, length, set, get_or, take,
  drop, length-set, length-take, ◌≢◌,
}
use gocore.Common.Arrays.{exchange, get_or-set}
use gocore.Heap.{Heap}
use gocore.Heap.Swap.{exchanged}
use gocore.Heap.Order.{HasSlots}

-- The addresses in the slots 1 to `n`.
abbrev pub entries : Heap → ℕ → List ℕ
entries h n = take n (drop 1 h.value)

-- A write trades the old entry for the new one.
set-perm : (a : List ℕ) (i v : ℕ) → i < length a → Perm (get_or a i 0 ∷ set a i v) (v ∷ a)
set-perm [] i v h = elim h [ ]
set-perm (x ∷ a) zero v h = Perm.swap v x a
set-perm (x ∷ a) (suc i) v h =
    Perm.trans (Perm.swap x (get_or a i 0) (set a i v))
      (Perm.trans (Perm.cons x (set-perm a i v (omega arith))) (Perm.swap v x a))

exchange-perm :
    (a : List ℕ) (i j : ℕ) → i < length a → j < length a → i ≢ j → Perm (exchange a i j) a
exchange-perm a i j hi hj ne =
    let b = set a i (get_or a j 0) in
    let kept : get_or b j 0 ≡ get_or a j 0 = ground (arith, get_or-set a i j (get_or a j 0) hi) in
    let inner = set-perm b j (get_or a i 0) (rw length-set hj) in
    Perm.cons_inv (Perm.trans (rw kept at inner) (set-perm a i (get_or a j 0) hi))

take-set : (n : ℕ) (a : List ℕ) (i v : ℕ) → take n (set a i v) ≡ set (take n a) i v
take-set zero a i v = refl
take-set (suc n) [] i v = refl
take-set (suc n) (x ∷ a) zero v = refl
take-set (suc n) (x ∷ a) (suc i) v = ap (◌∷◌ x) (take-set n a i v)

get_or-take : (n : ℕ) (a : List ℕ) (i : ℕ) → i < n → get_or (take n a) i 0 ≡ get_or a i 0
get_or-take zero a i h = elim h [ ]
get_or-take (suc n) [] i h = refl
get_or-take (suc n) (x ∷ a) zero h = refl
get_or-take (suc n) (x ∷ a) (suc i) h = get_or-take n a i (omega arith)

take-exchange :
    (n : ℕ) (a : List ℕ) (i j : ℕ)
    → i < n
    → j < n
    → take n (exchange a i j) ≡ exchange (take n a) i j
take-exchange n a i j hi hj =
    rw
      (
        take-set n (set a i (get_or a j 0)) j,
        take-set n a i,
        get_or-take n a i hi,
        get_or-take n a j hj,
      )
      refl

exchanged_perm_of :
    (v : List ℕ) (n i j : ℕ)
    → n < length v
    → i < n
    → j < n
    → i ≢ j
    → Perm (take n (drop 1 (exchange v (suc i) (suc j)))) (take n (drop 1 v))
exchanged_perm_of [] n i j h hi hj ne = elim h [ ]
exchanged_perm_of (x ∷ v) n i j h hi hj ne = rw (take-exchange n v i j hi hj) (
    exchange-perm (take n v) i j (omega (arith, length-take n v)) (omega (arith, length-take n v))
      ne)

-- An exchange of two of the slots 1 to `n` reorders the addresses.
pub exchanged-perm :
    (h : Heap) (n i j : ℕ)
    → HasSlots h n
    → (1 ≤ i) × (i ≤ n)
    → (1 ≤ j) × (j ≤ n)
    → i ≢ j
    → Perm (entries (exchanged h i j) n) (entries h n)
exchanged-perm h n zero j s p q ne = absurd (omega arith)
exchanged-perm h n (suc i) zero s p q ne = absurd (omega arith)
exchanged-perm h n (suc i) (suc j) s p q ne =
    exchanged_perm_of h.value n i j (omega (arith, s)) (omega arith) (omega arith)
      (λ e. ne (ap suc e))

take-suc-set :
    (n : ℕ) (a : List ℕ) (v : ℕ) → n < length a → take (suc n) (set a n v) ≡ take n a ++ v ∷ []
take-suc-set n [] v h = elim h [ ]
take-suc-set zero (x ∷ a) v h = refl
take-suc-set (suc n) (x ∷ a) v h = ap (◌∷◌ x) (take-suc-set n a v (omega arith))

take-append_of_le : (n : ℕ) (a b : List ℕ) → n ≤ length a → take n (a ++ b) ≡ take n a
take-append_of_le zero a b h = refl
take-append_of_le (suc n) [] b h = elim h [ ]
take-append_of_le (suc n) (x ∷ a) b h = ap (◌∷◌ x) (take-append_of_le n a b (omega arith))

-- A write to the slot after the last adds one address.
pub entries-set :
    (v : List ℕ) (n a : ℕ)
    → suc n < length v
    → Perm (take (suc n) (drop 1 (set v (suc n) a))) (a ∷ take n (drop 1 v))
entries-set [] n a h = elim h [ ]
entries-set (x ∷ v) n a h =
    rw (take-suc-set n v a (omega arith)) (rw append-nil at (perm_middle {a = a} (take n v) []))

-- Free slots behind the last entry change nothing.
pub entries-append :
    (v zs : List ℕ) (n : ℕ) → n < length v → take n (drop 1 (v ++ zs)) ≡ take n (drop 1 v)
entries-append [] zs n h = elim h [ ]
entries-append (x ∷ v) zs n h = take-append_of_le n v zs (omega arith)

take-set_last : (n : ℕ) (a : List ℕ) (v : ℕ) → take n (set a n v) ≡ take n a
take-set_last zero a v = refl
take-set_last (suc n) [] v = refl
take-set_last (suc n) (x ∷ a) v = ap (◌∷◌ x) (take-set_last n a v)

drop_last : (v : List ℕ) (n a : ℕ) → take n (drop 1 (set v (suc n) a)) ≡ take n (drop 1 v)
drop_last [] n a = refl
drop_last (x ∷ v) n a = take-set_last n v a

-- Without its last slot, a heap whose last slot was just written has all but that address.
pub entries_without_last :
    (v : List ℕ) (n a : ℕ)
    → suc n < length v
    → Perm (a ∷ take n (drop 1 (set v (suc n) a))) (take (suc n) (drop 1 (set v (suc n) a)))
entries_without_last v n a h = rw (drop_last v n a) (Perm.symm (entries-set v n a h))
