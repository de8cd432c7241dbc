-- ===== src/Heap/Swap.antt =====
-- The exchange by three exclusive ors.
use Prim.Native.Nat.{bit_xor}
use gocore.Common.{
  ℕ, ◌<◌, ◌≡◌, ◌≢◌, refl, sym, ◌∙◌, ap, List, arith, length, set, get_or, length-set,
}
use gocore.Common.Run.{ok}
use gocore.Common.Bits.{bit_xor_undo, bit_xor_self}
use gocore.Common.Arrays.{load-ok, get_or-set, exchange, set-set, set_comm}
use gocore.Heap.{Heap, assign_xor, swap_words, swap}

assign_xor-ok :
    (a : List ℕ) (dst i j : ℕ)
    → dst < length a
    → i < length a
    → j < length a
    → assign_xor a dst i j ≡ ok (set a dst (bit_xor (get_or a i 0) (get_or a j 0)))
unfolding assign_xor
assign_xor-ok a dst i j hd hi hj = rw (load-ok a i hi, load-ok a j hj, load-ok a dst hd)

-- Two different entries change places.
swap_words-exchange :
    (a : List ℕ) (i j : ℕ)
    → i < length a
    → j < length a
    → i ≢ j
    → swap_words a i j ≡ ok (exchange a i j)
unfolding swap_words
swap_words-exchange a i j hi hj ne =
    let x = get_or a i 0 in
    let y = get_or a j 0 in
    let a1 = set a i (bit_xor x y) in
    let a2 = set a1 j x in
    let s1 : length a1 ≡ length a = length-set a i (bit_xor x y) in
    let s2 : length a2 ≡ length a1 = length-set a1 j x in
    let i1 : get_or a1 i 0 ≡ bit_xor x y = ground (arith, get_or-set a i i (bit_xor x y) hi) in
    let j1 : get_or a1 j 0 ≡ y = ground (arith, get_or-set a i j (bit_xor x y) hi) in
    let i2 : get_or a2 i 0 ≡ bit_xor x y = ground (arith, get_or-set a1 j i x (omega arith)) in
    let j2 : get_or a2 j 0 ≡ x = ground (arith, get_or-set a1 j j x (omega arith)) in
    let first = assign_xor-ok a i i j hi hi hj in
    let second : assign_xor a1 j i j ≡ ok a2 =
      assign_xor-ok a1 j i j (omega arith) (omega arith) (omega arith)
      ∙ rw (i1, j1, (bit_xor_undo x y).0) refl in
    let third : assign_xor a2 i i j ≡ ok (set a2 i y) =
      assign_xor-ok a2 i i j (omega arith) (omega arith) (omega arith)
      ∙ rw (i2, j2, (bit_xor_undo x y).1) refl in
    rw (first, second, third)
      (ap ok
        (set_comm a1 j i x y (λ e. ne (sym e)) ∙ ap (λ b. set b j x) (set-set a i (bit_xor x y) y)))

-- An entry that is exchanged with itself is cleared.
swap_words_self : (a : List ℕ) (i : ℕ) → i < length a → swap_words a i i ≡ ok (set a i 0)
unfolding swap_words
swap_words_self a i hi =
    let x = get_or a i 0 in
    let a1 = set a i 0 in
    let s1 : length a1 ≡ length a = length-set a i 0 in
    let i1 : get_or a1 i 0 ≡ 0 = ground (arith, get_or-set a i i 0 hi) in
    let first : assign_xor a i i i ≡ ok a1 =
      assign_xor-ok a i i i hi hi hi ∙ rw (bit_xor_self x) refl in
    let again : assign_xor a1 i i i ≡ ok a1 =
      assign_xor-ok a1 i i i (omega arith) (omega arith) (omega arith)
      ∙ rw (bit_xor_self (get_or a1 i 0), set-set) refl in
    rw (first, again, again) refl

abbrev pub exchanged : Heap → ℕ → ℕ → Heap
exchanged h i j = record h { heap_arr = exchange h.heap_arr i j; value = exchange h.value i j }

-- Where both slots exist, `swap` of two different slots exchanges the keys and the addresses.
pub swap-exchanged :
    (h : Heap) (i j : ℕ)
    → i < length h.heap_arr
    → j < length h.heap_arr
    → length h.value ≡ length h.heap_arr
    → i ≢ j
    → swap h i j ≡ ok (exchanged h i j)
unfolding swap
swap-exchanged h i j hi hj e ne = rw (
  swap_words-exchange h.heap_arr i j hi hj ne,
  swap_words-exchange h.value i j (omega arith) (omega arith) ne,
)

-- `swap` of a slot with itself clears the key and the address there.
pub swap_self :
    (h : Heap) (i : ℕ)
    → i < length h.heap_arr
    → length h.value ≡ length h.heap_arr
    → swap h i i ≡ ok (record h { heap_arr = set h.heap_arr i 0; value = set h.value i 0 })
unfolding swap
swap_self h i hi e = rw (swap_words_self h.heap_arr i hi, swap_words_self h.value i (omega arith))
