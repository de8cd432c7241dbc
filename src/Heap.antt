-- ===== src/Heap.antt =====
-- container.go: the 1-based max-heap that orders the cached encodings by their sizes. `heap_arr` holds
-- the keys (a Go `int`, here the length of an encoding), `value` the addresses, both 64-bit words;
-- `length` is an `int` that `delete` can take below 0, so it is a ℤ.
pub mod Swap
pub mod Order
pub mod Entries
pub mod Up
pub mod Insert
pub mod Down
pub mod Delete
pub mod Peek
mod Tests
use Prim.Native.Nat.{bit_xor}
use gocore.Common.{
  ℕ, zero, suc, ◌+◌, ◌*◌, ◌/◌, List, ◌++◌, ltb, ◌==◌, if◌then◌else◌, length, replicate,
}
use gocore.Common.Int.{ℤ, pos, negsuc, ◌+ℤ◌, ◌-ℤ◌, ltb_ℤ, pos_part}
use gocore.Common.Run.{Run, ok, panic, out_of_fuel, ◌>>=◌}
use gocore.Common.Arrays.{load, store}

pub record Heap : Type 0 where
  pub heap_arr : List ℕ
  pub value : List ℕ
  pub length : ℤ

-- `a[dst] = a[i] ^ a[j]`
assign_xor : List ℕ → ℕ → ℕ → ℕ → Run (List ℕ)
assign_xor a dst i j = do x ← load a i; y ← load a j; store a dst (bit_xor x y)

-- The three assignments that `swap` makes to one of its slices.
swap_words : List ℕ → ℕ → ℕ → Run (List ℕ)
unfolding assign_xor
swap_words a i j = do a1 ← assign_xor a i i j; a2 ← assign_xor a1 j i j; assign_xor a2 i i j

unfoldable pub swap : Heap → ℕ → ℕ → Run Heap
unfolding swap_words
swap h heap_pre heap_last = do
  keys ← swap_words h.heap_arr heap_pre heap_last
  values ← swap_words h.value heap_pre heap_last
  ok (record h { heap_arr = keys; value = values })

-- `result = child` if the child is below `length` and its key is greater.
pick : Heap → ℕ → ℕ → Run ℕ
pick h result child =
    let test : Run ℕ = do
      x ← load h.heap_arr result
      y ← load h.heap_arr child
      ok (if ltb x y then child else result)
    in if ltb_ℤ (pos child) h.length then test else ok result

down_loop : ℕ → Heap → ℕ → Run Heap
unfolding pick
down_loop zero h index = out_of_fuel
down_loop (suc fuel) h index = do
  r ← pick h index (index * 2)
  result ← pick h r (index * 2 + 1)
  let sink = swap h index result >>= λ h'. down_loop fuel h' result
  if result == index then ok h else sink

-- An index grows with each call and stays below `length`.
unfoldable pub down : Heap → ℕ → Run Heap
unfolding down_loop
down h index = down_loop (pos_part h.length + 1) h index

up_loop : ℕ → Heap → ℕ → Run Heap
up_loop zero h index = out_of_fuel
up_loop (suc fuel) h index =
    let rise = swap h index (index / 2) >>= λ h'. up_loop fuel h' (index / 2) in
    let step : Run Heap = do
      x ← load h.heap_arr index
      y ← load h.heap_arr (index / 2)
      if ltb y x then rise else ok h
    in if ltb 0 (index / 2) then step else ok h

unfoldable pub up : Heap → ℕ → Run Heap
unfolding up_loop
up h index = up_loop (index + 1) h index

-- An index that is a ℤ: a negative one panics.
abbrev pub at_index {ℓ} : {A : Type ℓ} → ℤ → (ℕ → Run A) → Run A
at_index (pos n) f = f n
at_index (negsuc n) f = panic

unfoldable pub peek_min : Heap → Run ℕ
peek_min h = at_index (h.length -ℤ pos 1) (load h.value)

unfoldable pub peek_max : Heap → Run ℕ
peek_max h = if ltb_ℤ (pos 0) h.length then load h.value 1 else ok 0

-- `append(h.heapArr, make([]int, 100)...)` for both slices when the key slice is full
unfoldable pub grow : Heap → Heap
grow h =
    if ltb_ℤ h.length (pos (length h.heap_arr))
    then h
    else record h { heap_arr = h.heap_arr ++ replicate 100 0; value = h.value ++ replicate 100 0 }

unfoldable pub insert : Heap → ℕ → ℕ → Run Heap
insert h key value =
    let g = grow (record h { length = h.length +ℤ pos 1 }) in
    at_index g.length λ n. do
      keys ← store g.heap_arr n key
      values ← store g.value n value
      sunk ← down (record g { heap_arr = keys; value = values }) n
      up sunk n

unfoldable pub delete : Heap → ℤ → Run Heap
delete h index = at_index index λ i. at_index h.length λ n. do
  swapped ← swap h i n
  let shorter = record swapped { length = pos n -ℤ pos 1 }
  sunk ← down shorter i
  up sunk i

-- What `init` builds: 100 slots, none used.
abbrev pub empty : Heap
empty = record { heap_arr = replicate 100 0; value = replicate 100 0; length = pos 0 }
