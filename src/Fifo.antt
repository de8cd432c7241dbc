-- ===== src/Fifo.antt =====
-- FIFO.go: a queue in a slice, with the indices of its first entry and of the entry after its last.
-- An entry is a number, 0 for nil; the indices never go below 0.
mod Tests
use gocore.Common.{
  ℕ, zero, suc, ◌+◌, ◌*◌, ◌%◌, ◌≡◌, List, [], ◌∷◌, ◌==◌, if◌then◌else◌, length, replicate,
}
use gocore.Common.Run.{Run, ok, panic, out_of_fuel, ◌>>=◌}
use gocore.Common.Arrays.{load, store}

pub record Fifo : Type 0 where
  pub slice : List ℕ
  pub head : ℕ
  pub tail : ℕ

-- `globalFIFO`: the slice is nil.
abbrev pub global_fifo : Fifo
global_fifo = record { slice = []; head = 0; tail = 0 }

-- The copying loop of `expansionCap`, with `start` and the new slice. The loop need not end: fuel.
unfoldable pub copy_loop : ℕ → Fifo → ℕ → ℕ → List ℕ → Run ℕ
copy_loop zero f i start replace = out_of_fuel
copy_loop (suc fuel) f i start replace =
    let turn : Run ℕ = do
      x ← load f.slice i
      r ← store replace start x
      copy_loop fuel f ((i + 1) % length f.slice) (start + 1) r
    in if i + 1 == f.tail then ok start else turn

-- `expansionCap` sets the indices of the new slice, and keeps the old slice.
unfoldable pub expansion_cap : Fifo → Run Fifo
expansion_cap f = do
  start ← copy_loop (length f.slice * 2 + 1) f f.head 0 (replicate (length f.slice * 2) 0)
  ok (record f { head = 0; tail = start })

unfoldable pub enqueue : Fifo → ℕ → Run Fifo
enqueue f data_ = do
  s ← store f.slice f.tail data_
  let g = record f { slice = s }
  let expanded = expansion_cap g >>= λ e. ok (record e { tail = e.tail + 1 })
  if f.tail + 1 == f.head then expanded else ok (record g { tail = f.tail + 1 })

unfoldable pub dequeue : Fifo → Run (ℕ × Fifo)
dequeue f = do result ← load f.slice f.head; ok (result, record f { head = f.head + 1 })
