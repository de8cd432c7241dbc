-- ===== src/Fifo/Tests.antt =====
-- FIFO.go on small queues: the theorems applied, and runs of the operations.
use gocore.Common.{ℕ, ◌≡◌, refl, [], ◌∷◌}
use gocore.Common.Run.{ok}
use gocore.Fifo.{Fifo, enqueue, dequeue, expansion_cap, copy_loop}

abbrev with_slice : ℕ → ℕ → Fifo
with_slice h t = record { slice = 10 ∷ 11 ∷ 12 ∷ 13 ∷ []; head = h; tail = t }

-- The queue is empty, and Dequeue hands out a stale entry and moves the head past the tail.
stale_entry : dequeue (with_slice 2 2) ≡ ok (12, with_slice 3 2)
unfolding dequeue
stale_entry = refl

-- An Enqueue just before the head: of the entries 13, 10, 11 and the new one, two are copied, to a slice
-- that is dropped, and the indices count three in the old one.
expanded :
    enqueue (with_slice 3 2) 5 ≡ ok (record { slice = 10 ∷ 11 ∷ 5 ∷ 13 ∷ []; head = 0; tail = 3 })
unfolding enqueue expansion_cap copy_loop
expanded = refl
