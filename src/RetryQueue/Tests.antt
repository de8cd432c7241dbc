-- ===== src/RetryQueue/Tests.antt =====
-- retryQueue.go on small queues: the theorems applied, and runs of the operations.
use gocore.Common.{ℕ, ◌≡◌, refl, [], ◌∷◌, true, false, some, none, ◌==◌}
use gocore.Common.Int.{pos, negsuc}
use gocore.Common.Run.{ok, Returns}
use gocore.RetryQueue.{
  Queue, Task, Waiting, less, swap, push, work, work_loop, add_task, finish, on_signal,
  new_retry_query,
}
use gocore.RetryQueue.Work.{allowed, IsWorked, work-IsWorked}

abbrev urgent : Task
urgent = record { exec = 1; priority = 255 }

abbrev lazy : Task
lazy = record { exec = 2; priority = 0 }

-- A heap of two tasks: the urgent one is its root.
abbrev two_tasks : Queue
two_tasks = record (new_retry_query (pos 3) 2 3000000000) {
  arena = some urgent ∷ some lazy ∷ [];
  loaf = false;
}

third_call : work (λ n. n == 2) (pos 3) ≡ ok (3, false)
unfolding work work_loop
third_call = refl

given_up : work (λ n. false) (pos 3) ≡ ok (3, true)
unfolding work work_loop
given_up = refl

-- `Less` holds of an entry and itself.
less_self : less (some lazy ∷ []) 0 0 ≡ ok true
unfolding less
less_self = refl

swapped : swap (some urgent ∷ none ∷ []) 0 1 ≡ ok (none ∷ some urgent ∷ [])
unfolding swap
swapped = refl

-- A stand-in for `heap.Push` that puts the task last.
added :
    (add_task push (new_retry_query (pos 3) 1 9) 7 128).arena
    ≡ some (record { exec = 7; priority = 128 }) ∷ []
unfolding add_task
added = refl

returned : (finish push two_tasks 1 lazy true).signal ≡ 0 ∷ 1 ∷ 1 ∷ []
unfolding finish
returned = refl

no_task :
    on_signal (new_retry_query (pos 3) 2 9)
    ≡ ok (record (new_retry_query (pos 3) 2 9) { remained = true; signal = 1 ∷ 0 ∷ [] })
unfolding on_signal
no_task = refl

-- A number of retries that is not positive allows one call.
once : work (λ n. false) (negsuc 4) ≡ ok (1, true)
unfolding work work_loop
once = refl

work-IsWorked_example :
    Returns (λ r. IsWorked (λ n. n == 1) 3 0 r.0 r.1) (work (λ n. n == 1) (pos 3))
unfolding allowed
work-IsWorked_example = work-IsWorked (λ n. n == 1) (pos 3)

abbrev waited : ℕ → Waiting
waited n = record { now_wait_time = pos 0; times = n }
