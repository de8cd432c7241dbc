-- ===== src/RetryQueue.antt =====
-- retryQueue.go: tasks with priorities, which workers try until they succeed or have used up their
-- tries. A task is its priority and the name of its function; what a call of the function gives is an
-- argument. container/heap is a package of the Go library: `heap_push` stands for heap.Push.
pub mod Work
pub mod Schedule
mod Tests
use gocore.Common.{
  ◌%◌, ℕ, zero, suc, ◌+◌, ◌-◌, ◌*◌, ◌^◌, ◌≡◌, List, [], ◌∷◌, ◌++◌, Bool, true, false, Option, none,
  some, ltb, leb, if◌then◌else◌, length, take, get_elem?, set, not, ◌==◌,
}
use gocore.Common.Int.{int64, ℤ, pos, negsuc, ltb_ℤ, pos_part}
use gocore.Common.Run.{Run, ok, panic, out_of_fuel, ◌>>=◌, or_panic, check}
use gocore.Common.Arrays.{load}

pub record Task : Type 0 where
  pub exec : ℕ
  pub priority : ℕ

-- An entry is `none` for a nil pointer.
abbrev pub TaskArena : Type 0
TaskArena = List (Option Task)

-- The value that `Less` compares: 0 for nil.
abbrev pub value_of : Option Task → ℕ
value_of none = 0
value_of (some t) = t.priority

unfoldable pub less : TaskArena → ℕ → ℕ → Run Bool
less arena i j = do
  i_priority ← load arena i
  j_priority ← load arena j
  ok (leb (value_of j_priority) (value_of i_priority))

unfoldable pub swap : TaskArena → ℕ → ℕ → Run TaskArena
swap arena i j = do x ← load arena i; y ← load arena j; ok (set (set arena i y) j x)

abbrev pub push : TaskArena → Option Task → TaskArena
push arena value = arena ++ value ∷ []

-- `Pop` of the interface of container/heap: the last entry.
unfoldable pub pop : TaskArena → Run (Option Task × TaskArena)
pop old = do x ← load old (length old - 1); ok (x, take (length old - 1) old)

-- The worker's loop. `result n` tells whether call `n` of the task's function gives nil; the answer is
-- the number of calls and whether the task goes back to the arena.
unfoldable pub work_loop : (ℕ → Bool) → ℤ → ℕ → ℕ → Run (ℕ × Bool)
work_loop result retry_times zero cur = out_of_fuel
work_loop result retry_times (suc fuel) cur =
    let again = work_loop result retry_times fuel (cur + 1) in
    if result cur
    then ok (cur + 1, false)
    else if not (ltb_ℤ (pos (cur + 1)) retry_times)
    then ok (cur + 1, true)
    else again

-- The worker's `retryTimes` is an int32 of either sign.
unfoldable pub work : (ℕ → Bool) → ℤ → Run (ℕ × Bool)
work result retry_times = work_loop result retry_times (pos_part retry_times + 1) 0

-- The queue. `signal` holds the numbers of the idle workers, `remained` whether its one slot is filled,
-- `work` what each worker has been given.
pub record Queue : Type 0 where
  pub arena : TaskArena
  pub signal : List ℕ
  pub work : List (Option Task)
  pub max_retry_times : ℤ
  pub worker_number : ℕ
  pub max_sleep_time : ℕ
  pub remained : Bool
  pub loaf : Bool

abbrev numbers : ℕ → ℕ → List ℕ
numbers zero i = []
numbers (suc n) i = i ∷ numbers n (suc i)

abbrev nothing : ℕ → List (Option Task)
nothing zero = []
nothing (suc n) = none ∷ nothing n

-- `NewRetryQuery` for the settings that the options leave; its channel has room for every worker.
abbrev pub new_retry_query : ℤ → ℕ → ℕ → Queue
new_retry_query retry workers sleep = record {
  arena = [];
  signal = numbers workers 0;
  work = nothing workers;
  max_retry_times = retry;
  worker_number = workers;
  max_sleep_time = sleep;
  remained = false;
  loaf = true;
}

module _ (heap_push : TaskArena → Option Task → TaskArena) where
  unfoldable pub add_task : Queue → ℕ → ℕ → Queue
  add_task q function priority_ = record q {
    arena = heap_push q.arena (some (record { exec = function; priority = priority_ }));
    loaf = false;
  }

  -- What `work` does to the queue when it ends: a task that is given up goes back to the arena, and the
  -- worker reports itself idle.
  unfoldable pub finish : Queue → ℕ → Task → Bool → Queue
  finish q index t gives_up = record q {
    arena = if gives_up then heap_push q.arena (some t) else q.arena;
    signal = q.signal ++ index ∷ [];
  }

-- What the loop of `Run` keeps in its variables, in nanoseconds.
pub record Waiting : Type 0 where
  pub now_wait_time : ℤ
  pub times : ℕ

-- `baseWaitTime * (1 << times)`, with a base of one millisecond
unfoldable pub doubled : ℕ → ℤ
doubled times = int64 (1000000 * 2 ^ times)

-- A turn of `Run` that reads `remained`, up to the sleep for `now_wait_time`.
unfoldable pub on_remained : Queue → Waiting → Queue × Waiting
on_remained q w =
    if q.loaf
    then (
      record q { remained = true },
      record {
        now_wait_time =
            if ltb_ℤ (pos q.max_sleep_time) (doubled w.times)
            then pos q.max_sleep_time
            else doubled w.times;
        times = w.times + 1;
      },
    )
    else (record q { remained = false }, record { now_wait_time = pos 1000000; times = 1 })

-- A turn of `Run` that reads `signal`: an idle worker gets the last task of the arena, or goes back.
unfoldable pub on_signal : Queue → Run Queue
on_signal q = elim q.signal [
  | [] ↦ ok q
  | ◌∷◌ work_index idle ↦
      let assigned : Run Queue = do
        r ← pop q.arena
        t ← or_panic r.0
        given ← check (ltb work_index (length q.work))
        ok (record q { arena = r.1; signal = idle; work = set q.work work_index (some t) })
      in if leb (length q.arena) 0
        then ok (record q { loaf = true; remained = true; signal = idle ++ work_index ∷ [] })
        else assigned
]
