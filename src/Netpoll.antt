-- ===== src/Netpoll.antt =====
-- netpoll/fd_operator.go: the state of an operator, which the poller and the connections compare and swap.
pub mod Exclusion
pub mod Polls
pub mod Buffer
pub mod ZcReader
pub mod ZcWriter
pub mod Connection
pub mod PollDesc
mod Tests
mod Buffers
mod Conns
mod LineTests
use gocore.Common.{ℕ, ◌==◌, Bool, true, false, if◌then◌else◌}

-- `atomic.CompareAndSwapInt32`: whether it swaps, and the word afterwards.
unfoldable pub compare_and_swap : ℕ → ℕ → ℕ → Bool × ℕ
compare_and_swap old new word = if word == old then (true, new) else (false, word)

-- 0 is unused, 1 in use, and 2 at work.
unfoldable pub start : ℕ → Bool × ℕ
unfolding compare_and_swap
start state = compare_and_swap 1 2 state

abbrev pub finish : ℕ → ℕ
finish state = 1

-- A turn of the loop of `inuse`: whether the loop ends, and the state.
unfoldable pub inuse : ℕ → Bool × ℕ
unfolding compare_and_swap
inuse state = let r = compare_and_swap 0 1 state in (if r.0 then true else r.1 == 1, r.1)

-- A turn of the loop of `unused`.
unfoldable pub unused : ℕ → Bool × ℕ
unfolding compare_and_swap
unused state = let r = compare_and_swap 1 0 state in (if r.0 then true else r.1 == 0, r.1)

unfoldable pub is_unused : ℕ → Bool
is_unused state = state == 0
