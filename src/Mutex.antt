-- ===== src/Mutex.antt =====
-- sync/mutex.go and sync/rwmutex.go. The state of a Mutex is one word: bit 0 is mutexLocked, bit 1
-- mutexWoken, bit 2 mutexStarving, and the rest the number of waiters. The functions compute what each
-- atomic access reads and writes; the semaphore, the clock and the spinning are the runtime's.
pub mod Steps
pub mod Exclusion
pub mod Readers
mod Tests
use gocore.Common.{
  ℕ, zero, suc, ◌+◌, ◌-◌, ◌/◌, ◌%◌, ◌≡◌, Bool, true, false, ◌&&◌, ◌||◌, not, Option, none, some,
  ◌==◌, if◌then◌else◌,
}
use gocore.Common.Run.{Run, ok, panic, ◌>>=◌}

abbrev pub locked : ℕ → Bool
locked w = w % 2 == 1

abbrev pub woken : ℕ → Bool
woken w = w / 2 % 2 == 1

abbrev pub starving : ℕ → Bool
starving w = w / 4 % 2 == 1

-- `w >> mutexWaiterShift`
abbrev pub waiters : ℕ → ℕ
waiters w = w / 8

-- `w | mutexLocked`, and so on; `clear_woken` is `w &^ mutexWoken`.
abbrev pub or_locked : ℕ → ℕ
or_locked w = if locked w then w else w + 1

abbrev pub or_woken : ℕ → ℕ
or_woken w = if woken w then w else w + 2

abbrev pub or_starving : ℕ → ℕ
or_starving w = if starving w then w else w + 4

abbrev pub clear_woken : ℕ → ℕ
clear_woken w = if woken w then w - 2 else w

-- `TryLock` once it has read `old`: the word that it swaps in, or `none` when it gives up.
unfoldable pub try_lock : ℕ → Option ℕ
try_lock old = if locked old || starving old then none else some (or_locked old)

-- The spinning branch of `lockSlow`: the word that it swaps in to be woken, if it tries to.
unfoldable pub spin : ℕ → Bool → Option ℕ
spin old awoke =
    if locked old && not (starving old) && not awoke && not (woken old) && not (waiters old == 0)
    then some (or_woken old)
    else none

-- The rest of a turn of `lockSlow`: the word that it swaps in for `old`. `throw` ends the program.
unfoldable pub wanted : ℕ → Bool → Bool → Run ℕ
wanted old hungry awoke =
    let taken = if starving old then old else or_locked old in
    let queued = if locked old || starving old then taken + 8 else taken in
    let new = if hungry && locked old then or_starving queued else queued in
    if awoke then (if woken new then ok (clear_woken new) else panic) else ok new

-- What a caller does that the semaphore has woken and that finds the mutex starving: it throws if the
-- word does not fit, and else has the mutex handed over. `hungry` is its own `starving`.
unfoldable pub handed : ℕ → Bool → Run ℕ
handed old hungry =
    let less_one = old - 8 + 1 in
    if locked old || woken old || waiters old == 0
    then panic
    else if not hungry || waiters old == 1
    then ok (less_one - 4)
    else ok less_one

-- `Unlock`'s subtraction from a word and the test of `unlockSlow`: a mutex that is not locked throws.
unfoldable pub unlock : ℕ → Run ℕ
unlock w = if locked w then ok (w - 1) else panic

-- What `unlockSlow` does about the waiters with the word it has read: nothing, wake one by swapping in a
-- word, or, in starving mode, hand the mutex over.
pub data Release : Type 0 where
  nothing : Release
  wake : ℕ → Release
  hand_over : Release

unfoldable pub release : ℕ → Release
release old =
    if starving old
    then nothing
    else if waiters old == 0 || locked old || woken old
    then nothing
    else wake (or_woken (old - 8))

unfoldable pub unlock_slow : ℕ → Release
unlock_slow new = if starving new then hand_over else release new
