-- ===== src/Mutex/Tests.antt =====
-- sync/mutex.go and sync/rwmutex.go on a few callers: the theorems applied.
use gocore.Common.{◌%◌, ◌≤◌, ◌≡◌, refl, true, false, some, []}
use gocore.Common.Int.{pos, negsuc}
use gocore.Common.Run.{ok}
use gocore.Mutex.{wanted, unlock, unlock_slow, release, hand_over, handed, spin}
use gocore.Mutex.Steps.{Reach, start, later, fast, queue, let_go, wake_one, wake_up, take_awake}
use gocore.Mutex.Exclusion.{at_most_one}
use gocore.Mutex.Readers.{with_readers, try_r_lock}

-- One caller locks, a second queues, the first unlocks and wakes the second, which takes the mutex.
passed_on : Reach (record { word = 1; holders = 1; permits = 0; awake = 0; handing = [] })
unfolding wanted unlock release
passed_on =
    let held = later (later start (fast refl)) (queue refl refl) in
    let woken = later (later (later held (let_go refl refl)) (wake_one refl)) (wake_up refl refl) in
    later woken (take_awake false refl refl refl)

-- In starving mode the mutex is handed to the one waiter, and the mode ends.
starving_unlocked : unlock_slow 12 ≡ hand_over
unfolding unlock_slow
starving_unlocked = refl

starving_handed : handed 12 true ≡ ok 1
unfolding handed
starving_handed = refl

spun : spin 9 false ≡ some 11
unfolding spin
spun = refl

reader_refused : (try_r_lock (with_readers 1 (negsuc 3) (pos 2))).0 ≡ false
unfolding try_r_lock
reader_refused = refl

at_most_one_example : (1 ≤ 1) × (1 ≡ 1 % 2)
at_most_one_example = at_most_one passed_on
