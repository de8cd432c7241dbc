-- ===== src/Mutex/Readers.antt =====
-- sync/rwmutex.go: the counts of readers, and the writer that waits for them. `word` is the state of the
-- Mutex within.
use gocore.Common.{
  List, [], ◌∷◌, ◌++◌, replicate, ℕ, zero, suc, ◌<◌, ◌≡◌, refl, Bool, true, false, ◌||◌, ◌&&◌, not,
  none, some, arith, if◌then◌else◌, ◌==◌,
}
use gocore.Common.Int.{ℤ, pos, negsuc, ◌+ℤ◌, ◌-ℤ◌, ltb_ℤ, pos_part, neg_part, int_laws, eq_of_parts}
use gocore.Common.Run.{Run, ok, panic, ◌>>=◌}
use gocore.Mutex.{try_lock, unlock}

pub record RwMutex : Type 0 where
  pub word : ℕ
  pub reader_count : ℤ
  pub reader_wait : ℤ

abbrev pub max_readers : ℕ
max_readers = 1073741824

abbrev is_zero : ℤ → Bool
is_zero a = pos_part a == 0 && neg_part a == 0

-- `RLock` up to the semaphore: true when the caller has the lock, false when it waits for the writer.
unfoldable pub r_lock : RwMutex → Bool × RwMutex
r_lock m =
    let count = m.reader_count +ℤ pos 1 in
    (not (ltb_ℤ count (pos 0)), record m { reader_count = count })

unfoldable pub try_r_lock : RwMutex → Bool × RwMutex
try_r_lock m =
    if ltb_ℤ m.reader_count (pos 0)
    then (false, m)
    else (true, record m { reader_count = m.reader_count +ℤ pos 1 })

-- `RUnlock`: whether it wakes the writer. It throws where no reader holds the lock.
unfoldable pub r_unlock : RwMutex → Run (Bool × RwMutex)
r_unlock m =
    let r = m.reader_count -ℤ pos 1 in
    let wait = m.reader_wait -ℤ pos 1 in
    if not (ltb_ℤ r (pos 0))
    then ok (false, record m { reader_count = r })
    else if is_zero (r +ℤ pos 1) || is_zero (r +ℤ pos 1 +ℤ pos max_readers)
    then panic
    else ok (is_zero wait, record m { reader_count = r; reader_wait = wait })

-- `Lock` once it has the inner mutex: true when there is no reader to wait for.
unfoldable pub lock : RwMutex → Bool × RwMutex
lock m =
    let r = m.reader_count in
    let wait = m.reader_wait +ℤ r in
    let announced = m.reader_count -ℤ pos max_readers in
    if is_zero r
    then (true, record m { reader_count = announced })
    else (is_zero wait, record m { reader_count = announced; reader_wait = wait })

-- `TryLock`, when nobody else comes in between: the swap of readerCount that goes through leads to the
-- unlocking and to `false`.
unfoldable pub try_write : RwMutex → Run (Bool × RwMutex)
try_write m = elim (try_lock m.word) [
  | none ↦ ok (false, m)
  | some w ↦
      let undone = unlock w >>= λ w'.
      ok (false, record m { word = w'; reader_count = pos 0 -ℤ pos max_readers }) in
      if is_zero m.reader_count then undone else ok (true, record m { word = w })
]

abbrev pub with_readers : ℕ → ℤ → ℤ → RwMutex
with_readers w count wait = record { word = w; reader_count = count; reader_wait = wait }

-- TryLock on a free mutex does the opposite of what it promises: without a reader it returns false and
-- leaves the count of readers as a writer would, and with readers it returns true and keeps the mutex.
pub try_write_lem :
    (n : ℕ) (wait : ℤ)
    → try_write (with_readers 0 (pos n) wait)
      ≡ ok (
          if n == 0
          then (false, with_readers 0 (negsuc 1073741823) wait)
          else (true, with_readers 1 (pos n) wait))
unfolding try_write try_lock unlock ◌-ℤ◌
try_write_lem zero wait = refl
try_write_lem (suc n) wait = let filled : (suc n == 0) ≡ false = ground arith in rw filled refl

not_negative : (n : ℕ) → ltb_ℤ (pos n) (pos 0) ≡ false
not_negative n = ground arith

one_more : (n : ℕ) → pos n +ℤ pos 1 ≡ pos (suc n)
one_more n = eq_of_parts (pos n +ℤ pos 1) (pos (suc n)) (omega int_laws)

one_less : (n : ℕ) → pos (suc n) -ℤ pos 1 ≡ pos n
one_less n = eq_of_parts (pos (suc n) -ℤ pos 1) (pos n) (omega int_laws)

-- A reader that comes and goes while no writer waits changes nothing.
pub r_unlock-r_lock :
    (n w : ℕ) (wait : ℤ)
    → ((r_lock (with_readers w (pos n) wait)).0 ≡ true)
      × (r_unlock (r_lock (with_readers w (pos n) wait)).1
          ≡ ok (false, with_readers w (pos n) wait))
unfolding r_unlock r_lock
r_unlock-r_lock n w wait =
    (rw (one_more n, not_negative (suc n)) refl, rw (one_more n, one_less n, not_negative n) refl)

-- A writer waits for `n` readers.
abbrev pub waiting : ℕ → ℕ → RwMutex
waiting w n = with_readers w (pos n -ℤ pos max_readers) (pos n)

below_zero : (n : ℕ) → n < max_readers → ltb_ℤ (pos n -ℤ pos max_readers) (pos 0) ≡ true
unfolding ◌-ℤ◌
below_zero n h = ground arith

one_gone : (n : ℕ) → pos (suc n) -ℤ pos max_readers -ℤ pos 1 ≡ pos n -ℤ pos max_readers
one_gone n = eq_of_parts _ _ (omega int_laws)

not_none : (n : ℕ) → suc n < max_readers → is_zero (pos n -ℤ pos max_readers +ℤ pos 1) ≡ false
unfolding ◌-ℤ◌ ◌+ℤ◌
not_none n h = ground arith

not_all : (n : ℕ) → pos n -ℤ pos max_readers +ℤ pos 1 +ℤ pos max_readers ≡ pos (suc n)
not_all n = eq_of_parts _ _ (omega int_laws)

some_left : (n : ℕ) → is_zero (pos (suc n)) ≡ false
some_left n = ground arith

r_unlock-waiting :
    (w n : ℕ)
    → suc n < max_readers
    → r_unlock (waiting w (suc n)) ≡ ok (is_zero (pos n), waiting w n)
unfolding r_unlock
r_unlock-waiting w n h =
    rw (one_gone n, one_less n, below_zero n (omega arith), not_none n h, not_all n, some_left n)
      refl

-- RUnlock `n` times: whether each of them wakes the writer.
abbrev pub r_unlock_many : ℕ → RwMutex → Run (List Bool × RwMutex)
r_unlock_many zero m = ok ([], m)
r_unlock_many (suc n) m = r_unlock m >>= λ r. r_unlock_many n r.1 >>= λ s. ok (r.0 ∷ s.0, s.1)

many-waiting :
    (w n : ℕ)
    → suc n < max_readers
    → r_unlock_many (suc n) (waiting w (suc n)) ≡ ok (replicate n false ++ true ∷ [], waiting w 0)
many-waiting w zero h = rw (r_unlock-waiting w zero h) refl
many-waiting w (suc n) h =
    rw (r_unlock-waiting w (suc n) h, some_left n, many-waiting w n (omega arith)) refl

-- A writer that finds readers waits for exactly those: each of them can unlock, and the last one, and no
-- other, wakes it.
pub r_unlock_many-lock :
    (w n : ℕ)
    → suc n < max_readers
    → ((lock (with_readers w (pos (suc n)) (pos 0))).0 ≡ false)
      × (r_unlock_many (suc n) (lock (with_readers w (pos (suc n)) (pos 0))).1
          ≡ ok (replicate n false ++ true ∷ [], waiting w 0))
unfolding lock
r_unlock_many-lock w n h =
    let wait : pos 0 +ℤ pos (suc n) ≡ pos (suc n) = eq_of_parts _ _ (omega int_laws) in
    rw (some_left n, wait, some_left n) (refl, many-waiting w n h)
