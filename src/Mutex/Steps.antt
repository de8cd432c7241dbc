-- ===== src/Mutex/Steps.antt =====
-- sync/mutex.go: the atomic accesses of any number of callers, in any order. A caller that swaps has read
-- the word before; the swap goes through when the word is still the one it has read.
use gocore.Common.{
  ℕ, suc, ◌+◌, ◌-◌, ◌≡◌, Bool, true, false, ◌||◌, List, [], ◌∷◌, ◌++◌, some, if◌then◌else◌,
}
use gocore.Common.Run.{ok}
use gocore.Mutex.{locked, starving, try_lock, spin, wanted, handed, unlock, release, wake}

-- A handover in starving mode that is not done yet: the word that the caller has read, and the one that it computes
-- from it. It adds the difference to the word that it finds later.
pub record Handing : Type 0 where
  pub old : ℕ
  pub new : ℕ

-- The word, the number of callers that hold the mutex, the permits of the semaphore that were released and not taken,
-- the callers in `lockSlow` whose `awoke` is set and who are not asleep, and the handovers that are not done.
pub record State : Type 0 where
  pub word : ℕ
  pub holders : ℕ
  pub permits : ℕ
  pub awake : ℕ
  pub handing : List Handing

-- A holder that unlocks in starving mode releases the semaphore.
abbrev pub given : ℕ → ℕ → ℕ
given new permits = if starving new then suc permits else permits

-- The accesses. A permit is taken with the read of the word behind it, and given with the access before it: no other
-- caller can tell when. `starving` of a caller is set only after it has slept, when its `awoke` is, too.
pub data Step (s : State) : State → Type 0 where
  fast : s.word ≡ 0 → Step s (record s { word = 1; holders = suc s.holders })
  try_it :
      {new : ℕ}
      → try_lock s.word ≡ some new
      → Step s (record s { word = new; holders = suc s.holders })
  spin_it :
      {new : ℕ}
      → spin s.word false ≡ some new
      → Step s (record s { word = new; awake = suc s.awake })
  take :
      {new : ℕ}
      → (locked s.word || starving s.word) ≡ false
      → wanted s.word false false ≡ ok new
      → Step s (record s { word = new; holders = suc s.holders })
  take_awake :
      {new n : ℕ} (hungry : Bool)
      → s.awake ≡ suc n
      → (locked s.word || starving s.word) ≡ false
      → wanted s.word hungry true ≡ ok new
      → Step s (record s { word = new; holders = suc s.holders; awake = n })
  queue :
      {new : ℕ}
      → (locked s.word || starving s.word) ≡ true
      → wanted s.word false false ≡ ok new
      → Step s (record s { word = new })
  queue_awake :
      {new n : ℕ} (hungry : Bool)
      → s.awake ≡ suc n
      → (locked s.word || starving s.word) ≡ true
      → wanted s.word hungry true ≡ ok new
      → Step s (record s { word = new; awake = n })
  wake_up :
      {n : ℕ}
      → s.permits ≡ suc n
      → starving s.word ≡ false
      → Step s (record s { permits = n; awake = suc s.awake })
  read_starving :
      {new n : ℕ} (hungry : Bool)
      → s.permits ≡ suc n
      → starving s.word ≡ true
      → handed s.word hungry ≡ ok new
      → Step s (record s { permits = n; handing = record { old = s.word; new = new } ∷ s.handing })
  hand :
      (before after : List Handing) (h : Handing)
      → s.handing ≡ before ++ h ∷ after
      → Step s (record s {
        word = s.word + h.new - h.old;
        holders = suc s.holders;
        handing = before ++ after;
      })
  let_go :
      {new n : ℕ}
      → s.holders ≡ suc n
      → unlock s.word ≡ ok new
      → Step s (record s { word = new; holders = n; permits = given new s.permits })
  wake_one :
      {new : ℕ}
      → release s.word ≡ wake new
      → Step s (record s { word = new; permits = suc s.permits })

abbrev pub unlocked : State
unlocked = record { word = 0; holders = 0; permits = 0; awake = 0; handing = [] }

-- Reached from the zero value of Mutex.
pub data Reach : State → Type 0 where
  start : Reach unlocked
  later : {s t : State} → Reach s → Step s t → Reach t
