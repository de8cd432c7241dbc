-- ===== src/Lock/Tests.antt =====
-- A server that keeps its keys in memory, two machines, and the theorems at them.
use gocore.Common.{
  ℕ, ◌≡◌, ◌≢◌, refl, ap, ◌∙◌, Bool, true, false, [], ◌∷◌, Option, none, some, arith, leb, ◌==◌,
  ==_iff, if◌then◌else◌,
}
use gocore.Common.Int.{ℤ, pos}
use gocore.Common.Run.{ok}
use gocore.Common.Dicts.{Dict, find, put, erase, find-put, find-erase}
use gocore.Lock.Redis.{Redis, arrives}
use gocore.Lock.Config.{Config, Mutex}
use gocore.Lock.Calls.{delay}
use gocore.Lock.Renewal.{delay-keeps}
use gocore.Lock.Nodes.{System}
use gocore.Lock.Backoff.{lock, offset_at, offsets, lock-offsets}

abbrev answer : Option ℕ → ℕ → ℕ → Dict ℕ → Bool × Dict ℕ
answer none k v s = (true, put k v s)
answer (some w) k v s = (false, s)

abbrev status : Option ℕ → ℤ
status none = pos 0
status (some w) = pos 1

same_key : (k : ℕ) → (k == k) ≡ true
same_key k = (==_iff k k).1 refl

free_lem :
    (k v : ℕ) (s : Dict ℕ)
    → find k s ≡ none
    → ((answer (find k s) k v s).0 ≡ true) × (find k (answer (find k s) k v s).1 ≡ some v)
free_lem k v s h = rw h (refl, find-put k k v s ∙ rw (same_key k) refl)

held_lem :
    (k v : ℕ) (s : Dict ℕ) {w : ℕ}
    → find k s ≡ some w
    → ((answer (find k s) k v s).0 ≡ false) × (find k (answer (find k s) k v s).1 ≡ some w)
held_lem k v s h = rw h (refl, h)

-- It knows both scripts from the start, and no key expires.
abbrev memory : Redis
memory = record {
  Server = Dict ℕ;
  holder = find;
  set_nx = λ k v t s. answer (find k s) k v s;
  pexpire = λ k t s. (status (find k s), s);
  del = λ k s. (1, erase k s);
  knows = λ c s. true;
  learn = λ c s. s;
  set_nx_free = λ k v t s h. free_lem k v s h;
  set_nx_held = λ k v t s h. held_lem k v s h;
  pexpire_holder = λ k t s p h. (ap status h, h);
  del_holder = λ k s. find-erase k k s ∙ rw (same_key k) refl;
  learn_holder = λ k c s. refl;
}

-- The machine 4, and the machine 5.
abbrev machine : ℕ → Config
machine n = record {
  cancel_time = 1000000000;
  max_offset_time = 10000000;
  expires_time = 3000000000;
  reties = pos 2;
  delegate = some 1;
  node_id = n;
}

-- The key 7 is held by the machine 5.
abbrev of_5 : Dict ℕ
of_5 = (7, 5) ∷ []

abbrev two_tries : System memory
two_tries = record { server = (7, 4) ∷ []; held = λ j. if 4 == j then true else false }

delay-keeps_example :
    (find 7 (delay memory (machine 4) 7 true arrives arrives of_5).2 ≡ some 5)
    × (◌≢◌ {A = ℕ} 5 4 → (delay memory (machine 4) 7 true arrives arrives of_5).0 ≡ false)
unfolding find
delay-keeps_example =
    delay-keeps memory 7 (machine 4) (some 5) true arrives arrives of_5 (omega arith) refl

abbrev free_mutex : Mutex
free_mutex = record { name = 7; renewing = 0 }

-- The fourth attempt takes the key, after two sleeps of 10 ms and one of 5 ms.
lock-offsets_example :
    lock 9 (machine 4) free_mutex (λ i. leb 3 i)
    ≡ ok (record { name = 7; renewing = 1 }, 10000000 ∷ 10000000 ∷ 5000000 ∷ [])
unfolding offsets offset_at
lock-offsets_example =
    lock-offsets 9 (machine 4) free_mutex (λ i. leb 3 i) 3 (omega arith) (λ i p. ground arith) refl
