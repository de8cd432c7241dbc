-- ===== src/RetryQueue/Schedule.antt =====
-- retryQueue.go: which task `Run` hands to an idle worker, and how long it sleeps while there is none.
use native.Mathlib.Numerals.{unary_clauses}
use Prim.Native.Nat.{min}
use gocore.Common.{
  ℕ, zero, suc, ◌+◌, ◌-◌, ◌*◌, ◌^◌, ◌%◌, ◌<◌, ◌≤◌, ◌≡◌, refl, ap, ◌∙◌, List, [], ◌∷◌, ◌++◌, true,
  false, Option, some, arith, leb, ltb, if◌then◌else◌, length, length-append, take, set, get_elem?,
  lt→ltb,
}
use gocore.Common.Int.{int64, pos, ltb_ℤ}
use gocore.Common.Run.{ok}
use gocore.RetryQueue.{Queue, Task, TaskArena, Waiting, on_signal, on_remained, pop, doubled}

last_of : (rest : TaskArena) (x : Option Task) → get_elem? (rest ++ x ∷ []) (length rest) ≡ some x
last_of [] x = refl
last_of (a ∷ rest) x = last_of rest x

all_but_last : (rest : TaskArena) (x : Option Task) → take (length rest) (rest ++ x ∷ []) ≡ rest
all_but_last [] x = refl
all_but_last (a ∷ rest) x = ap (◌∷◌ a) (all_but_last rest x)

pop-append : (rest : TaskArena) (x : Option Task) → pop (rest ++ x ∷ []) ≡ ok (x, rest)
unfolding pop
pop-append rest x =
    let size : length (rest ++ x ∷ []) - 1 ≡ length rest =
      omega (arith, length-append rest (x ∷ [])) in
    rw (size, last_of rest x, all_but_last rest x) refl

-- An idle worker is given the task in the last place of the arena, whatever the priorities of the tasks
-- before it; it leaves the list of idle workers, and no other worker's task changes.
pub on_signal-last :
    (q : Queue) (rest : TaskArena) (t : Task) (i : ℕ) (idle : List ℕ)
    → q.arena ≡ rest ++ some t ∷ []
    → q.signal ≡ i ∷ idle
    → i < length q.work
    → on_signal q ≡ ok (record q { arena = rest; signal = idle; work = set q.work i (some t) })
unfolding on_signal
on_signal-last q rest t i idle e f p =
    let filled : leb (length (rest ++ some t ∷ [])) 0 ≡ false =
      ground (arith, length-append rest (some t ∷ [])) in
    let known : ltb i (length q.work) ≡ true = lt→ltb i (length q.work) p in
    rw (f, e, filled, pop-append rest (some t), known) refl

two_pow_suc : (n : ℕ) → 2 ^ suc n ≡ 2 ^ n * 2
two_pow_suc n = simp unary_clauses refl

-- 2^(58 + k) is a multiple of 2^58.
two_pow_high : (k : ℕ) → (x : ℕ) × (2 ^ (58 + k) ≡ 288230376151711744 * x)
two_pow_high zero = (1, refl)
two_pow_high (suc k) =
    let (x, e) = two_pow_high k in
    let next : 58 + suc k ≡ suc (58 + k) = omega arith in
    (x * 2, rw (next, two_pow_suc (58 + k)) (omega (arith, e)))

int64_multiple : (x : ℕ) → int64 (1000000 * (288230376151711744 * x)) ≡ pos 0
unfolding int64
int64_multiple x =
    let cleared : 1000000 * (288230376151711744 * x) % 18446744073709551616 ≡ 0 = omega arith in
    rw cleared refl

doubled_high : (k : ℕ) → doubled (58 + k) ≡ pos 0
unfolding doubled
doubled_high k = let (x, e) = two_pow_high k in rw e (int64_multiple x)

unbounded : (m : ℕ) → ltb_ℤ (pos m) (pos 0) ≡ false
unbounded m = ground arith

two_pow_pos : (n : ℕ) → 0 < 2 ^ n
two_pow_pos zero = omega arith
two_pow_pos (suc n) = omega (arith, two_pow_suc n, two_pow_pos n)

two_pow_bound : (n k : ℕ) → n + k ≡ 43 → 2 ^ n ≤ 8796093022208
two_pow_bound n zero e = let last : n ≡ 43 = omega (arith, e) in rw last (omega arith)
two_pow_bound n (suc k) e = omega (arith, two_pow_suc n, two_pow_bound (suc n) k (omega (arith, e)))

int64_small : (n : ℕ) → n < 9223372036854775808 → int64 n ≡ pos n
unfolding int64
int64_small n h =
    let same : n % 18446744073709551616 ≡ n = omega arith in
    let low : ltb n 9223372036854775808 ≡ true = lt→ltb n 9223372036854775808 h in
    rw (same, low) refl

doubled_low : (n : ℕ) → n ≤ 43 → doubled n ≡ pos (1000000 * 2 ^ n)
unfolding doubled
doubled_low n h =
    int64_small (1000000 * 2 ^ n) (omega (arith, two_pow_bound n (43 - n) (omega arith)))

pick_least : (m n : ℕ) → (if ltb_ℤ (pos m) (pos n) then pos m else pos n) ≡ pos (min m n)
pick_least m n = ground arith

-- In its first 43 idle turns the loop sleeps twice as long each time, within the bound.
pub on_remained-doubled :
    (q : Queue) (w : Waiting)
    → q.loaf ≡ true
    → w.times ≤ 43
    → (on_remained q w).1.now_wait_time ≡ pos (min q.max_sleep_time (1000000 * 2 ^ w.times))
unfolding on_remained
on_remained-doubled q w e h =
    rw (e, doubled_low w.times h) (pick_least q.max_sleep_time (1000000 * 2 ^ w.times))

-- With 58 idle turns behind it the loop no longer sleeps: the doubled time has lost all its bits, and
-- the bound on the sleep does not apply to a time of 0. It stays so, whatever number of turns follow.
pub on_remained-busy :
    (q : Queue) (w : Waiting) (k : ℕ)
    → q.loaf ≡ true
    → w.times ≡ 58 + k
    → ((on_remained q w).1.now_wait_time ≡ pos 0) × ((on_remained q w).1.times ≡ 58 + (k + 1))
unfolding on_remained
on_remained-busy q w k e f =
    let none_left : doubled w.times ≡ pos 0 = ap doubled f ∙ doubled_high k in
    rw (e, none_left, unbounded q.max_sleep_time) (refl, omega (arith, f))
