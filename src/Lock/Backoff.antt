-- ===== src/Lock/Backoff.antt =====
-- go-lock.go: the loop of Lock, and how long it sleeps between its attempts.
use native.Mathlib.Nat.{
  div-div-eq-div-mul, div-eq_of_lt-le, pow-suc, add-mul, one-mul, suc-mul, zero-mul, div-one,
  div-eq_of_lt, le-div_iff_mul-le, pow-le-pow_right,
}
use gocore.Common.{
  ℕ, zero, suc, ◌+◌, ◌*◌, ◌/◌, ◌^◌, ◌≤◌, ◌<◌, ◌≡◌, refl, sym, ap, ◌∙◌, Bool, true, false, List, [],
  ◌∷◌, inl, inr, arith, ltb, if◌then◌else◌, Bool-cases,
}
use gocore.Common.Int.{ℤ, pos, negsuc, ltb_ℤ}
use gocore.Common.Run.{Run, ok, out_of_fuel, ◌>>=◌}
use gocore.Lock.Config.{Config, Mutex}

-- The attempt `i` answers as `answer i` says. The result is the times slept; the fuel is the number of attempts.
lock_loop : ℕ → ℤ → (ℕ → Bool) → ℕ → ℕ → ℕ → Run (List ℕ)
lock_loop zero reties answer i time_offset retry_times = out_of_fuel
lock_loop (suc fuel) reties answer i time_offset retry_times =
    let retried = retry_times + 1 in
    let halved = lock_loop fuel reties answer (suc i) (time_offset / 2) 0 in
    let same = lock_loop fuel reties answer (suc i) time_offset retried in
    let rest = if ltb_ℤ (pos retried) reties then same else halved in
    if answer i then ok [] else (rest >>= λ times. ok (time_offset ∷ times))

-- Lock: after a success a goroutine renews the key until it takes a signal.
unfoldable pub lock : ℕ → Config → Mutex → (ℕ → Bool) → Run (Mutex × List ℕ)
unfolding lock_loop
lock fuel c m answer = lock_loop fuel c.reties answer 0 c.max_offset_time 0 >>= λ times.
    ok (record m { renewing = suc m.renewing }, times)

-- The attempts at one offset: at least one.
abbrev pub attempts : ℤ → ℕ
attempts (pos zero) = 1
attempts (pos (suc n)) = suc n
attempts (negsuc n) = 1

-- The time slept after the attempt `i`, in closed form.
unfoldable pub offset_at : Config → ℕ → ℕ
offset_at c i = c.max_offset_time / 2 ^ (i / attempts c.reties)

-- Those after the `n` attempts from `i` on.
unfoldable pub offsets : Config → ℕ → ℕ → List ℕ
offsets c i zero = []
offsets c i (suc n) = offset_at c i ∷ offsets c (suc i) n

below_reties : (n : ℕ) (z : ℤ) → ltb_ℤ (pos (n + 1)) z ≡ ltb (n + 1) (attempts z)
below_reties n (pos zero) = ground arith
below_reties n (pos (suc m)) = ground arith
below_reties n (negsuc m) = ground arith

attempts_pos : (z : ℤ) → 1 ≤ attempts z
attempts_pos (pos zero) = omega arith
attempts_pos (pos (suc n)) = omega arith
attempts_pos (negsuc n) = omega arith

halve : (m k : ℕ) → m / 2 ^ k / 2 ≡ m / 2 ^ suc k
halve m k = div-div-eq-div-mul m (2 ^ k) 2 ∙ ap (λ d. m / d) (sym (pow-suc 2 k))

offset_at-halved :
    (c : Config) (i k r : ℕ)
    → i ≡ k * attempts c.reties + r
    → r < attempts c.reties
    → offset_at c i ≡ c.max_offset_time / 2 ^ k
unfolding offset_at
offset_at-halved c i k r at_ small =
    ap (λ e. c.max_offset_time / 2 ^ e) (div-eq_of_lt-le q (omega arith) (omega (arith, one_more)))
  where
    q : ℕ
    q = attempts c.reties

    one_more : (k + 1) * q ≡ k * q + q
    one_more = add-mul k 1 q ∙ ap (λ n. k * q + n) (one-mul q)

loop_last :
    (fuel : ℕ) (z : ℤ) (answer : ℕ → Bool) (i o r : ℕ)
    → answer i ≡ true
    → lock_loop (suc fuel) z answer i o r ≡ ok []
unfolding lock_loop
loop_last fuel z answer i o r h = rw h refl

loop_next :
    (fuel : ℕ) (z : ℤ) (answer : ℕ → Bool) (i o r : ℕ)
    → answer i ≡ false
    → lock_loop (suc fuel) z answer i o r ≡ (
        (if ltb (r + 1) (attempts z)
          then lock_loop fuel z answer (suc i) o (r + 1)
          else lock_loop fuel z answer (suc i) (o / 2) 0)
        >>= λ times. ok (o ∷ times))
unfolding lock_loop
loop_next fuel z answer i o r h = rw (h, below_reties r z) refl

-- The attempt `i` is number `r` of those at the offset that has been halved `k` times.
lock_loop-offsets :
    (c : Config) (answer : ℕ → Bool) (n fuel i k r : ℕ)
    → n < fuel
    → ((j : ℕ) → j < n → answer (i + j) ≡ false)
    → answer (i + n) ≡ true
    → i ≡ k * attempts c.reties + r
    → r < attempts c.reties
    → lock_loop fuel c.reties answer i (c.max_offset_time / 2 ^ k) r ≡ ok (offsets c i n)
unfolding offsets
lock_loop-offsets c answer n zero i k r p no_ yes_ at_ small = elim p [ ]
lock_loop-offsets c answer zero (suc fuel) i k r p no_ yes_ at_ small =
    loop_last fuel c.reties answer i _ r (ap answer here ∙ yes_)
  where
    here : i ≡ i + 0
    here = omega arith
lock_loop-offsets c answer (suc n) (suc fuel) i k r p no_ yes_ at_ small =
    loop_next fuel c.reties answer i _ r (ap answer here ∙ no_ 0 (omega arith))
    ∙ rw (offset_at-halved c i k r at_ small) (elim (Bool-cases (ltb (r + 1) (attempts c.reties))) [
      | inl more ↦ rw more (
          rw
            (lock_loop-offsets c answer n fuel (suc i) k (r + 1) (omega arith) later last
              (omega arith) (ground arith))
            refl)
      | inr full ↦
          rw (full, halve c.max_offset_time k)
            (rw
              (lock_loop-offsets c answer n fuel (suc i) (suc k) 0 (omega arith) later last
                (rounded (ground arith)) (attempts_pos c.reties))
              refl)
    ])
  where
    here : i ≡ i + 0
    here = omega arith

    later : (j : ℕ) → j < n → answer (suc i + j) ≡ false
    later j q = ap answer (omega arith) ∙ no_ (suc j) (omega arith)

    last : answer (suc i + n) ≡ true
    last = ap answer (omega arith) ∙ yes_

    rounded : attempts c.reties ≤ r + 1 → suc i ≡ suc k * attempts c.reties + 0
    rounded q = omega (arith, suc-mul k (attempts c.reties))

-- If the attempt `n` is the first that takes the key, Lock returns after it; the time slept after the attempt
-- `i` is the greatest offset halved once for each full round of attempts.
pub lock-offsets :
    (fuel : ℕ) (c : Config) (m : Mutex) (answer : ℕ → Bool) (n : ℕ)
    → n < fuel
    → ((i : ℕ) → i < n → answer i ≡ false)
    → answer n ≡ true
    → lock fuel c m answer ≡ ok (record m { renewing = suc m.renewing }, offsets c 0 n)
unfolding lock
lock-offsets fuel c m answer n p no_ yes_ =
    let whole =
      lock_loop-offsets c answer n fuel 0 0 0 p (λ j q. ap answer (omega arith) ∙ no_ j q)
        (ap answer (omega arith) ∙ yes_) (omega (arith, zero-mul (attempts c.reties)))
        (attempts_pos c.reties) in
    rw (ap (λ o. lock_loop fuel c.reties answer 0 o 0) (sym (div-one c.max_offset_time)) ∙ whole)
      refl

-- Once the greatest offset has been halved away Lock no longer sleeps between its attempts.
pub offset_at-spins :
    (c : Config) (i k : ℕ)
    → c.max_offset_time < 2 ^ k
    → k * attempts c.reties ≤ i
    → offset_at c i ≡ 0
unfolding offset_at
offset_at-spins c i k small late =
    let rounds = (le-div_iff_mul-le (attempts_pos c.reties)).1 late in
    let powers = pow-le-pow_right {n = 2} (omega arith) rounds in
    div-eq_of_lt (omega (arith, powers))
