-- ===== src/RateLimiter/Returns.antt =====
-- rateLimiter.go: TryAcquire returns, also when it has to start a sweep first.
use mathlib.Core.Path.{subst, sym}
use gocore.Common.{
  Bool, if◌then◌else◌, ap, ◌%◌, ◌≡◌, ◌≢◌, refl, List, ◌∷◌, true, false, arith, Bool-cases, inl, inr,
  ◌==◌,
}
use gocore.Common.Int.{ℤ, pos, ◌+ℤ◌, ◌-ℤ◌, ◌≤ℤ◌, ltb_ℤ, int_laws, parts_eq, pos_part}
use gocore.Common.Run.{Run, ok, Returns}
use gocore.RateLimiter.{Limiter, acquire, clear, clear_loop, rem, magnitude, try_acquire}
use gocore.RateLimiter.Bounds.{
  IsBalanced, clear-IsBalanced, grant-IsBalanced, clear_loop-frame, quot_total, not_below,
}

rem_total : (a b : ℤ) → magnitude b ≢ 0 → (q : ℤ) × (rem a b ≡ ok q)
unfolding rem
rem_total a b h =
    let nonzero : (magnitude b == 0) ≡ false = ground arith in
    elim (Bool-cases (ltb_ℤ a (pos 0))) [
      | inl e ↦ (pos 0 -ℤ pos (magnitude a % magnitude b), rw (nonzero, e))
      | inr e ↦ (pos (magnitude a % magnitude b), rw (nonzero, e))
    ]

-- A sweep sets the base time forward, clears the flag and keeps the settings.
clear_total :
    (s : Limiter) (diff index : ℤ)
    → magnitude s.sub_windows_size ≢ 0
    → (t : Limiter) × (clear diff index s ≡ ok t)
      × (t.clear_flag ≡ false)
      × (t.timestamp ≡ s.timestamp +ℤ diff)
      × (t.windows_size ≡ s.windows_size)
      × (t.small_windows_distance ≡ s.small_windows_distance)
unfolding clear
clear_total s diff index h =
    let (r, q) = rem_total index s.sub_windows_size h in
    let moved : Limiter = record s { timestamp = s.timestamp +ℤ diff } in
    let n = pos_part (r +ℤ pos 1) in
    let frame = clear_loop-frame n 0 moved in
    (
      record (clear_loop n 0 moved) { clear_flag = false },
      rw q refl,
      refl,
      ap (λ l. l.timestamp) frame,
      ap (λ l. l.windows_size) frame,
      ap (λ l. l.small_windows_distance) frame,
    )

-- A pass that finds the flag 0 does not wait.
no_wait :
    {A : Type 0} (P : A → Type 0) (flag : Bool) (waits passes : Run A)
    → flag ≡ false
    → Returns P passes
    → Returns P (if flag then waits else passes)
no_wait P true waits passes e h = cc
no_wait P false waits passes e h = h

early-Returns :
    (s : Limiter) (now : ℤ) (clock : List ℤ)
    → IsBalanced s
    → s.clear_flag ≡ false
    → magnitude s.small_windows_distance ≢ 0
    → ltb_ℤ s.windows_size (now -ℤ s.timestamp) ≡ false
    → Returns (λ r. IsBalanced r.1) (try_acquire (now ∷ clock) s)
unfolding try_acquire acquire
early-Returns s now clock b idle distance early =
    let (i, q) = quot_total (now -ℤ s.timestamp) s.small_windows_distance distance in
    no_wait _ s.clear_flag _ _ idle (elim (Bool-cases (ltb_ℤ s.total_count s.permits_per_windows)) [
      | inl free ↦ rw (q, early, free) (grant-IsBalanced s i b free)
      | inr full ↦ rw (q, early, full) b
    ])

not_late :
    (size next now base start : ℤ)
    → base ≡ start +ℤ (now -ℤ start)
    → next -ℤ now ≤ℤ size
    → ltb_ℤ size (next -ℤ base) ≡ false
not_late size next now base start e h = not_below size (next -ℤ base) (omega (int_laws, parts_eq e))

-- A call of TryAcquire that no other caller meets returns, after one sweep at most, and the counts still add up. The
-- conditions: the counts add up before and the flag is 0; the distance of the sub-windows and their number are not 0, so
-- that nothing is divided by 0; and the second reading of the clock is at most a period after the first.
pub try_acquire-Returns :
    (s : Limiter) (now next : ℤ) (clock : List ℤ)
    → IsBalanced s
    → s.clear_flag ≡ false
    → magnitude s.small_windows_distance ≢ 0
    → magnitude s.sub_windows_size ≢ 0
    → next -ℤ now ≤ℤ s.windows_size
    → Returns (λ r. IsBalanced r.1) (try_acquire (now ∷ next ∷ clock) s)
unfolding try_acquire acquire
try_acquire-Returns s now next clock b idle distance size soon =
    let (i, q) = quot_total (now -ℤ s.timestamp) s.small_windows_distance distance in
    elim (Bool-cases (ltb_ℤ s.windows_size (now -ℤ s.timestamp))) [
      | inl late ↦
          let started : Limiter = record s { clear_flag = true } in
          let b' : IsBalanced started = record {
            adds_up = b.adds_up;
            nonneg = b.nonneg;
            within = b.within;
          } in
          let (t, swept, rested, base, period, small) =
            clear_total started (now -ℤ s.timestamp) i size in
          let early =
            not_late t.windows_size next now t.timestamp s.timestamp base
              (subst (λ w. next -ℤ now ≤ℤ w) (sym period) soon) in
          no_wait _ s.clear_flag _ _ idle (
            rw (q, late, swept)
              (early-Returns t next clock
                (clear-IsBalanced (now -ℤ s.timestamp) i started t b' swept) rested
                (subst (λ d. magnitude d ≢ 0) (sym small) distance) early))
      | inr early ↦ early-Returns s now (next ∷ clock) b idle distance early
    ]
