-- ===== src/RateLimiter/Expiry.antt =====
-- rateLimiter.go: what the goroutine that clears old windows leaves counted.
use native.Mathlib.Nat.{mod-lt}
use mathlib.Core.Path.{subst, sym}
use gocore.Common.{
  ap, ◌≢◌, ◌∙◌, ℕ, zero, suc, ◌+◌, ◌%◌, ◌≤◌, ◌<◌, ◌≡◌, refl, false, arith, Bool-cases, inl, inr,
  ◌==◌,
}
use gocore.Common.Int.{ℤ, pos, ◌+ℤ◌, ◌-ℤ◌, ◌≤ℤ◌, ltb_ℤ, int_laws, parts_eq, pos_part}
use gocore.Common.Run.{ok, >>=_inv, ok_inj}
use gocore.RateLimiter.{
  Limiter, granted, denied, acquire, clear, clear_loop, grant, count, rem, quot, magnitude, eq_ℤ,
}
use gocore.RateLimiter.Windows.{
  count_below, eq_ℤ_sound, count-assign_self, count-assign_ne, eq_ℤ_ne,
}
use gocore.RateLimiter.Bounds.{
  IsBalanced, clear-IsBalanced, clear_loop-frame, quot_total, not_below,
}
use gocore.RateLimiter.Steps.{
  System, Step, pass, refuse, expire, sweep, Steps, stay, later, acquire-Outcome,
}

-- The loop leaves the windows beyond its range.
count-clear_loop :
    (n i j : ℕ) (s : Limiter)
    → i + n ≤ j
    → count (clear_loop n i s).windows (pos j) ≡ count s.windows (pos j)
unfolding clear_loop
count-clear_loop zero i j s h = refl
count-clear_loop (suc n) i j s h =
    count-clear_loop n (suc i) j _ (omega arith)
    ∙ count-assign_ne s.windows (pos i) (pos j) (pos 0) (eq_ℤ_ne i j (omega arith))

-- A remainder stays below its divisor.
small_remainder : (x m : ℕ) → x < m → pos_part (pos 0 -ℤ pos x +ℤ pos 1) ≤ m
unfolding ◌+ℤ◌ ◌-ℤ◌
small_remainder x m h = ground arith

small_remainder_pos : (x m : ℕ) → x < m → pos_part (pos x +ℤ pos 1) ≤ m
unfolding ◌+ℤ◌
small_remainder_pos x m h = ground arith

rem_below : (a : ℤ) (m : ℕ) {r : ℤ} → 0 < m → rem a (pos m) ≡ ok r → pos_part (r +ℤ pos 1) ≤ m
unfolding rem
rem_below a m p h =
    let small : magnitude a % (m + 0) < m = omega (arith, mod-lt (magnitude a) p) in
    let bound = λ (r : ℤ). pos_part (r +ℤ pos 1) ≤ m in
    let nonzero : ((m + 0) == 0) ≡ false = ground arith in
    elim (Bool-cases (ltb_ℤ a (pos 0))) [
      | inl e ↦ subst bound (ok_inj (rw (nonzero, e) at h)) (small_remainder _ m small)
      | inr e ↦ subst bound (ok_inj (rw (nonzero, e) at h)) (small_remainder_pos _ m small)
    ]

successor_below : (r j : ℕ) → r < j → 0 + pos_part (pos r +ℤ pos 1) ≤ j
successor_below r j h = omega (arith, small_remainder_pos r j h)

-- One limiter counts at least as much as another in the small window `j`, and has as many windows.
abbrev pub Keeps : ℕ → Limiter → Limiter → Type 0
Keeps j s t =
    (count s.windows (pos j) ≤ℤ count t.windows (pos j)) × (t.sub_windows_size ≡ s.sub_windows_size)

grant-Keeps : (j : ℕ) (s : Limiter) (index : ℤ) → Keeps j s (grant s index)
unfolding grant
grant-Keeps j s index = elim (Bool-cases (eq_ℤ index (pos j))) [
  | inl e ↦ rw (eq_ℤ_sound index (pos j) e) (
    omega (
      int_laws,
      parts_eq (count-assign_self s.windows (pos j) (count s.windows (pos j) +ℤ pos 1)),
    ),
    refl,
  )
  | inr e ↦ (
    omega (
      int_laws,
      parts_eq (count-assign_ne s.windows index (pos j) (count s.windows index +ℤ pos 1) e),
    ),
    refl,
  )
]

clear-Keeps :
    (j sub : ℕ) (diff index : ℤ) (s t : Limiter)
    → s.sub_windows_size ≡ pos sub
    → 0 < sub
    → sub ≤ j
    → clear diff index s ≡ ok t
    → Keeps j s t
unfolding clear
clear-Keeps j sub diff index s t size p beyond h =
    let moved : Limiter = record s { timestamp = s.timestamp +ℤ diff } in
    let found = >>=_inv (rem index s.sub_windows_size) _ h in
    let n = pos_part (found.0 +ℤ pos 1) in
    let short : n ≤ sub =
      rem_below index sub p (subst (λ z. rem index z ≡ ok found.0) size found.1) in
    let same = count-clear_loop n 0 j moved (omega arith) in
    subst (Keeps j s) (ok_inj found.2)
      (omega (arith, parts_eq same), ap (λ l. l.sub_windows_size) (clear_loop-frame n 0 moved))

Step-Keeps :
    (j sub : ℕ) {s : System} {g n : ℕ} {t : System}
    → Step s g n t
    → s.limiter.sub_windows_size ≡ pos sub
    → 0 < sub
    → sub ≤ j
    → Keeps j s.limiter t.limiter
Step-Keeps j sub {s = s} (pass now idle h) size p beyond =
    let (index, q, early, free, e) = acquire-Outcome s.limiter now h in
    subst (Keeps j s.limiter) (sym e) (grant-Keeps j s.limiter index)
Step-Keeps j sub {s = s} (refuse now idle h) size p beyond =
    subst (Keeps j s.limiter) (sym (acquire-Outcome s.limiter now h).1) (omega arith, refl)
Step-Keeps j sub {s = s} (expire now idle h) size p beyond =
    subst (Keeps j s.limiter) (sym (acquire-Outcome s.limiter now h).3) (omega arith, refl)
Step-Keeps j sub {s = s} (sweep {diff = diff} {index = index} {l = l} pending h) size p beyond =
    clear-Keeps j sub diff index s.limiter l size p beyond h

Steps-Keeps :
    (j sub : ℕ) {s : System} {g n : ℕ} {t : System}
    → Steps s g n t
    → s.limiter.sub_windows_size ≡ pos sub
    → 0 < sub
    → sub ≤ j
    → Keeps j s.limiter t.limiter
Steps-Keeps j sub stay size p beyond = (omega arith, refl)
Steps-Keeps j sub (later before last) size p beyond =
    let b = Steps-Keeps j sub before size p beyond in
    let l = Step-Keeps j sub last (b.1 ∙ size) p beyond in (omega (arith, b.0, l.0), l.1 ∙ b.1)

-- A request that is counted in a small window at or beyond `subWindowsSize`, as one at the very end of the
-- period is, stays counted for good: no sweep that follows takes it off again.
pub counted_forever :
    (s : Limiter) (now : ℤ) {u v : System} {g n : ℕ} (j sub : ℕ)
    → s.sub_windows_size ≡ pos sub
    → 0 < sub
    → sub ≤ j
    → pos 0 ≤ℤ count s.windows (pos j)
    → quot (now -ℤ s.timestamp) s.small_windows_distance ≡ ok (pos j)
    → acquire s now ≡ ok (granted, u.limiter)
    → Steps u g n v
    → pos 1 ≤ℤ count v.limiter.windows (pos j)
unfolding grant
counted_forever s now {u = u} j sub size p beyond nonneg slot h steps =
    let (index, q, early, free, same) = acquire-Outcome s now h in
    let at_j : u.limiter ≡ grant s (pos j) = same ∙ ap (grant s) (ok_inj (sym q ∙ slot)) in
    let counted = count-assign_self s.windows (pos j) (count s.windows (pos j) +ℤ pos 1) in
    let keeps = Steps-Keeps j sub steps (ap (λ l. l.sub_windows_size) at_j ∙ size) p beyond in
    let at_u = ap (λ l. count l.windows (pos j)) at_j in
    omega (int_laws, parts_eq counted, parts_eq at_u, keeps.0, nonneg)

-- A sweep leaves the windows after `index % subWindowsSize`, however old they are: where one of those
-- has used up the permits, the next call is refused.
pub stale-denied :
    (s t : Limiter) (diff index now : ℤ) (j r : ℕ)
    → IsBalanced s
    → s.permits_per_windows ≤ℤ count s.windows (pos j)
    → rem index s.sub_windows_size ≡ ok (pos r)
    → r < j
    → clear diff index s ≡ ok t
    → ltb_ℤ t.windows_size (now -ℤ t.timestamp) ≡ false
    → magnitude t.small_windows_distance ≢ 0
    → acquire t now ≡ ok (denied, t)
unfolding acquire clear
stale-denied s t diff index now j r b used last after h early nonzero =
    let moved : Limiter = record s { timestamp = s.timestamp +ℤ diff } in
    let n = pos_part (pos r +ℤ pos 1) in
    let swept : record (clear_loop n 0 moved) { clear_flag = false } ≡ t = ok_inj (rw last at h) in
    let same = count-clear_loop n 0 j moved (successor_below r j after) in
    let permits = ap (λ l. l.permits_per_windows) (clear_loop-frame n 0 moved) in
    let bt = clear-IsBalanced diff index s t b h in
    let at_t = ap (λ l. count l.windows (pos j)) swept in
    let permits_t = ap (λ l. l.permits_per_windows) swept in
    let full : ltb_ℤ t.total_count t.permits_per_windows ≡ false =
      not_below t.total_count t.permits_per_windows (
        omega (
          int_laws,
          parts_eq bt.adds_up,
          parts_eq same,
          parts_eq permits,
          parts_eq at_t,
          parts_eq permits_t,
          count_below t.windows (pos j) bt.nonneg,
        )) in
    let (i, q) = quot_total (now -ℤ t.timestamp) t.small_windows_distance nonzero in
    rw (q, early, full)
