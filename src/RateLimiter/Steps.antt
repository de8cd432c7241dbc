-- ===== src/RateLimiter/Steps.antt =====
-- rateLimiter.go: what the callers of TryAcquire and the goroutine that clears windows can do, one
-- locked section at a time, in any order and at any readings of the clock.
use mathlib.Core.Path.{subst}
use gocore.Common.{
  ℕ, ◌+◌, ◌≡◌, refl, true, false, Option, none, some, Bool-cases, inl, inr, if◌then◌else◌,
}
use gocore.Common.Int.{ℤ, ◌-ℤ◌, ltb_ℤ}
use gocore.Common.Run.{Run, ok, >>=_inv, ok_inj}
use gocore.RateLimiter.{Limiter, Answer, granted, denied, clearing, acquire, clear, grant, quot}

-- `task` is the goroutine that was started and has not run, with its `diff` and `index`.
pub record System : Type 0 where
  pub limiter : Limiter
  pub task : Option (ℤ × ℤ)

-- A step, with the number of requests that it lets pass and of sweeps that it makes. The guard of a
-- caller is the loop on the condition: it goes on when the flag is 0.
pub data Step (s : System) : ℕ → ℕ → System → Type 0 where
  pass :
      (now : ℤ) {l : Limiter}
      → s.limiter.clear_flag ≡ false
      → acquire s.limiter now ≡ ok (granted, l)
      → Step s 1 0 (record { limiter = l; task = s.task })
  refuse :
      (now : ℤ) {l : Limiter}
      → s.limiter.clear_flag ≡ false
      → acquire s.limiter now ≡ ok (denied, l)
      → Step s 0 0 (record { limiter = l; task = s.task })
  expire :
      (now : ℤ) {diff index : ℤ} {l : Limiter}
      → s.limiter.clear_flag ≡ false
      → acquire s.limiter now ≡ ok (clearing diff index, l)
      → Step s 0 0 (record { limiter = l; task = some (diff, index) })
  sweep :
      {diff index : ℤ} {l : Limiter}
      → s.task ≡ some (diff, index)
      → clear diff index s.limiter ≡ ok l
      → Step s 0 1 (record { limiter = l; task = none })

pub data Steps (s : System) : ℕ → ℕ → System → Type 0 where
  stay : Steps s 0 0 s
  later : {g k h n : ℕ} {t u : System} → Steps s g k t → Step t h n u → Steps s (g + h) (k + n) u

-- What an answer says of the state before and after it.
abbrev pub Outcome : Limiter → ℤ → Answer → Limiter → Type 0
Outcome s now granted t =
    (index : ℤ) × (quot (now -ℤ s.timestamp) s.small_windows_distance ≡ ok index)
    × (ltb_ℤ s.windows_size (now -ℤ s.timestamp) ≡ false)
    × (ltb_ℤ s.total_count s.permits_per_windows ≡ true)
    × (t ≡ grant s index)
Outcome s now denied t = (ltb_ℤ s.total_count s.permits_per_windows ≡ false) × (t ≡ s)
Outcome s now (clearing diff index) t =
    (quot (now -ℤ s.timestamp) s.small_windows_distance ≡ ok index)
    × (ltb_ℤ s.windows_size (now -ℤ s.timestamp) ≡ true)
    × (diff ≡ now -ℤ s.timestamp)
    × (t ≡ record s { clear_flag = true })

Outcome-of_pair :
    (s : Limiter) (now : ℤ) {p q : Answer × Limiter}
    → p ≡ q
    → Outcome s now p.0 p.1
    → Outcome s now q.0 q.1
Outcome-of_pair s now e h = subst (λ r. Outcome s now r.0 r.1) e h

-- The rest of the locked section, once the small window is computed.
answer_at : Limiter → ℤ → ℤ → Run (Answer × Limiter)
answer_at s diff index =
    if ltb_ℤ s.windows_size diff
    then ok (clearing diff index, record s { clear_flag = true })
    else if ltb_ℤ s.total_count s.permits_per_windows
    then ok (granted, grant s index)
    else ok (denied, s)

answer_at-Outcome :
    (s : Limiter) (now index : ℤ) {a : Answer} {t : Limiter}
    → quot (now -ℤ s.timestamp) s.small_windows_distance ≡ ok index
    → answer_at s (now -ℤ s.timestamp) index ≡ ok (a, t)
    → Outcome s now a t
unfolding answer_at
answer_at-Outcome s now index q h = elim (Bool-cases (ltb_ℤ s.windows_size (now -ℤ s.timestamp))) [
  | inl late ↦ Outcome-of_pair s now (ok_inj (rw late at h)) (q, late, refl, refl)
  | inr early ↦ elim (Bool-cases (ltb_ℤ s.total_count s.permits_per_windows)) [
    | inl free ↦
        Outcome-of_pair s now (ok_inj (rw (early, free) at h)) (index, q, early, free, refl)
    | inr full ↦ Outcome-of_pair s now (ok_inj (rw (early, full) at h)) (full, refl)
  ]
]

pub acquire-Outcome :
    (s : Limiter) (now : ℤ) {a : Answer} {t : Limiter}
    → acquire s now ≡ ok (a, t)
    → Outcome s now a t
unfolding acquire answer_at
acquire-Outcome s now h =
    let found = >>=_inv (quot (now -ℤ s.timestamp) s.small_windows_distance) _ h in
    answer_at-Outcome s now found.0 found.1 found.2
