-- ===== src/RateLimiter/Bounds.antt =====
-- rateLimiter.go: the counts of the limiter add up, and bound what TryAcquire lets pass.
use mathlib.Core.Path.{subst, sym}
use gocore.Common.{
  ◌/◌, ◌≢◌, not, ◌&&◌, Bool-cases, inl, inr, ◌==◌, ◌∙◌, ℕ, zero, suc, ◌≡◌, refl, true, false, arith,
  All,
}
use gocore.Common.Int.{ℤ, pos, ◌+ℤ◌, ◌-ℤ◌, ◌≤ℤ◌, ltb_ℤ, int_laws, parts_eq, pos_part}
use gocore.Common.Run.{ok, >>=_inv, ok_inj}
use gocore.RateLimiter.{Limiter, clear, clear_loop, grant, count, assign, rem, quot, magnitude}
use gocore.RateLimiter.Windows.{sum, IsNonneg, sum-assign, count_nonneg, All-assign}
use gocore.RateLimiter.Steps.{
  System, Step, pass, refuse, expire, sweep, Steps, stay, later, acquire-Outcome,
}

-- The total is the sum of the small windows, none of which is negative, and within the permits.
pub record IsBalanced (s : Limiter) : Type 0 where
  pub adds_up : s.total_count ≡ sum s.windows
  pub nonneg : All IsNonneg s.windows
  pub within : s.total_count ≤ℤ s.permits_per_windows

ltb_ℤ→lt : (a b : ℤ) → ltb_ℤ a b ≡ true → a +ℤ pos 1 ≤ℤ b
unfolding ◌+ℤ◌
ltb_ℤ→lt a b h = ground arith

pub not_below : (a b : ℤ) → b ≤ℤ a → ltb_ℤ a b ≡ false
not_below a b h = ground arith

pub grant-IsBalanced :
    (s : Limiter) (index : ℤ)
    → IsBalanced s
    → ltb_ℤ s.total_count s.permits_per_windows ≡ true
    → IsBalanced (grant s index)
unfolding grant
grant-IsBalanced s index b free = record {
  adds_up = omega (
    int_laws,
    parts_eq b.adds_up,
    parts_eq (sum-assign s.windows index (count s.windows index +ℤ pos 1)),
  );
  nonneg =
      All-assign s.windows index (count s.windows index +ℤ pos 1) b.nonneg
        (omega (int_laws, count_nonneg s.windows index b.nonneg));
  within = ltb_ℤ→lt s.total_count s.permits_per_windows free;
}

-- The loop changes the counts only.
pub clear_loop-frame :
    (n i : ℕ) (s : Limiter)
    → clear_loop n i s ≡ record s {
      total_count = (clear_loop n i s).total_count;
      windows = (clear_loop n i s).windows;
    }
unfolding clear_loop
clear_loop-frame zero i s = refl
clear_loop-frame (suc n) i s = clear_loop-frame n (suc i) (record s {
  total_count = s.total_count -ℤ count s.windows (pos i);
  windows = assign s.windows (pos i) (pos 0);
})

pub quot_total : (a b : ℤ) → magnitude b ≢ 0 → (q : ℤ) × (quot a b ≡ ok q)
unfolding quot
quot_total a b h =
    let nonzero : (magnitude b == 0) ≡ false = ground arith in
    elim (Bool-cases (not (ltb_ℤ a (pos 0)) && not (ltb_ℤ b (pos 0)))) [
      | inl e ↦ (pos (magnitude a / magnitude b), rw (nonzero, e))
      | inr e ↦ elim (Bool-cases (ltb_ℤ a (pos 0) && ltb_ℤ b (pos 0))) [
        | inl k ↦ (pos (magnitude a / magnitude b), rw (nonzero, e, k))
        | inr k ↦ (pos 0 -ℤ pos (magnitude a / magnitude b), rw (nonzero, e, k))
      ]
    ]

clear_loop-IsBalanced : (n i : ℕ) (s : Limiter) → IsBalanced s → IsBalanced (clear_loop n i s)
unfolding clear_loop
clear_loop-IsBalanced zero i s b = b
clear_loop-IsBalanced (suc n) i s b = clear_loop-IsBalanced n (suc i) _ (record {
  adds_up = omega (int_laws, parts_eq b.adds_up, parts_eq (sum-assign s.windows (pos i) (pos 0)));
  nonneg = All-assign s.windows (pos i) (pos 0) b.nonneg (omega arith);
  within = omega (int_laws, b.within, count_nonneg s.windows (pos i) b.nonneg);
})

pub clear-IsBalanced :
    (diff index : ℤ) (s t : Limiter) → IsBalanced s → clear diff index s ≡ ok t → IsBalanced t
unfolding clear
clear-IsBalanced diff index s t b h =
    let moved : Limiter = record s { timestamp = s.timestamp +ℤ diff } in
    let b' : IsBalanced moved = record {
      adds_up = b.adds_up;
      nonneg = b.nonneg;
      within = b.within;
    } in
    let found = >>=_inv (rem index s.sub_windows_size) _ h in
    let swept = clear_loop-IsBalanced (pos_part (found.0 +ℤ pos 1)) 0 moved b' in
    subst IsBalanced (ok_inj found.2)
      (record { adds_up = swept.adds_up; nonneg = swept.nonneg; within = swept.within })

Step-IsBalanced :
    {g n : ℕ} {s t : System} → Step s g n t → IsBalanced s.limiter → IsBalanced t.limiter
Step-IsBalanced {s = s} (pass now idle h) b =
    let (index, q, early, free, e) = acquire-Outcome s.limiter now h in
    subst IsBalanced (sym e) (grant-IsBalanced s.limiter index b free)
Step-IsBalanced {s = s} (refuse now idle h) b =
    subst IsBalanced (sym (acquire-Outcome s.limiter now h).1) b
Step-IsBalanced {s = s} (expire now idle h) b =
    subst IsBalanced (sym (acquire-Outcome s.limiter now h).3)
      (record { adds_up = b.adds_up; nonneg = b.nonneg; within = b.within })
Step-IsBalanced {s = s} (sweep {diff = diff} {index = index} {l = l} pending h) b =
    clear-IsBalanced diff index s.limiter l b h

-- However the calls of TryAcquire and the sweeps follow each other, the total stays the sum of the small
-- windows, none of them negative, and does not exceed the permits.
pub Steps-IsBalanced :
    {s : System} {g n : ℕ} {t : System}
    → Steps s g n t
    → IsBalanced s.limiter
    → IsBalanced t.limiter
Steps-IsBalanced stay b = b
Steps-IsBalanced (later before last) b = Step-IsBalanced last (Steps-IsBalanced before b)

-- What a step without a sweep does to the total and to the permits.
abbrev Counts : ℕ → Limiter → Limiter → Type 0
Counts g s t =
    (t.total_count ≡ s.total_count +ℤ pos g) × (t.permits_per_windows ≡ s.permits_per_windows)

counts_zero : (s : Limiter) → s.total_count ≡ s.total_count +ℤ pos 0
counts_zero s = omega int_laws

Step-Counts : {g n : ℕ} {s t : System} → Step s g n t → n ≡ 0 → Counts g s.limiter t.limiter
unfolding grant
Step-Counts {s = s} (pass now idle h) e =
    let (index, q, early, free, same) = acquire-Outcome s.limiter now h in
    subst (Counts 1 s.limiter) (sym same) (refl, refl)
Step-Counts {s = s} (refuse now idle h) e =
    subst (Counts 0 s.limiter) (sym (acquire-Outcome s.limiter now h).1)
      (counts_zero s.limiter, refl)
Step-Counts {s = s} (expire now idle h) e =
    subst (Counts 0 s.limiter) (sym (acquire-Outcome s.limiter now h).3)
      (counts_zero s.limiter, refl)
Step-Counts (sweep pending h) e = absurd (omega (arith, e))

Steps-Counts :
    {s : System} {g n : ℕ} {t : System} → Steps s g n t → n ≡ 0 → Counts g s.limiter t.limiter
Steps-Counts {s = s} stay e = (counts_zero s.limiter, refl)
Steps-Counts {s = s} (later {g = g} {k = k} {h = h} {n = n} {t = t} before last) e =
    let b = Steps-Counts before (omega arith) in
    let l = Step-Counts last (omega arith) in
    (omega (int_laws, parts_eq b.0, parts_eq l.0), l.1 ∙ b.1)

-- Between two sweeps the limiter lets pass at most as many requests as its permits leave, whatever the
-- number of callers and the readings of the clock, and each of them is counted.
pub passes-within :
    {g : ℕ} {s t : System}
    → IsBalanced s.limiter
    → Steps s g 0 t
    → (t.limiter.total_count ≡ s.limiter.total_count +ℤ pos g)
      × (s.limiter.total_count +ℤ pos g ≤ℤ s.limiter.permits_per_windows)
passes-within b steps =
    let c = Steps-Counts steps refl in
    let after = Steps-IsBalanced steps b in
    (c.0, omega (int_laws, parts_eq c.0, parts_eq c.1, after.within))
