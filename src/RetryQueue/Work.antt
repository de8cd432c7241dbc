-- ===== src/RetryQueue/Work.antt =====
-- retryQueue.go: how often a worker tries a task.
use gocore.Common.{
  ℕ, zero, suc, ◌+◌, ◌-◌, ◌<◌, ◌≤◌, ◌≡◌, ◌⊎◌, Bool, true, false, not, arith, Bool-cases, inl, inr,
  ltb, if◌then◌else◌,
}
use gocore.Common.Int.{ℤ, pos, negsuc, pos_part, ltb_ℤ}
use mathlib.Core.Path.{subst, sym}
use gocore.Common.Run.{Returns, Returns-map}
use gocore.RetryQueue.{work, work_loop}

-- The worker stops after call `n - 1`: the calls from `cur` to the one before it fail, it succeeds
-- unless the task is given up, and it is the last one allowed when it is.
pub record IsWorked (result : ℕ → Bool) (retry_times cur n : ℕ) (gives_up : Bool) : Type 0 where
  pub some_calls : cur < n
  pub within : n ≤ retry_times
  pub failed : (k : ℕ) → cur ≤ k → suc k < n → result k ≡ false
  pub last : result (n - 1) ≡ not gives_up
  pub used_up : gives_up ≡ true → n ≡ retry_times

false_true : {A : Type 0} → false ≡ true → A
false_true e = cc

one_less : (result : ℕ → Bool) (cur : ℕ) {b : Bool} → result cur ≡ b → result (cur + 1 - 1) ≡ b
one_less result cur e = let same : cur + 1 - 1 ≡ cur = omega arith in rw same e

-- A failed call before the others.
IsWorked-after :
    (result : ℕ → Bool) (retry_times cur n : ℕ) (gives_up : Bool)
    → result cur ≡ false
    → IsWorked result retry_times (cur + 1) n gives_up
    → IsWorked result retry_times cur n gives_up
IsWorked-after result retry_times cur n gives_up e w = record {
  some_calls = omega (arith, w.some_calls);
  within = w.within;
  failed = λ k lower upper.
      let place : (k ≡ cur) ⊎ (cur + 1 ≤ k) = omega arith in
      elim place [
        | inl same ↦ subst (λ i. result i ≡ false) (sym same) e
        | inr later ↦ w.failed k later upper
      ];
  last = w.last;
  used_up = w.used_up;
}

-- The calls that a number of retries allows: the first is always made.
unfoldable pub allowed : ℤ → ℕ
allowed retry_times = if ltb 1 (pos_part retry_times) then pos_part retry_times else 1

some_allowed : (r : ℤ) → (1 ≤ allowed r) × (allowed r ≤ pos_part r + 1)
unfolding allowed
some_allowed r = ground arith

below-allowed : (r : ℤ) (cur : ℕ) → ltb_ℤ (pos (cur + 1)) r ≡ ltb (cur + 1) (allowed r)
unfolding allowed
below-allowed (pos n) cur = ground arith
below-allowed (negsuc n) cur = ground arith

work_loop-IsWorked :
    (result : ℕ → Bool) (r : ℤ) (fuel cur : ℕ)
    → cur < allowed r
    → allowed r ≤ cur + fuel
    → Returns (λ x. IsWorked result (allowed r) cur x.0 x.1) (work_loop result r fuel cur)
unfolding work_loop
work_loop-IsWorked result r zero cur p q = absurd (omega (arith, p, q))
work_loop-IsWorked result r (suc fuel) cur p q = elim (Bool-cases (result cur)) [
  | inl good ↦ rw good (record {
    some_calls = omega arith;
    within = omega arith;
    failed = λ k lower upper. absurd (omega arith);
    last = one_less result cur good;
    used_up = λ e. false_true e;
  })
  | inr bad ↦ elim (Bool-cases (ltb (cur + 1) (allowed r))) [
    | inr full ↦
        let reached : allowed r ≤ cur + 1 = ground (arith, full) in
        rw (bad, below-allowed r cur, full)
          (record {
            some_calls = omega arith;
            within = omega arith;
            failed = λ k lower upper. absurd (omega arith);
            last = one_less result cur bad;
            used_up = λ e. omega (arith, reached, p);
          })
    | inl left ↦
        let below : cur + 1 < allowed r = ground (arith, left) in
        rw (bad, below-allowed r cur, left)
          (Returns-map _ _ (work_loop result r fuel (cur + 1))
            (work_loop-IsWorked result r fuel (cur + 1) below (omega (arith, q)))
            (λ x w. IsWorked-after result (allowed r) cur x.0 x.1 bad w))
  ]
]

-- For any number of retries, positive or not, a worker ends after at least one call of the task and at most as many as
-- are allowed, which is the number of retries or, if that is below one, a single call. It stops at the first call that
-- succeeds, and gives the task back exactly when every call allowed has failed.
pub work-IsWorked :
    (result : ℕ → Bool) (retry_times : ℤ)
    → Returns (λ x. IsWorked result (allowed retry_times) 0 x.0 x.1) (work result retry_times)
unfolding work
work-IsWorked result retry_times =
    let (least, most) = some_allowed retry_times in
    work_loop-IsWorked result retry_times (pos_part retry_times + 1) 0 least (omega (arith, most))
