-- ===== src/RateLimiter/Tests.antt =====
-- rateLimiter.go on a limiter with two permits and three small windows of 10 in a period of 30.
use gocore.Common.{◌≡◌, refl, [], ◌∷◌, true, false, arith, none}
use gocore.Common.Int.{ℤ, pos, ◌+ℤ◌, ◌-ℤ◌, ◌≤ℤ◌}
use gocore.Common.Run.{ok, Returns}
use gocore.RateLimiter.{
  Limiter, Windows, acquire, clear, clear_loop, grant, quot, rem, try_acquire, defer_create_windows,
  get_rate_limiter_middleware, with_sub_windows_number, init_default_limiter,
}
use gocore.RateLimiter.Steps.{System, Steps, stay, later, pass}
use gocore.RateLimiter.Bounds.{IsBalanced, Steps-IsBalanced, passes-within}
use gocore.RateLimiter.Returns.{try_acquire-Returns}

abbrev with_windows : Windows → ℤ → Limiter
with_windows m total = record {
  permits_per_windows = pos 2;
  windows = m;
  total_count = total;
  timestamp = pos 100;
  small_windows_distance = pos 10;
  windows_size = pos 30;
  clear_flag = false;
  sub_windows_size = pos 3;
}

abbrev three : ℤ → ℤ → ℤ → Windows
three a b c = (pos 0, a) ∷ (pos 1, b) ∷ (pos 2, c) ∷ []

abbrev fresh : Limiter
fresh = with_windows (three (pos 0) (pos 0) (pos 0)) (pos 0)

abbrev one_taken : Limiter
one_taken = with_windows (three (pos 0) (pos 1) (pos 0)) (pos 1)

-- Both permits were used in the last small window.
abbrev used_up : Limiter
used_up = with_windows (three (pos 0) (pos 0) (pos 2)) (pos 2)

fresh-IsBalanced : IsBalanced fresh
unfolding ◌+ℤ◌
fresh-IsBalanced = record {
  adds_up = refl;
  nonneg = (omega arith, (omega arith, (omega arith, tt)));
  within = omega arith;
}

used_up-IsBalanced : IsBalanced used_up
unfolding ◌+ℤ◌
used_up-IsBalanced = record {
  adds_up = refl;
  nonneg = (omega arith, (omega arith, (omega arith, tt)));
  within = omega arith;
}

abbrev at_start : System
at_start = record { limiter = fresh; task = none }

one_pass : Steps at_start 1 0 (record { limiter = one_taken; task = none })
unfolding acquire grant quot ◌+ℤ◌ ◌-ℤ◌
one_pass = later stay (pass (pos 115) refl refl)

created : defer_create_windows (with_windows [] (pos 0)) ≡ fresh
unfolding defer_create_windows
created = refl

-- The period of 3 s in five parts, on the default settings.
five_parts :
    get_rate_limiter_middleware (with_sub_windows_number (pos 5) ∷ []) (pos 7)
    ≡ ok
        (record (defer_create_windows
          (record (init_default_limiter (pos 7)) { sub_windows_size = pos 5 })) {
            small_windows_distance = pos 600000000;
          })
unfolding get_rate_limiter_middleware defer_create_windows quot ◌-ℤ◌ with_sub_windows_number
five_parts = refl

two_pass :
    try_acquire (pos 120 ∷ []) one_taken
    ≡ ok (true, with_windows (three (pos 0) (pos 1) (pos 1)) (pos 2))
unfolding try_acquire acquire grant quot ◌+ℤ◌ ◌-ℤ◌
two_pass = refl

third_refused : try_acquire (pos 120 ∷ []) used_up ≡ ok (false, used_up)
unfolding try_acquire acquire quot ◌-ℤ◌
third_refused = refl

-- 165 is 65 after the base: 65 / 10 % 3 is 0, so the sweep clears window 0 only.
swept_and_passed :
    try_acquire (pos 165 ∷ pos 166 ∷ []) one_taken
    ≡ ok (
      true,
      record (with_windows (three (pos 1) (pos 1) (pos 0)) (pos 2)) { timestamp = pos 165 },
    )
unfolding try_acquire acquire clear clear_loop rem grant quot ◌+ℤ◌ ◌-ℤ◌
swept_and_passed = refl

Steps-IsBalanced_example : IsBalanced one_taken
Steps-IsBalanced_example = Steps-IsBalanced one_pass fresh-IsBalanced

passes-within_example : (pos 1 ≡ pos 0 +ℤ pos 1) × (pos 0 +ℤ pos 1 ≤ℤ pos 2)
passes-within_example = passes-within fresh-IsBalanced one_pass

try_acquire-Returns_example :
    Returns (λ r. IsBalanced r.1) (try_acquire (pos 190 ∷ pos 191 ∷ []) used_up)
unfolding ◌-ℤ◌
try_acquire-Returns_example =
    try_acquire-Returns used_up (pos 190) (pos 191) [] used_up-IsBalanced refl
      (λ e. omega (arith, e)) (λ e. omega (arith, e)) (omega arith)
