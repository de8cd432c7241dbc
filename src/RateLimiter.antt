-- ===== src/RateLimiter.antt =====
-- rateLimiter.go: a limiter that counts requests in small windows of time. Times and counts are int64
-- values, here integers; the readings of the clock are arguments. `windows` is a map with the value 0
-- for a missing key. The mutex makes each of `acquire` and `clear` one step, and a caller that waits on
-- the condition goes on when the flag is 0.
pub mod Windows
pub mod Steps
pub mod Bounds
pub mod Expiry
pub mod Returns
mod Tests
use gocore.Common.{
  ℕ, zero, suc, ◌+◌, ◌/◌, ◌%◌, List, [], ◌∷◌, Bool, true, false, ◌&&◌, ltb, ◌==◌, if◌then◌else◌,
  not,
}
use gocore.Common.Int.{ℤ, pos, negsuc, ◌+ℤ◌, ◌-ℤ◌, ltb_ℤ, pos_part, neg_part}
use gocore.Common.Run.{Run, ok, panic, out_of_fuel, ◌>>=◌}

abbrev pub eq_ℤ : ℤ → ℤ → Bool
eq_ℤ a b = pos_part a == pos_part b && neg_part a == neg_part b

abbrev pub magnitude : ℤ → ℕ
magnitude a = pos_part a + neg_part a

-- Go's division cuts off towards 0 and panics on a divisor 0.
unfoldable pub quot : ℤ → ℤ → Run ℤ
quot a b =
    let q = magnitude a / magnitude b in
    if magnitude b == 0
    then panic
    else if not (ltb_ℤ a (pos 0)) && not (ltb_ℤ b (pos 0))
    then ok (pos q)
    else if ltb_ℤ a (pos 0) && ltb_ℤ b (pos 0)
    then ok (pos q)
    else ok (pos 0 -ℤ pos q)

-- The remainder has the sign of the dividend.
unfoldable pub rem : ℤ → ℤ → Run ℤ
rem a b =
    let r = magnitude a % magnitude b in
    if magnitude b == 0 then panic else if ltb_ℤ a (pos 0) then ok (pos 0 -ℤ pos r) else ok (pos r)

abbrev pub Windows : Type 0
Windows = List (ℤ × ℤ)

abbrev pub count : Windows → ℤ → ℤ
count [] k = pos 0
count ((a, n) ∷ m) k = if eq_ℤ a k then n else count m k

abbrev pub assign : Windows → ℤ → ℤ → Windows
assign [] k v = (k, v) ∷ []
assign ((a, n) ∷ m) k v = if eq_ℤ a k then (a, v) ∷ m else (a, n) ∷ assign m k v

pub record Limiter : Type 0 where
  pub permits_per_windows : ℤ
  pub windows : Windows
  pub total_count : ℤ
  pub timestamp : ℤ
  pub small_windows_distance : ℤ
  pub windows_size : ℤ
  pub clear_flag : Bool
  pub sub_windows_size : ℤ

pub init_default_limiter : ℤ → Limiter
init_default_limiter now = record {
  permits_per_windows = pos 12288;
  windows = [];
  total_count = pos 0;
  timestamp = now;
  small_windows_distance = pos 2929687;
  windows_size = pos 3000000000;
  clear_flag = false;
  sub_windows_size = pos 1024;
}

-- The three options, as functions of the limiter that they change.
pub with_max_passing_per_windows : ℤ → Limiter → Run Limiter
with_max_passing_per_windows numbers s = ok (record s { permits_per_windows = numbers })

pub with_sub_windows_number : ℤ → Limiter → Run Limiter
with_sub_windows_number numbers s = do
  d ← quot s.windows_size numbers
  ok (record s { sub_windows_size = numbers; small_windows_distance = d })

pub with_windows_size : ℤ → Limiter → Run Limiter
with_windows_size times s = do
  d ← quot times s.sub_windows_size
  ok (record s { windows_size = times; small_windows_distance = d })

-- The loop of `deferCreateWindows`, `n` turns from key `i` on.
create_windows : ℕ → ℕ → Windows → Windows
create_windows zero i m = m
create_windows (suc n) i m = create_windows n (suc i) (assign m (pos i) (pos 0))

unfoldable pub defer_create_windows : Limiter → Limiter
unfolding create_windows
defer_create_windows s = record s {
  windows = create_windows (pos_part s.sub_windows_size) 0 s.windows;
}

apply_options : List (Limiter → Run Limiter) → Limiter → Run Limiter
apply_options [] s = ok s
apply_options (option ∷ options) s = option s >>= apply_options options

unfoldable pub get_rate_limiter_middleware : List (Limiter → Run Limiter) → ℤ → Run Limiter
unfolding apply_options init_default_limiter
get_rate_limiter_middleware options now = do
  s ← apply_options options (init_default_limiter now)
  ok (defer_create_windows s)

-- What a pass through the locked part of TryAcquire comes to. `clearing` is the start of the goroutine
-- with the values of `diff` and `index` that it captures; the caller then tries again.
pub data Answer : Type 0 where
  granted : Answer
  denied : Answer
  clearing : ℤ → ℤ → Answer

unfoldable pub grant : Limiter → ℤ → Limiter
grant s index = record s {
  total_count = s.total_count +ℤ pos 1;
  windows = assign s.windows index (count s.windows index +ℤ pos 1);
}

-- The body of TryAcquire at the time `now`, once the flag is 0.
unfoldable pub acquire : Limiter → ℤ → Run (Answer × Limiter)
acquire s now =
    let diff = now -ℤ s.timestamp in
    quot diff s.small_windows_distance >>= λ index.
    if ltb_ℤ s.windows_size diff
    then ok (clearing diff index, record s { clear_flag = true })
    else if ltb_ℤ s.total_count s.permits_per_windows
    then ok (granted, grant s index)
    else ok (denied, s)

-- `n` turns of the goroutine's loop, from key `i` on.
unfoldable pub clear_loop : ℕ → ℕ → Limiter → Limiter
clear_loop zero i s = s
clear_loop (suc n) i s = clear_loop n (suc i) (record s {
  total_count = s.total_count -ℤ count s.windows (pos i);
  windows = assign s.windows (pos i) (pos 0);
})

-- The goroutine.
unfoldable pub clear : ℤ → ℤ → Limiter → Run Limiter
clear diff index s = do
  invalid_windows ← rem index s.sub_windows_size
  let cleared =
      clear_loop (pos_part (invalid_windows +ℤ pos 1)) 0
        (record s { timestamp = s.timestamp +ℤ diff })
  ok (record cleared { clear_flag = false })

-- TryAcquire of a caller that no other one meets, with a reading of the clock for each pass; Steps has the callers that
-- meet. A pass that finds the flag set waits until the goroutine clears it, so the goroutine that the pass before it
-- started has ended by then; a flag that is set without a goroutine is waited for without end. No reading left is the
-- model's end of fuel, too.
unfoldable pub try_acquire : List ℤ → Limiter → Run (Bool × Limiter)
try_acquire [] s = out_of_fuel
try_acquire (now ∷ clock) s =
    let again : ℤ → ℤ → Limiter → Run (Bool × Limiter) =
      λ diff index s'. clear diff index s' >>= λ t. try_acquire clock t in
    let pass : Run (Bool × Limiter) = acquire s now >>= λ r. elim r.0 [
      | granted ↦ ok (true, r.1)
      | denied ↦ ok (false, r.1)
      | clearing diff index ↦ again diff index r.1
    ] in
    if s.clear_flag then out_of_fuel else pass

-- The status of the middleware's response, `next` for the wrapped handler's own.
unfoldable pub status : ℕ → Bool → ℕ
status next passed = if passed then next else 500
