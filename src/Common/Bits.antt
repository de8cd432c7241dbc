-- ===== src/Common/Bits.antt =====
-- Laws of `bit_xor` at variables, from the digit recursion that it stands for.
use Prim.Native.Nat.{bit_xor, digits, bit_xor-bitwise, differ}
use gocore.Common.{ℕ, zero, suc, ◌+◌, ◌*◌, ◌/◌, ◌%◌, ◌≤◌, ◌<◌, ◌≡◌, refl, arith}

differ-eq : (x y : ℕ) → x < 2 → y < 2 → differ x y ≡ (x + y) % 2
differ-eq zero y h k = omega arith
differ-eq (suc zero) zero h k = refl
differ-eq (suc zero) (suc zero) h k = refl
differ-eq (suc zero) (suc (suc y)) h k = absurd (omega arith)
differ-eq (suc (suc x)) y h k = absurd (omega arith)

abbrev xor_digits : ℕ → ℕ → ℕ → ℕ
xor_digits n a b = digits (λ b. b) differ n a b

xor_digits_fuel : (n m a b : ℕ) → a ≤ n → a ≤ m → xor_digits n a b ≡ xor_digits m a b
xor_digits_fuel zero zero a b p q = refl
xor_digits_fuel zero (suc m) zero b p q = refl
xor_digits_fuel zero (suc m) (suc a) b p q = absurd (omega arith)
xor_digits_fuel (suc n) zero zero b p q = refl
xor_digits_fuel (suc n) zero (suc a) b p q = absurd (omega arith)
xor_digits_fuel (suc n) (suc m) zero b p q = refl
xor_digits_fuel (suc n) (suc m) (suc a) b p q =
    omega (arith, xor_digits_fuel n m (suc a / 2) (b / 2) (omega arith) (omega arith))

pub zero-bit_xor : (b : ℕ) → bit_xor 0 b ≡ b
zero-bit_xor b = bit_xor-bitwise 0 b

-- The lowest digit, and the rest.
bit_xor_step : (a b : ℕ) → bit_xor a b ≡ bit_xor (a / 2) (b / 2) * 2 + (a % 2 + b % 2) % 2
bit_xor_step zero b = omega (arith, zero-bit_xor b, zero-bit_xor (b / 2))
bit_xor_step (suc a) b = omega (
  arith,
  bit_xor-bitwise (suc a) b,
  bit_xor-bitwise (suc a / 2) (b / 2),
  xor_digits_fuel a (suc a / 2) (suc a / 2) (b / 2) (omega arith) (omega arith),
  differ-eq (suc a % 2) (b % 2) (omega arith) (omega arith),
)

xor_halves :
    (a b : ℕ)
    → (bit_xor a b / 2 ≡ bit_xor (a / 2) (b / 2)) × (bit_xor a b % 2 ≡ (a % 2 + b % 2) % 2)
xor_halves a b = omega (arith, bit_xor_step a b)

self_fuel : (n a : ℕ) → a ≤ n → bit_xor a a ≡ 0
self_fuel n zero h = zero-bit_xor 0
self_fuel zero (suc a) h = absurd (omega arith)
self_fuel (suc n) (suc a) h =
    omega (arith, bit_xor_step (suc a) (suc a), self_fuel n (suc a / 2) (omega arith))

-- A word cleared by itself.
pub bit_xor_self : (a : ℕ) → bit_xor a a ≡ 0
bit_xor_self a = self_fuel a a (omega arith)

undo_fuel :
    (n a b : ℕ) → a ≤ n → b ≤ n → (bit_xor (bit_xor a b) b ≡ a) × (bit_xor (bit_xor a b) a ≡ b)
undo_fuel zero a b h k =
    let ea : a ≡ 0 = omega arith in let eb : b ≡ 0 = omega arith in rw (ea, eb) (refl, refl)
undo_fuel (suc n) a b h k =
    let ih = undo_fuel n (a / 2) (b / 2) (omega arith) (omega arith) in
    let s = bit_xor_step (bit_xor a b) b in
    let t = bit_xor_step (bit_xor a b) a in
    let (half, low) = xor_halves a b in omega (arith, rw half at s, rw half at t, low, ih)

-- Two of the three assignments of the exchange: `(a ^ b) ^ b` is `a` and `(a ^ b) ^ a` is `b`.
pub bit_xor_undo : (a b : ℕ) → (bit_xor (bit_xor a b) b ≡ a) × (bit_xor (bit_xor a b) a ≡ b)
bit_xor_undo a b = undo_fuel (a + b) a b (omega arith) (omega arith)
