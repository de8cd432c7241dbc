-- ===== src/RateLimiter/Windows.antt =====
-- The map of the small windows (rateLimiter.go): what an assignment does to its entries and to their sum.
use gocore.Common.{ℕ, [], ◌∷◌, ◌≡◌, ◌≢◌, true, false, arith, All, Bool-cases, inl, inr}
use gocore.Common.Int.{ℤ, pos, negsuc, ◌+ℤ◌, ◌≤ℤ◌, int_laws, parts_eq}
use gocore.RateLimiter.{Windows, count, assign, eq_ℤ}

abbrev pub sum : Windows → ℤ
sum [] = pos 0
sum ((a, n) ∷ m) = n +ℤ sum m

abbrev pub IsNonneg : ℤ × ℤ → Type 0
IsNonneg p = pos 0 ≤ℤ p.1

eq_ℤ_refl : (k : ℤ) → eq_ℤ k k ≡ true
eq_ℤ_refl (pos n) = ground arith
eq_ℤ_refl (negsuc n) = ground arith

pub eq_ℤ_sound : (a k : ℤ) → eq_ℤ a k ≡ true → a ≡ k
eq_ℤ_sound (pos a) (pos k) h = ground arith
eq_ℤ_sound (pos a) (negsuc k) h = ground arith
eq_ℤ_sound (negsuc a) (pos k) h = ground arith
eq_ℤ_sound (negsuc a) (negsuc k) h = ground arith

pub eq_ℤ_ne : (i j : ℕ) → i ≢ j → eq_ℤ (pos i) (pos j) ≡ false
eq_ℤ_ne i j h = ground arith

pub sum-assign : (m : Windows) (k v : ℤ) → sum (assign m k v) +ℤ count m k ≡ sum m +ℤ v
sum-assign [] k v = omega int_laws
sum-assign ((a, n) ∷ m) k v = elim (Bool-cases (eq_ℤ a k)) [
  | inl e ↦ rw e (omega int_laws)
  | inr e ↦ rw e (omega (int_laws, parts_eq (sum-assign m k v)))
]

pub count-assign_self : (m : Windows) (k v : ℤ) → count (assign m k v) k ≡ v
count-assign_self [] k v = rw (eq_ℤ_refl k)
count-assign_self ((a, n) ∷ m) k v = elim (Bool-cases (eq_ℤ a k)) [
  | inl e ↦ rw (e, e)
  | inr e ↦ rw (e, e) (count-assign_self m k v)
]

pub count-assign_ne :
    (m : Windows) (k j v : ℤ) → eq_ℤ k j ≡ false → count (assign m k v) j ≡ count m j
count-assign_ne [] k j v h = rw h
count-assign_ne ((a, n) ∷ m) k j v h = elim (Bool-cases (eq_ℤ a k)) [
  | inl e ↦ rw (e, eq_ℤ_sound a k e, h)
  | inr e ↦ rw e (rw (count-assign_ne m k j v h))
]

pub count_nonneg : (m : Windows) (k : ℤ) → All IsNonneg m → pos 0 ≤ℤ count m k
count_nonneg [] k h = omega arith
count_nonneg ((a, n) ∷ m) k h = elim (Bool-cases (eq_ℤ a k)) [
  | inl e ↦ rw e h.0
  | inr e ↦ rw e (count_nonneg m k h.1)
]

pub All-assign : (m : Windows) (k v : ℤ) → All IsNonneg m → pos 0 ≤ℤ v → All IsNonneg (assign m k v)
All-assign [] k v h p = (p, tt)
All-assign ((a, n) ∷ m) k v h p = elim (Bool-cases (eq_ℤ a k)) [
  | inl e ↦ rw e (p, h.1)
  | inr e ↦ rw e (h.0, All-assign m k v h.1 p)
]

sum_nonneg : (m : Windows) → All IsNonneg m → pos 0 ≤ℤ sum m
sum_nonneg [] h = omega arith
sum_nonneg ((a, n) ∷ m) h = omega (int_laws, h.0, sum_nonneg m h.1)

pub count_below : (m : Windows) (k : ℤ) → All IsNonneg m → count m k ≤ℤ sum m
count_below [] k h = omega arith
count_below ((a, n) ∷ m) k h = elim (Bool-cases (eq_ℤ a k)) [
  | inl e ↦ rw e (omega (int_laws, sum_nonneg m h.1))
  | inr e ↦ rw e (omega (int_laws, h.0, count_below m k h.1))
]
