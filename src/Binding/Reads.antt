-- ===== src/Binding/Reads.antt =====
-- gin/binding/form_mapping.go: the numbers that are read fit into their width.
use gocore.Common.{
  ℕ, zero, suc, ◌-◌, ◌^◌, ◌<◌, ◌≤◌, ◌≡◌, refl, ap, Bool, true, false, [], ◌∷◌, Option, none, some,
  if◌then◌else◌, ◌==◌, leb, ltb, ltb→lt, leb→le, from_some, arith,
}
use mathlib.Core.Path.{subst}
use native.Mathlib.Nat.{one-le-pow}
use gocore.Gin.Maps.{Str}
use gocore.Binding.Parse.{
  bits_of, parse_int, parse_uint, parse_digits, positive, negative, negated, below,
}
use gocore.Binding.Typed.{FitsIn}

two_pow_pos : (n : ℕ) → 1 ≤ 2 ^ n
two_pow_pos n = one-le-pow n 2 (omega arith)

negated-FitsIn : (bits n : ℕ) → n ≤ 2 ^ (bits_of bits - 1) → FitsIn bits (negated n)
negated-FitsIn bits zero h = two_pow_pos (bits_of bits - 1)
negated-FitsIn bits (suc n) h = h

-- What is read, if anything is, satisfies `P`.
pub record Reads {A : Type 0} (P : A → Type 0) (r : Option A) : Type 0 where
  pub reads : (a : A) → r ≡ some a → P a

module _ {A : Type 0} {P : A → Type 0} where
  none-Reads : Reads P none
  none-Reads = record { reads = λ a e. cc }

  some-Reads : {a : A} → P a → Reads P (some a)
  some-Reads {a} h = record { reads = λ b e. subst P (ap (from_some a) e) h }

  Reads-if :
      (b : Bool) {x y : Option A}
      → (b ≡ true → Reads P x)
      → (b ≡ false → Reads P y)
      → Reads P (if b then x else y)
  Reads-if true h k = h refl
  Reads-if false h k = k refl

positive-Reads : (bits : ℕ) (r : Option ℕ) → Reads (FitsIn bits) (positive bits r)
positive-Reads bits none = none-Reads
positive-Reads bits (some n) =
    Reads-if (ltb n (2 ^ (bits_of bits - 1))) (λ e. some-Reads (ltb→lt _ _ e)) (λ e. none-Reads)

negative-Reads : (bits : ℕ) (r : Option ℕ) → Reads (FitsIn bits) (negative bits r)
negative-Reads bits none = none-Reads
negative-Reads bits (some n) =
    Reads-if (leb n (2 ^ (bits_of bits - 1)))
      (λ e. some-Reads (negated-FitsIn bits n (leb→le _ _ e))) (λ e. none-Reads)

pub parse_int-Reads : (bits : ℕ) (s : Str) → Reads (FitsIn bits) (parse_int bits s)
unfolding parse_int
parse_int-Reads bits [] = none-Reads
parse_int-Reads bits (c ∷ s) =
    Reads-if (c == 45) (λ e. negative-Reads bits _)
      (λ e. Reads-if (c == 43) (λ e. positive-Reads bits _) (λ e. positive-Reads bits _))

pub parse_uint-Reads : (bits : ℕ) (s : Str) → Reads (λ n. n < 2 ^ bits_of bits) (parse_uint bits s)
unfolding parse_uint
parse_uint-Reads bits [] = none-Reads
parse_uint-Reads bits (c ∷ s) = below_bound (parse_digits 0 (c ∷ s))
  where
    below_bound : (r : Option ℕ) → Reads (λ n. n < 2 ^ bits_of bits) (below (2 ^ bits_of bits) r)
    below_bound none = none-Reads
    below_bound (some n) =
        Reads-if (ltb n (2 ^ bits_of bits)) (λ e. some-Reads (ltb→lt _ _ e)) (λ e. none-Reads)

-- Anything that is read has the type.
pub any-Reads : {A : Type 0} (r : Option A) → Reads (λ a. Unit {0}) r
any-Reads r = record { reads = λ a e. tt }
