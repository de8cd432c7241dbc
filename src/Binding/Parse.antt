-- ===== src/Binding/Parse.antt =====
-- gin/binding/form_mapping.go: the numbers that `strconv` reads, and `head`.
use gocore.Common.{
  ℕ, zero, suc, ◌+◌, ◌-◌, ◌*◌, ◌/◌, ◌%◌, ◌^◌, Bool, true, false, ◌&&◌, ◌||◌, List, [], ◌∷◌, Option,
  none, some, leb, ltb, ◌==◌, if◌then◌else◌, take, drop,
}
use gocore.Common.Int.{ℤ, pos, negsuc}
use gocore.Gin.Maps.{Str, eq_str, index_byte}

abbrev pub is_digit : ℕ → Bool
is_digit c = leb 48 c && leb c 57

unfoldable pub parse_digits : ℕ → Str → Option ℕ
parse_digits n [] = some n
parse_digits n (c ∷ s) =
    let rest = parse_digits (n * 10 + (c - 48)) s in if is_digit c then rest else none

-- A width of 0 stands for 64 bits.
abbrev pub bits_of : ℕ → ℕ
bits_of zero = 64
bits_of (suc n) = suc n

abbrev pub below : ℕ → Option ℕ → Option ℕ
below bound none = none
below bound (some n) = if ltb n bound then some n else none

-- `strconv.ParseUint(s, 10, bits)`; `none` is an error of syntax or of range.
unfoldable pub parse_uint : ℕ → Str → Option ℕ
unfolding parse_digits
parse_uint bits [] = none
parse_uint bits (c ∷ s) = below (2 ^ bits_of bits) (parse_digits 0 (c ∷ s))

abbrev pub positive : ℕ → Option ℕ → Option ℤ
positive bits none = none
positive bits (some n) = if ltb n (2 ^ (bits_of bits - 1)) then some (pos n) else none

abbrev pub negated : ℕ → ℤ
negated zero = pos 0
negated (suc n) = negsuc n

abbrev pub negative : ℕ → Option ℕ → Option ℤ
negative bits none = none
negative bits (some n) = if leb n (2 ^ (bits_of bits - 1)) then some (negated n) else none

abbrev pub unsigned : Str → Option ℕ
unsigned [] = none
unsigned (c ∷ s) = parse_digits 0 (c ∷ s)

-- `strconv.ParseInt(s, 10, bits)`: a sign, or none, and digits.
unfoldable pub parse_int : ℕ → Str → Option ℤ
unfolding parse_digits
parse_int bits [] = none
parse_int bits (c ∷ s) =
    if c == 45
    then negative bits (unsigned s)
    else if c == 43
    then positive bits (unsigned s)
    else positive bits (parse_digits 0 (c ∷ s))

-- `strconv.ParseBool`: 1, t, T, TRUE, true, True, and 0, f, F, FALSE, false, False.
abbrev any_of : Str → List Str → Bool
any_of s [] = false
any_of s (t ∷ ts) = eq_str s t || any_of s ts

unfoldable pub parse_bool : Str → Option Bool
parse_bool s =
    let is_true = any_of s (
      (49 ∷ [])
      ∷ (116 ∷ [])
      ∷ (84 ∷ [])
      ∷ (84 ∷ 82 ∷ 85 ∷ 69 ∷ [])
      ∷ (116 ∷ 114 ∷ 117 ∷ 101 ∷ [])
      ∷ (84 ∷ 114 ∷ 117 ∷ 101 ∷ [])
      ∷ []) in
    let is_false = any_of s (
      (48 ∷ [])
      ∷ (102 ∷ [])
      ∷ (70 ∷ [])
      ∷ (70 ∷ 65 ∷ 76 ∷ 83 ∷ 69 ∷ [])
      ∷ (102 ∷ 97 ∷ 108 ∷ 115 ∷ 101 ∷ [])
      ∷ (70 ∷ 97 ∷ 108 ∷ 115 ∷ 101 ∷ [])
      ∷ []) in
    if is_true then some true else if is_false then some false else none

-- `head(str, sep)`, with a separator of one byte: what stands before it, and behind it.
abbrev pub head : Str → ℕ → Str × Str
head s sep = elim (index_byte s sep) [ none ↦ (s, []) | some i ↦ (take i s, drop (suc i) s) ]

-- Go's division rounds towards 0.
abbrev pub quotient : ℤ → ℕ → ℤ
quotient (pos n) d = pos (n / d)
quotient (negsuc n) d = negated (suc n / d)

abbrev pub remainder : ℤ → ℕ → ℤ
remainder (pos n) d = pos (n % d)
remainder (negsuc n) d = negated (suc n % d)

-- `strings.ToLower` of ASCII letters.
abbrev pub to_lower : Str → Str
to_lower [] = []
to_lower (c ∷ s) = (if leb 65 c && leb c 90 then c + 32 else c) ∷ to_lower s
