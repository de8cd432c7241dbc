-- ===== src/Binding/Numbers.antt =====
-- gin/binding/form_mapping.go: a number in decimals is put into a field of its width.
use gocore.Common.{
  ℕ, zero, suc, ◌+◌, ◌-◌, ◌*◌, ◌/◌, ◌%◌, ◌^◌, ◌≤◌, ◌<◌, ◌≡◌, refl, ap, ◌∙◌, true, false, ◌&&◌, List,
  [], ◌∷◌, ◌++◌, some, arith, leb, ltb, ◌==◌, inl, inr, Bool-cases, ltb→lt, lt→ltb,
}
use gocore.Common.Int.{ℤ, pos, negsuc}
use gocore.Gin.Maps.{Str, eq_str, lookup}
use gocore.Json.Encoding.{format_int, decimal_loop, ◌>>=◌}
use gocore.Binding.Target.{Outside, Field, int}
use gocore.Binding.Parse.{parse_digits, parse_int, bits_of, head, positive, unsigned}
use gocore.Binding.Typed.{FitsIn}
use gocore.Binding.Set.{set_int_field, set_with_proper_type}
use gocore.Binding.Mapping.{Form, set, mapping, by_kind, set_by_form, try_to_set_value}

a_digit : (d : ℕ) → d < 10 → (leb 48 (48 + d) && leb (48 + d) 57) ≡ true
a_digit d h = ground arith

parse_digits-append :
    (n : ℕ) (s : Str) (d : ℕ)
    → d < 10
    → parse_digits n (s ++ (48 + d) ∷ []) ≡ (parse_digits n s >>= λ m. some (m * 10 + d))
unfolding parse_digits
parse_digits-append n [] d h = rw (a_digit d h) (ap some (omega arith))
parse_digits-append n (c ∷ s) d h = elim (Bool-cases (leb 48 c && leb c 57)) [
  | inl digit ↦ rw digit (parse_digits-append (n * 10 + (c - 48)) s d h)
  | inr not_ ↦ rw not_ refl
]

one_digit : (d : ℕ) → d < 10 → parse_digits 0 ((48 + d) ∷ []) ≡ some d
unfolding parse_digits
one_digit d h = parse_digits-append 0 [] d h ∙ ap some (omega arith)

parse_digits-decimal : (f n : ℕ) → n ≤ f → parse_digits 0 (decimal_loop f n) ≡ some n
unfolding decimal_loop
parse_digits-decimal zero n h = one_digit (n % 10) (omega arith) ∙ ap some (omega arith)
parse_digits-decimal (suc f) n h = elim (Bool-cases (ltb n 10)) [
  | inl small ↦ rw small (one_digit n (ltb→lt n 10 small))
  | inr large ↦ rw large (
      parse_digits-append 0 (decimal_loop f (n / 10)) (n % 10) (omega arith)
      ∙ rw (parse_digits-decimal f (n / 10) (ground arith)) (ap some (omega arith)))
]

-- The first byte is no sign.
abbrev Starts : Str → Type 0
Starts [] = ⊥
Starts (c ∷ s) = 48 ≤ c

Starts-append : (s t : Str) → Starts s → Starts (s ++ t)
Starts-append [] t h = absurd h
Starts-append (c ∷ s) t h = h

decimal-Starts : (f n : ℕ) → Starts (decimal_loop f n)
unfolding decimal_loop
decimal-Starts zero n = omega arith
decimal-Starts (suc f) n = elim (Bool-cases (ltb n 10)) [
  | inl small ↦ rw small (omega arith)
  | inr large ↦ rw large (Starts-append (decimal_loop f (n / 10)) _ (decimal-Starts f (n / 10)))
]

parse_int-plain :
    (bits : ℕ) (s : Str) → Starts s → parse_int bits s ≡ positive bits (parse_digits 0 s)
unfolding parse_int
parse_int-plain bits [] h = absurd h
parse_int-plain bits (c ∷ s) h =
    let minus : (c == 45) ≡ false = ground arith in
    let plus : (c == 43) ≡ false = ground arith in rw (minus, plus) refl

unsigned-Starts : (s : Str) → Starts s → unsigned s ≡ parse_digits 0 s
unsigned-Starts [] h = absurd h
unsigned-Starts (c ∷ s) h = refl

-- A number that is printed in decimals is read again.
parse_int-format_int : (bits : ℕ) (z : ℤ) → FitsIn bits z → parse_int bits (format_int z) ≡ some z
unfolding format_int parse_int
parse_int-format_int bits (pos n) h =
    parse_int-plain bits (decimal_loop n n) (decimal-Starts n n)
    ∙ rw (parse_digits-decimal n n (omega arith)) (rw (lt→ltb _ _ h) refl)
parse_int-format_int bits (negsuc n) h =
    let fits : leb (suc n) (2 ^ (bits_of bits - 1)) ≡ true = ground arith in
    rw
      (
        unsigned-Starts (decimal_loop (suc n) (suc n)) (decimal-Starts (suc n) (suc n)),
        parse_digits-decimal (suc n) (suc n) (omega arith),
      )
      (rw fits refl)

set_int_field-parsed :
    (s : Str) (bits : ℕ) (old z : ℤ)
    → parse_int bits s ≡ some z
    → set_int_field s bits old ≡ (int bits z, true)
unfolding set_int_field parse_int
set_int_field-parsed [] bits old z h = cc
set_int_field-parsed (c ∷ s) bits old z h = rw h refl

-- An int field takes the number that a form has in decimals, as the first text under the key in the field's tag, if
-- the number fits its width.
pub mapping-format_int :
    (o : Outside) (form : Form) (f : Field) (bits : ℕ) (old z : ℤ) {c : ℕ} {key : Str}
    {texts : List Str}
    → eq_str f.tag (45 ∷ []) ≡ false
    → (head f.tag 44).0 ≡ c ∷ key
    → lookup form (c ∷ key) ≡ some (format_int z ∷ texts)
    → FitsIn bits z
    → mapping o form f (int bits old) ≡ (set, int bits z)
unfolding mapping try_to_set_value set_by_form by_kind set_with_proper_type
mapping-format_int o form f bits old z used tagged found fits =
    rw
      (
        used,
        try_to_set_value,
        tagged,
        set_by_form,
        found,
        by_kind,
        found,
        set_int_field-parsed (format_int z) bits old z (parse_int-format_int bits z fits),
      )
      refl
