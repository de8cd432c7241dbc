-- ===== src/Json/Errors.antt =====
-- jsonUtil.go: the values for which `marshal` fails.
use mathlib.Core.Path.{ap₂}
use mathlib.Core.Bool.{and-eq-true_iff}
use gocore.Common.{
  ◌≡◌, refl, sym, ◌∙◌, Bool, true, false, not, ◌||◌, Option, none, some, arith, ◌==◌, if◌then◌else◌,
}
use gocore.Json.Cache.{Bytes}
use gocore.Json.Value.{
  Value, Items, Fields, Pairs, is_zero, are_zero, is_invalid, string, int, bool, float, complex,
  nil_slice, nil_pointer, nil_interface, nil_map, slice, array, struct, pointer, interface, dict,
  uintptr, other, no_items, item, no_fields, field, no_pairs, pair, lost,
}
use gocore.Json.Encoding.{marshal, encode, marshal_items, marshal_fields, marshal_pairs, ◌>>=◌}

-- A `uintptr` other than 0, or a map with a lost key, stands somewhere in the value, outside the arrays.
unfoldable mutual
  pub is_refused : Value → Bool
  is_refused (slice name vs) = items_are_refused vs
  is_refused (struct name fs) = fields_are_refused fs
  is_refused (pointer v) = is_refused v
  is_refused (interface v) = is_refused v
  is_refused (dict ps) = pairs_are_refused ps
  is_refused (uintptr n) = not (n == 0)
  is_refused _ = false

  items_are_refused : Items → Bool
  items_are_refused no_items = false
  items_are_refused (item v vs) = is_refused v || items_are_refused vs

  fields_are_refused : Fields → Bool
  fields_are_refused no_fields = false
  fields_are_refused (field name v fs) = is_refused v || fields_are_refused fs

  pairs_are_refused : Pairs → Bool
  pairs_are_refused no_pairs = false
  pairs_are_refused (pair k v ps) = (is_refused k || is_refused v) || pairs_are_refused ps
  pairs_are_refused (lost k ps) = true

abbrev pub fails : Option Bytes → Bool
fails none = true
fails (some s) = false

fails-bind : (m : Option Bytes) (g : Bytes → Bytes) → fails (m >>= λ s. some (g s)) ≡ fails m
fails-bind none g = refl
fails-bind (some s) g = refl

fails-bind₂ :
    (m m' : Option Bytes) (g : Bytes → Bytes → Bytes)
    → fails (m >>= λ s. m' >>= λ s'. some (g s s')) ≡ (fails m || fails m')
fails-bind₂ none m' g = refl
fails-bind₂ (some s) none g = refl
fails-bind₂ (some s) (some s') g = refl

fails-bind₃ :
    (m m' n : Option Bytes) (g : Bytes → Bytes → Bytes → Bytes)
    → fails (m >>= λ s. m' >>= λ s'. n >>= λ t. some (g s s' t))
      ≡ ((fails m || fails m') || fails n)
fails-bind₃ none m' n g = refl
fails-bind₃ (some s) none n g = refl
fails-bind₃ (some s) (some s') none g = refl
fails-bind₃ (some s) (some s') (some t) g = refl

-- A zero value holds neither.
mutual
  unfolding is_zero is_refused

  zero_lem : (v : Value) → is_zero v ≡ true → is_refused v ≡ false
  zero_lem (string s) h = refl
  zero_lem (int z) h = refl
  zero_lem (bool b) h = refl
  zero_lem (float z s) h = refl
  zero_lem (complex z s) h = refl
  zero_lem nil_slice h = refl
  zero_lem nil_pointer h = refl
  zero_lem nil_interface h = refl
  zero_lem nil_map h = refl
  zero_lem (slice n vs) h = cc
  zero_lem (array vs) h = refl
  zero_lem (struct n fs) h = zeros_lem fs h
  zero_lem (pointer v) h = cc
  zero_lem (interface v) h = cc
  zero_lem (dict ps) h = cc
  zero_lem (uintptr n) h = rw h refl
  zero_lem (other z) h = refl

  zeros_lem : (fs : Fields) → are_zero fs ≡ true → fields_are_refused fs ≡ false
  zeros_lem no_fields h = refl
  zeros_lem (field n v fs) h =
      let b = (and-eq-true_iff (is_zero v) (are_zero fs)).0 h in
      rw (zero_lem v b.0, zeros_lem fs b.1) refl

invalid_lem : (v : Value) → is_invalid v ≡ true → is_refused v ≡ false
unfolding is_zero
invalid_lem nil_pointer h = zero_lem nil_pointer refl
invalid_lem (pointer v) h = cc
invalid_lem v h = zero_lem v h

fails-if :
    (t : Bool) (m m' : Option Bytes) {b : Bool}
    → (t ≡ true → fails m ≡ b)
    → (t ≡ false → fails m' ≡ b)
    → fails (if t then m else m') ≡ b
fails-if true m m' h k = h refl
fails-if false m m' h k = k refl

mutual
  unfolding marshal encode is_refused is_zero

  fails-marshal : (v : Value) → fails (marshal v) ≡ is_refused v
  fails-marshal (string s) = ground arith
  fails-marshal (int z) = ground arith
  fails-marshal (bool b) = ground arith
  fails-marshal (float z s) = ground arith
  fails-marshal (complex z s) = ground arith
  fails-marshal nil_slice = refl
  fails-marshal nil_pointer = refl
  fails-marshal nil_interface = refl
  fails-marshal nil_map = refl
  fails-marshal (slice n vs) = fails-bind _ _ ∙ items-is_refused vs
  fails-marshal (array vs) = ground arith
  fails-marshal (struct n fs) =
      fails-if (are_zero fs) _ _ (λ z. sym (zeros_lem fs z))
        (λ z. fails-bind _ _ ∙ fields-is_refused fs)
  fails-marshal (pointer v) = fails-marshal v
  fails-marshal (interface v) = fails-marshal v
  fails-marshal (dict no_pairs) = refl
  fails-marshal (dict (pair k v ps)) = fails-bind _ _ ∙ pairs-is_refused (pair k v ps)
  fails-marshal (dict (lost k ps)) = refl
  fails-marshal (uintptr n) = ground arith
  fails-marshal (other z) = ground arith

  items-is_refused : (vs : Items) → fails (marshal_items vs) ≡ items_are_refused vs
  items-is_refused no_items = refl
  items-is_refused (item v vs) =
      fails-bind₂ _ _ _ ∙ ap₂ ◌||◌ (fails-marshal v) (items-is_refused vs)

  fields-is_refused : (fs : Fields) → fails (marshal_fields fs) ≡ fields_are_refused fs
  fields-is_refused no_fields = refl
  fields-is_refused (field n v fs) =
      fails-if (is_invalid v) _ _ (λ z. rw (invalid_lem v z) (fields-is_refused fs))
        (λ z. fails-bind₂ _ _ _ ∙ ap₂ ◌||◌ (fails-marshal v) (fields-is_refused fs))

  pairs-is_refused : (ps : Pairs) → fails (marshal_pairs ps) ≡ pairs_are_refused ps
  pairs-is_refused no_pairs = refl
  pairs-is_refused (lost k ps) = refl
  pairs-is_refused (pair k v ps) =
      fails-bind₃ _ _ _ _
      ∙ ap₂ ◌||◌ (ap₂ ◌||◌ (fails-marshal k) (fails-marshal v)) (pairs-is_refused ps)

-- `marshal` fails exactly for a value that holds, at any depth but not inside an array, a `uintptr` other than 0 or a map
-- with a key that holds a NaN.
pub marshal-is_refused : (v : Value) → fails (marshal v) ≡ is_refused v
marshal-is_refused v = fails-marshal v
