-- ===== src/Binding/Set.antt =====
-- gin/binding/form_mapping.go: the setters. A result is the value afterwards and whether there was no error.
use gocore.Common.{ℕ, Bool, true, false, ◌||◌, List, [], ◌∷◌, Option, none, some, if◌then◌else◌}
use gocore.Common.Int.{ℤ}
use gocore.Gin.Maps.{Str, eq_str}
use gocore.Binding.Target.{
  Target, Items, Field, Outside, int, uint, bool, float, string, duration, time, object, slice,
  array, struct, nil_pointer, pointer, other, no_items, item,
}
use gocore.Binding.Parse.{parse_int, parse_uint, parse_bool, quotient, remainder, to_lower}

-- An empty text stands for the zero value.
abbrev pub or_default : Str → Str → Str
or_default default_ [] = default_
or_default default_ (c ∷ s) = c ∷ s

abbrev pub assigned {ℓ} : {A : Type ℓ} → Target → (A → Target) → Option A → Target × Bool
assigned old make none = (old, false)
assigned old make (some a) = (make a, true)

unfoldable pub set_int_field : Str → ℕ → ℤ → Target × Bool
set_int_field val bits old =
    assigned (int bits old) (int bits) (parse_int bits (or_default (48 ∷ []) val))

unfoldable pub set_uint_field : Str → ℕ → ℕ → Target × Bool
set_uint_field val bits old =
    assigned (uint bits old) (uint bits) (parse_uint bits (or_default (48 ∷ []) val))

unfoldable pub set_bool_field : Str → Bool → Target × Bool
set_bool_field val old =
    assigned (bool old) bool (parse_bool (or_default (102 ∷ 97 ∷ 108 ∷ 115 ∷ 101 ∷ []) val))

module _ (o : Outside) where
  unfoldable pub set_float_field : Str → ℕ → ℕ → Target × Bool
  set_float_field val bits old =
      assigned (float bits old) (float bits)
        (o.parse_float bits (or_default (48 ∷ 46 ∷ 48 ∷ []) val))

  unfoldable pub set_time_duration : Str → ℤ → Target × Bool
  set_time_duration val old = assigned (duration old) duration (o.parse_duration val)

  abbrev pub rfc3339 : Str
  rfc3339 =
      50 ∷ 48 ∷ 48 ∷ 54 ∷ 45 ∷ 48 ∷ 49 ∷ 45 ∷ 48 ∷ 50 ∷ 84 ∷ 49 ∷ 53 ∷ 58 ∷ 48 ∷ 52 ∷ 58 ∷ 48 ∷ 53
      ∷ 90 ∷ 48 ∷ 55 ∷ 58 ∷ 48 ∷ 48 ∷ []

  abbrev pub from_unix : ℕ → ℤ → Target
  from_unix d tv = time (o.unix (quotient tv d) (remainder tv d))

  -- The location in which a text is read: that of the tag, or UTC, or the local one.
  abbrev pub location_of : Field → Option ℕ
  location_of f =
      let l : ℕ = elim (parse_bool f.time_utc) [
        | some true ↦ o.utc
        | some false ↦ o.local
        | none ↦ o.local
      ] in
      elim f.time_location [ [] ↦ some l | ◌∷◌ c s ↦ o.load_location (c ∷ s) ]

  abbrev pub in_location : Str → Str → ℕ → Option ℕ → Target × Bool
  in_location format val old none = (time old, false)
  in_location format val old (some l) = assigned (time old) time (o.parse_in_location format l val)

  unfoldable pub set_time_field : Str → Field → ℕ → Target × Bool
  set_time_field val f old =
      let format = or_default rfc3339 f.time_format in
      let lowered = to_lower format in
      let is_unix = eq_str lowered (117 ∷ 110 ∷ 105 ∷ 120 ∷ []) in
      let is_nano = eq_str lowered (117 ∷ 110 ∷ 105 ∷ 120 ∷ 110 ∷ 97 ∷ 110 ∷ 111 ∷ []) in
      let d = if is_nano then 1000000000 else 1 in
      let as_number = assigned (time old) (from_unix d) (parse_int 64 val) in
      let as_text : Target × Bool = elim val [
        | [] ↦ (time o.zero_time, true)
        | ◌∷◌ c s ↦ in_location format (c ∷ s) old (location_of f)
      ] in
      if is_unix || is_nano then as_number else as_text

  -- Structs and the contents of maps are read as JSON; slices, arrays and pointers are of unknown type here.
  unfoldable pub set_with_proper_type : Str → Field → Target → Target × Bool
  set_with_proper_type val f (int bits old) = set_int_field val bits old
  set_with_proper_type val f (uint bits old) = set_uint_field val bits old
  set_with_proper_type val f (bool old) = set_bool_field val old
  set_with_proper_type val f (float bits old) = set_float_field val bits old
  set_with_proper_type val f (string old) = (string val, true)
  set_with_proper_type val f (duration old) = set_time_duration val old
  set_with_proper_type val f (time old) = set_time_field val f old
  set_with_proper_type val f (struct fs) = o.unmarshal val (struct fs)
  set_with_proper_type val f (object n) = o.unmarshal val (object n)
  set_with_proper_type val f (slice z vs) = (slice z vs, false)
  set_with_proper_type val f (array vs) = (array vs, false)
  set_with_proper_type val f (nil_pointer z) = (nil_pointer z, false)
  set_with_proper_type val f (pointer v) = (pointer v, false)
  set_with_proper_type val f other = (other, false)

  -- Entry by entry, up to the first error; the callers see to it that the lengths agree.
  unfoldable pub set_array : List Str → Field → Items → Items × Bool
  set_array [] f vs = (vs, true)
  set_array (s ∷ ss) f no_items = (no_items, true)
  set_array (s ∷ ss) f (item v vs) =
      let first = set_with_proper_type s f v in
      let rest = set_array ss f vs in
      if first.1 then (item first.0 rest.0, rest.1) else (item first.0 vs, false)

  abbrev pub zeros : Target → List Str → Items
  zeros z [] = no_items
  zeros z (s ∷ ss) = item z (zeros z ss)

  -- A new slice is filled, and takes the place of the old one only if no entry fails.
  unfoldable pub set_slice : List Str → Field → Target → Items → Target × Bool
  set_slice vals f z old =
      let filled = set_array vals f (zeros z vals) in
      if filled.1 then (slice z filled.0, true) else (slice z old, false)
