-- ===== src/Json/Value.antt =====
-- jsonUtil.go: the values that `marshal` meets, by their kind, and `isInvalid`. What `strconv` writes for a
-- float or a complex number is a part of the value.
use gocore.Common.{ℕ, Bool, true, false, not, ◌&&◌, [], ◌∷◌, ◌==◌}
use gocore.Common.Int.{ℤ, pos, negsuc}
use gocore.Json.Cache.{Bytes}

-- The kinds that `combineToJson` tells apart, and those of the fields of a struct.
pub data Kind : Type 0 where
  string_kind int_kind bool_kind float_kind complex_kind slice_kind array_kind struct_kind : Kind
  interface_kind map_kind pointer_kind uintptr_kind other_kind : Kind

-- `float` and `complex` carry whether the number is zero, and its text; `other` (unsigned numbers, channels,
-- functions, raw pointers) whether it is zero. `slice` and `struct` carry the name of their type. The pairs of `dict`
-- stand in the order of `MapKeys`; a `lost` key holds a NaN, so that `MapIndex` does not find its value.
mutual
  pub data Value : Type 0 where
    string : Bytes → Value
    int : ℤ → Value
    bool : Bool → Value
    float : Bool → Bytes → Value
    complex : Bool → Bytes → Value
    nil_slice nil_pointer nil_interface nil_map : Value
    slice : Bytes → Items → Value
    array : Items → Value
    struct : Bytes → Fields → Value
    pointer : Value → Value
    interface : Value → Value
    dict : Pairs → Value
    uintptr : ℕ → Value
    other : Bool → Value

  pub data Items : Type 0 where
    no_items : Items
    item : Value → Items → Items

  pub data Fields : Type 0 where
    no_fields : Fields
    field : Bytes → Value → Fields → Fields

  pub data Pairs : Type 0 where
    no_pairs : Pairs
    pair : Value → Value → Pairs → Pairs
    lost : Value → Pairs → Pairs

abbrev pub kind : Value → Kind
kind (string s) = string_kind
kind (int z) = int_kind
kind (bool b) = bool_kind
kind (float z s) = float_kind
kind (complex z s) = complex_kind
kind nil_slice = slice_kind
kind nil_pointer = pointer_kind
kind nil_interface = interface_kind
kind nil_map = map_kind
kind (slice n vs) = slice_kind
kind (array vs) = array_kind
kind (struct n fs) = struct_kind
kind (pointer v) = pointer_kind
kind (interface v) = interface_kind
kind (dict ps) = map_kind
kind (uintptr n) = uintptr_kind
kind (other z) = other_kind

abbrev is_zero_int : ℤ → Bool
is_zero_int (pos n) = n == 0
is_zero_int (negsuc n) = false

abbrev is_empty : Bytes → Bool
is_empty [] = true
is_empty (c ∷ s) = false

-- `Value.IsZero`
unfoldable mutual
  pub is_zero : Value → Bool
  is_zero (string s) = is_empty s
  is_zero (int z) = is_zero_int z
  is_zero (bool b) = not b
  is_zero (float z s) = z
  is_zero (complex z s) = z
  is_zero nil_slice = true
  is_zero nil_pointer = true
  is_zero nil_interface = true
  is_zero nil_map = true
  is_zero (slice n vs) = false
  is_zero (array vs) = all_zero vs
  is_zero (struct n fs) = are_zero fs
  is_zero (pointer v) = false
  is_zero (interface v) = false
  is_zero (dict ps) = false
  is_zero (uintptr n) = n == 0
  is_zero (other z) = z

  pub all_zero : Items → Bool
  all_zero no_items = true
  all_zero (item v vs) = is_zero v && all_zero vs

  pub are_zero : Fields → Bool
  are_zero no_fields = true
  are_zero (field n v fs) = is_zero v && are_zero fs

-- A pointer is tested by `IsNil`, any other value by `IsZero`.
abbrev pub is_invalid : Value → Bool
is_invalid nil_pointer = true
is_invalid (pointer v) = false
is_invalid v = is_zero v
