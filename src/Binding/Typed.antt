-- ===== src/Binding/Typed.antt =====
-- gin/binding/form_mapping.go: the type of a value, which reflection keeps, and what a value of its type holds.
use gocore.Common.{[], ℕ, suc, ◌-◌, ◌^◌, ◌≤◌, ◌<◌, ◌≡◌, false}
use gocore.Common.Int.{ℤ, pos, negsuc}
use gocore.Binding.Target.{
  Target, Items, Fields, Outside, int, uint, bool, float, string, duration, time, object, slice,
  array, struct, nil_pointer, pointer, other, no_items, item, no_fields, field,
}
use gocore.Binding.Parse.{bits_of}

-- The type, as a value with nothing in it. An array keeps its length, and a slice does not.
unfoldable mutual
  pub type_of : Target → Target
  type_of (int bits z) = int bits (pos 0)
  type_of (uint bits n) = uint bits 0
  type_of (bool b) = bool false
  type_of (float bits n) = float bits 0
  type_of (string s) = string []
  type_of (duration z) = duration (pos 0)
  type_of (time n) = time 0
  type_of (object n) = object 0
  type_of (slice z vs) = slice (type_of z) no_items
  type_of (array vs) = array (type_of_items vs)
  type_of (struct fs) = struct (type_of_fields fs)
  type_of (nil_pointer z) = nil_pointer (type_of z)
  type_of (pointer v) = nil_pointer (type_of v)
  type_of other = other

  pub type_of_items : Items → Items
  type_of_items no_items = no_items
  type_of_items (item v vs) = item (type_of v) (type_of_items vs)

  pub type_of_fields : Fields → Fields
  type_of_fields no_fields = no_fields
  type_of_fields (field f v fs) = field f (type_of v) (type_of_fields fs)

-- The numbers of a width.
abbrev pub FitsIn : ℕ → ℤ → Type 0
FitsIn bits (pos n) = n < 2 ^ (bits_of bits - 1)
FitsIn bits (negsuc n) = suc n ≤ 2 ^ (bits_of bits - 1)

-- Numbers fit into their width, and the entries of a slice are of its type, at any depth.
unfoldable mutual
  pub IsTyped : Target → Type 0
  IsTyped (int bits z) = FitsIn bits z
  IsTyped (uint bits n) = n < 2 ^ bits_of bits
  IsTyped (bool b) = Unit
  IsTyped (float bits n) = Unit
  IsTyped (string s) = Unit
  IsTyped (duration z) = Unit
  IsTyped (time n) = Unit
  IsTyped (object n) = Unit
  IsTyped (slice z vs) = IsTyped z × ItemsTyped (type_of z) vs
  IsTyped (array vs) = AllTyped vs
  IsTyped (struct fs) = FieldsTyped fs
  IsTyped (nil_pointer z) = IsTyped z
  IsTyped (pointer v) = IsTyped v
  IsTyped other = Unit

  pub AllTyped : Items → Type 0
  AllTyped no_items = Unit
  AllTyped (item v vs) = IsTyped v × AllTyped vs

  pub ItemsTyped : Target → Items → Type 0
  ItemsTyped z no_items = Unit
  ItemsTyped z (item v vs) = (IsTyped v × (type_of v ≡ z)) × ItemsTyped z vs

  pub FieldsTyped : Fields → Type 0
  FieldsTyped no_fields = Unit
  FieldsTyped (field f v fs) = IsTyped v × FieldsTyped fs

-- A value in the place of another: if that is typed, this is too, and is of the same type. A record, so that a goal
-- shows the values.
pub record Fills (v w : Target) : Type 0 where
  pub fills : IsTyped v → IsTyped w × (type_of w ≡ type_of v)

-- The same of the fields of a struct.
pub record FillsFields (fs gs : Fields) : Type 0 where
  pub fills : FieldsTyped fs → FieldsTyped gs × (type_of_fields gs ≡ type_of_fields fs)

-- `json.Unmarshal` leaves a value of its target's type, whether or not it succeeds.
abbrev pub KeepsType : Outside → Type 0
KeepsType o = (s : _) (v : Target) → Fills v (o.unmarshal s v).0
