-- ===== src/Binding/Tests.antt =====
-- A struct with a number and a pointer to another, and the theorems of the bindings at it.
use gocore.Common.{◌≡◌, refl, true, false, [], ◌∷◌, none, arith}
use gocore.Common.Int.{pos, negsuc}
use gocore.Gin.Maps.{Str}
use gocore.Json.Encoding.{format_int, decimal_loop}
use gocore.Binding.Target.{
  Outside, Field, Target, int, struct, nil_pointer, no_fields, field, slice, item, no_items,
}
use gocore.Binding.Mapping.{Form, set, mapping, try_to_set_value, set_by_form}
use gocore.Binding.Typed.{IsTyped, type_of}
use gocore.Binding.Setters.{Fills-refl}
use gocore.Binding.Types.{mapping-IsTyped}
use gocore.Binding.Unset.{mapping-unset}
use gocore.Binding.Numbers.{mapping-format_int}

-- Nothing outside can be read.
abbrev closed : Outside
closed = record {
  parse_float = λ bits s. none;
  parse_duration = λ s. none;
  parse_in_location = λ format l s. none;
  load_location = λ s. none;
  unix = λ s n. 0;
  zero_time = 0;
  local = 0;
  utc = 0;
  unmarshal = λ s v. (v, false);
}

-- A field with the tag `n,default=1`, or with a tag of one name.
abbrev tagged : Str → Field
tagged tag = record {
  name = 78 ∷ [];
  is_exported = true;
  is_anonymous = false;
  tag = tag;
  time_format = [];
  time_utc = [];
  time_location = [];
}

abbrev with_default : Str
with_default = 110 ∷ 44 ∷ 100 ∷ 101 ∷ 102 ∷ 97 ∷ 117 ∷ 108 ∷ 116 ∷ 61 ∷ 49 ∷ []

-- `-129` does not fit into 8 bits, but `-128` does.
mapping-format_int_example :
    mapping closed
      ((110 ∷ [], (45 ∷ 49 ∷ 50 ∷ 56 ∷ []) ∷ []) ∷ [])
      (tagged with_default)
      (int 8 (pos 0))
    ≡ (set, int 8 (negsuc 127))
unfolding format_int decimal_loop
mapping-format_int_example =
    mapping-format_int closed ((110 ∷ [], (45 ∷ 49 ∷ 50 ∷ 56 ∷ []) ∷ []) ∷ []) (tagged with_default)
      8 (pos 0) (negsuc 127) refl refl refl (omega arith)

abbrev inner : Target
inner = struct (
    field (tagged (97 ∷ [])) (int 32 (pos 5))
      (field (tagged (98 ∷ [])) (nil_pointer (int 8 (pos 0))) no_fields))

-- The form has no text for any field.
mapping-unset_example :
    (mapping closed [] (tagged (99 ∷ [])) (nil_pointer inner)).1 ≡ nil_pointer inner
unfolding mapping try_to_set_value set_by_form
mapping-unset_example = mapping-unset closed [] (tagged (99 ∷ [])) (nil_pointer inner) refl

-- A slice of two small numbers, the second of which does not fit.
abbrev small : Target
small = slice (int 8 (pos 0)) (item (int 8 (pos 1)) no_items)

abbrev sizes : Form
sizes = (99 ∷ [], (49 ∷ []) ∷ (50 ∷ 48 ∷ 48 ∷ []) ∷ []) ∷ []

mapping-IsTyped_example :
    IsTyped (mapping closed sizes (tagged (99 ∷ [])) small).1
    × (type_of (mapping closed sizes (tagged (99 ∷ [])) small).1 ≡ type_of small)
unfolding type_of IsTyped
mapping-IsTyped_example =
    mapping-IsTyped closed (λ s v. Fills-refl) sizes (tagged (99 ∷ [])) small
      ((omega arith, ((omega arith, refl), tt)))
