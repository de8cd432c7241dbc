-- ===== src/Json/Encoding.antt =====
-- jsonUtil.go: `marshal` and `combineToJson`. An error is `none`.
use gocore.Common.{
  ℕ, zero, suc, ◌+◌, ◌/◌, ◌%◌, Bool, true, false, [], ◌∷◌, ◌++◌, Option, none, some, ltb,
  if◌then◌else◌,
}
use gocore.Common.Int.{ℤ, pos, negsuc}
use gocore.Json.Cache.{Bytes}
use gocore.Json.Value.{
  Value, Items, Fields, Pairs, Kind, kind, is_invalid, string_kind, int_kind, bool_kind, float_kind,
  complex_kind, slice_kind, array_kind, struct_kind, interface_kind, map_kind, pointer_kind,
  uintptr_kind, other_kind, string, int, bool, float, complex, nil_slice, nil_pointer,
  nil_interface, nil_map, slice, array, struct, pointer, interface, dict, uintptr, other, no_items,
  item, no_fields, field, no_pairs, pair, lost,
}

infixl 5 ◌>>=◌
abbrev pub ◌>>=◌ {ℓ κ} : {A : Type ℓ} {B : Type κ} → Option A → (A → Option B) → Option B
none >>= f = none
some a >>= f = f a

-- `strconv.FormatInt(n, 10)`; `n` is fuel enough for its own digits.
unfoldable pub decimal_loop : ℕ → ℕ → Bytes
decimal_loop zero n = (48 + n % 10) ∷ []
decimal_loop (suc f) n =
    let rest = decimal_loop f (n / 10) in
    if ltb n 10 then (48 + n) ∷ [] else rest ++ ((48 + n % 10) ∷ [])

unfoldable pub format_int : ℤ → Bytes
format_int (pos n) = decimal_loop n n
format_int (negsuc n) = 45 ∷ decimal_loop (suc n) (suc n)

unfoldable pub format_bool : Bool → Bytes
format_bool true = 116 ∷ 114 ∷ 117 ∷ 101 ∷ []
format_bool false = 102 ∷ 97 ∷ 108 ∷ 115 ∷ 101 ∷ []

-- The key in quotes and a colon.
abbrev pub keyed : Bytes → Bytes → Bytes
keyed key text = (34 ∷ key) ++ 34 ∷ 58 ∷ 32 ∷ text

-- The text in brackets, with the end of the line.
abbrev enclosed : ℕ → Bytes → ℕ → Bytes
enclosed open_ text close_ = (open_ ∷ text) ++ close_ ∷ 10 ∷ []

unfoldable pub combine_to_json : Bytes → Bytes → Kind → Bytes
combine_to_json key text string_kind = keyed key (enclosed 34 text 34)
combine_to_json key text int_kind = keyed key (text ++ 10 ∷ [])
combine_to_json key text float_kind = keyed key (text ++ 10 ∷ [])
combine_to_json key text complex_kind = keyed key (text ++ 10 ∷ [])
combine_to_json key text bool_kind = keyed key (text ++ 10 ∷ [])
combine_to_json key text slice_kind = keyed key (enclosed 91 text 93)
combine_to_json key text array_kind = keyed key (enclosed 91 text 93)
combine_to_json key text struct_kind = keyed key (enclosed 123 text 125)
combine_to_json key text interface_kind = keyed key (enclosed 123 text 125)
combine_to_json key text map_kind = enclosed 123 text 125
combine_to_json key text pointer_kind = keyed key (10 ∷ [])
combine_to_json key text uintptr_kind = keyed key (10 ∷ [])
combine_to_json key text other_kind = keyed key (10 ∷ [])

-- What a field of a struct adds: a struct under the name of its type, a map under the field's.
unfoldable pub field_text : Bytes → Kind → Bytes → Bytes
field_text name struct_kind text = text
field_text name map_kind text = combine_to_json name text int_kind
field_text name k text = combine_to_json name text k

abbrev pub comma : Bool → Bytes
comma true = 44 ∷ []
comma false = []

abbrev pub more_items : Items → Bool
more_items no_items = false
more_items (item v vs) = true

abbrev pub more_fields : Fields → Bool
more_fields no_fields = false
more_fields (field n v fs) = true

-- The first test of `marshal`: an invalid value has no text.
abbrev pub unless_invalid : Value → Option Bytes → Option Bytes
unless_invalid v text = if is_invalid v then some [] else text

-- The cases of `marshal`, for a value that is not invalid. The elements of an array are not looked at. The value that
-- `MapIndex` gives for a lost key panics in `Type` or in `IsZero`, which `marshal` turns into an error.
unfoldable mutual
  pub encode : Value → Option Bytes
  encode (string s) = some s
  encode (int z) = some (format_int z)
  encode (bool b) = some (format_bool b)
  encode (float z s) = some s
  encode (complex z s) = some s
  encode nil_slice = some []
  encode nil_pointer = some []
  encode nil_interface = some []
  encode nil_map = some []
  encode (slice name vs) = do text ← marshal_items vs; some (combine_to_json name text slice_kind)
  encode (array vs) = some []
  encode (struct name fs) = do
    text ← marshal_fields fs
    some (combine_to_json name text struct_kind)
  encode (pointer v) = unless_invalid v (encode v)
  encode (interface v) = unless_invalid v (encode v)
  encode (dict no_pairs) = some []
  encode (dict (pair k v ps)) = do
    text ← marshal_pairs (pair k v ps)
    some (combine_to_json [] text map_kind)
  encode (dict (lost k ps)) = marshal_pairs (lost k ps)
  encode (uintptr n) = none
  encode (other z) = some []

  pub marshal_items : Items → Option Bytes
  marshal_items no_items = some []
  marshal_items (item v vs) = do
    text ← unless_invalid v (encode v)
    rest ← marshal_items vs
    some ((text ++ comma (more_items vs)) ++ rest)

  pub marshal_fields : Fields → Option Bytes
  marshal_fields no_fields = some []
  marshal_fields (field name v fs) =
      let rest = marshal_fields fs in
      let written = (do
        text ← unless_invalid v (encode v)
        more ← rest
        some ((field_text name (kind v) text ++ comma (more_fields fs)) ++ more)) in
      if is_invalid v then rest else written

  pub marshal_pairs : Pairs → Option Bytes
  marshal_pairs no_pairs = some []
  marshal_pairs (pair k v ps) = do
    key ← unless_invalid k (encode k)
    text ← unless_invalid v (encode v)
    rest ← marshal_pairs ps
    some (combine_to_json key text string_kind ++ rest)
  marshal_pairs (lost k ps) = none

unfoldable pub marshal : Value → Option Bytes
marshal v = unless_invalid v (encode v)
