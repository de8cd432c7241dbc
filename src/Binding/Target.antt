-- ===== src/Binding/Target.antt =====
-- gin/binding/form_mapping.go: the values that a form is mapped to, with their types, and what the code takes
-- from the libraries of time and JSON.
use gocore.Common.{ℕ, Bool, Option}
use gocore.Common.Int.{ℤ}
use gocore.Gin.Maps.{Str}

-- A field of a struct: its name, whether it is exported and anonymous, and its tags.
pub record Field : Type 0 where
  pub name : Str
  pub is_exported : Bool
  pub is_anonymous : Bool
  pub tag : Str
  pub time_format : Str
  pub time_utc : Str
  pub time_location : Str

-- A number carries its width in bits. Floats, times and the contents of maps go by numbers. `slice` carries the zero
-- value of its entries and `nil_pointer` that of what it would point to, so that no type contains itself.
mutual
  pub data Target : Type 0 where
    int : ℕ → ℤ → Target
    uint : ℕ → ℕ → Target
    bool : Bool → Target
    float : ℕ → ℕ → Target
    string : Str → Target
    duration : ℤ → Target
    time : ℕ → Target
    object : ℕ → Target
    slice : Target → Items → Target
    array : Items → Target
    struct : Fields → Target
    nil_pointer : Target → Target
    pointer : Target → Target
    other : Target

  pub data Items : Type 0 where
    no_items : Items
    item : Target → Items → Items

  pub data Fields : Type 0 where
    no_fields : Fields
    field : Field → Target → Fields → Fields

-- `strconv.ParseFloat`, the functions of package time, and `json.Unmarshal`, which may change its target before it
-- fails; its second result is whether it succeeds.
pub record Outside : Type 0 where
  pub parse_float : ℕ → Str → Option ℕ
  pub parse_duration : Str → Option ℤ
  pub parse_in_location : Str → ℕ → Str → Option ℕ
  pub load_location : Str → Option ℕ
  pub unix : ℤ → ℤ → ℕ
  pub zero_time : ℕ
  pub local : ℕ
  pub utc : ℕ
  pub unmarshal : Str → Target → Target × Bool
