-- ===== src/Json/Commas.antt =====
-- jsonUtil.go: where `marshal` writes commas.
use gocore.Common.{
  ◌≡◌, refl, ap, ◌∙◌, Bool, true, false, inl, inr, List, [], ◌∷◌, ◌++◌, Option, none, some,
  if◌then◌else◌, Bool-cases,
}
use mathlib.Core.List.{append_assoc, append-nil}
use gocore.Json.Cache.{Bytes}
use gocore.Json.Value.{Value, Items, Fields, is_invalid, kind, no_items, item, no_fields, field}
use gocore.Json.Encoding.{
  marshal, marshal_items, marshal_fields, encode, ◌>>=◌, field_text, comma, more_items, more_fields,
}

-- A comma between any two texts.
unfoldable pub separated : List Bytes → Bytes
separated [] = []
separated (s ∷ []) = s
separated (s ∷ t ∷ ts) = s ++ 44 ∷ separated (t ∷ ts)

-- A comma behind every text.
unfoldable pub closed : List Bytes → Bytes
closed [] = []
closed (s ∷ ts) = s ++ 44 ∷ closed ts

-- The texts of the entries of a slice.
unfoldable pub item_texts : Items → Option (List Bytes)
item_texts no_items = some []
item_texts (item v vs) = do text ← marshal v; texts ← item_texts vs; some (text ∷ texts)

-- The texts of the fields that are not zero.
unfoldable pub field_texts : Fields → Option (List Bytes)
field_texts no_fields = some []
field_texts (field name v fs) =
    let texts = field_texts fs in
    if is_invalid v
    then texts
    else (do text ← marshal v; more ← texts; some (field_text name (kind v) text ∷ more))

unfoldable pub ends_zero : Fields → Bool
ends_zero no_fields = false
ends_zero (field name v no_fields) = is_invalid v
ends_zero (field name v (field m w fs)) = ends_zero (field m w fs)

abbrev joined : Bool → List Bytes → Bytes
joined z ts = if z then closed ts else separated ts

-- The texts that may follow: none when no entry follows, and some unless the last one is zero.
abbrev Follows : Bool → Bool → Option (List Bytes) → Type 0
Follows false false (some []) = Unit
Follows false z o = ⊥
Follows true false (some []) = ⊥
Follows true z o = Unit

joined-cons :
    (m : Option Bytes) (g : Bytes → Bytes) (b z : Bool) (o : Option (List Bytes))
    → Follows b z o
    → (m >>= λ t. (o >>= λ ts. some (joined z ts)) >>= λ s. some ((g t ++ comma b) ++ s))
      ≡ ((m >>= λ t. o >>= λ ts. some (g t ∷ ts)) >>= λ ts. some (joined z ts))
unfolding separated closed
joined-cons none g b z o h = refl
joined-cons (some t) g false true o h = absurd h
joined-cons (some t) g false false none h = absurd h
joined-cons (some t) g false false (some []) h = ap some (append-nil _ ∙ append-nil _)
joined-cons (some t) g false false (some (u ∷ us)) h = absurd h
joined-cons (some t) g true true none h = refl
joined-cons (some t) g true true (some us) h = ap some (append_assoc (g t) (44 ∷ []) (closed us))
joined-cons (some t) g true false none h = refl
joined-cons (some t) g true false (some []) h = absurd h
joined-cons (some t) g true false (some (u ∷ us)) h =
    ap some (append_assoc (g t) (44 ∷ []) (separated (u ∷ us)))

cons-Follows :
    (m : Option Bytes) (g : Bytes → Bytes) (z : Bool) (o : Option (List Bytes))
    → Follows true z (m >>= λ t. o >>= λ ts. some (g t ∷ ts))
cons-Follows none g true o = tt
cons-Follows none g false o = tt
cons-Follows (some t) g true o = tt
cons-Follows (some t) g false none = tt
cons-Follows (some t) g false (some ts) = tt

items-Follows : (vs : Items) → Follows (more_items vs) false (item_texts vs)
unfolding item_texts
items-Follows no_items = tt
items-Follows (item v vs) = cons-Follows (marshal v) (λ t. t) false (item_texts vs)

no_items_lem : marshal_items no_items ≡ (item_texts no_items >>= λ ts. some (separated ts))
unfolding encode item_texts separated
no_items_lem = refl

no_fields_Follows : Follows false (ends_zero no_fields) (field_texts no_fields)
unfolding ends_zero field_texts
no_fields_Follows = tt

no_fields_lem :
    marshal_fields no_fields
    ≡ (field_texts no_fields >>= λ ts. some (joined (ends_zero no_fields) ts))
unfolding encode field_texts ends_zero separated
no_fields_lem = refl

joined_last :
    (b z : Bool) (o : Option (List Bytes))
    → Follows b z o
    → (o >>= λ ts. some (joined z ts)) ≡ (o >>= λ ts. some (joined (if b then z else true) ts))
unfolding separated closed
joined_last true z o h = refl
joined_last false true o h = absurd h
joined_last false false none h = refl
joined_last false false (some []) h = refl
joined_last false false (some (t ∷ ts)) h = absurd h

marshal_items-item :
    (v : Value) (vs : Items)
    → marshal_items (item v vs)
      ≡ (marshal v >>= λ t. marshal_items vs >>= λ s. some ((t ++ comma (more_items vs)) ++ s))
unfolding marshal encode
marshal_items-item v vs = refl

item_texts-item :
    (v : Value) (vs : Items)
    → item_texts (item v vs) ≡ (marshal v >>= λ t. item_texts vs >>= λ ts. some (t ∷ ts))
unfolding item_texts
item_texts-item v vs = refl

-- A slice is written as the texts of its entries with a comma between any two.
pub marshal_items-separated :
    (vs : Items) → marshal_items vs ≡ (item_texts vs >>= λ ts. some (separated ts))
marshal_items-separated no_items = no_items_lem
marshal_items-separated (item v vs) =
    rw (marshal_items-item v vs, item_texts-item v vs, marshal_items-separated vs)
      (joined-cons (marshal v) (λ t. t) (more_items vs) false (item_texts vs) (items-Follows vs))

ends_zero-cons :
    (n : Bytes) (v : Value) (fs : Fields)
    → is_invalid v ≡ false
    → ends_zero (field n v fs) ≡ ends_zero fs
unfolding ends_zero
ends_zero-cons n v no_fields h = h
ends_zero-cons n v (field m w fs) h = refl

-- What a field does that is not zero, and one that is.
written_field :
    (n : Bytes) (v : Value) (fs : Fields)
    → is_invalid v ≡ false
    → (marshal_fields (field n v fs) ≡ (
        marshal v >>= λ t.
        marshal_fields fs >>= λ s. some ((field_text n (kind v) t ++ comma (more_fields fs)) ++ s)))
      × (field_texts (field n v fs)
          ≡ (marshal v >>= λ t. field_texts fs >>= λ ts. some (field_text n (kind v) t ∷ ts)))
unfolding marshal encode field_texts
written_field n v fs h = rw h (refl, refl)

zero_field :
    (n : Bytes) (v : Value) (fs : Fields)
    → is_invalid v ≡ true
    → (marshal_fields (field n v fs) ≡ marshal_fields fs)
      × (field_texts (field n v fs) ≡ field_texts fs)
unfolding encode field_texts
zero_field n v fs h = rw h (refl, refl)

zero_last :
    (n : Bytes) (v : Value) (fs : Fields)
    → is_invalid v ≡ true
    → ends_zero (field n v fs) ≡ (if more_fields fs then ends_zero fs else true)
unfolding ends_zero
zero_last n v no_fields h = h
zero_last n v (field m w fs) h = refl

fields-Follows : (fs : Fields) → Follows (more_fields fs) (ends_zero fs) (field_texts fs)
fields-Follows no_fields = no_fields_Follows
fields-Follows (field n v fs) = elim (Bool-cases (is_invalid v)) [
  | inl zero_ ↦
      rw ((zero_field n v fs zero_).1, zero_last n v fs zero_)
        (later (more_fields fs) (ends_zero fs) (field_texts fs) (fields-Follows fs))
  | inr written ↦
      rw ((written_field n v fs written).1, ends_zero-cons n v fs written)
        (cons-Follows (marshal v) (field_text n (kind v)) (ends_zero fs) (field_texts fs))
]
  where
    later :
        (b z : Bool) (o : Option (List Bytes))
        → Follows b z o
        → Follows true (if b then z else true) o
    later true z o h = h
    later false z o h = tt

-- The fields of a struct that are not zero are written with a comma between any two, unless the last field
-- of the struct is zero: then a comma stands behind each of them, the last one too.
pub marshal_fields-separated :
    (fs : Fields)
    → marshal_fields fs
      ≡ (field_texts fs >>= λ ts. some (if ends_zero fs then closed ts else separated ts))
marshal_fields-separated no_fields = no_fields_lem
marshal_fields-separated (field n v fs) = elim (Bool-cases (is_invalid v)) [
  | inl zero_ ↦
      rw ((zero_field n v fs zero_).0, (zero_field n v fs zero_).1, zero_last n v fs zero_)
        (marshal_fields-separated fs
          ∙ joined_last (more_fields fs) (ends_zero fs) (field_texts fs) (fields-Follows fs))
  | inr written ↦
      rw
        (
          (written_field n v fs written).0,
          (written_field n v fs written).1,
          ends_zero-cons n v fs written,
          marshal_fields-separated fs,
        )
        (joined-cons (marshal v) (field_text n (kind v)) (more_fields fs) (ends_zero fs)
          (field_texts fs) (fields-Follows fs))
]
