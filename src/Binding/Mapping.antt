-- ===== src/Binding/Mapping.antt =====
-- gin/binding/form_mapping.go: `mapping` over a form, and the maps that a form is copied to.
use gocore.Common.{
  ℕ, zero, suc, ◌==◌, Bool, true, false, ◌&&◌, not, List, [], ◌∷◌, Option, none, some,
  if◌then◌else◌, length,
}
use gocore.Common.Run.{Run, ok, panic, ◌>>=◌}
use gocore.Gin.Maps.{Str, Map, eq_str, lookup, put}
use gocore.Binding.Target.{
  Target, Items, Fields, Field, Outside, slice, array, struct, nil_pointer, pointer, no_items, item,
  no_fields, field,
}
use gocore.Binding.Parse.{head}
use gocore.Binding.Set.{set_with_proper_type, set_array, set_slice}

abbrev pub Form : Type 0
Form = Map (List Str)

-- `(false, nil)`, `(true, nil)`, and any result with an error.
pub data Outcome : Type 0 where
  unset set failed : Outcome

abbrev pub done : Target × Bool → Outcome × Target
done r = (if r.1 then set else failed, r.0)

abbrev pub count_items : Items → ℕ
count_items no_items = 0
count_items (item v vs) = suc (count_items vs)

abbrev pub or_texts : Str → Option (List Str) → List Str
or_texts default_ none = default_ ∷ []
or_texts default_ (some vs) = vs

abbrev first_or : Str → List Str → Str
first_or default_ [] = default_
first_or default_ (v ∷ vs) = v

-- The text for a single value: the first of the form's, or the default one if the key is missing.
abbrev pub single : Str → Option (List Str) → Str
single default_ none = default_
single default_ (some vs) = first_or [] vs

abbrev pub text_of_default : Option Str → Str
text_of_default none = []
text_of_default (some s) = s

module _ (o : Outside) (form : Form) where
  -- `opt` is the default text, if the tag has one.
  unfoldable pub by_kind : Option (List Str) → Str → Field → Target → Outcome × Target
  by_kind vs default_ f (slice z old) = done (set_slice o (or_texts default_ vs) f z old)
  by_kind vs default_ f (array old) =
      let texts = or_texts default_ vs in
      let filled = set_array o texts f old in
      if length texts == count_items old
      then done (array filled.0, filled.1)
      else (failed, array old)
  by_kind vs default_ f v = done (set_with_proper_type o (single default_ vs) f v)

  unfoldable pub set_by_form : Str → Option Str → Field → Target → Outcome × Target
  set_by_form tag_value opt f v =
      let found = by_kind (lookup form tag_value) (text_of_default opt) f v in
      elim (lookup form tag_value) [
        | some vs ↦ found
        | none ↦ elim opt [ none ↦ (unset, v) | some d ↦ found ]
      ]

  -- The options behind the name: the last `default=` counts. The fuel is the length of the text.
  unfoldable pub options_loop : ℕ → Str → Option Str → Option Str
  options_loop fuel [] opt = opt
  options_loop zero (c ∷ s) opt = opt
  options_loop (suc fuel) (c ∷ s) opt =
      let next = head (c ∷ s) 44 in
      let pair = head next.0 61 in
      let is_default = eq_str pair.0 (100 ∷ 101 ∷ 102 ∷ 97 ∷ 117 ∷ 108 ∷ 116 ∷ []) in
      options_loop fuel next.1 (if is_default then some pair.1 else opt)

  abbrev pub name_or : Str → Str → Str
  name_or name [] = name
  name_or name (c ∷ s) = c ∷ s

  unfoldable pub try_to_set_value : Field → Target → Outcome × Target
  unfolding options_loop
  try_to_set_value f v =
      let parts = head f.tag 44 in
      let opt = options_loop (length parts.1) parts.1 none in
      elim (name_or f.name parts.0) [ [] ↦ (unset, v) | ◌∷◌ c s ↦ set_by_form (c ∷ s) opt f v ]

  abbrev pub is_dash : Str → Bool
  is_dash tag = eq_str tag (45 ∷ [])

  abbrev pub if_unset : Outcome × Target → Outcome × Target → Outcome × Target
  if_unset r other_ = elim r.0 [ unset ↦ other_ | set ↦ r | failed ↦ r ]

  -- A nil pointer gets its new value only if something in that was set.
  abbrev pub pointed : Target → Outcome × Target → Outcome × Target
  pointed z r = elim r.0 [
    | unset ↦ (unset, nil_pointer z)
    | set ↦ (set, pointer r.1)
    | failed ↦ (failed, nil_pointer z)
  ]

  abbrev pub with_field : Field → Target → Outcome × Fields → Outcome × Fields
  with_field f v r = (r.0, field f v r.1)

  -- An embedded struct goes to its fields at once, any other first by its own name.
  unfoldable mutual
    pub mapping : Field → Target → Outcome × Target
    mapping f (nil_pointer z) =
        if is_dash f.tag then (unset, nil_pointer z) else pointed z (mapping f z)
    mapping f (pointer v) =
        let r = mapping f v in if is_dash f.tag then (unset, pointer v) else (r.0, pointer r.1)
    mapping f (struct fs) =
        let by_fields = mapping_fields unset fs in
        let inside : Outcome × Target = (by_fields.0, struct by_fields.1) in
        let whole =
          if f.is_anonymous then inside else if_unset (try_to_set_value f (struct fs)) inside in
        if is_dash f.tag then (unset, struct fs) else whole
    mapping f v = if is_dash f.tag then (unset, v) else try_to_set_value f v

    -- Fields that are not exported are left out, unless they are embedded; an error ends the loop.
    pub mapping_fields : Outcome → Fields → Outcome × Fields
    mapping_fields so_far no_fields = (so_far, no_fields)
    mapping_fields so_far (field f v fs) =
        let m = mapping f v in
        let skipped = with_field f v (mapping_fields so_far fs) in
        let mapped : Outcome × Fields = elim m.0 [
          | unset ↦ with_field f m.1 (mapping_fields so_far fs)
          | set ↦ with_field f m.1 (mapping_fields set fs)
          | failed ↦ (failed, field f m.1 fs)
        ] in
        if not f.is_exported && not f.is_anonymous then skipped else mapped

  -- `mappingByPtr`: the pointer itself is no field.
  abbrev pub empty_field : Field
  empty_field = record {
    name = [];
    is_exported = true;
    is_anonymous = false;
    tag = [];
    time_format = [];
    time_utc = [];
    time_location = [];
  }

  unfoldable pub mapping_by_ptr : Target → Outcome × Target
  mapping_by_ptr v = mapping empty_field (pointer v)

-- `setFormMap`: into a map of slices the entries are copied, into one of texts the last text of each; an entry without
-- texts panics there.
unfoldable pub copy_entries : Form → Form → Form
copy_entries [] m = m
copy_entries ((k, v) ∷ form) m = copy_entries form (put m k v)

abbrev last_of : List Str → Run Str
last_of [] = panic
last_of (v ∷ []) = ok v
last_of (v ∷ w ∷ vs) = last_of (w ∷ vs)

unfoldable pub copy_last : Form → Map Str → Run (Map Str)
copy_last [] m = ok m
copy_last ((k, v) ∷ form) m = last_of v >>= λ s. copy_last form (put m k s)

-- What a form is mapped to: a map of slices, a map of texts, a map to something else, or what a pointer points to. The
-- tag is the one that the fields carry.
pub data Destination : Type 0 where
  to_slices : Form → Destination
  to_texts : Map Str → Destination
  to_other_map : Destination
  to_value : Target → Destination

abbrev is_done : Outcome → Bool
is_done unset = true
is_done set = true
is_done failed = false

abbrev pointee : Target → Target
pointee (pointer v) = v
pointee v = v

-- `mapFormByTag`: whether there was no error, and the destination.
unfoldable pub map_form_by_tag : Outside → Form → Destination → Run (Bool × Destination)
unfolding copy_entries copy_last mapping_by_ptr
map_form_by_tag o form (to_slices m) = ok (true, to_slices (copy_entries form m))
map_form_by_tag o form (to_texts m) = copy_last form m >>= λ m'. ok (true, to_texts m')
map_form_by_tag o form to_other_map = ok (false, to_other_map)
map_form_by_tag o form (to_value v) =
    let r = mapping_by_ptr o form v in ok (is_done r.0, to_value (pointee r.1))
