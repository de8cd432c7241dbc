-- ===== src/Binding/Types.antt =====
-- gin/binding/form_mapping.go: what a form sets keeps its type, and every number fits into its field.
use gocore.Common.{◌≡◌, refl, ap, Bool, ◌&&◌, not, List, [], ◌∷◌, Option, none, some, ◌==◌, length}
use gocore.Gin.Maps.{Str, lookup}
use gocore.Binding.Target.{
  Target, Fields, Field, Outside, int, uint, bool, float, string, duration, time, object, slice,
  array, struct, nil_pointer, pointer, other, no_fields, field,
}
use gocore.Binding.Parse.{head}
use gocore.Binding.Setters.{At, At-if, Sets, Fills-refl, set-Sets, set_slice-Sets, array-Sets}
use gocore.Binding.Mapping.{
  Form, Outcome, unset, set, failed, mapping, mapping_fields, by_kind, set_by_form,
  try_to_set_value, text_of_default, options_loop, is_dash, if_unset, pointed, with_field, name_or,
  count_items, or_texts, done, single,
}
use gocore.Binding.Typed.{type_of, IsTyped, Fills, FillsFields, KeepsType}

-- What mapping a value leaves in its place.
abbrev Maps : Target → Outcome × Target → Type 0
Maps v = At λ r. Fills v r.1

abbrev MapsFields : Fields → Outcome × Fields → Type 0
MapsFields fs = At λ r. FillsFields fs r.1

rests : {v : Target} (b : Outcome) → Maps v (b, v)
rests b = record { at = Fills-refl }

done-Maps : {v : Target} (r : Target × Bool) → Sets v r → Maps v (done r)
done-Maps r h = record { at = h.at }

module _ (o : Outside) (keeps : KeepsType o) (form : Form) where
  by_kind-Maps :
      (vs : Option (List Str)) (d : Str) (f : Field) (v : Target) → Maps v (by_kind o form vs d f v)
  unfolding by_kind
  by_kind-Maps vs d f (slice z old) = done-Maps _ (set_slice-Sets o keeps (or_texts d vs) f z old)
  by_kind-Maps vs d f (array old) =
      At-if (length (or_texts d vs) == count_items old)
        (done-Maps _ (array-Sets o keeps (or_texts d vs) f old)) (rests failed)
  by_kind-Maps vs d f v = done-Maps _ (set-Sets o keeps (single d vs) f v)

  set_by_form-Maps :
      (tag_value : Str) (opt : Option Str) (f : Field) (v : Target)
      → Maps v (set_by_form o form tag_value opt f v)
  unfolding set_by_form
  set_by_form-Maps tag_value opt f v =
      known (lookup form tag_value) opt
        (by_kind-Maps (lookup form tag_value) (text_of_default opt) f v)
    where
      known :
          (vs : Option (List Str)) (opt' : Option Str) {found : Outcome × Target}
          → Maps v found
          → Maps v (elim vs [
            | some vs ↦ found
            | none ↦ elim opt' [ none ↦ (unset, v) | some d ↦ found ]
          ])
      known (some vs) opt' h = h
      known none none h = rests unset
      known none (some d) h = h

  try-Maps : (f : Field) (v : Target) → Maps v (try_to_set_value o form f v)
  unfolding try_to_set_value
  try-Maps f v = named (name_or o form f.name (head f.tag 44).0)
    where
      opt : Option Str
      opt = options_loop o form (length (head f.tag 44).1) (head f.tag 44).1 none

      named :
          (name : Str)
          → Maps v (elim name [ [] ↦ (unset, v) | ◌∷◌ c s ↦ set_by_form o form (c ∷ s) opt f v ])
      named [] = rests unset
      named (c ∷ s) = set_by_form-Maps (c ∷ s) opt f v

  pointed-Maps :
      (z : Target) (r : Outcome × Target) → Maps z r → Maps (nil_pointer z) (pointed o form z r)
  unfolding type_of IsTyped
  pointed-Maps z (unset, v) h = rests unset
  pointed-Maps z (set, v) h = record {
    at = record { fills = λ t. let (t', e) = h.at.fills t in (t', ap nil_pointer e) };
  }
  pointed-Maps z (failed, v) h = rests failed

  pointer-Maps :
      {v : Target} {r : Outcome × Target} → Maps v r → Maps (pointer v) (r.0, pointer r.1)
  unfolding type_of IsTyped
  pointer-Maps h = record {
    at = record { fills = λ t. let (t', e) = h.at.fills t in (t', ap nil_pointer e) };
  }

  struct-Maps :
      {fs : Fields} {r : Outcome × Fields} → MapsFields fs r → Maps (struct fs) (r.0, struct r.1)
  unfolding type_of IsTyped
  struct-Maps h = record {
    at = record { fills = λ t. let (t', e) = h.at.fills t in (t', ap struct e) };
  }

  if_unset-Maps :
      {v : Target} (r : Outcome × Target) {s : Outcome × Target}
      → Maps v r
      → Maps v s
      → Maps v (if_unset o form r s)
  if_unset-Maps (unset, w) h k = k
  if_unset-Maps (set, w) h k = h
  if_unset-Maps (failed, w) h k = h

  with_field-Maps :
      (f : Field) {v w : Target} {fs : Fields} {r : Outcome × Fields}
      → Fills v w
      → MapsFields fs r
      → MapsFields (field f v fs) (with_field o form f w r)
  unfolding type_of IsTyped
  with_field-Maps f h k = record {
    at = record {
      fills = λ t.
          let (t1, e1) = h.fills t.0 in
          let (t2, e2) = k.at.fills t.1 in ((t1, t2), rw (e1, e2) refl);
    };
  }

  field-Maps :
      (f : Field) {v : Target} {fs : Fields} (m : Outcome × Target) {r r' : Outcome × Fields}
      → Maps v m
      → MapsFields fs r
      → MapsFields fs r'
      → MapsFields (field f v fs) (elim m.0 [
        | unset ↦ with_field o form f m.1 r
        | set ↦ with_field o form f m.1 r'
        | failed ↦ (failed, field f m.1 fs)
      ])
  field-Maps f (unset, w) h k k' = with_field-Maps f h.at k
  field-Maps f (set, w) h k k' = with_field-Maps f h.at k'
  field-Maps f {fs = fs} (failed, w) h k k' =
      with_field-Maps f {r = (failed, fs)} h.at (record { at = record { fills = λ t. (t, refl) } })

  mutual
    unfolding mapping

    mapping-Maps : (f : Field) (v : Target) → Maps v (mapping o form f v)
    mapping-Maps f (nil_pointer z) =
        At-if (is_dash o form f.tag) (rests unset) (pointed-Maps z _ (mapping-Maps f z))
    mapping-Maps f (pointer v) =
        At-if (is_dash o form f.tag) (rests unset) (pointer-Maps (mapping-Maps f v))
    mapping-Maps f (struct fs) = At-if (is_dash o form f.tag) (rests unset) (
        At-if f.is_anonymous (struct-Maps (fields-Maps fs unset))
          (if_unset-Maps _ (try-Maps f (struct fs)) (struct-Maps (fields-Maps fs unset))))
    mapping-Maps f (int w z) = At-if (is_dash o form f.tag) (rests unset) (try-Maps f _)
    mapping-Maps f (uint w z) = At-if (is_dash o form f.tag) (rests unset) (try-Maps f _)
    mapping-Maps f (bool b) = At-if (is_dash o form f.tag) (rests unset) (try-Maps f _)
    mapping-Maps f (float w z) = At-if (is_dash o form f.tag) (rests unset) (try-Maps f _)
    mapping-Maps f (string s) = At-if (is_dash o form f.tag) (rests unset) (try-Maps f _)
    mapping-Maps f (duration z) = At-if (is_dash o form f.tag) (rests unset) (try-Maps f _)
    mapping-Maps f (time z) = At-if (is_dash o form f.tag) (rests unset) (try-Maps f _)
    mapping-Maps f (object z) = At-if (is_dash o form f.tag) (rests unset) (try-Maps f _)
    mapping-Maps f (slice z vs) = At-if (is_dash o form f.tag) (rests unset) (try-Maps f _)
    mapping-Maps f (array vs) = At-if (is_dash o form f.tag) (rests unset) (try-Maps f _)
    mapping-Maps f other = At-if (is_dash o form f.tag) (rests unset) (try-Maps f _)

    fields-Maps : (fs : Fields) (so_far : Outcome) → MapsFields fs (mapping_fields o form so_far fs)
    fields-Maps no_fields so_far = record { at = record { fills = λ t. (t, refl) } }
    fields-Maps (field f v fs) so_far =
        At-if (not f.is_exported && not f.is_anonymous)
          (with_field-Maps f Fills-refl (fields-Maps fs so_far))
          (field-Maps f (mapping o form f v) (mapping-Maps f v) (fields-Maps fs so_far)
            (fields-Maps fs set))

-- Mapping a form onto a typed value leaves a typed value of the same type, whether it sets something, nothing or fails
-- half-way: every number in it fits into its width, every entry of a slice is of the slice's type, and structs, arrays
-- and pointers keep their shape, at any depth. JSON is assumed to be decoded into a value of its target's type.
pub mapping-IsTyped :
    (o : Outside)
    → KeepsType o
    → (form : Form) (f : Field) (v : Target) → IsTyped v
    → IsTyped (mapping o form f v).1 × (type_of (mapping o form f v).1 ≡ type_of v)
mapping-IsTyped o keeps form f v h = (mapping-Maps o keeps form f v).at.fills h
