-- ===== src/Binding/Unset.antt =====
-- gin/binding/form_mapping.go: what is not set is not changed.
use gocore.Common.{
  ◌≡◌, refl, ap, Bool, true, false, ◌&&◌, not, List, [], ◌∷◌, Option, none, some, if◌then◌else◌,
  ◌==◌, length,
}
use gocore.Gin.Maps.{Str, lookup}
use gocore.Binding.Target.{
  Target, Fields, Field, Outside, int, uint, bool, float, string, duration, time, object, slice,
  array, struct, nil_pointer, pointer, other, no_fields, field,
}
use gocore.Binding.Parse.{head}
use gocore.Binding.Mapping.{
  name_or, Form, Outcome, unset, set, failed, mapping, mapping_fields, by_kind, set_by_form,
  try_to_set_value, count_items, or_texts, text_of_default, done, pointed, if_unset, is_dash,
  with_field, options_loop,
}

-- If nothing was set, the value is the same. A record, so that a goal shows the run it is about.
record Keeps {A : Type 0} (a : A) (r : Outcome × A) : Type 0 where
  kept : r.0 ≡ unset → r.1 ≡ a

module _ {A : Type 0} {a : A} where
  unset-Keeps : Keeps a (unset, a)
  unset-Keeps = record { kept = λ h. refl }

  set-Keeps : {b : A} → Keeps a (set, b)
  set-Keeps = record { kept = λ h. cc }

  failed-Keeps : {b : A} → Keeps a (failed, b)
  failed-Keeps = record { kept = λ h. cc }

  if-Keeps : (b : Bool) {x y : Outcome × A} → Keeps a x → Keeps a y → Keeps a (if b then x else y)
  if-Keeps true h k = h
  if-Keeps false h k = k

-- Something was set, or failed.
record Never {A : Type 0} (r : Outcome × A) : Type 0 where
  never : r.0 ≡ unset → ⊥

if-Never :
    {A : Type 0} (b : Bool) {x y : Outcome × A} → Never x → Never y → Never (if b then x else y)
if-Never true h k = h
if-Never false h k = k

done-Keeps : (v : Target) (r : Target × Bool) → Keeps v (done r)
done-Keeps v (w, true) = set-Keeps
done-Keeps v (w, false) = failed-Keeps

module _ (o : Outside) (form : Form) where
  by_kind-Keeps :
      (vs : Option (List Str)) (d : Str) (f : Field) (v : Target)
      → Keeps v (by_kind o form vs d f v)
  unfolding by_kind
  by_kind-Keeps vs d f (slice z old) = done-Keeps _ _
  by_kind-Keeps vs d f (array old) =
      if-Keeps (length (or_texts d vs) == count_items old) (done-Keeps _ _) failed-Keeps
  by_kind-Keeps vs d f v = done-Keeps v _

  set_by_form-Keeps :
      (tag_value : Str) (opt : Option Str) (f : Field) (v : Target)
      → Keeps v (set_by_form o form tag_value opt f v)
  unfolding set_by_form
  set_by_form-Keeps tag_value opt f v = known (lookup form tag_value) opt
    where
      found : Outcome × Target
      found = by_kind o form (lookup form tag_value) (text_of_default opt) f v

      known :
          (vs : Option (List Str)) (opt' : Option Str)
          → Keeps v (elim vs [
            | some vs ↦ found
            | none ↦ elim opt' [ none ↦ (unset, v) | some d ↦ found ]
          ])
      known (some vs) opt' = by_kind-Keeps _ _ f v
      known none none = unset-Keeps
      known none (some d) = by_kind-Keeps _ _ f v

  try-Keeps : (f : Field) (v : Target) → Keeps v (try_to_set_value o form f v)
  unfolding try_to_set_value
  try-Keeps f v = named (name_or o form f.name (head f.tag 44).0)
    where
      opt : Option Str
      opt = options_loop o form (length (head f.tag 44).1) (head f.tag 44).1 none

      named :
          (name : Str)
          → Keeps v (elim name [ [] ↦ (unset, v) | ◌∷◌ c s ↦ set_by_form o form (c ∷ s) opt f v ])
      named [] = unset-Keeps
      named (c ∷ s) = set_by_form-Keeps (c ∷ s) opt f v

  pointed-Keeps : (z : Target) (r : Outcome × Target) → Keeps (nil_pointer z) (pointed o form z r)
  pointed-Keeps z (unset, v) = unset-Keeps
  pointed-Keeps z (set, v) = set-Keeps
  pointed-Keeps z (failed, v) = failed-Keeps

  if_unset-Keeps :
      (v : Target) (r : Outcome × Target) {s : Outcome × Target}
      → Keeps v s
      → Keeps v (if_unset o form r s)
  if_unset-Keeps v (unset, w) k = k
  if_unset-Keeps v (set, w) k = set-Keeps
  if_unset-Keeps v (failed, w) k = failed-Keeps

  map-Keeps :
      {A B : Type 0} {a : A} {r : Outcome × A} (g : A → B) → Keeps a r → Keeps (g a) (r.0, g r.1)
  map-Keeps g k = record { kept = λ h. ap g (k.kept h) }

  -- Once a field is set, the struct is.
  set-Never : (fs : Fields) → Never (mapping_fields o form set fs)
  unfolding mapping
  set-Never no_fields = record { never = λ h. cc }
  set-Never (field f v fs) =
      if-Never (not f.is_exported && not f.is_anonymous) (record { never = (set-Never fs).never })
        (mapped (mapping o form f v) (set-Never fs))
    where
      mapped :
          (m : Outcome × Target)
          → Never (mapping_fields o form set fs)
          → Never {A = Fields} (elim m.0 [
            | unset ↦ with_field o form f m.1 (mapping_fields o form set fs)
            | set ↦ with_field o form f m.1 (mapping_fields o form set fs)
            | failed ↦ (failed, field f m.1 fs)
          ])
      mapped (unset, w) n = record { never = n.never }
      mapped (set, w) n = record { never = n.never }
      mapped (failed, w) n = record { never = λ h. cc }

  -- Of a field that was mapped, and the fields behind it.
  field-Keeps :
      (f : Field) (v : Target) (fs : Fields) (m : Outcome × Target) (so_far : Outcome)
      → Keeps v m
      → Keeps fs (mapping_fields o form so_far fs)
      → Keeps fs (mapping_fields o form set fs)
      → Keeps (field f v fs) (elim m.0 [
        | unset ↦ with_field o form f m.1 (mapping_fields o form so_far fs)
        | set ↦ with_field o form f m.1 (mapping_fields o form set fs)
        | failed ↦ (failed, field f m.1 fs)
      ])
  field-Keeps f v fs (unset, w) so_far k l l' = record {
    kept = λ h. rw (k.kept refl, l.kept h) refl;
  }
  field-Keeps f v fs (set, w) so_far k l l' = record { kept = λ h. absurd ((set-Never fs).never h) }
  field-Keeps f v fs (failed, w) so_far k l l' = failed-Keeps

  mutual
    unfolding mapping

    mapping-Keeps : (f : Field) (v : Target) → Keeps v (mapping o form f v)
    mapping-Keeps f (nil_pointer z) =
        if-Keeps (is_dash o form f.tag) unset-Keeps (pointed-Keeps z (mapping o form f z))
    mapping-Keeps f (pointer v) =
        if-Keeps (is_dash o form f.tag) unset-Keeps (map-Keeps pointer (mapping-Keeps f v))
    mapping-Keeps f (struct fs) = if-Keeps (is_dash o form f.tag) unset-Keeps (
        if-Keeps f.is_anonymous (map-Keeps struct (fields-Keeps fs unset)) (
          if_unset-Keeps (struct fs) (try_to_set_value o form f (struct fs))
            (map-Keeps struct (fields-Keeps fs unset))))
    mapping-Keeps f (int w z) = if-Keeps (is_dash o form f.tag) unset-Keeps (try-Keeps f _)
    mapping-Keeps f (uint w z) = if-Keeps (is_dash o form f.tag) unset-Keeps (try-Keeps f _)
    mapping-Keeps f (bool b) = if-Keeps (is_dash o form f.tag) unset-Keeps (try-Keeps f _)
    mapping-Keeps f (float w z) = if-Keeps (is_dash o form f.tag) unset-Keeps (try-Keeps f _)
    mapping-Keeps f (string s) = if-Keeps (is_dash o form f.tag) unset-Keeps (try-Keeps f _)
    mapping-Keeps f (duration z) = if-Keeps (is_dash o form f.tag) unset-Keeps (try-Keeps f _)
    mapping-Keeps f (time z) = if-Keeps (is_dash o form f.tag) unset-Keeps (try-Keeps f _)
    mapping-Keeps f (object z) = if-Keeps (is_dash o form f.tag) unset-Keeps (try-Keeps f _)
    mapping-Keeps f (slice z vs) = if-Keeps (is_dash o form f.tag) unset-Keeps (try-Keeps f _)
    mapping-Keeps f (array vs) = if-Keeps (is_dash o form f.tag) unset-Keeps (try-Keeps f _)
    mapping-Keeps f other = if-Keeps (is_dash o form f.tag) unset-Keeps (try-Keeps f _)

    fields-Keeps : (fs : Fields) (so_far : Outcome) → Keeps fs (mapping_fields o form so_far fs)
    fields-Keeps no_fields so_far = record { kept = λ h. refl }
    fields-Keeps (field f v fs) so_far =
        if-Keeps (not f.is_exported && not f.is_anonymous)
          (map-Keeps (field f v) (fields-Keeps fs so_far))
          (field-Keeps f v fs (mapping o form f v) so_far (mapping-Keeps f v)
            (fields-Keeps fs so_far) (fields-Keeps fs set))

-- If `mapping` neither sets anything nor fails, the value is as it was, at any depth.
pub mapping-unset :
    (o : Outside) (form : Form) (f : Field) (v : Target)
    → (mapping o form f v).0 ≡ unset
    → (mapping o form f v).1 ≡ v
mapping-unset o form f v h = (mapping-Keeps o form f v).kept h
