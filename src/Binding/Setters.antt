-- ===== src/Binding/Setters.antt =====
-- gin/binding/form_mapping.go: the setters keep the type of what they set.
use gocore.Common.{
  ℕ, ◌≡◌, ◌∙◌, refl, ap, Bool, true, false, ◌||◌, List, [], ◌∷◌, Option, none, some, if◌then◌else◌,
}
use gocore.Gin.Maps.{Str, eq_str}
use gocore.Binding.Target.{
  Target, Items, Field, Outside, int, uint, bool, float, string, duration, time, object, slice,
  array, struct, nil_pointer, pointer, other, no_items, item,
}
use gocore.Binding.Parse.{parse_int, quotient, remainder, to_lower}
use gocore.Binding.Set.{
  set_int_field, set_uint_field, set_bool_field, set_float_field, set_time_duration, set_time_field,
  set_with_proper_type, set_array, set_slice, zeros, assigned, in_location, location_of, or_default,
  from_unix, rfc3339,
}
use gocore.Binding.Reads.{Reads, any-Reads, parse_int-Reads, parse_uint-Reads}
use gocore.Binding.Typed.{type_of, type_of_items, IsTyped, AllTyped, ItemsTyped, Fills, KeepsType}

-- A predicate of a result. A record, so that a goal shows the result.
pub record At {R : Type 0} (P : R → Type 0) (r : R) : Type 0 where
  pub at : P r

pub At-if :
    {R : Type 0} {P : R → Type 0} (b : Bool) {x y : R} → At P x → At P y → At P (if b then x else y)
At-if true h k = h
At-if false h k = k

-- What a setter leaves in the place of a value.
abbrev pub Sets : Target → Target × Bool → Type 0
Sets v = At λ r. Fills v r.0

pub Fills-refl : {v : Target} → Fills v v
Fills-refl = record { fills = λ h. (h, refl) }

-- Nothing is done.
pub stays : {v : Target} (b : Bool) → Sets v (v, b)
stays b = record { at = Fills-refl }

assigned-Sets :
    {v : Target} {A : Type 0} {P : A → Type 0} (make : A → Target) (r : Option A)
    → Reads P r
    → ((a : A) → P a → Fills v (make a))
    → Sets v (assigned v make r)
assigned-Sets make none h k = stays false
assigned-Sets make (some a) h k = record { at = k a (h.reads a refl) }

module _ (o : Outside) (keeps : KeepsType o) where
  time-Fills : (m n : ℕ) → Fills (time m) (time n)
  unfolding type_of IsTyped
  time-Fills m n = record { fills = λ h. (h, refl) }

  set_time_field-Sets : (s : Str) (f : Field) (old : ℕ) → Sets (time old) (set_time_field o s f old)
  unfolding set_time_field
  set_time_field-Sets s f old =
      let lowered = to_lower (or_default (rfc3339 o) f.time_format) in
      let is_unix = eq_str lowered (117 ∷ 110 ∷ 105 ∷ 120 ∷ []) in
      let is_nano = eq_str lowered (117 ∷ 110 ∷ 105 ∷ 120 ∷ 110 ∷ 97 ∷ 110 ∷ 111 ∷ []) in
      let d = if is_nano then 1000000000 else 1 in
      At-if (is_unix || is_nano)
        (assigned-Sets (from_unix o d) (parse_int 64 s) (any-Reads (parse_int 64 s))
          λ a u. time-Fills old (o.unix (quotient a d) (remainder a d)))
        (as_text s)
    where
      located :
          (c : ℕ) (s : Str) (l : Option ℕ)
          → Sets (time old) (in_location o (or_default (rfc3339 o) f.time_format) (c ∷ s) old l)
      located c s none = stays false
      located c s (some l) = assigned-Sets time _ (any-Reads _) λ a u. time-Fills old a

      as_text :
          (s : Str)
          → Sets (time old) (elim s [
            | [] ↦ (time o.zero_time, true)
            | ◌∷◌ c s ↦
                in_location o (or_default (rfc3339 o) f.time_format) (c ∷ s) old (location_of o f)
          ])
      as_text [] = record { at = time-Fills old _ }
      as_text (c ∷ s) = located c s (location_of o f)

  pub set-Sets : (s : Str) (f : Field) (v : Target) → Sets v (set_with_proper_type o s f v)
  unfolding set_with_proper_type set_int_field set_uint_field set_bool_field set_float_field
      set_time_duration type_of IsTyped
  set-Sets s f (int bits z) =
      assigned-Sets (int bits) _ (parse_int-Reads bits _) λ a h. record { fills = λ _. (h, refl) }
  set-Sets s f (uint bits n) =
      assigned-Sets (uint bits) _ (parse_uint-Reads bits _) λ a h. record { fills = λ _. (h, refl) }
  set-Sets s f (bool b) =
      assigned-Sets bool _ (any-Reads _) λ a u. record { fills = λ _. (tt, refl) }
  set-Sets s f (float bits n) =
      assigned-Sets (float bits) _ (any-Reads _) λ a u. record { fills = λ _. (tt, refl) }
  set-Sets s f (string t) = record { at = record { fills = λ _. (tt, refl) } }
  set-Sets s f (duration z) =
      assigned-Sets duration _ (any-Reads _) λ a u. record { fills = λ _. (tt, refl) }
  set-Sets s f (time n) = set_time_field-Sets s f n
  set-Sets s f (object n) = record { at = keeps s (object n) }
  set-Sets s f (slice z vs) = stays false
  set-Sets s f (array vs) = stays false
  set-Sets s f (struct fs) = record { at = keeps s (struct fs) }
  set-Sets s f (nil_pointer z) = stays false
  set-Sets s f (pointer v) = stays false
  set-Sets s f other = stays false

  -- Of the entries of an array, and of those of a slice.
  record FillsItems (vs ws : Items) : Type 0 where
    all : AllTyped vs → AllTyped ws × (type_of_items ws ≡ type_of_items vs)
    each : (z : Target) → ItemsTyped z vs → ItemsTyped z ws

  set_array-FillsItems :
      (ss : List Str) (f : Field) (vs : Items) → At (λ r. FillsItems vs r.0) (set_array o ss f vs)
  unfolding set_array type_of IsTyped
  set_array-FillsItems [] f vs = record { at = record { all = λ h. (h, refl); each = λ z h. h } }
  set_array-FillsItems (s ∷ ss) f no_items = record {
    at = record { all = λ h. (h, refl); each = λ z h. h };
  }
  set_array-FillsItems (s ∷ ss) f (item v vs) =
      let first = (set-Sets s f v).at in
      let rest = (set_array-FillsItems ss f vs).at in
      At-if (set_with_proper_type o s f v).1
        (record {
          at = record {
            all = λ h.
                let (h1, e1) = first.fills h.0 in
                let (h2, e2) = rest.all h.1 in ((h1, h2), rw (e1, e2) refl);
            each = λ z h. let (h1, e1) = first.fills h.0.0 in ((h1, e1 ∙ h.0.1), rest.each z h.1);
          };
        })
        (record {
          at = record {
            all = λ h. let (h1, e1) = first.fills h.0 in ((h1, h.1), rw e1 refl);
            each = λ z h. let (h1, e1) = first.fills h.0.0 in ((h1, e1 ∙ h.0.1), h.1);
          };
        })

  zeros-ItemsTyped :
      (z : Target) (ss : List Str) → IsTyped z → ItemsTyped (type_of z) (zeros o z ss)
  unfolding IsTyped
  zeros-ItemsTyped z [] h = tt
  zeros-ItemsTyped z (s ∷ ss) h = ((h, refl), zeros-ItemsTyped z ss h)

  pub set_slice-Sets :
      (ss : List Str) (f : Field) (z : Target) (old : Items)
      → Sets (slice z old) (set_slice o ss f z old)
  unfolding set_slice IsTyped type_of
  set_slice-Sets ss f z old = At-if (set_array o ss f (zeros o z ss)).1 replaced (stays false)
    where
      filled : FillsItems (zeros o z ss) (set_array o ss f (zeros o z ss)).0
      filled = (set_array-FillsItems ss f (zeros o z ss)).at

      replaced : Sets (slice z old) (slice z (set_array o ss f (zeros o z ss)).0, true)
      replaced = record {
        at = record {
          fills = λ h. ((h.0, filled.each (type_of z) (zeros-ItemsTyped z ss h.0)), refl);
        };
      }

  pub array-Sets :
      (ss : List Str) (f : Field) (old : Items)
      → Sets (array old) (array (set_array o ss f old).0, (set_array o ss f old).1)
  unfolding IsTyped type_of
  array-Sets ss f old = record {
    at = record { fills = λ h. let (h', e) = filled.all h in (h', ap array e) };
  }
    where
      filled : FillsItems old (set_array o ss f old).0
      filled = (set_array-FillsItems ss f old).at
