-- ===== src/Gin/Keys.antt =====
-- gin/context.go: Set, Get and MustGet, the typed getters, and what Copy keeps.
use gocore.Common.{◌≡◌, refl, true, false, Option, none, some, []}
use gocore.Common.Run.{ok}
use gocore.Gin.Maps.{Str, Map, eq_str, lookup, put, lookup-put_self, lookup-put_ne}
use gocore.Gin.Context.{Context, Any, get, set, must_get, typed, copy}
use gocore.Gin.Chain.{is_aborted}

abbrev or_zero {ℓ} : {T : Type ℓ} → T → Option T → T
or_zero z none = z
or_zero z (some v) = v

typed_found {ℓ} :
    {T : Type ℓ} (z : T) (as_t : Any → Option T) (c : Context) (key : Str) {v : Any}
    → get c key ≡ some v
    → typed z as_t c key ≡ or_zero z (as_t v)
unfolding typed
typed_found z as_t c key {v} e =
    rw (typed, e)
      (elim (as_t v) as (λ o. elim o [ none ↦ z | some x ↦ x ] ≡ or_zero z o) [
        | none ↦ refl
        | some x ↦ refl
      ])

typed_same {ℓ} :
    {T : Type ℓ} (z : T) (as_t : Any → Option T) (c d : Context) (key : Str)
    → get c key ≡ get d key
    → typed z as_t c key ≡ typed z as_t d key
unfolding typed
typed_same z as_t c d key e = rw (typed, e) refl

get-set_self : (c : Context) (key : Str) (v : Any) → get (set c key v) key ≡ some v
unfolding get set
get-set_self c key v = lookup-put_self _ key v

lookup_entries :
    (keys : Option (Map Any)) (key other : Str) (v : Any)
    → eq_str key other ≡ false
    → lookup (put (elim keys [ none ↦ [] | some m ↦ m ]) key v) other
      ≡ elim keys [ none ↦ none | some m ↦ lookup m other ]
lookup_entries none key other v h = rw h refl
lookup_entries (some m) key other v h = lookup-put_ne m key other v h

get-set_ne :
    (c : Context) (key other : Str) (v : Any)
    → eq_str key other ≡ false
    → get (set c key v) other ≡ get c other
unfolding get set
get-set_ne c key other v h = lookup_entries c.keys key other v h

keys_copy :
    (keys : Option (Map Any)) (key : Str)
    → lookup (elim keys [ none ↦ [] | some m ↦ m ]) key
      ≡ elim keys [ none ↦ none | some m ↦ lookup m key ]
keys_copy none key = refl
keys_copy (some m) key = refl

-- After Set, a getter of a type reads for the key what its type assertion makes of the value that was
-- set, or else its zero value, MustGet returns the value, and the getter reads another key as before.
pub typed-set {ℓ} :
    {T : Type ℓ} (z : T) (as_t : Any → Option T) (c : Context) (key other : Str) (v : Any)
    → eq_str key other ≡ false
    → (typed z as_t (set c key v) key ≡ or_zero z (as_t v))
      × (must_get (set c key v) key ≡ ok v)
      × (typed z as_t (set c key v) other ≡ typed z as_t c other)
unfolding must_get
typed-set z as_t c key other v h =
    let found = get-set_self c key v in
    (
      typed_found z as_t (set c key v) key found,
      rw found refl,
      typed_same z as_t (set c key v) c other (get-set_ne c key other v h),
    )

-- A copy holds the keys and the parameters of the context, and no chain: it counts as aborted.
pub copy_lem :
    (c : Context) (key : Str)
    → (get (copy c) key ≡ get c key)
      × ((copy c).params ≡ c.params)
      × ((copy c).handlers ≡ none)
      × (is_aborted (copy c) ≡ true)
unfolding get copy is_aborted
copy_lem c key = (keys_copy c.keys key, refl, refl, refl)
