-- ===== src/Gin/Dicts.antt =====
-- gin/context.go, `get`: the entries `key[sub]` of a query make up the map of the sub-keys.
use gocore.Common.{
  take-append, ℕ, suc, ◌+◌, ◌<◌, ◌≡◌, refl, ap, ◌∙◌, List, [], ◌∷◌, ◌++◌, Bool, true, false, Option,
  none, some, Bool-cases, inl, inr, arith, ◌==◌, leb, drop, length, All,
}
use gocore.Common.Run.{ok, Returns}
use gocore.Gin.Maps.{
  Str, Map, put, lookup, index_byte, eq_str, eq_str_refl, eq_str_sound, lookup-put_self,
  lookup-put_ne,
}
use gocore.Gin.Context.{get_entry, get_loop, get_dicts}

abbrev pub Without : ℕ → Str → Type 0
Without b s = All (λ a. (a == b) ≡ false) s

index_byte-append : (s t : Str) (b : ℕ) → Without b s → index_byte (s ++ b ∷ t) b ≡ some (length s)
index_byte-append [] t b h = let e : (b == b) ≡ true = ground arith in rw e refl
index_byte-append (a ∷ s) t b h = rw (h.0, index_byte-append s t b h.1) refl

drop-append : (s t : Str) (b : ℕ) → drop (suc (length s)) (s ++ b ∷ t) ≡ t
drop-append [] t b = refl
drop-append (a ∷ s) t b = drop-append s t b

-- `key[sub]`
abbrev pub form_key : Str → Str → Str
form_key key sub = key ++ 91 ∷ (sub ++ 93 ∷ [])

-- A map written as entries of a query.
abbrev pub encode : Str → Map Str → Map (List Str)
encode key [] = []
encode key ((sub, v) ∷ d) = (form_key key sub, v ∷ []) ∷ encode key d

abbrev pub put_all : Map Str → Map Str → Map Str
put_all d [] = d
put_all d ((sub, v) ∷ e) = put_all (put d sub v) e

abbrev pub IsSubKey : Str × Str → Type 0
IsSubKey e = Without 93 e.0 × (0 < length e.0)

get_entry-form_key :
    (key sub v : Str) (d : Map Str) (b : Bool)
    → Without 91 key
    → 0 < length key
    → Without 93 sub
    → 0 < length sub
    → get_entry (form_key key sub, v ∷ []) key (d, b) ≡ ok (put d sub v, true)
unfolding get_entry
get_entry-form_key key sub v d b hk pk hs ps =
    let at_open = index_byte-append key (sub ++ 93 ∷ []) 91 hk in
    let at_close = index_byte-append sub [] 93 hs in
    let one : length key + 1 ≡ suc (length key) = omega arith in
    let rest : drop (length key + 1) (form_key key sub) ≡ sub ++ 93 ∷ [] =
      rw one (drop-append key (sub ++ 93 ∷ []) 91) in
    let long : leb 1 (length key) ≡ true = ground arith in
    let long' : leb 1 (length sub) ≡ true = ground arith in
    rw
      (
        get_entry,
        at_open,
        rest,
        take-append key (91 ∷ (sub ++ 93 ∷ [])),
        eq_str_refl key,
        long,
        at_close,
        long',
        rest,
        take-append sub (93 ∷ []),
      )
      refl

-- The second result: `b`, or that there is an entry.
abbrev pub found_or : Bool → Map Str → Bool
found_or b [] = b
found_or b (e ∷ m) = true

found_or-true : (m : Map Str) → found_or true m ≡ true
found_or-true [] = refl
found_or-true (e ∷ m) = refl

get_loop-encode :
    (key : Str) (m d : Map Str) (b : Bool)
    → Without 91 key
    → 0 < length key
    → All IsSubKey m
    → get_loop (encode key m) key (d, b) ≡ ok (put_all d m, found_or b m)
unfolding get_loop
get_loop-encode key [] d b hk pk h = refl
get_loop-encode key ((sub, v) ∷ m) d b hk pk h =
    rw (get_entry-form_key key sub v d b hk pk h.0.0 h.0.1) (
      get_loop-encode key m (put d sub v) true hk pk h.1
      ∙ ap (λ f. ok (put_all (put d sub v) m, f)) (found_or-true m))

-- No two entries have the same key.
abbrev pub IsDistinct : Map Str → Type 0
IsDistinct [] = Unit
IsDistinct ((k, v) ∷ m) = (lookup m k ≡ none) × IsDistinct m

-- The entries of `order` are those of the map, in the order of a `range`.
pub record IsRange (m order : Map Str) : Type 0 where
  pub distinct : IsDistinct order
  pub same : (sub : Str) → lookup order sub ≡ lookup m sub

unfoldable pub or_else : Option Str → Option Str → Option Str
or_else none b = b
or_else (some v) b = some v

lookup-put_all :
    (d m : Map Str) (sub : Str)
    → IsDistinct m
    → lookup (put_all d m) sub ≡ or_else (lookup m sub) (lookup d sub)
unfolding or_else
lookup-put_all d [] sub h = refl
lookup-put_all d ((k, v) ∷ m) sub h = elim (Bool-cases (eq_str k sub)) [
  | inl e ↦
      let same = eq_str_sound k sub e in
      let gone : lookup m sub ≡ none = rw same at h.0 in
      rw (lookup-put_all (put d k v) m sub h.1, e, gone, same) (lookup-put_self d sub v)
  | inr e ↦ rw (lookup-put_all (put d k v) m sub h.1, e, lookup-put_ne d k sub v e) refl
]

or_else-none : (a : Option Str) → or_else a none ≡ a
unfolding or_else
or_else-none none = refl
or_else-none (some v) = refl

-- A map whose entries are sent as `key[sub]=value` is read back by `get`, in whatever order a `range` takes them: the
-- dictionary has the map's value for each sub-key and nothing for any other, and the second result tells whether there is
-- an entry. The key has no `[`, the sub-keys no `]`, and none of them is empty.
pub get_dicts-encode :
    (key : Str) (m order : Map Str)
    → IsRange m order
    → Without 91 key
    → 0 < length key
    → All IsSubKey order
    → Returns
        (λ r. ((sub : Str) → lookup r.0 sub ≡ lookup m sub) × (r.1 ≡ found_or false order))
        (get_dicts (encode key order) key)
unfolding get_dicts
get_dicts-encode key m order o hk pk h = rw (get_loop-encode key order [] false hk pk h) (
  λ sub. lookup-put_all [] order sub o.distinct ∙ or_else-none (lookup order sub) ∙ o.same sub,
  refl,
)
