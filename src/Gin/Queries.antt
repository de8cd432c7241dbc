-- ===== src/Gin/Queries.antt =====
-- gin/context.go: the query and the form of a request, parsed on the first use and cached.
-- `query` is what `c.Request.URL.Query()` gives, `none` for a nil request; `form` is what `req.PostForm`
-- holds after ParseMultipartForm, `none` for a nil map; its error is logged and nothing else.
use gocore.Common.{◌≡◌, refl, List, [], Bool, Option, none, some, get_elem?}
use gocore.Common.Run.{Run, ok, ◌>>=◌, or_panic}
use gocore.Gin.Maps.{Str, Map, lookup}
use gocore.Gin.Context.{Context, get_dicts}

abbrev pub Values : Type 0
Values = Map (List Str)

unfoldable pub init_query_cache : Option Values → Context → Context
init_query_cache query c = elim c.query_cache [
  | some m ↦ c
  | none ↦ record c { query_cache = some (elim query [ none ↦ [] | some m ↦ m ]) }
]

abbrev lookup_in : Option Values → Str → Option (List Str)
lookup_in none key = none
lookup_in (some m) key = lookup m key

unfoldable pub get_query_array : Option Values → Context → Str → Option (List Str) × Context
get_query_array query c key =
    let c' = init_query_cache query c in (lookup_in c'.query_cache key, c')

-- `values[0]` of a found entry: one without a value panics.
abbrev first_value : Option (List Str) → Run (Option Str)
first_value none = ok none
first_value (some vs) = or_panic (get_elem? vs 0) >>= λ v. ok (some v)

unfoldable pub get_query : Option Values → Context → Str → Run (Option Str × Context)
get_query query c key = let r = get_query_array query c key in first_value r.0 >>= λ v. ok (v, r.1)

abbrev with_default : Str → Option Str × Context → Str × Context
with_default d (none, c) = (d, c)
with_default d (some v, c) = (v, c)

unfoldable pub default_query : Option Values → Context → Str → Str → Run (Str × Context)
default_query query c key default_value =
    get_query query c key >>= λ r. ok (with_default default_value r)

unfoldable pub query_value : Option Values → Context → Str → Run (Str × Context)
query_value query c key = get_query query c key >>= λ r. ok (with_default [] r)

unfoldable pub query_array : Option Values → Context → Str → List Str × Context
query_array query c key =
    let r = get_query_array query c key in (elim r.0 [ none ↦ [] | some vs ↦ vs ], r.1)

abbrev or_no_values : Option Values → Values
or_no_values none = []
or_no_values (some m) = m

unfoldable pub get_query_map : Option Values → Context → Str → Run ((Map Str × Bool) × Context)
get_query_map query c key =
    let c' = init_query_cache query c in
    get_dicts (or_no_values c'.query_cache) key >>= λ r. ok (r, c')

unfoldable pub query_map : Option Values → Context → Str → Run (Map Str × Context)
query_map query c key = get_query_map query c key >>= λ r. ok (r.0.0, r.1)

-- A nil form leaves the cache nil.
unfoldable pub init_form_cache : Option Values → Context → Context
init_form_cache form c = elim c.form_cache [ some m ↦ c | none ↦ record c { form_cache = form } ]

unfoldable pub get_post_form_array : Option Values → Context → Str → Option (List Str) × Context
get_post_form_array form c key =
    let c' = init_form_cache form c in (lookup_in c'.form_cache key, c')

unfoldable pub get_post_form : Option Values → Context → Str → Run (Option Str × Context)
get_post_form form c key =
    let r = get_post_form_array form c key in first_value r.0 >>= λ v. ok (v, r.1)

unfoldable pub post_form : Option Values → Context → Str → Run (Str × Context)
post_form form c key = get_post_form form c key >>= λ r. ok (with_default [] r)

unfoldable pub default_post_form : Option Values → Context → Str → Str → Run (Str × Context)
default_post_form form c key default_value =
    get_post_form form c key >>= λ r. ok (with_default default_value r)

unfoldable pub post_form_array : Option Values → Context → Str → List Str × Context
post_form_array form c key =
    let r = get_post_form_array form c key in (elim r.0 [ none ↦ [] | some vs ↦ vs ], r.1)

init_query_cache_twice :
    (query later cache : Option Values) (c : Context)
    → c.query_cache ≡ cache
    → init_query_cache later (init_query_cache query c) ≡ init_query_cache query c
unfolding init_query_cache
init_query_cache_twice query later none c e = rw e refl
init_query_cache_twice query later (some m) c e = rw e refl

-- The first question about the query, here for `key`, fixes the answers to the later ones: whatever the
-- request has become, a question for `other` is answered as the first request would have answered it.
pub get_query-get_query_array :
    (query later : Option Values) (c : Context) (key other : Str)
    → get_query later (get_query_array query c key).1 other ≡ get_query query c other
unfolding get_query get_query_array
get_query-get_query_array query later c key other =
    rw (init_query_cache_twice query later c.query_cache c refl) refl
