-- ===== src/Gin/Context.antt =====
-- gin/context.go, gin/tree.go: the context of a request with its keys, parameters and cached queries.
-- `A` of a map is the dynamic value of an `any`. Handlers are named by numbers.
use gocore.Common.{
  ◌==◌, ◌%◌, ◌-◌, ℕ, ◌+◌, List, [], ◌∷◌, ◌++◌, Bool, true, false, ◌&&◌, Option, none, some, leb,
  if◌then◌else◌, take, drop, get_elem?, length,
}
use gocore.Common.Int.{ℤ, pos, negsuc}
use gocore.Common.Run.{Run, ok, ◌>>=◌, or_panic}
use gocore.Gin.Maps.{Str, Map, eq_str, lookup, put, index_byte}

pub record Param : Type 0 where
  pub key : Str
  pub value : Str

abbrev pub Params : Type 0
Params = List Param

-- `Params.Get`, with `none` for a second result `false`.
unfoldable pub get_param : Params → Str → Option Str
get_param [] name = none
get_param (entry ∷ ps) name = if eq_str entry.key name then some entry.value else get_param ps name

abbrev or_empty : Option Str → Str
or_empty none = []
or_empty (some s) = s

unfoldable pub by_name : Params → Str → Str
by_name ps name = or_empty (get_param ps name)

-- The dynamic values that the typed getters tell apart; `other` is any further type. A float64 is the
-- number of its bits, 0 for the zero value, and a time.Time a number, 0 for its zero value.
pub data Any : Type 0 where
  nil : Any
  string : Str → Any
  int : ℤ → Any
  int64 : ℤ → Any
  uint : ℕ → Any
  uint64 : ℕ → Any
  string_slice : List Str → Any
  string_map_string : Map Str → Any
  float64 : ℕ → Any
  time : ℕ → Any
  duration : ℤ → Any
  other : ℕ → Any

abbrev pub Handler : Type 0
Handler = ℕ

-- The state of a context that the operations below read and change. `handlers` is `none` for nil, and
-- so are the map of keys and the caches.
pub record Context : Type 0 where
  pub params : Params
  pub handlers : Option (List Handler)
  pub index : ℤ
  pub full_path : Str
  pub keys : Option (Map Any)
  pub errors : List ℕ
  pub accepted : List Str
  pub query_cache : Option (Map (List Str))
  pub form_cache : Option (Map (List Str))

-- `math.MaxInt8 >> 1`
abbrev pub abort_index : ℕ
abort_index = 63

unfoldable pub reset : Context → Context
reset c = record {
  params = [];
  handlers = none;
  index = negsuc 0;
  full_path = [];
  keys = none;
  errors = [];
  accepted = [];
  query_cache = none;
  form_cache = none;
}

-- The maps and slices of the copy are its own: values, here.
unfoldable pub copy : Context → Context
copy c = record {
  params = c.params;
  handlers = none;
  index = pos abort_index;
  full_path = [];
  keys = some (elim c.keys [ none ↦ [] | some m ↦ m ]);
  errors = [];
  accepted = [];
  query_cache = none;
  form_cache = none;
}

-- `Set`; the mutex around it keeps other operations out.
unfoldable pub set : Context → Str → Any → Context
set c key value = record c { keys = some (put (elim c.keys [ none ↦ [] | some m ↦ m ]) key value) }

unfoldable pub get : Context → Str → Option Any
get c key = elim c.keys [ none ↦ none | some m ↦ lookup m key ]

unfoldable pub must_get : Context → Str → Run Any
must_get c key = or_panic (get c key)

-- `if val, ok := c.Get(key); ok && val != nil { s, _ = val.(T) }`, with the type assertion `as_t` and
-- the zero value.
unfoldable pub typed {ℓ} : {T : Type ℓ} → T → (Any → Option T) → Context → Str → T
typed zero_value as_t c key = elim (get c key) [
  | none ↦ zero_value
  | some val ↦ elim (as_t val) [ none ↦ zero_value | some v ↦ v ]
]

abbrev pub as_string : Any → Option Str
as_string (string s) = some s
as_string v = none

abbrev pub as_int : Any → Option ℤ
as_int (int i) = some i
as_int v = none

abbrev pub as_int64 : Any → Option ℤ
as_int64 (int64 i) = some i
as_int64 v = none

abbrev pub as_uint : Any → Option ℕ
as_uint (uint n) = some n
as_uint v = none

abbrev pub as_uint64 : Any → Option ℕ
as_uint64 (uint64 n) = some n
as_uint64 v = none

abbrev pub as_string_slice : Any → Option (List Str)
as_string_slice (string_slice ss) = some ss
as_string_slice v = none

abbrev pub as_string_map_string : Any → Option (Map Str)
as_string_map_string (string_map_string m) = some m
as_string_map_string v = none

abbrev pub as_float64 : Any → Option ℕ
as_float64 (float64 bits) = some bits
as_float64 v = none

abbrev pub as_time : Any → Option ℕ
as_time (time t) = some t
as_time v = none

abbrev pub as_duration : Any → Option ℤ
as_duration (duration d) = some d
as_duration v = none

abbrev pub get_float64 : Context → Str → ℕ
get_float64 = typed 0 as_float64

abbrev pub get_time : Context → Str → ℕ
get_time = typed 0 as_time

abbrev pub get_duration : Context → Str → ℤ
get_duration = typed (pos 0) as_duration

abbrev pub get_string : Context → Str → Str
get_string = typed [] as_string

abbrev pub get_int : Context → Str → ℤ
get_int = typed (pos 0) as_int

abbrev pub get_int64 : Context → Str → ℤ
get_int64 = typed (pos 0) as_int64

abbrev pub get_uint : Context → Str → ℕ
get_uint = typed 0 as_uint

abbrev pub get_uint64 : Context → Str → ℕ
get_uint64 = typed 0 as_uint64

abbrev pub get_string_slice : Context → Str → List Str
get_string_slice = typed [] as_string_slice

abbrev pub get_string_map_string : Context → Str → Map Str
get_string_map_string = typed [] as_string_map_string

unfoldable pub param : Context → Str → Str
param c key = by_name c.params key

unfoldable pub add_param : Context → Str → Str → Context
add_param c key value = record c { params = c.params ++ record { key = key; value = value } ∷ [] }

-- `HandlersChain.Last`
abbrev pub last : Option (List Handler) → Option Handler
last none = none
last (some hs) = get_elem? hs (length hs - 1)

abbrev pub handler : Context → Option Handler
handler c = last c.handlers

-- `c.get`: the entries whose key has the form `key[sub]…`, by `sub`. An entry without a value panics.
unfoldable pub get_entry : Str × List Str → Str → Map Str × Bool → Run (Map Str × Bool)
get_entry (k, v) key (dicts, exist) =
    let value = or_panic (get_elem? v 0) in
    elim (index_byte k 91) [
      | none ↦ ok (dicts, exist)
      | some i ↦
          let rest = drop (i + 1) k in
          let found : Run (Map Str × Bool) = elim (index_byte rest 93) [
            | none ↦ ok (dicts, exist)
            | some j ↦
                let add = value >>= λ x. ok (put dicts (take j rest) x, true) in
                if leb 1 j then add else ok (dicts, exist)
          ] in
          if leb 1 i && eq_str (take i k) key then found else ok (dicts, exist)
    ]

-- The entries in the order in which the `range` takes them, which may be any.
unfoldable pub get_loop : Map (List Str) → Str → Map Str × Bool → Run (Map Str × Bool)
get_loop [] key r = ok r
get_loop (e ∷ m) key r = get_entry e key r >>= λ r'. get_loop m key r'

unfoldable pub get_dicts : Map (List Str) → Str → Run (Map Str × Bool)
get_dicts m key = get_loop m key ([], false)

unfoldable pub body_allowed_for_status : ℕ → Bool
body_allowed_for_status status =
    if leb 100 status && leb status 199
    then false
    else if status == 204
    then false
    else if status == 304
    then false
    else true

-- The loop of `longestCommonPrefix` looks at no more bytes than the shorter string has.
unfoldable pub longest_common_prefix : Str → Str → ℕ
longest_common_prefix [] b = 0
longest_common_prefix (x ∷ a) [] = 0
longest_common_prefix (x ∷ a) (y ∷ b) =
    let rest = longest_common_prefix a b in if x == y then rest + 1 else 0

-- `methodTrees.get`, for roots that are named by numbers.
unfoldable pub get_tree : Map ℕ → Str → Option ℕ
get_tree [] method = none
get_tree ((m, root) ∷ trees) method = if eq_str m method then some root else get_tree trees method

-- How often a byte stands in a path, as `bytes.Count` of one byte.
unfoldable pub count_byte : Str → ℕ → ℕ
count_byte [] b = 0
count_byte (a ∷ s) b = let n = count_byte s b in if a == b then n + 1 else n

-- uint16 sums wrap.
unfoldable pub count_params : Str → ℕ
count_params path = (count_byte path 58 % 65536 + count_byte path 42 % 65536) % 65536

unfoldable pub count_sections : Str → ℕ
count_sections path = count_byte path 47 % 65536
