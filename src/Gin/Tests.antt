-- ===== src/Gin/Tests.antt =====
-- gin/context.go on small contexts: the theorems applied, and runs of the operations.
use gocore.Gin.Proxies.{Net, Engine}
use gocore.Common.{
  ℕ, suc, false, Option, All, map, ◌==◌, if◌then◌else◌, ◌≡◌, refl, List, [], ◌∷◌, ◌++◌, true, none,
  some, arith,
}
use gocore.Common.Int.{pos, negsuc, ◌+ℤ◌}
use gocore.Common.Run.{Returns, Run, ok, panic, ◌>>=◌}
use gocore.Gin.Context.{
  body_allowed_for_status, longest_common_prefix, Context, Handler, int, set, reset, param,
  add_param, get_param, by_name, get_dicts,
}
use gocore.Gin.Maps.{Str, Map, lookup}
use gocore.Gin.Chain.{
  next, next_loop, abort, is_aborted, advance, combine_handlers, IsPlain, next-run_each, next-abort,
  int8, next_index,
}
use gocore.Gin.Queries.{get_query, get_query_array, init_query_cache, default_query}
use gocore.Gin.Dicts.{encode, get_dicts-encode}
use gocore.Gin.Routes.{Group, Site}
use gocore.Gin.Setup.{Call, uses, no_routes, handles}

abbrev blank : Context
blank = record {
  params = [];
  handlers = none;
  index = negsuc 0;
  full_path = [];
  keys = none;
  errors = [];
  accepted = [];
  query_cache = none;
  form_cache = none;
}

abbrev with_chain : List Handler → Context
with_chain hs = record blank { handlers = some hs }

-- A handler that notes its number among the errors.
abbrev note : Handler → Context → Context
note h c = record c { errors = c.errors ++ h ∷ [] }

note-IsPlain : IsPlain note
note-IsPlain = record { same_index = λ h c. refl; same_handlers = λ h c. refl }

reset-blank : reset (set (with_chain (1 ∷ [])) (1 ∷ []) (int (pos 3))) ≡ blank
unfolding reset
reset-blank = refl

-- The second handler calls Next before it notes itself: the third is run first, once.
abbrev nesting : Handler → (Context → Run Context) → Context → Run Context
nesting h again c =
    let second = again c >>= λ c'. ok (note 2 c') in if h == 2 then second else ok (note h c)

nested :
    next nesting 5 (with_chain (1 ∷ 2 ∷ 3 ∷ []))
    ≡ ok (record (with_chain (1 ∷ 2 ∷ 3 ∷ [])) { index = pos 4; errors = 1 ∷ 3 ∷ 2 ∷ [] })
unfolding next next_loop next_index int8 ◌+ℤ◌
nested = refl

path_value :
    param (add_param (add_param blank (1 ∷ []) (5 ∷ [])) (1 ∷ []) (6 ∷ [])) (1 ∷ []) ≡ 5 ∷ []
unfolding param add_param by_name get_param
path_value = refl

-- `?1` without a value: the first value is read out of range.
no_value : get_query (some ((1 ∷ [], []) ∷ [])) blank (1 ∷ []) ≡ panic
unfolding get_query get_query_array init_query_cache
no_value = refl

missing_query :
    default_query none blank (1 ∷ []) (7 ∷ []) ≡ ok (7 ∷ [], record blank { query_cache = some [] })
unfolding default_query get_query get_query_array init_query_cache
missing_query = refl

next-run_each_example :
    next (λ h n c. ok (note h c)) 3 (with_chain (1 ∷ 2 ∷ []))
    ≡ ok (record (with_chain (1 ∷ 2 ∷ [])) { index = pos 2; errors = 1 ∷ 2 ∷ [] })
unfolding next_index int8 ◌+ℤ◌
next-run_each_example =
    next-run_each note (1 ∷ []) (2 ∷ []) (with_chain (1 ∷ 2 ∷ [])) note-IsPlain (omega arith) refl
      refl

next-abort_example :
    (next nesting 1 (abort (with_chain (1 ∷ 2 ∷ [])))
      ≡ ok (advance (abort (with_chain (1 ∷ 2 ∷ [])))))
    × (is_aborted (advance (abort (with_chain (1 ∷ 2 ∷ [])))) ≡ true)
unfolding combine_handlers
next-abort_example = next-abort nesting (1 ∷ []) (2 ∷ []) (with_chain (1 ∷ 2 ∷ [])) 0 refl refl

abbrev two_subs : Map Str
two_subs = (2 ∷ [], 5 ∷ []) ∷ (3 ∷ [], 6 ∷ []) ∷ []

abbrev swapped_subs : Map Str
swapped_subs = (3 ∷ [], 6 ∷ []) ∷ (2 ∷ [], 5 ∷ []) ∷ []

same_subs : (sub : Str) → lookup swapped_subs sub ≡ lookup two_subs sub
same_subs [] = refl
same_subs (a ∷ []) = ground arith
same_subs (a ∷ b ∷ sub) = ground arith

get_dicts-encode_example :
    Returns
      (λ r. ((sub : Str) → lookup r.0 sub ≡ lookup two_subs sub) × (r.1 ≡ true))
      (get_dicts (encode (1 ∷ []) swapped_subs) (1 ∷ []))
get_dicts-encode_example =
    get_dicts-encode (1 ∷ []) two_subs swapped_subs
      (record { distinct = (refl, (refl, tt)); same = same_subs }) (refl, tt) (omega arith)
      (((refl, tt), omega arith), (((refl, tt), omega arith), tt))

abbrev parse_long : Str → Option ℕ
parse_long [] = none
parse_long (a ∷ []) = none
parse_long (a ∷ b ∷ s) = some a

no_byte : (header : Str) → All (λ s. parse_long s ≡ none) (map (λ b. b ∷ []) header)
no_byte [] = tt
no_byte (b ∷ header) = (refl, no_byte header)

-- Addresses of two bytes at least; a header splits into its bytes.
abbrev two_bytes : Net
two_bytes = record {
  parse_ip = parse_long;
  contains = λ cidr ip. true;
  show = λ ip. ip ∷ ip ∷ [];
  chars = map (λ b. b ∷ []);
  trim = λ s. s;
}

abbrev trusting : Engine
trusting = record {
  trusted_platform = [];
  app_engine = false;
  forwarded_by_client_ip = true;
  remote_ip_headers = some ((9 ∷ []) ∷ []);
  trusted_cidrs = some (0 ∷ []);
}

no_content : body_allowed_for_status 204 ≡ false
unfolding body_allowed_for_status
no_content = refl

common_prefix : longest_common_prefix (1 ∷ 2 ∷ 3 ∷ []) (1 ∷ 2 ∷ 4 ∷ []) ≡ 2
unfolding longest_common_prefix
common_prefix = refl

-- A tree is the number of its routes here.
abbrev one_more : ℕ → List ℕ → List ℕ → Run ℕ
one_more n path handlers = ok (suc n)

abbrev root_group : Group
root_group = record { handlers = 1 ∷ []; base_path = [] }

-- Use(1), NoRoute(9), and GET of "/:" with the handler 2.
abbrev set_up : List Call
set_up =
    uses (1 ∷ []) ∷ no_routes (9 ∷ []) ∷ handles root_group (71 ∷ []) (47 ∷ 58 ∷ []) (2 ∷ []) ∷ []

abbrev set_up_site : Site ℕ
set_up_site = record {
  group = record { handlers = 1 ∷ []; base_path = 47 ∷ [] };
  no_route = 9 ∷ [];
  no_method = [];
  all_no_route = 1 ∷ 9 ∷ [];
  all_no_method = 1 ∷ [];
  trees = (71 ∷ [], 1) ∷ [];
  max_params = 1;
  max_sections = 1;
}
