-- ===== src/Gin/Requests.antt =====
-- gin/gin.go: a request, from the trees to the chain of handlers, a redirection or an error. The search in a tree, the
-- cleaning of paths, the writer of responses and the chain's run rest on other code, and are arguments.
use gocore.Common.{
  ℕ, ◌-◌, Bool, true, false, ◌&&◌, not, List, [], ◌∷◌, ◌++◌, Option, none, some, ltb, ◌==◌,
  if◌then◌else◌, length, take, get_or,
}
use gocore.Common.Run.{Run, ok, ◌>>=◌}
use gocore.Gin.Maps.{Str, eq_str}
use gocore.Gin.Context.{Handler, Params, Context, reset}
use gocore.Gin.Routes.{get_method, is_empty}

-- What `getValue` gives.
pub record Value : Type 0 where
  pub params : Option Params
  pub handlers : Option (List Handler)
  pub full_path : Str
  pub tsr : Bool

pub record Request : Type 0 where
  pub method : Str
  pub path : Str
  pub raw_path : Str
  pub forwarded_prefix : Str

-- The engine's options and what it searches. `safe_prefix` is `path.Clean` with the two expressions that follow.
pub record Engine (Node : Type 0) : Type 0 where
  pub use_raw_path : Bool
  pub unescape_path_values : Bool
  pub remove_extra_slash : Bool
  pub redirect_trailing_slash : Bool
  pub redirect_fixed_path : Bool
  pub handle_method_not_allowed : Bool
  pub trees : List (Str × Node)
  pub all_no_method : List Handler
  pub all_no_route : List Handler
  pub get_value : Node → Str → Bool → Value
  pub find_case_insensitive_path : Node → Str → Bool → Option Str
  pub clean_path : Str → Str
  pub path_clean : Str → Str
  pub safe_prefix : Str → Str

-- What becomes of a request; a redirection carries the path.
pub data Decision : Type 0 where
  serves : List Handler → Str → Decision
  redirects : Str → Decision
  not_allowed not_found : Decision

abbrev pub slash : Str
slash = 47 ∷ []

-- `CONNECT`
abbrev pub connect : Str
connect = 67 ∷ 79 ∷ 78 ∷ 78 ∷ 69 ∷ 67 ∷ 84 ∷ []

-- The other of a path with a slash at its end and one without.
unfoldable pub toggled : Str → Str
toggled p =
    if ltb 1 (length p) && get_or p (length p - 1) 0 == 47
    then take (length p - 1) p
    else p ++ slash

-- The path of `redirectTrailingSlash`; `.` is what `path.Clean` makes of nothing.
abbrev pub trailing_slash_path : {Node : Type 0} → Engine Node → Request → Str
trailing_slash_path e r =
    let prefix = e.path_clean r.forwarded_prefix in
    toggled (if eq_str prefix (46 ∷ []) then r.path else e.safe_prefix prefix ++ slash ++ r.path)

module _ {Node : Type 0} (e : Engine Node) (r : Request) where
  abbrev pub is_raw : Bool
  is_raw = e.use_raw_path && not (is_empty r.raw_path)

  abbrev pub search_path : Str
  search_path =
      let path = if is_raw then r.raw_path else r.path in
      if e.remove_extra_slash then e.clean_path path else path

  abbrev pub unescape : Bool
  unescape = if is_raw then e.unescape_path_values else false

  abbrev pub value_in : Node → Value
  value_in root = e.get_value root search_path unescape

  -- The first tree of the method.
  unfoldable pub tree_of : List (Str × Node) → Option Node
  tree_of [] = none
  tree_of ((method, root) ∷ ts) =
      let rest = tree_of ts in if eq_str method r.method then some root else rest

  -- Whether another method has a route for the path.
  unfoldable pub is_elsewhere : List (Str × Node) → Bool
  is_elsewhere [] = false
  is_elsewhere ((method, root) ∷ ts) =
      let rest = is_elsewhere ts in
      let here : Bool = elim ((value_in root).handlers) [ none ↦ rest | some hs ↦ true ] in
      if eq_str method r.method then rest else here

  -- Behind the loop over the trees.
  abbrev pub without_route : Decision
  without_route =
      if e.handle_method_not_allowed && is_elsewhere e.trees then not_allowed else not_found

  abbrev pub fixed : Node → Decision
  fixed root =
      let found : Decision =
        elim (e.find_case_insensitive_path root (e.clean_path r.path) e.redirect_fixed_path) [
          | some path ↦ redirects path
          | none ↦ without_route
        ] in
      if e.redirect_fixed_path then found else without_route

  abbrev pub redirected : Node → Value → Decision
  redirected root v =
      if not (eq_str r.method connect) && not (eq_str search_path slash)
      then (if v.tsr && e.redirect_trailing_slash
          then redirects (trailing_slash_path e r)
          else fixed root)
      else without_route

  abbrev pub in_tree : Node → Decision
  in_tree root =
      let v = value_in root in
      elim v.handlers [ some hs ↦ serves hs v.full_path | none ↦ redirected root v ]

  unfoldable pub decide : Decision
  unfolding tree_of is_elsewhere
  decide = elim (tree_of e.trees) [ none ↦ without_route | some root ↦ in_tree root ]

-- What the engine calls of the writer of a response.
pub record Writer (W : Type 0) : Type 0 where
  pub set_status : ℕ → W → W
  pub status : W → ℕ
  pub is_written : W → Bool
  pub write_header_now : W → W
  pub write_plain : Str → W → W
  pub redirect : Str → ℕ → W → W

module _ {W : Type 0} (o : Writer W) (next : Context → W → Run (Context × W)) where
  abbrev pub concluded : ℕ → Str → W → W
  concluded code message w =
      if o.is_written w
      then w
      else if o.status w == code
      then o.write_plain message w
      else o.write_header_now w

  unfoldable pub serve_error : ℕ → Str → Context → W → Run (Context × W)
  serve_error code message c w =
      next c (o.set_status code w) >>= λ x. ok (x.0, concluded code message x.1)

  -- `redirectRequest`: moved for good, or for now if the method is not GET.
  unfoldable pub redirect_request : Str → Str → W → W
  redirect_request method path w =
      o.write_header_now (o.redirect path (if eq_str method get_method then 301 else 307) w)

  abbrev with_params : Option Params → Context → Context
  with_params none c = c
  with_params (some ps) c = record c { params = ps }

  abbrev found_params : Option Value → Option Params
  found_params none = none
  found_params (some v) = v.params

  abbrev value_of : {Node : Type 0} → Engine Node → Request → Option Value
  value_of e r = elim (tree_of e r e.trees) [ none ↦ none | some root ↦ some (value_in e r root) ]

  abbrev pub perform :
      {Node : Type 0}
      → Engine Node
      → Str
      → Str
      → Request
      → Decision
      → Context
      → W
      → Run (Context × W)
  perform e body404 body405 r (serves hs path) c w =
      next (record c { handlers = some hs; full_path = path }) w >>= λ x.
      ok (x.0, o.write_header_now x.1)
  perform e body404 body405 r (redirects path) c w = ok (c, redirect_request r.method path w)
  perform e body404 body405 r not_allowed c w =
      serve_error 405 body405 (record c { handlers = some e.all_no_method }) w
  perform e body404 body405 r not_found c w =
      serve_error 404 body404 (record c { handlers = some e.all_no_route }) w

  unfoldable pub handle_http_request :
      {Node : Type 0} → Engine Node → Str → Str → Request → Context → W → Run (Context × W)
  unfolding decide tree_of serve_error redirect_request
  handle_http_request e body404 body405 r c w =
      perform e body404 body405 r (decide e r) (with_params (found_params (value_of e r)) c) w

  -- `HandleContext` keeps the index, so that the chain that called it goes on.
  unfoldable pub handle_context :
      {Node : Type 0} → Engine Node → Str → Str → Request → Context → W → Run (Context × W)
  unfolding handle_http_request reset
  handle_context e body404 body405 r c w =
      handle_http_request e body404 body405 r (reset c) w >>= λ x.
      ok (record x.0 { index = c.index }, x.1)
