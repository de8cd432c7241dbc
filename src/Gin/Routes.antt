-- ===== src/Gin/Routes.antt =====
-- gin/routergroup.go, gin/gin.go: the groups of routes, and the routes that the engine keeps for them. The tree of a
-- method and the joining of paths rest on code that is not in the repository, and are arguments.
use gocore.Common.{
  ℕ, Bool, true, false, ◌&&◌, ◌||◌, not, List, [], ◌∷◌, ◌++◌, leb, ltb, ◌==◌, if◌then◌else◌, length,
}
use gocore.Common.Run.{Run, ok, panic, ◌>>=◌, check}
use gocore.Gin.Maps.{Str, eq_str}
use gocore.Gin.Context.{Handler, count_params, count_sections}
use gocore.Gin.Chain.{combine_handlers}

-- A group: what it puts before the handlers of its routes, and its path.
pub record Group : Type 0 where
  pub handlers : List Handler
  pub base_path : Str

-- The engine: its own group, the handlers for requests without a route and with a wrong method, and the trees.
pub record Site (Node : Type 0) : Type 0 where
  pub group : Group
  pub no_route : List Handler
  pub no_method : List Handler
  pub all_no_route : List Handler
  pub all_no_method : List Handler
  pub trees : List (Str × Node)
  pub max_params : ℕ
  pub max_sections : ℕ

-- What `New` makes.
abbrev pub new_site : {Node : Type 0} → Site Node
new_site = record {
  group = record { handlers = []; base_path = 47 ∷ [] };
  no_route = [];
  no_method = [];
  all_no_route = [];
  all_no_method = [];
  trees = [];
  max_params = 0;
  max_sections = 0;
}

abbrev pub larger : ℕ → ℕ → ℕ
larger a b = if ltb b a then a else b

-- `path[0] == '/'`, which panics on an empty path.
abbrev pub starts_with_slash : Str → Run Bool
starts_with_slash [] = panic
starts_with_slash (c ∷ s) = ok (c == 47)

-- `regEnLetter`: one capital letter or more.
abbrev pub all_letters : Str → Bool
all_letters [] = true
all_letters (c ∷ s) = (leb 65 c && leb c 90) && all_letters s

abbrev pub is_empty {ℓ} : {A : Type ℓ} → List A → Bool
is_empty [] = true
is_empty (x ∷ xs) = false

abbrev pub has_wildcard : Str → Bool
has_wildcard [] = false
has_wildcard (c ∷ s) = (c == 58 || c == 42) || has_wildcard s

-- The methods of `Any`: GET, POST, PUT, PATCH, HEAD, OPTIONS, DELETE, CONNECT and TRACE.
abbrev pub get_method : Str
get_method = 71 ∷ 69 ∷ 84 ∷ []

abbrev pub head_method : Str
head_method = 72 ∷ 69 ∷ 65 ∷ 68 ∷ []

abbrev pub other_methods : List Str
other_methods =
    (80 ∷ 79 ∷ 83 ∷ 84 ∷ [])
    ∷ (80 ∷ 85 ∷ 84 ∷ [])
    ∷ (80 ∷ 65 ∷ 84 ∷ 67 ∷ 72 ∷ [])
    ∷ head_method
    ∷ (79 ∷ 80 ∷ 84 ∷ 73 ∷ 79 ∷ 78 ∷ 83 ∷ [])
    ∷ (68 ∷ 69 ∷ 76 ∷ 69 ∷ 84 ∷ 69 ∷ [])
    ∷ (67 ∷ 79 ∷ 78 ∷ 78 ∷ 69 ∷ 67 ∷ 84 ∷ [])
    ∷ (84 ∷ 82 ∷ 65 ∷ 67 ∷ 69 ∷ [])
    ∷ []

abbrev any_methods : List Str
any_methods = get_method ∷ other_methods

module _ (Node : Type 0) (root : Node) (grow : Node → Str → List Handler → Run Node)
    (join_paths : Str → Str → Str) where
  -- The tree of the method grows by a route; a method without a tree gets one.
  unfoldable pub grow_tree : Str → Str → List Handler → List (Str × Node) → Run (List (Str × Node))
  grow_tree method path handlers [] = grow root path handlers >>= λ n. ok ((method, n) ∷ [])
  grow_tree method path handlers ((m, n) ∷ trees) =
      let here = grow n path handlers >>= λ n'. ok ((m, n') ∷ trees) in
      let later = grow_tree method path handlers trees >>= λ trees'. ok ((m, n) ∷ trees') in
      if eq_str m method then here else later

  -- `Engine.addRoute`
  unfoldable pub add_route : Str → Str → List Handler → Site Node → Run (Site Node)
  add_route method path handlers s = do
    slash ← starts_with_slash path
    _ ← check slash
    _ ← check (not (is_empty method))
    _ ← check (ltb 0 (length handlers))
    trees ← grow_tree method path handlers s.trees
    ok (record s {
      trees = trees;
      max_params = larger (count_params path) s.max_params;
      max_sections = larger (count_sections path) s.max_sections;
    })

  unfoldable pub handle : Group → Str → Str → List Handler → Site Node → Run (Site Node)
  handle g method relative_path handlers s = combine_handlers g.handlers handlers >>= λ hs.
      add_route method (join_paths g.base_path relative_path) hs s

  -- `Handler`, for any method.
  unfoldable pub handle_method : Group → Str → Str → List Handler → Site Node → Run (Site Node)
  handle_method g method relative_path handlers s =
      check (not (is_empty method) && all_letters method) >>= λ _.
      handle g method relative_path handlers s

  unfoldable pub match : Group → List Str → Str → List Handler → Site Node → Run (Site Node)
  match g [] relative_path handlers s = ok s
  match g (method ∷ methods) relative_path handlers s =
      handle_method g method relative_path handlers s >>= λ s'.
      match g methods relative_path handlers s'

  unfoldable pub handle_all : Group → List Str → Str → List Handler → Site Node → Run (Site Node)
  handle_all g [] relative_path handlers s = ok s
  handle_all g (method ∷ methods) relative_path handlers s =
      handle g method relative_path handlers s >>= λ s'.
      handle_all g methods relative_path handlers s'

  unfoldable pub any : Group → Str → List Handler → Site Node → Run (Site Node)
  unfolding handle_all
  any g relative_path handlers s = handle_all g any_methods relative_path handlers s

  -- A static file or folder: a path without parameters, for GET and for HEAD.
  unfoldable pub static_file : Group → Str → Handler → Site Node → Run (Site Node)
  static_file g relative_path handler s = do
    _ ← check (not (has_wildcard relative_path))
    s' ← handle g get_method relative_path (handler ∷ []) s
    handle g head_method relative_path (handler ∷ []) s'

  unfoldable pub new_group : Group → Str → List Handler → Run Group
  new_group g relative_path handlers = combine_handlers g.handlers handlers >>= λ hs.
      ok (record { handlers = hs; base_path = join_paths g.base_path relative_path })

  unfoldable pub rebuild_404 : Site Node → Run (Site Node)
  rebuild_404 s =
      combine_handlers s.group.handlers s.no_route >>= λ hs. ok (record s { all_no_route = hs })

  unfoldable pub rebuild_405 : Site Node → Run (Site Node)
  rebuild_405 s =
      combine_handlers s.group.handlers s.no_method >>= λ hs. ok (record s { all_no_method = hs })

  -- `Engine.Use`, `NoRoute` and `NoMethod`
  unfoldable pub use_handlers : List Handler → Site Node → Run (Site Node)
  unfolding rebuild_404 rebuild_405
  use_handlers middleware s =
      rebuild_404 (record s {
        group = record { handlers = s.group.handlers ++ middleware; base_path = s.group.base_path };
      })
      >>= rebuild_405

  unfoldable pub set_no_route : List Handler → Site Node → Run (Site Node)
  unfolding rebuild_404
  set_no_route handlers s = rebuild_404 (record s { no_route = handlers })

  unfoldable pub set_no_method : List Handler → Site Node → Run (Site Node)
  unfolding rebuild_405
  set_no_method handlers s = rebuild_405 (record s { no_method = handlers })
