-- ===== src/Gin/Registered.antt =====
-- gin/gin.go, gin/routergroup.go: what each call that sets up an engine does to its chains and its bounds.
use gocore.Common.{ℕ, ◌+◌, ◌≤◌, ◌≡◌, refl, ◌&&◌, not, List, [], ◌∷◌, ◌++◌, arith, ltb, length}
use gocore.Common.Run.{
  Run, ok, panic, out_of_fuel, ◌>>=◌, check, Ensures, Ensures-ok, Ensures-any, Ensures-bind,
  Ensures-map,
}
use gocore.Gin.Maps.{Str}
use gocore.Gin.Context.{Handler, count_params, count_sections, abort_index}
use gocore.Gin.Chain.{combine_handlers}
use gocore.Gin.Routes.{
  Group, Site, larger, starts_with_slash, is_empty, all_letters, has_wildcard, other_methods,
  get_method, head_method, grow_tree, add_route, handle, handle_method, match, handle_all, any,
  static_file, rebuild_404, rebuild_405, use_handlers, set_no_route, set_no_method,
}

combine_handlers-append :
    (hs hs' : List Handler) → Ensures (λ r. r ≡ hs ++ hs') (combine_handlers hs hs')
unfolding combine_handlers
combine_handlers-append hs hs' =
    Ensures-any (check (ltb (length hs + length hs') abort_index)) λ u. Ensures-ok refl

Ensures-nested :
    {A B C : Type 0} {Q : C → Type 0} (m : Run A) (f : A → Run B) (g : B → Run C)
    → Ensures Q (m >>= λ a. f a >>= g)
    → Ensures Q ((m >>= f) >>= g)
Ensures-nested (ok a) f g h = h
Ensures-nested panic f g h = h
Ensures-nested out_of_fuel f g h = h

larger_left : (a b : ℕ) → a ≤ larger a b
larger_left a b = ground arith

larger_right : (a b : ℕ) → b ≤ larger a b
larger_right a b = ground arith

module _ (Node : Type 0) (root : Node) (grow : Node → Str → List Handler → Run Node)
    (join_paths : Str → Str → Str) where
  -- The chains for requests without a route and with a wrong method are the group's handlers and the given ones.
  abbrev pub IsRebuilt : Site Node → Type 0
  IsRebuilt s =
      (s.all_no_route ≡ s.group.handlers ++ s.no_route)
      × (s.all_no_method ≡ s.group.handlers ++ s.no_method)

  -- A context has room for the parameters of the path, and for its sections.
  abbrev pub HasRoom : Str → Site Node → Type 0
  HasRoom path s = (count_params path ≤ s.max_params) × (count_sections path ≤ s.max_sections)

  pub record IsStep (s s' : Site Node) : Type 0 where
    pub rebuilt : IsRebuilt s → IsRebuilt s'
    params : s.max_params ≤ s'.max_params
    sections : s.max_sections ≤ s'.max_sections

  pub same-IsStep : (s : Site Node) → IsStep s s
  same-IsStep s = record { rebuilt = λ h. h; params = omega arith; sections = omega arith }

  pub IsStep-trans : {s s' s'' : Site Node} → IsStep s s' → IsStep s' s'' → IsStep s s''
  IsStep-trans a b = record {
    rebuilt = λ h. b.rebuilt (a.rebuilt h);
    params = omega (arith, a.params, b.params);
    sections = omega (arith, a.sections, b.sections);
  }

  pub HasRoom-mono :
      (path : Str) {s s' : Site Node} → IsStep s s' → HasRoom path s → HasRoom path s'
  HasRoom-mono path a h = (omega (arith, a.params, h.0), omega (arith, a.sections, h.1))

  abbrev Added : Str → Site Node → Site Node → Type 0
  Added path s s' = IsStep s s' × HasRoom path s'

  add_route-Added :
      (method path : Str) (hs : List Handler) (s : Site Node)
      → Ensures (Added path s) (add_route Node root grow join_paths method path hs s)
  unfolding add_route
  add_route-Added method path hs s = Ensures-any (starts_with_slash path) λ slash.
      Ensures-any (check slash) λ u. Ensures-any (check (not (is_empty method))) λ u.
        Ensures-any (check (ltb 0 (length hs))) λ u.
          Ensures-any (grow_tree Node root grow join_paths method path hs s.trees) λ trees.
            Ensures-ok (
              record {
                rebuilt = λ h. h;
                params = larger_right (count_params path) s.max_params;
                sections = larger_right (count_sections path) s.max_sections;
              },
              (
                larger_left (count_params path) s.max_params,
                larger_left (count_sections path) s.max_sections,
              ),
            )

  pub handle-Added :
      (g : Group) (method path : Str) (hs : List Handler) (s : Site Node)
      → Ensures
          (Added (join_paths g.base_path path) s)
          (handle Node root grow join_paths g method path hs s)
  unfolding handle
  handle-Added g method path hs s =
      Ensures-any (combine_handlers g.handlers hs)
        λ all_. add_route-Added method (join_paths g.base_path path) all_ s

  handle_all-IsStep :
      (g : Group) (methods : List Str) (path : Str) (hs : List Handler) (s : Site Node)
      → Ensures (IsStep s) (handle_all Node root grow join_paths g methods path hs s)
  unfolding handle_all
  handle_all-IsStep g [] path hs s = Ensures-ok (same-IsStep s)
  handle_all-IsStep g (method ∷ methods) path hs s =
      Ensures-bind (Added (join_paths g.base_path path) s)
        (handle Node root grow join_paths g method path hs s) (handle-Added g method path hs s)
        (λ s' a.
          Ensures-map _ (handle_all-IsStep g methods path hs s') (λ s'' b. IsStep-trans a.0 b))

  pub match-IsStep :
      (g : Group) (methods : List Str) (path : Str) (hs : List Handler) (s : Site Node)
      → Ensures (IsStep s) (match Node root grow join_paths g methods path hs s)
  unfolding match handle_method
  match-IsStep g [] path hs s = Ensures-ok (same-IsStep s)
  match-IsStep g (method ∷ methods) path hs s =
      Ensures-bind (Added (join_paths g.base_path path) s)
        (handle_method Node root grow join_paths g method path hs s)
        (Ensures-any (check (not (is_empty method) && all_letters method))
          λ u. handle-Added g method path hs s)
        (λ s' a. Ensures-map _ (match-IsStep g methods path hs s') (λ s'' b. IsStep-trans a.0 b))

  Added-IsStep :
      (path : Str) {s s' s'' : Site Node} → Added path s s' → IsStep s' s'' → Added path s s''
  Added-IsStep path a b = (IsStep-trans a.0 b, HasRoom-mono path b a.1)

  pub any-Added :
      (g : Group) (path : Str) (hs : List Handler) (s : Site Node)
      → Ensures (Added (join_paths g.base_path path) s) (any Node root grow join_paths g path hs s)
  unfolding any
  any-Added g path hs s =
      Ensures-bind (Added (join_paths g.base_path path) s)
        (handle Node root grow join_paths g get_method path hs s)
        (handle-Added g get_method path hs s)
        (λ s' a.
          Ensures-map _ (handle_all-IsStep g other_methods path hs s')
            (λ s'' b. Added-IsStep (join_paths g.base_path path) a b))

  pub static-Added :
      (g : Group) (path : Str) (handler : Handler) (s : Site Node)
      → Ensures
          (Added (join_paths g.base_path path) s)
          (static_file Node root grow join_paths g path handler s)
  unfolding static_file
  static-Added g path handler s = Ensures-any (check (not (has_wildcard path))) λ u.
      Ensures-bind (Added (join_paths g.base_path path) s)
        (handle Node root grow join_paths g get_method path (handler ∷ []) s)
        (handle-Added g get_method path (handler ∷ []) s)
        (λ s' a.
          Ensures-map _ (handle-Added g head_method path (handler ∷ []) s')
            (λ s'' b. Added-IsStep (join_paths g.base_path path) a b.0))

  pub use_handlers-IsStep :
      (hs : List Handler) (s : Site Node)
      → Ensures (IsStep s) (use_handlers Node root grow join_paths hs s)
  unfolding use_handlers rebuild_404 rebuild_405
  use_handlers-IsStep hs s =
      let all_ = s.group.handlers ++ hs in
      let base : Site Node = record s {
        group = record { handlers = all_; base_path = s.group.base_path };
      } in
      Ensures-nested (combine_handlers all_ s.no_route) (λ r. ok (record base { all_no_route = r }))
        (rebuild_405 Node root grow join_paths)
        (Ensures-bind (λ r. r ≡ all_ ++ s.no_route) (combine_handlers all_ s.no_route)
          (combine_handlers-append all_ s.no_route)
          (λ r e.
            Ensures-bind (λ r'. r' ≡ all_ ++ s.no_method) (combine_handlers all_ s.no_method)
              (combine_handlers-append all_ s.no_method)
              (λ r' e'.
                Ensures-ok (record {
                  rebuilt = λ h. (e, e');
                  params = omega arith;
                  sections = omega arith;
                }))))

  pub set_no_route-IsStep :
      (hs : List Handler) (s : Site Node)
      → Ensures (IsStep s) (set_no_route Node root grow join_paths hs s)
  unfolding set_no_route rebuild_404
  set_no_route-IsStep hs s =
      Ensures-bind (λ r. r ≡ s.group.handlers ++ hs) (combine_handlers s.group.handlers hs)
        (combine_handlers-append s.group.handlers hs)
        (λ r e.
          Ensures-ok
            (record { rebuilt = λ h. (e, h.1); params = omega arith; sections = omega arith }))

  pub set_no_method-IsStep :
      (hs : List Handler) (s : Site Node)
      → Ensures (IsStep s) (set_no_method Node root grow join_paths hs s)
  unfolding set_no_method rebuild_405
  set_no_method-IsStep hs s =
      Ensures-bind (λ r. r ≡ s.group.handlers ++ hs) (combine_handlers s.group.handlers hs)
        (combine_handlers-append s.group.handlers hs)
        (λ r e.
          Ensures-ok
            (record { rebuilt = λ h. (h.0, e); params = omega arith; sections = omega arith }))
