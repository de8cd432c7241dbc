-- ===== src/Gin/Decisions.antt =====
-- gin/gin.go: what `handleHTTPRequest` decides, against the trees, and the paths that it redirects to.
use gocore.Common.{
  ◌≡◌, ◌≢◌, ◌⊎◌, inl, inr, refl, sym, ap, ◌∙◌, Bool, true, false, ◌&&◌, not, List, [], ◌∷◌, Option,
  none, some, if◌then◌else◌, Bool-cases, Option-cases, from_some,
}
use gocore.Gin.Maps.{Str, eq_str}
use gocore.Gin.Context.{Handler}
use gocore.Gin.Requests.{
  Engine, Request, Value, Decision, serves, redirects, not_allowed, not_found, decide, tree_of,
  is_elsewhere, value_in, without_route, redirected, fixed, in_tree, slash, trailing_slash_path,
  search_path, connect,
}

apart : false ≡ true → ⊥
apart h = cc

nothing_apart {ℓ} : {A : Type ℓ} {a : A} → none ≡ some a → ⊥
nothing_apart h = cc

and_right : (a b : Bool) → (a && b) ≡ true → b ≡ true
and_right true b h = h
and_right false b h = absurd (apart h)

and_left : (a b : Bool) → (a && b) ≡ true → a ≡ true
and_left true b h = refl
and_left false b h = h

and_false : {A : Type 0} (a b : Bool) → (a && b) ≡ false → (A → b ≡ true) → (a ≡ false) ⊎ (A → ⊥)
and_false false b h f = inl refl
and_false true b h f = inr λ x. apart (sym h ∙ f x)

some_inj {ℓ} : {A : Type ℓ} {a b : A} → some a ≡ some b → a ≡ b
some_inj {a = a} h = ap (from_some a) h

module _ {Node : Type 0} (e : Engine Node) (r : Request) where
  -- A tree of another method that has handlers for the path.
  pub data IsOther : List (Str × Node) → Type 0 where
    first :
        {method : Str} {root : Node} {ts : List (Str × Node)} (hs : List Handler)
        → eq_str method r.method ≡ false
        → (value_in e r root).handlers ≡ some hs
        → IsOther ((method, root) ∷ ts)
    later : {t : Str × Node} {ts : List (Str × Node)} → IsOther ts → IsOther (t ∷ ts)

  -- The tree of the method, if there is one, has no handlers for the path.
  abbrev pub NoRoute : Type 0
  NoRoute = (root : Node) → tree_of e r e.trees ≡ some root → (value_in e r root).handlers ≡ none

  -- Each decision, with what it says of the trees and the options.
  pub data IsRight : Decision → Type 0 where
    route :
        (root : Node) {hs : List Handler}
        → tree_of e r e.trees ≡ some root
        → (value_in e r root).handlers ≡ some hs
        → IsRight (serves hs (value_in e r root).full_path)
    other_slash :
        NoRoute
        → e.redirect_trailing_slash ≡ true
        → search_path e r ≢ slash
        → IsRight (redirects (trailing_slash_path e r))
    other_case :
        NoRoute
        → e.redirect_fixed_path ≡ true
        → (root : Node) {path : Str} → tree_of e r e.trees ≡ some root
        → e.find_case_insensitive_path root (e.clean_path r.path) e.redirect_fixed_path ≡ some path
        → IsRight (redirects path)
    other_method :
        NoRoute → e.handle_method_not_allowed ≡ true → IsOther e.trees → IsRight not_allowed
    no_path :
        NoRoute → (e.handle_method_not_allowed ≡ false) ⊎ (IsOther e.trees → ⊥) → IsRight not_found

  is_elsewhere-IsOther : (ts : List (Str × Node)) → is_elsewhere e r ts ≡ true → IsOther ts
  unfolding is_elsewhere
  is_elsewhere-IsOther [] h = cc
  is_elsewhere-IsOther ((method, root) ∷ ts) h = elim (Bool-cases (eq_str method r.method)) [
    | inl same ↦ later (is_elsewhere-IsOther ts (rw same at h))
    | inr other ↦ elim (Option-cases (value_in e r root).handlers) [
      | inl none_ ↦ later (is_elsewhere-IsOther ts (rw (other, none_) at h))
      | inr (hs, some_) ↦ first hs other some_
    ]
  ]

  IsOther-is_elsewhere : (ts : List (Str × Node)) → IsOther ts → is_elsewhere e r ts ≡ true
  unfolding is_elsewhere
  IsOther-is_elsewhere [] h = elim h [ ]
  IsOther-is_elsewhere ((method, root) ∷ ts) (first hs other some_) = rw (other, some_) refl
  IsOther-is_elsewhere ((method, root) ∷ ts) (later h) =
      elim (Bool-cases (eq_str method r.method)) [
        | inl same ↦ rw same (IsOther-is_elsewhere ts h)
        | inr other ↦ elim (Option-cases (value_in e r root).handlers) [
          | inl none_ ↦ rw (other, none_) (IsOther-is_elsewhere ts h)
          | inr (hs, some_) ↦ rw (other, some_) refl
        ]
      ]

  IsRight-if :
      (b : Bool) {x y : Decision}
      → (b ≡ true → IsRight x)
      → (b ≡ false → IsRight y)
      → IsRight (if b then x else y)
  IsRight-if true h k = h refl
  IsRight-if false h k = k refl

  without_route-IsRight : NoRoute → IsRight (without_route e r)
  without_route-IsRight none_ =
      IsRight-if (e.handle_method_not_allowed && is_elsewhere e r e.trees)
        (λ both.
          other_method none_ (and_left _ _ both)
            (is_elsewhere-IsOther e.trees (and_right e.handle_method_not_allowed _ both)))
        (λ not_both. no_path none_ (and_false _ _ not_both (λ h. IsOther-is_elsewhere e.trees h)))

  fixed-IsRight :
      (root : Node) → NoRoute → tree_of e r e.trees ≡ some root → IsRight (fixed e r root)
  fixed-IsRight root none_ at_ =
      IsRight-if e.redirect_fixed_path
        (λ on.
          found on (e.find_case_insensitive_path root (e.clean_path r.path) e.redirect_fixed_path)
            refl)
        (λ off. without_route-IsRight none_)
    where
      found :
          e.redirect_fixed_path ≡ true
          → (o : Option Str)
          → e.find_case_insensitive_path root (e.clean_path r.path) e.redirect_fixed_path ≡ o
          → IsRight (elim o [ some path ↦ redirects path | none ↦ without_route e r ])
      found on none missing = without_route-IsRight none_
      found on (some path) there = other_case none_ on root at_ there

  redirected-IsRight :
      (root : Node) (v : Value)
      → NoRoute
      → tree_of e r e.trees ≡ some root
      → IsRight (redirected e r root v)
  redirected-IsRight root v none_ at_ =
      IsRight-if (not (eq_str r.method connect) && not (eq_str (search_path e r) slash))
        (λ on.
          IsRight-if (v.tsr && e.redirect_trailing_slash)
            (λ both. other_slash none_ (and_right v.tsr e.redirect_trailing_slash both) λ same.
              apart (
                sym (ap not (ap (λ p. eq_str p slash) same))
                ∙ and_right (not (eq_str r.method connect)) _ on))
            (λ not_both. fixed-IsRight root none_ at_))
        (λ off. without_route-IsRight none_)

  in_tree-IsRight : (root : Node) → tree_of e r e.trees ≡ some root → IsRight (in_tree e r root)
  in_tree-IsRight root at_ = served (value_in e r root).handlers refl
    where
      served :
          (o : Option (List Handler))
          → (value_in e r root).handlers ≡ o
          → IsRight (elim o [
            | some hs ↦ serves hs (value_in e r root).full_path
            | none ↦ redirected e r root (value_in e r root)
          ])
      served (some hs) there = route root at_ there
      served none missing =
          redirected-IsRight root (value_in e r root)
            (λ root' at'. ap (λ n. (value_in e r n).handlers) (some_inj (sym at' ∙ at_)) ∙ missing)
            at_

  chosen-IsRight :
      (o : Option Node)
      → tree_of e r e.trees ≡ o
      → IsRight (elim o [ none ↦ without_route e r | some root ↦ in_tree e r root ])
  chosen-IsRight none no_tree =
      without_route-IsRight λ root at_. absurd (nothing_apart (sym no_tree ∙ at_))
  chosen-IsRight (some root) at_ = in_tree-IsRight root at_

  -- Of every request: it is served exactly by the handlers that the tree of its method has for the path. Without them
  -- it is redirected to the path with or without a slash at the end, or to one that differs in case, only if the option
  -- for it is on, it is refused as of a wrong method only if that option is on and the tree of another method has
  -- handlers for the path, and nothing is found only if the option is off or no other tree has any.
  pub decide-IsRight : IsRight (decide e r)
  unfolding decide
  decide-IsRight = chosen-IsRight (tree_of e r e.trees) refl
