-- ===== src/BTree/Lookup.antt =====
-- `Get` looks an item up in the sorted list that the tree stands for.
use gocore.Common.{
  ℕ, zero, suc, ◌<◌, ◌≡◌, refl, sym, ap, ◌∙◌, true, false, [], some, arith, ltb, length, get_elem?,
  All-get_elem?, get_elem?_of_lt, Bool-cases, inl, inr,
}
use gocore.Common.Run.{ok, ◌>>=◌}
use gocore.BTree.Items.{Item}
use gocore.BTree.Node.{NodeObj, ref, deref}
use gocore.BTree.Order.{IsSorted, get_item}
use gocore.BTree.Find.{scan, find-scan}
use gocore.BTree.Weave.{
  flat, contents, flat-ref, items-IsSorted, child-IsSorted, get_item-weave, set-weave,
  insert_at-scan,
}
use gocore.BTree.Splice.{scan_le}
use gocore.BTree.Shape.{IsObj, IsChild, deref-ref}
use gocore.BTree.Tree.{BTree, height, get_node, get_at, get}
use gocore.BTree.Valid.{IsValid, IsObj-height, flat-null}

module _ (c d : ℕ) (key : Item) where
  get_node-eq :
      (fuel h : ℕ) (n : NodeObj)
      → h < fuel
      → IsObj c d h n
      → IsSorted (contents n)
      → get_node fuel n key ≡ ok (get_item key (contents n))
  unfolding get_node
  get_node-eq zero h n f s o = elim f [ ]
  get_node-eq (suc fuel) zero n f s o =
      rw (find-scan n.items key (items-IsSorted n.items n.children o))
        (elim (Bool-cases (scan n.items key).1) [
          | inl found ↦
              let (out, here, whole, old) = set-weave n.items n.children key o found in
              rw (found, here) (ap ok (sym old))
          | inr absent ↦
              let old = (insert_at-scan n.items key absent).1 in
              let bare : ltb 0 (length n.children) ≡ false = rw s.1 refl in
              rw (absent, bare) (rw s.1 (ap ok (sym old)))
        ])
  get_node-eq (suc fuel) (suc h) n f s o =
      rw (find-scan n.items key (items-IsSorted n.items n.children o))
        (elim (Bool-cases (scan n.items key).1) [
          | inl found ↦
              let (out, here, whole, old) = set-weave n.items n.children key o found in
              rw (found, here) (ap ok (sym old))
          | inr absent ↦
              let i = (scan n.items key).0 in
              let inner : ltb 0 (length n.children) ≡ true = ground (arith, s.1) in
              let (k, at_i) =
                get_elem?_of_lt n.children i (omega (arith, s.1, scan_le n.items key)) in
              let (p, is_p, t, fits) = All-get_elem? (IsChild c d h) n.children i s.2 at_i in
              let at_p : get_elem? n.children i ≡ some (ref p) = at_i ∙ ap some is_p in
              let ordered = rw (flat-ref p) at (child-IsSorted n.items n.children i s.1 at_p o) in
              rw (absent, inner, at_p, deref-ref p)
                (get_node-eq fuel h p (omega arith) t ordered
                  ∙ ap (λ a. ok (get_item key a)) (sym (flat-ref p))
                  ∙ ap ok (sym (get_item-weave n.items n.children key o absent at_p)))
        ])

get_at-ref :
    (o : NodeObj) (key : Item)
    → get_at (ref o) key ≡ (deref (ref o) >>= λ n. get_node (height (ref o)) n key)
unfolding get_at
get_at-ref o key = refl

-- On a valid tree `Get` ends well, and finds the item of the key's rank if the tree holds one, else nil.
pub get-eq : (t : BTree) (key : Item) → IsValid t → get t key ≡ ok (get_item key (flat t.root))
unfolding get get_at
get-eq t key v = elim v.rooted [
  | inl empty ↦
      let none_yet : flat t.root ≡ [] = ap flat empty ∙ flat-null in
      ap (λ n. get_at n key) empty ∙ ap (λ a. ok (get_item key a)) (sym none_yet)
  | inr r ↦
      let all : flat t.root ≡ contents r.obj = ap flat r.here ∙ flat-ref r.obj in
      let enough = IsObj-height t.cow t.degree r.level r.obj r.shape in
      ap (λ n. get_at n key) r.here
      ∙ get_at-ref r.obj key
      ∙ ap (λ m. m >>= λ n. get_node (height (ref r.obj)) n key) (deref-ref r.obj)
      ∙ get_node-eq t.cow t.degree key (height (ref r.obj)) r.level r.obj (omega arith) r.shape
          (rw all at v.sorted)
      ∙ ap (λ a. ok (get_item key a)) (sym all)
]
