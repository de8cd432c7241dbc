-- ===== src/BTree/Put.antt =====
-- `node.insert` as a whole: every branch, and enough fuel.
use gocore.Common.{
  ℕ, zero, suc, ◌≤◌, ◌<◌, ◌≡◌, refl, sym, ap, ◌∙◌, true, false, List, [], ◌∷◌, Option, some, arith,
  if◌then◌else◌, ◌==◌, ltb, length, get_elem?, All-get_elem?, get_elem?_of_lt, Bool-cases, inl, inr,
}
use gocore.Common.Run.{Run, ok, Returns, Returns-map, ◌>>=◌}
use gocore.BTree.Items.{Item}
use gocore.BTree.Node.{NodeObj, ref, maybe_split_child}
use gocore.BTree.Insert.{replace_at, descend, choose_half, insert_step, insert}
use gocore.BTree.Order.{put, get_item}
use gocore.BTree.Find.{scan, find-scan}
use gocore.BTree.Weave.{items-IsSorted, insert_at-scan}
use gocore.BTree.Splice.{scan_le, length-splice}
use gocore.BTree.Shape.{max_of, IsObj, IsChild, deref-ref}
use gocore.BTree.Insertion.{
  Inserted, IsRoomy, replace_at-Inserted, descend-Inserted, divide-IsDivided, choose_half-Inserted,
}

length-put :
    (x : Item) (s : List Item) → (length s ≤ length (put x s)) × (length (put x s) ≤ suc (length s))
length-put x [] = omega arith
length-put x (y ∷ s) = ground (arith, length-put x s)

-- A bound on the growth may be given away.
loosen :
    (c d h : ℕ) (x : Item) (n : NodeObj) (r : Run (NodeObj × Option Item))
    → Returns (Inserted 0 c d h x n) r
    → Returns (Inserted 1 c d h x n) r
loosen c d h x n r t = Returns-map (Inserted 0 c d h x n) (Inserted 1 c d h x n) r t (λ a v.
    record {
      shape = v.shape;
      holds = v.holds;
      replaced = v.replaced;
      no_less = v.no_less;
      at_most = omega (arith, v.at_most);
    })

-- In a leaf.
leaf-Inserted :
    (c d : ℕ) (x : Item) (rec : NodeObj → Run (NodeObj × Option Item)) (n : NodeObj)
    → IsRoomy c d 0 n
    → Returns (Inserted 1 c d 0 x n) (insert_step rec n x (max_of d))
unfolding insert_step
leaf-Inserted c d x rec n v =
    let bare = v.shape.1 in
    let sorted = items-IsSorted n.items n.children v.sorted in
    rw (find-scan n.items x sorted) (elim (Bool-cases (scan n.items x).1) [
      | inl found ↦ rw found (
          loosen c d 0 x n (replace_at n (scan n.items x).0 x)
            (replace_at-Inserted c d 0 x n v.shape v.sorted found))
      | inr absent ↦
          let (placed, old) = insert_at-scan n.items x absent in
          let empty : (length n.children == 0) ≡ true = rw bare refl in
          rw (absent, empty, placed)
            (record {
              shape = v.shape;
              holds = rw bare refl;
              replaced = rw bare (sym old);
              no_less = (length-put x n.items).0;
              at_most = omega (arith, length-put x n.items);
            })
    ])

-- A node that is not full stays as it is.
kept :
    (n : NodeObj) (i max_items : ℕ) (p : NodeObj)
    → get_elem? n.children i ≡ some (ref p)
    → length p.items < max_items
    → maybe_split_child n i max_items ≡ ok (n, false)
unfolding maybe_split_child
kept n i max_items p e h =
    let small : ltb (length p.items) max_items ≡ true = ground arith in
    rw (e, deref-ref p, small) refl

-- In an inner node, given the call on a child.
inner-Inserted :
    (c d h : ℕ) (x : Item) (rec : NodeObj → Run (NodeObj × Option Item))
    → 2 ≤ d
    → ((p : NodeObj) → IsRoomy c d h p → Returns (Inserted 1 c d h x p) (rec p))
    → (n : NodeObj) → IsRoomy c d (suc h) n
    → Returns (Inserted 1 c d (suc h) x n) (insert_step rec n x (max_of d))
unfolding insert_step
inner-Inserted c d h x rec two ih n v =
    let s = v.shape in
    let sorted = items-IsSorted n.items n.children v.sorted in
    rw (find-scan n.items x sorted) (elim (Bool-cases (scan n.items x).1) [
      | inl found ↦ rw found (
          loosen c d (suc h) x n (replace_at n (scan n.items x).0 x)
            (replace_at-Inserted c d (suc h) x n s v.sorted found))
      | inr absent ↦
          let i = (scan n.items x).0 in
          let within = scan_le n.items x in
          let some_child : (length n.children == 0) ≡ false = ground (arith, s.1) in
          let (k, at_i) = get_elem?_of_lt n.children i (omega (arith, s.1)) in
          let (p, is_p, t, fits) = All-get_elem? (IsChild c d h) n.children i s.2 at_i in
          let at_p : get_elem? n.children i ≡ some (ref p) = at_i ∙ ap some is_p in
          rw (absent, some_child)
            (elim (Bool-cases (ltb (length p.items) (max_of d))) [
              | inl small ↦ rw (kept n i (max_of d) p at_p (ground arith)) (
                  loosen c d (suc h) x n (descend rec n i) (
                    descend-Inserted c d h x rec ih n p s v.sorted absent at_p t fits.0
                      (ground arith)))
              | inr full ↦ divided n v absent p at_p t (ground arith)
            ])
    ])
  where
    divided :
        (n : NodeObj)
        → IsRoomy c d (suc h) n
        → (scan n.items x).1 ≡ false
        → (p : NodeObj) → get_elem? n.children (scan n.items x).0 ≡ some (ref p)
        → IsObj c d h p
        → length p.items ≡ max_of d
        → Returns (Inserted 1 c d (suc h) x n) (
            maybe_split_child n (scan n.items x).0 (max_of d) >>= λ (n', was_split).
            if was_split
            then choose_half rec n' (scan n.items x).0 x
            else descend rec n' (scan n.items x).0)
    divided n v absent p at_p t full =
        let i = (scan n.items x).0 in
        let (n', first, second, it, ran, w) =
          divide-IsDivided c d h n i p two v.shape (scan_le n.items x) at_p t full in
        let longer = ap (λ s. length s) w.spliced ∙ length-splice n.items i it in
        rw ran (
          Returns-map (Inserted 0 c d (suc h) x n') (Inserted 1 c d (suc h) x n)
            (choose_half rec n' i x)
            (choose_half-Inserted c d h two x rec ih n n' first second it v.sorted absent w)
            (λ a r. record {
              shape = r.shape;
              holds = r.holds ∙ ap (put x) w.whole;
              replaced = r.replaced ∙ ap (get_item x) w.whole;
              no_less = omega (arith, r.no_less);
              at_most = omega (arith, r.at_most);
            }))

insert-Inserted_fuel :
    (fuel c d h : ℕ) (x : Item)
    → 2 ≤ d
    → h < fuel
    → (n : NodeObj) → IsRoomy c d h n
    → Returns (Inserted 1 c d h x n) (insert fuel n x (max_of d))
unfolding insert
insert-Inserted_fuel zero c d h x two f n v = elim f [ ]
insert-Inserted_fuel (suc fuel) c d zero x two f n v =
    leaf-Inserted c d x (λ p. insert fuel p x (max_of d)) n v
insert-Inserted_fuel (suc fuel) c d (suc h) x two f n v =
    inner-Inserted c d h x (λ p. insert fuel p x (max_of d)) two
      (λ p w. insert-Inserted_fuel fuel c d h x two (omega arith) p w) n v

-- From a sorted node of height `h` that is not full and is owned by the context, with a degree of at
-- least 2 and fuel above `h`, `insert` ends well. It returns the old item of the same rank, if any; what
-- the node holds is what it held with the item put in; the node keeps its height, its owner and the
-- bounds on the sizes below it, and gets at most one item more.
pub insert-Inserted :
    (c d h fuel : ℕ) (x : Item) (n : NodeObj)
    → 2 ≤ d
    → h < fuel
    → IsRoomy c d h n
    → Returns (Inserted 1 c d h x n) (insert fuel n x (max_of d))
insert-Inserted c d h fuel x n two f v = insert-Inserted_fuel fuel c d h x two f n v
