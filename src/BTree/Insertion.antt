-- ===== src/BTree/Insertion.antt =====
-- `node.insert` puts an item into the sorted list that a node stands for, and keeps the shape.
use gocore.Common.{
  ℕ, zero, suc, ◌+◌, ◌-◌, ◌/◌, ◌≤◌, ◌<◌, ◌≡◌, refl, sym, ap, ◌∙◌, true, false, List, ◌∷◌, ◌++◌,
  Option, some, arith, ltb, length, set, get_elem?, All-set, get_elem?_of_lt, get_elem?-set_self,
  length-set, Bool-cases, inl, inr,
}
use mathlib.Core.Path.{subst}
use gocore.Common.Run.{Run, ok, Returns, Returns-inv}
use gocore.BTree.Items.{Item, less}
use gocore.BTree.Node.{NodeObj, ref, maybe_split_child}
use gocore.BTree.Insert.{replace_at, descend, choose_half}
use gocore.BTree.Order.{IsSorted, put, get_item}
use gocore.BTree.Find.{scan}
use gocore.BTree.Weave.{
  flat, contents, flat-ref, child-IsSorted, put-weave, get_item-weave, set-weave,
}
use gocore.BTree.Splice.{
  splice, insert_at-splice, length-splice, get_elem?-splice_self, get_elem?-splice_before,
  All-splice, scan_le, scan-splice, weave-splice,
}
use gocore.BTree.Shape.{
  max_of, Fits, IsObj, IsChild, deref-ref, IsObj-cow, mutable_child-own, split-IsSplit,
}

-- What an insertion into `n` leaves and returns; the node itself gets at most `more` items.
pub record Inserted (more c d h : ℕ) (x : Item) (n : NodeObj) (r : NodeObj × Option Item)
    : Type 0 where
  pub shape : IsObj c d h r.0
  pub holds : contents r.0 ≡ put x (contents n)
  pub replaced : r.1 ≡ get_item x (contents n)
  pub no_less : length n.items ≤ length r.0.items
  pub at_most : length r.0.items ≤ more + length n.items

-- A node that may take an item.
pub record IsRoomy (c d h : ℕ) (n : NodeObj) : Type 0 where
  pub shape : IsObj c d h n
  pub sorted : IsSorted (contents n)
  pub room : length n.items < max_of d

pub IsObj-items :
    (c d h : ℕ) (n : NodeObj) (is : List Item)
    → length is ≡ length n.items
    → IsObj c d h n
    → IsObj c d h (record n { items = is })
IsObj-items c d zero n is e s = s
IsObj-items c d (suc h) n is e s = (s.0, omega (arith, s.1), s.2)

-- The item of the same rank stands in the node itself.
pub replace_at-Inserted :
    (c d h : ℕ) (x : Item) (n : NodeObj)
    → IsObj c d h n
    → IsSorted (contents n)
    → (scan n.items x).1 ≡ true
    → Returns (Inserted 0 c d h x n) (replace_at n (scan n.items x).0 x)
unfolding replace_at
replace_at-Inserted c d h x n s o f =
    let (out, here, whole, old) = set-weave n.items n.children x o f in
    let same = length-set n.items (scan n.items x).0 x in
    rw here (record {
      shape = IsObj-items c d h n (set n.items (scan n.items x).0 x) same s;
      holds = whole;
      replaced = sym old;
      no_less = omega (arith, same);
      at_most = omega (arith, same);
    })

module _ (c d h : ℕ) (x : Item) (rec : NodeObj → Run (NodeObj × Option Item))
    (ih : (p : NodeObj) → IsRoomy c d h p → Returns (Inserted 1 c d h x p) (rec p)) where
  -- The child at the slot that `scan` finds takes the item.
  pub descend-Inserted :
      (n p : NodeObj)
      → IsObj c d (suc h) n
      → IsSorted (contents n)
      → (scan n.items x).1 ≡ false
      → get_elem? n.children (scan n.items x).0 ≡ some (ref p)
      → IsObj c d h p
      → d - 1 ≤ length p.items
      → length p.items < max_of d
      → Returns (Inserted 0 c d (suc h) x n) (descend rec n (scan n.items x).0)
  unfolding descend
  descend-Inserted n p s o f e t low q =
      let i = (scan n.items x).0 in
      let ordered = rw (flat-ref p) at (child-IsSorted n.items n.children i s.1 e o) in
      let call = ih p (record { shape = t; sorted = ordered; room = q }) in
      let ((p', out), ran, r) = Returns-inv (Inserted 1 c d h x p) (rec p) call in
      let put_there : flat (ref p') ≡ put x (flat (ref p)) =
        flat-ref p' ∙ r.holds ∙ ap (put x) (sym (flat-ref p)) in
      rw (mutable_child-own n i p e (IsObj-cow c d h p t ∙ sym s.0), ran)
        (record {
          shape = (
            s.0,
            omega (arith, s.1, length-set n.children i (ref p')),
            All-set (IsChild c d h) n.children i s.2 (p', refl, r.shape, omega (arith, r)),
          );
          holds = put-weave n.items n.children x (ref p') o f e put_there;
          replaced =
              r.replaced
              ∙ ap (get_item x) (sym (flat-ref p))
              ∙ sym (get_item-weave n.items n.children x o f e);
          no_less = omega arith;
          at_most = omega arith;
        })

-- What `maybe_split_child` leaves when it splits the child `p` at `i`.
pub record IsDivided (c d h : ℕ) (n : NodeObj) (i : ℕ) (n' first second : NodeObj) (it : Item)
    : Type 0 where
  pub shape : IsObj c d (suc h) n'
  pub whole : contents n' ≡ contents n
  pub spliced : n'.items ≡ splice n.items i it
  pub left : get_elem? n'.children i ≡ some (ref first)
  pub right : get_elem? n'.children (suc i) ≡ some (ref second)
  pub low : IsObj c d h first × Fits d first × (length first.items < max_of d)
  pub high : IsObj c d h second × Fits d second × (length second.items < max_of d)

pub divide-IsDivided :
    (c d h : ℕ) (n : NodeObj) (i : ℕ) (p : NodeObj)
    → 2 ≤ d
    → IsObj c d (suc h) n
    → i ≤ length n.items
    → get_elem? n.children i ≡ some (ref p)
    → IsObj c d h p
    → length p.items ≡ max_of d
    → (n' : NodeObj) × (first : NodeObj) × (second : NodeObj) × (it : Item) × (maybe_split_child n i
          (max_of d)
        ≡ ok (n', true))
      × IsDivided c d h n i n' first second it
unfolding maybe_split_child
divide-IsDivided c d h n i p two s q e t full =
    let j = max_of d / 2 in
    let (it, at_j) = get_elem?_of_lt p.items j (omega arith) in
    let (first, second, cut, parts) = split-IsSplit c d h p j t at_j (omega arith) in
    let cs = set n.children i (ref first) in
    let same = length-set n.children i (ref first) in
    let n' = record n { items = splice n.items i it; children = splice cs (suc i) (ref second) } in
    let not_less : ltb (length p.items) (max_of d) ≡ false = ground arith in
    let fit_low : Fits d first × (length first.items < max_of d) = omega (arith, parts) in
    let fit_high : Fits d second × (length second.items < max_of d) = omega (arith, parts) in
    let next : i + 1 ≡ suc i = omega arith in
    (
      n',
      first,
      second,
      it,
      rw (e, deref-ref p, not_less, mutable_child-own n i p e (IsObj-cow c d h p t ∙ sym s.0))
          (rw
            (
              cut,
              next,
              insert_at-splice n.items i it q,
              insert_at-splice cs (suc i) (ref second) (omega (arith, s.1)),
            )
            refl),
      record {
        shape = (
          s.0,
          omega (arith, s.1, length-splice cs (suc i) (ref second), length-splice n.items i it),
          All-splice (IsChild c d h) cs (suc i) (ref second)
              (All-set (IsChild c d h) n.children i s.2 (first, refl, parts.low, fit_low.0))
              (second, refl, parts.high, fit_high.0),
        );
        whole = weave-splice n.items n.children i it (ref first) (ref second) q s.1 e (
            flat-ref p
            ∙ parts.whole
            ∙ sym (
                ap (λ r. r ++ it ∷ flat (ref second)) (flat-ref first)
                ∙ ap (λ r. contents first ++ it ∷ r) (flat-ref second)));
        spliced = refl;
        left =
            get_elem?-splice_before cs i (ref second) (omega (arith, s.1))
            ∙ get_elem?-set_self n.children i (ref first) (omega (arith, s.1));
        right = get_elem?-splice_self cs (suc i) (ref second) (omega (arith, s.1));
        low = (parts.low, fit_low.0, fit_low.1);
        high = (parts.high, fit_high.0, fit_high.1);
      },
    )

module _ (c d h : ℕ) (two : 2 ≤ d) (x : Item) (rec : NodeObj → Run (NodeObj × Option Item))
    (ih : (p : NodeObj) → IsRoomy c d h p → Returns (Inserted 1 c d h x p) (rec p)) where
  -- After a split the item goes to one of the halves, or replaces the item between them.
  pub choose_half-Inserted :
      (n n' first second : NodeObj) (it : Item)
      → IsSorted (contents n)
      → (scan n.items x).1 ≡ false
      → IsDivided c d h n (scan n.items x).0 n' first second it
      → Returns (Inserted 0 c d (suc h) x n') (choose_half rec n' (scan n.items x).0 x)
  unfolding choose_half
  choose_half-Inserted n n' first second it o f v =
      let i = (scan n.items x).0 in
      let ordered : IsSorted (contents n') = rw v.whole o in
      let at_it : get_elem? n'.items i ≡ some it =
        ap (λ s. get_elem? s i) v.spliced
        ∙ get_elem?-splice_self n.items i it (scan_le n.items x) in
      let now = ap (λ s. scan s x) v.spliced ∙ scan-splice n.items x it f in
      rw at_it (elim (Bool-cases (less x it)) [
        | inl lower ↦
            let here : scan n'.items x ≡ (i, false) = now ∙ ground arith in
            rw lower (
              subst (λ k. Returns (Inserted 0 c d (suc h) x n') (descend rec n' k))
                (ap (λ r. r.0) here)
                (descend-Inserted c d h x rec ih n' first v.shape ordered (ap (λ r. r.1) here)
                  (ap (λ k. get_elem? n'.children k) (ap (λ r. r.0) here) ∙ v.left) v.low.0
                  v.low.1.0 v.low.2))
        | inr e ↦ rw e (elim (Bool-cases (less it x)) [
          | inl higher ↦
              let there : scan n'.items x ≡ (i + 1, false) = now ∙ ground arith in
              rw higher (
                subst (λ k. Returns (Inserted 0 c d (suc h) x n') (descend rec n' k))
                  (ap (λ r. r.0) there)
                  (descend-Inserted c d h x rec ih n' second v.shape ordered (ap (λ r. r.1) there)
                    (ap (λ k. get_elem? n'.children k) (ap (λ r. r.0) there ∙ omega arith)
                      ∙ v.right)
                    v.high.0 v.high.1.0 v.high.2))
          | inr same ↦
              let found : scan n'.items x ≡ (i, true) = now ∙ ground arith in
              rw same (
                subst (λ k. Returns (Inserted 0 c d (suc h) x n') (replace_at n' k x))
                  (ap (λ r. r.0) found)
                  (replace_at-Inserted c d (suc h) x n' v.shape ordered (ap (λ r. r.1) found)))
        ])
      ])
