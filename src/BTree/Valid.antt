-- ===== src/BTree/Valid.antt =====
-- A tree as a whole: `ReplaceOrInsert` refines `put` and `Get` refines `get_item` on the sorted list of
-- the items.
use gocore.Common.{
  ℕ, zero, suc, ◌+◌, ◌/◌, ◌≤◌, ◌≡◌, refl, sym, ap, ◌∙◌, List, [], ◌∷◌, ◌++◌, Option, some, arith,
  ltb, length, All, get_elem?_of_lt, Bool-cases, inl, inr, ◌⊎◌,
}
use mathlib.Core.Path.{subst}
use gocore.Common.Run.{ok, Returns, Returns-inv}
use gocore.BTree.Items.{Item}
use gocore.BTree.Node.{Node, NodeObj, null, pack, ref, new_node}
use gocore.BTree.Insert.{insert}
use gocore.BTree.Order.{IsSorted, put, get_item, put-IsSorted}
use gocore.BTree.Weave.{flat, contents, flat-ref}
use gocore.BTree.Shape.{max_of, IsObj, IsChild, IsObj-cow, mutable_for-own, split-IsSplit}
use gocore.BTree.Insertion.{Inserted, IsRoomy}
use gocore.BTree.Put.{insert-Inserted}
use gocore.BTree.Tree.{
  BTree, height, height_first, grow_root, count_new, replace_or_insert_at, replace_or_insert,
}

-- The root is a node that the tree owns, with at least one item.
pub record IsRoot (c d : ℕ) (root : Node) : Type 0 where
  pub obj : NodeObj
  pub level : ℕ
  pub here : root ≡ ref obj
  pub shape : IsObj c d level obj
  pub some_item : 1 ≤ length obj.items
  pub fits : length obj.items ≤ max_of d

pub record IsValid (t : BTree) : Type 0 where
  pub degree : 2 ≤ t.degree
  pub counted : t.length ≡ length (flat t.root)
  pub sorted : IsSorted (flat t.root)
  pub rooted : (t.root ≡ null) ⊎ IsRoot t.cow t.degree t.root

pub IsObj-height : (c d h : ℕ) (o : NodeObj) → IsObj c d h o → height (ref o) ≡ suc h
unfolding height
IsObj-height c d zero o s = rw s.1 refl
IsObj-height c d (suc h) o s = first o.children s.1 s.2 (λ p q. IsObj-height c d h p q)
  where
    first :
        (cs : List Node)
        → length cs ≡ suc (length o.items)
        → All (IsChild c d h) cs
        → ((p : NodeObj) → IsObj c d h p → height (ref p) ≡ suc h)
        → suc (height_first (pack cs)) ≡ suc (suc h)
    first [] l a f = absurd (omega arith)
    first (k ∷ cs) l a f = ap suc (ap height a.0.1 ∙ f a.0.0 a.0.2)

length-put_count :
    (x : Item) (s : List Item) (n : ℕ)
    → n ≡ length s
    → count_new (get_item x s) n ≡ length (put x s)
length-put_count x [] n e = omega arith
length-put_count x (y ∷ s) n e = ground (arith, length-put_count x s (length s) refl)

-- The root on which `insert` is called: as high as before or one level higher, with the same items.
record IsGrown (t : BTree) (o r : NodeObj) (h k : ℕ) : Type 0 where
  roomy : IsRoomy t.cow t.degree k r
  same : contents r ≡ contents o
  some_item : 1 ≤ length r.items
  level : k ≤ suc h

grow_root-IsGrown :
    (t : BTree) (o : NodeObj) (h : ℕ)
    → 2 ≤ t.degree
    → IsObj t.cow t.degree h o
    → IsSorted (contents o)
    → 1 ≤ length o.items
    → length o.items ≤ max_of t.degree
    → (r : NodeObj) × (k : ℕ) × (grow_root t o ≡ ok r) × IsGrown t o r h k
unfolding grow_root
grow_root-IsGrown t o h two s sorted one most =
    elim (Bool-cases (ltb (length o.items) (max_of t.degree))) [
      | inl small ↦ (
        o,
        h,
        rw small refl,
        record {
          roomy = record { shape = s; sorted = sorted; room = ground arith };
          same = refl;
          some_item = one;
          level = omega arith;
        },
      )
      | inr full ↦
          let j = max_of t.degree / 2 in
          let (it, at_j) = get_elem?_of_lt o.items j (ground arith) in
          let (first, second, cut, parts) =
            split-IsSplit t.cow t.degree h o j s at_j (ground arith) in
          let r = record (new_node t.cow) {
            items = it ∷ [];
            children = ref first ∷ ref second ∷ [];
          } in
          let same : contents r ≡ contents o =
            ap (λ a. a ++ it ∷ flat (ref second)) (flat-ref first)
            ∙ ap (λ b. contents first ++ it ∷ b) (flat-ref second)
            ∙ sym parts.whole in
          (
            r,
            suc h,
            rw (full, cut) refl,
            record {
              roomy = record {
                shape = (
                  refl,
                  refl,
                  (
                    (first, refl, parts.low, ground (arith, parts.low_size)),
                    (
                      (second, refl, parts.high, ground (arith, parts.low_size, parts.high_size)),
                      tt,
                    ),
                  ),
                );
                sorted = rw same sorted;
                room = omega arith;
              };
              same = same;
              some_item = omega arith;
              level = omega arith;
            },
          )
    ]

pub flat-null : flat null ≡ []
unfolding flat
flat-null = refl

-- What `ReplaceOrInsert` leaves and returns, for a tree that holds the items `s`.
abbrev pub Replaced : List Item → Item → BTree × Option Item → Type 0
Replaced s x r = IsValid r.0 × (flat r.0.root ≡ put x s) × (r.1 ≡ get_item x s)

put_below :
    (t : BTree) (x : Item) (o : NodeObj) (h : ℕ)
    → 2 ≤ t.degree
    → IsObj t.cow t.degree h o
    → 1 ≤ length o.items
    → length o.items ≤ max_of t.degree
    → t.length ≡ length (contents o)
    → IsSorted (contents o)
    → Returns (Replaced (contents o) x) (replace_or_insert_at t (ref o) x)
unfolding replace_or_insert_at
put_below t x o h two s one most count sorted =
    let fuel = height (ref o) + 1 in
    let high = IsObj-height t.cow t.degree h o s in
    let (r, k, grown, g) = grow_root-IsGrown t o h two s sorted one most in
    let call = insert-Inserted t.cow t.degree k fuel x r two (omega (arith, g.level)) g.roomy in
    let ((r', out), ran, v) =
      Returns-inv (Inserted 1 t.cow t.degree k x r) (insert fuel r x (max_of t.degree)) call in
    let full : contents r' ≡ put x (contents o) = v.holds ∙ ap (put x) g.same in
    let old : out ≡ get_item x (contents o) = v.replaced ∙ ap (get_item x) g.same in
    let all = flat-ref r' ∙ full in
    rw (mutable_for-own o t.cow (IsObj-cow t.cow t.degree h o s), grown, ran)
      (
        record {
          degree = two;
          counted =
              ap (λ a. count_new a t.length) old
              ∙ length-put_count x (contents o) t.length count
              ∙ ap (λ a. length a) (sym all);
          sorted = rw all (put-IsSorted x (contents o) sorted);
          rooted = inr (record {
            obj = r';
            level = k;
            here = refl;
            shape = v.shape;
            some_item = omega (arith, v.no_less, g.some_item);
            fits = omega (arith, v.at_most, g.roomy.room);
          });
        },
        all,
        old,
      )

put_first :
    (t : BTree) (x : Item)
    → 2 ≤ t.degree
    → t.length ≡ 0
    → Returns (Replaced [] x) (replace_or_insert_at t null x)
unfolding replace_or_insert_at
put_first t x two count =
    let one = flat-ref (record (new_node t.cow) { items = x ∷ [] }) in
    (
      record {
        degree = two;
        counted = omega (arith, ap (λ a. length a) one);
        sorted = rw one (tt, tt);
        rooted = inr (record {
          obj = record (new_node t.cow) { items = x ∷ [] };
          level = 0;
          here = refl;
          shape = (refl, refl);
          some_item = omega arith;
          fits = omega arith;
        });
      },
      one,
      refl,
    )

-- On a valid tree `ReplaceOrInsert` of an item ends well. The tree stays valid; its items are those from
-- before with the new one put in; the result is the item of the same rank that was replaced, or nil.
pub replace_or_insert-IsValid :
    (t : BTree) (x : Item)
    → IsValid t
    → Returns (Replaced (flat t.root) x) (replace_or_insert t (some x))
unfolding replace_or_insert
replace_or_insert-IsValid t x v = elim v.rooted [
  | inl empty ↦
      let none_yet : flat t.root ≡ [] = ap flat empty ∙ flat-null in
      let start = put_first t x v.degree (v.counted ∙ ap (λ a. length a) none_yet) in
      subst (λ a. Returns (Replaced a x) (replace_or_insert_at t t.root x)) (sym none_yet)
        (subst (λ n. Returns (Replaced [] x) (replace_or_insert_at t n x)) (sym empty) start)
  | inr r ↦
      let all : flat t.root ≡ contents r.obj = ap flat r.here ∙ flat-ref r.obj in
      let below =
        put_below t x r.obj r.level v.degree r.shape r.some_item r.fits
          (v.counted ∙ ap (λ a. length a) all) (rw all at v.sorted) in
      subst (λ a. Returns (Replaced a x) (replace_or_insert_at t t.root x)) (sym all)
        (subst (λ n. Returns (Replaced (contents r.obj) x) (replace_or_insert_at t n x))
          (sym r.here) below)
]
