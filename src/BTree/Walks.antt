-- ===== src/BTree/Walks.antt =====
-- What the walks visit: `iterate` always returns that its caller shall stop, so that a walk upwards ends
-- with the first leaf.
use mathlib.Core.Path.{subst}
use gocore.Common.{
  ℕ, zero, suc, ◌+◌, ◌-◌, ◌≤◌, ◌<◌, ◌≡◌, refl, sym, ap, ◌∙◌, Bool, true, false, not, List, [], ◌∷◌,
  none, some, arith, ltb, ◌&&◌, length, get_elem?, All-get_elem?, get_elem?_of_lt, drop, from_some,
  length-append,
}
use gocore.Common.Run.{Run, ok, panic, out_of_fuel}
use gocore.BTree.Items.{Item}
use gocore.BTree.Node.{Node, NodeObj, ref, deref}
use gocore.BTree.Weave.{flat, weave, contents, flat-ref}
use gocore.BTree.Shape.{IsObj, IsChild, deref-ref}
use gocore.BTree.Tree.{BTree, height}
use gocore.BTree.Valid.{IsRoot, IsObj-height}
use gocore.BTree.Iterate.{
  Walk, Visit, Step, visit_child, visit_item, ascend_loop, ascend, walk_at, ascend_all,
}

-- The walk of `Ascend` with an iterator that never stops.
abbrev pub all_items : Walk
all_items = record { start = none; stop = none; include_start = false; iter = λ item. true }

-- `s` are the items of the first leaf below `n`.
abbrev pub IsFirstLeaf : ℕ → NodeObj → List Item → Type 0
IsFirstLeaf zero n s = s ≡ n.items
IsFirstLeaf (suc h) n s =
    (k : Node) × (p : NodeObj) × (get_elem? n.children 0 ≡ some k) × (k ≡ ref p) × IsFirstLeaf h p s

abbrev pub rev_onto : List Item → List Item → List Item
rev_onto [] seen = seen
rev_onto (x ∷ s) seen = rev_onto s (x ∷ seen)

drop_cons :
    (s : List Item) (i rounds : ℕ)
    → i + suc rounds ≡ length s
    → (x : Item) × (get_elem? s i ≡ some x) × (drop i s ≡ x ∷ drop (suc i) s)
drop_cons [] i rounds e = absurd (omega arith)
drop_cons (y ∷ s) zero rounds e = (y, refl, refl)
drop_cons (y ∷ s) (suc i) rounds e = drop_cons s i rounds (omega arith)

drop_all : (s : List Item) (i : ℕ) → i ≡ length s → drop i s ≡ []
drop_all [] zero e = refl
drop_all [] (suc i) e = refl
drop_all (y ∷ s) zero e = absurd (omega arith)
drop_all (y ∷ s) (suc i) e = drop_all s i (omega arith)

not_and_false : (b : Bool) → (not b && false) ≡ false
not_and_false true = refl
not_and_false false = refl

-- In a leaf all the items are visited.
leaf_loop :
    (rec : NodeObj → Step) (n : NodeObj) (rounds i : ℕ) (hit : Bool) (seen : List Item)
    → n.children ≡ []
    → i + rounds ≡ length n.items
    → (v : Visit) × (ascend_loop all_items rec n rounds i hit seen ≡ ok v)
      × (v.go_on ≡ false)
      × (v.seen ≡ rev_onto (drop i n.items) seen)
unfolding ascend_loop visit_child visit_item
leaf_loop rec n zero i hit seen bare e =
    let none_below : ltb 0 (length n.children) ≡ false = rw bare refl in
    (
      record { hit = hit; go_on = false; seen = seen },
      rw none_below refl,
      refl,
      rw (drop_all n.items i (omega arith)) refl,
    )
leaf_loop rec n (suc rounds) i hit seen bare e =
    let none_below : ltb 0 (length n.children) ≡ false = rw bare refl in
    let (x, at_i, rest) = drop_cons n.items i rounds e in
    let next : i + 1 ≡ suc i = omega arith in
    let (v, ran, stop, order) = leaf_loop rec n rounds (suc i) true (x ∷ seen) bare (omega arith) in
    (v, rw (none_below, at_i, not_and_false hit, next) ran, stop, rw rest order)

-- What a walk of `n` returns that visits the items `s`.
record IsVisit (s seen : List Item) (r : Run Visit) : Type 0 where
  visit : Visit
  ran : r ≡ ok visit
  stops : visit.go_on ≡ false
  order : visit.seen ≡ rev_onto s seen

-- In an inner node the first child is visited, and its result ends the loop.
inner-IsVisit :
    (rec : NodeObj → Step) (n p : NodeObj) (k : Node) (hit : Bool) (s seen : List Item)
    → length n.children ≡ suc (length n.items)
    → get_elem? n.children 0 ≡ some k
    → k ≡ ref p
    → IsVisit s seen (rec p hit seen)
    → IsVisit s seen (ascend_loop all_items rec n (length n.items) 0 hit seen)
unfolding ascend_loop visit_child
inner-IsVisit rec n p k hit s seen l e is_p w = by_rounds (length n.items) l refl
  where
    some_child : length n.children ≡ suc (length n.items) → ltb 0 (length n.children) ≡ true
    some_child q = ground arith

    at_p : get_elem? n.children 0 ≡ some (ref p)
    at_p = e ∙ ap some is_p

    stopped : Visit
    stopped = record (w.visit) { go_on = false }

    by_rounds :
        (rounds : ℕ)
        → length n.children ≡ suc rounds
        → rounds ≡ length n.items
        → IsVisit s seen (ascend_loop all_items rec n rounds 0 hit seen)
    by_rounds zero q r =
        let only : length n.children - 1 ≡ 0 = omega arith in
        record {
          visit = stopped;
          ran = rw (some_child l, only, at_p, deref-ref p, w.ran) refl;
          stops = refl;
          order = w.order;
        }
    by_rounds (suc rounds) q r =
        let (x, at_x) = get_elem?_of_lt n.items 0 (omega arith) in
        record {
          visit = stopped;
          ran = rw (some_child l, at_p, deref-ref p, w.ran) (rw (at_x, w.stops) refl);
          stops = refl;
          order = w.order;
        }

ascend-IsVisit :
    (c d fuel h : ℕ) (n : NodeObj) (hit : Bool) (seen : List Item)
    → h < fuel
    → IsObj c d h n
    → (s : List Item) × IsFirstLeaf h n s × IsVisit s seen (ascend fuel all_items n hit seen)
unfolding ascend
ascend-IsVisit c d zero h n hit seen f s = elim f [ ]
ascend-IsVisit c d (suc fuel) zero n hit seen f s =
    let (v, ran, stop, order) =
      leaf_loop (λ child. ascend fuel all_items child) n (length n.items - 0) 0 hit seen s.1
        (omega arith) in
    (n.items, refl, record { visit = v; ran = ran; stops = stop; order = order })
ascend-IsVisit c d (suc fuel) (suc h) n hit seen f s =
    let (k, e) = get_elem?_of_lt n.children 0 (omega (arith, s.1)) in
    let (p, is_p, t, fits) = All-get_elem? (IsChild c d h) n.children 0 s.2 e in
    let (leaf, is_leaf, w) = ascend-IsVisit c d fuel h p hit seen (omega arith) t in
    let all : length n.items - 0 ≡ length n.items = omega arith in
    (
      leaf,
      (k, p, e, is_p, is_leaf),
      rw all
          (inner-IsVisit (λ child. ascend fuel all_items child) n p k hit leaf seen s.1 e is_p w),
    )

leaf_le :
    (c d h : ℕ) (n : NodeObj) (s : List Item)
    → IsObj c d h n
    → IsFirstLeaf h n s
    → (length s ≤ length (contents n))
      × (1 ≤ h → 1 ≤ length n.items → length s < length (contents n))
leaf_le c d zero n s o f = rw (f, o.1) (omega arith, λ p. absurd (omega arith))
leaf_le c d (suc h) n s o f =
    let (k, p, e, is_p, g) = f in
    let (q, is_q, t, fits) = All-get_elem? (IsChild c d h) n.children 0 o.2 e in
    let same : p ≡ q =
      ok-injective p q (sym (deref-ref p) ∙ ap deref (sym is_p ∙ is_q) ∙ deref-ref q) in
    let below = (leaf_le c d h q s t (subst (λ a. IsFirstLeaf h a s) same g)).0 in
    by_items n.items n.children o.1 (e ∙ ap some is_q)
      (omega (arith, below, ap (λ a. length a) (flat-ref q)))
  where
    ok-injective : (a b : NodeObj) → ok a ≡ ok b → a ≡ b
    ok-injective a b e = ap (elim [ ok c ↦ c | panic ↦ a | out_of_fuel ↦ a ]) e

    by_items :
        (is : List Item) (cs : List Node) {k : Node}
        → length cs ≡ suc (length is)
        → get_elem? cs 0 ≡ some k
        → length s ≤ length (flat k)
        → (length s ≤ length (weave is cs))
          × (1 ≤ suc h → 1 ≤ length is → length s < length (weave is cs))
    by_items is [] l e b = cc
    by_items [] (c ∷ cs) l e b =
        let b' = rw (← ap (from_some c) e) at b in (b', λ p q. absurd (omega arith))
    by_items (i ∷ is) (c ∷ cs) l e b =
        let b' = rw (← ap (from_some c) e) at b in
        let all = length-append (flat c) (i ∷ weave is cs) in (omega arith, λ p q. omega arith)

-- On a tree with a root, `Ascend` with an iterator that never stops visits the items of the first leaf
-- in order and no others; where the root has children, these are fewer than the items of the tree.
pub ascend_all-IsFirstLeaf :
    (t : BTree) (r : IsRoot t.cow t.degree t.root)
    → (s : List Item) × IsFirstLeaf r.level r.obj s
      × (ascend_all t (λ item. true) ≡ ok (rev_onto s []))
      × (1 ≤ r.level → length s < length (flat t.root))
unfolding walk_at
ascend_all-IsFirstLeaf t r =
    let o = r.obj in
    let high = IsObj-height t.cow t.degree r.level o r.shape in
    let (s, is_leaf, w) =
      ascend-IsVisit t.cow t.degree (height (ref o)) r.level o false [] (omega arith) r.shape in
    let less = (leaf_le t.cow t.degree r.level o s r.shape is_leaf).1 in
    let all : flat t.root ≡ contents o = ap flat r.here ∙ flat-ref o in
    (
      s,
      is_leaf,
      ap (walk_at (λ fuel. ascend fuel all_items)) r.here
          ∙ (rw (deref-ref o, w.ran) (ap ok w.order)),
      λ p. rw all (less p r.some_item),
    )
