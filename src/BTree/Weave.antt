-- ===== src/BTree/Weave.antt =====
-- The items of a node in order: those of the children between the node's own.
use gocore.Common.{
  ℕ, zero, suc, ◌<◌, ◌≡◌, refl, sym, ap, ◌∙◌, true, false, List, [], ◌∷◌, ◌++◌, none, some, arith,
  length, set, get_elem?, All, Bool-cases, inl, inr, from_some,
}
use gocore.Common.Run.{ok}
use gocore.BTree.Items.{Item, less, insert_at}
use gocore.BTree.Node.{Node, Children, NodeObj, null, node, nil, cons, pack, ref}
use gocore.BTree.Order.{
  Below, IsSorted, put, get_item, All-append_right, IsSorted-append_left, IsSorted-append_right,
  Below-of_middle, put-append_low, put-append_high, get_item-append_low, get_item-append_high,
}
use gocore.BTree.Find.{scan}

unfoldable mutual
  pub flat : Node → List Item
  flat null = []
  flat (node is cs c) = flat_between cs is

  pub flat_between : Children → List Item → List Item
  flat_between nil is = is
  flat_between (cons c cs) [] = flat c
  flat_between (cons c cs) (i ∷ is) = flat c ++ i ∷ flat_between cs is

abbrev pub weave : List Item → List Node → List Item
weave is [] = is
weave [] (c ∷ cs) = flat c
weave (i ∷ is) (c ∷ cs) = flat c ++ i ∷ weave is cs

abbrev pub contents : NodeObj → List Item
contents o = weave o.items o.children

flat_between-pack : (cs : List Node) (is : List Item) → flat_between (pack cs) is ≡ weave is cs
unfolding flat
flat_between-pack [] is = refl
flat_between-pack (c ∷ cs) [] = refl
flat_between-pack (c ∷ cs) (i ∷ is) = ap (λ r. flat c ++ i ∷ r) (flat_between-pack cs is)

pub flat-ref : (o : NodeObj) → flat (ref o) ≡ contents o
unfolding flat
flat-ref o = flat_between-pack o.children o.items

All-weave_items :
    (P : Item → Type 0) (is : List Item) (cs : List Node) → All P (weave is cs) → All P is
All-weave_items P is [] h = h
All-weave_items P [] (c ∷ cs) h = tt
All-weave_items P (i ∷ is) (c ∷ cs) h =
    let r = All-append_right P (flat c) (i ∷ weave is cs) h in (r.0, All-weave_items P is cs r.1)

-- The items of a node of a sorted tree are sorted.
pub items-IsSorted : (is : List Item) (cs : List Node) → IsSorted (weave is cs) → IsSorted is
items-IsSorted is [] h = h
items-IsSorted [] (c ∷ cs) h = tt
items-IsSorted (i ∷ is) (c ∷ cs) h =
    let r = IsSorted-append_right (flat c) (i ∷ weave is cs) h in
    (All-weave_items (λ y. i.rank < y.rank) is cs r.0, items-IsSorted is cs r.1)

pub child-IsSorted :
    (is : List Item) (cs : List Node) (i : ℕ) {c : Node}
    → length cs ≡ suc (length is)
    → get_elem? cs i ≡ some c
    → IsSorted (weave is cs)
    → IsSorted (flat c)
child-IsSorted is [] i l e h = cc
child-IsSorted [] (c ∷ cs) zero l e h = rw (← ap (from_some c) e) h
child-IsSorted [] (c ∷ []) (suc i) l e h = cc
child-IsSorted [] (c ∷ b ∷ cs) (suc i) l e h = absurd (omega arith)
child-IsSorted (y ∷ is) (c ∷ cs) zero l e h =
    rw (← ap (from_some c) e) (IsSorted-append_left (flat c) (y ∷ weave is cs) h)
child-IsSorted (y ∷ is) (c ∷ cs) (suc i) l e h =
    child-IsSorted is cs i (omega arith) e (IsSorted-append_right (flat c) (y ∷ weave is cs) h).1

-- Below the slot that `scan` finds, everything is lower than `x`.
low_part :
    (x y : Item) (c : Node) (w : List Item)
    → IsSorted (flat c ++ y ∷ w)
    → less x y ≡ false
    → Below x (flat c)
low_part x y c w h e = lower (flat c) (Below-of_middle (flat c) y w h)
  where
    lower : (s : List Item) → Below y s → Below x s
    lower [] b = tt
    lower (z ∷ s) b = (ground arith, lower s b.1)

-- A put into the child that `scan` finds is a put into the whole.
pub put-weave :
    (is : List Item) (cs : List Node) (x : Item) {c : Node} (c' : Node)
    → IsSorted (weave is cs)
    → (scan is x).1 ≡ false
    → get_elem? cs (scan is x).0 ≡ some c
    → flat c' ≡ put x (flat c)
    → weave is (set cs (scan is x).0 c') ≡ put x (weave is cs)
put-weave is [] x c' h f e p = cc
put-weave [] (c ∷ cs) x c' h f e p = cc
put-weave (y ∷ is) (c ∷ cs) x c' h f e p = elim (Bool-cases (less y x)) [
  | inl high ↦ rw high (
      ap (λ r. flat c ++ y ∷ r)
        (put-weave is cs x c' (IsSorted-append_right (flat c) (y ∷ weave is cs) h).1 (ground arith)
          (rw high at e) p)
      ∙ sym (
          put-append_low x (flat c) (y ∷ weave is cs)
            (low_part x y c (weave is cs) h (ground arith))
          ∙ ap (λ r. flat c ++ r) (ground arith)))
  | inr low ↦
      rw low
        (let here = rw low at e in cc (put-append_high x y (flat c) (weave is cs) (ground arith)))
]

-- A look at the child that `scan` finds is a look at the whole.
pub get_item-weave :
    (is : List Item) (cs : List Node) (x : Item) {c : Node}
    → IsSorted (weave is cs)
    → (scan is x).1 ≡ false
    → get_elem? cs (scan is x).0 ≡ some c
    → get_item x (weave is cs) ≡ get_item x (flat c)
get_item-weave is [] x h f e = cc
get_item-weave [] (c ∷ cs) x h f e = cc
get_item-weave (y ∷ is) (c ∷ cs) x h f e = elim (Bool-cases (less y x)) [
  | inl high ↦
      get_item-append_low x (flat c) (y ∷ weave is cs)
        (low_part x y c (weave is cs) h (ground arith))
      ∙ (rw high (
          let low : less x y ≡ false = ground arith in
          rw low (
            get_item-weave is cs x (IsSorted-append_right (flat c) (y ∷ weave is cs) h).1
              (ground arith) (rw high at e))))
  | inr low ↦
      let here = rw low at e in cc (get_item-append_high x y (flat c) (weave is cs) (ground arith))
]

-- The item of the same rank is replaced where `scan` finds it.
pub set-weave :
    (is : List Item) (cs : List Node) (x : Item)
    → IsSorted (weave is cs)
    → (scan is x).1 ≡ true
    → (out : Item) × (get_elem? is (scan is x).0 ≡ some out)
      × (weave (set is (scan is x).0 x) cs ≡ put x (weave is cs))
      × (get_item x (weave is cs) ≡ some out)
set-weave [] cs x h f = cc
set-weave (y ∷ is) [] x h f = elim (Bool-cases (less y x)) [
  | inl high ↦
      let r = set-weave is [] x h.1 (ground arith) in
      (r.0, ground arith, ground arith, ground arith)
  | inr low ↦ (y, ground arith, ground arith, ground arith)
]
set-weave (y ∷ is) (c ∷ cs) x h f =
    let w = weave is cs in
    let pass = low_part x y c w h in
    elim (Bool-cases (less y x)) [
      | inl high ↦
          let r = set-weave is cs x (IsSorted-append_right (flat c) (y ∷ w) h).1 (ground arith) in
          let b = pass (ground arith) in
          (
            r.0,
            ground arith,
            rw high (ground (arith, put-append_low x (flat c) (y ∷ w) b)),
            ground (arith, get_item-append_low x (flat c) (y ∷ w) b),
          )
      | inr low ↦
          let b = pass (ground arith) in
          (
            y,
            ground arith,
            rw low (ground (arith, put-append_low x (flat c) (y ∷ w) b)),
            ground (arith, get_item-append_low x (flat c) (y ∷ w) b),
          )
    ]

-- In a leaf the item goes where `scan` says.
pub insert_at-scan :
    (is : List Item) (x : Item)
    → (scan is x).1 ≡ false
    → (insert_at is (scan is x).0 x ≡ ok (put x is)) × (get_item x is ≡ none)
unfolding insert_at
insert_at-scan [] x f = (refl, refl)
insert_at-scan (y ∷ is) x f = ground (arith, insert_at-scan is x)
