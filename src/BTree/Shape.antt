-- ===== src/BTree/Shape.antt =====
-- The shape of a B-tree: all leaves on one level, and between `degree - 1` and `2 * degree - 1` items in
-- each node but the root.
use gocore.Common.{
  ℕ, zero, suc, ◌+◌, ◌-◌, ◌*◌, ◌≤◌, ◌<◌, ◌≡◌, refl, ap, true, false, List, [], ◌∷◌, ◌++◌, some,
  arith, ltb, leb, length, take, drop, get_elem?, All, length-take, length-drop, set_get,
}
use gocore.Common.Run.{ok}
use gocore.BTree.Items.{Item, truncate, slice_from}
use gocore.BTree.Node.{
  Node, NodeObj, kids, pack, ref, deref, new_node, mutable_for, mutable_child, split,
}
use gocore.BTree.Weave.{contents}
use gocore.BTree.Splice.{weave_cut, list_cut}

abbrev pub max_of : ℕ → ℕ
max_of degree = degree * 2 - 1

abbrev pub Fits : ℕ → NodeObj → Type 0
Fits degree o = (degree - 1 ≤ length o.items) × (length o.items ≤ max_of degree)

-- A node of height `h` that the context `c` owns, with all below it.
abbrev pub IsObj : ℕ → ℕ → ℕ → NodeObj → Type 0
IsObj c d zero o = (o.cow ≡ c) × (o.children ≡ [])
IsObj c d (suc h) o =
    (o.cow ≡ c)
    × (length o.children ≡ suc (length o.items))
    × All (λ k. (p : NodeObj) × (k ≡ ref p) × IsObj c d h p × Fits d p) o.children

abbrev pub IsChild : ℕ → ℕ → ℕ → Node → Type 0
IsChild c d h k = (p : NodeObj) × (k ≡ ref p) × IsObj c d h p × Fits d p

pub kids-pack : (cs : List Node) → kids (pack cs) ≡ cs
kids-pack [] = refl
kids-pack (c ∷ cs) = ap (◌∷◌ c) (kids-pack cs)

pub deref-ref : (o : NodeObj) → deref (ref o) ≡ ok o
unfolding deref
deref-ref o = rw (kids-pack o.children) refl

pub IsObj-cow : (c d h : ℕ) (o : NodeObj) → IsObj c d h o → o.cow ≡ c
IsObj-cow c d zero o s = s.0
IsObj-cow c d (suc h) o s = s.0

pub mutable_for-own : (p : NodeObj) (cow : ℕ) → p.cow ≡ cow → mutable_for (ref p) cow ≡ ok p
unfolding mutable_for
mutable_for-own p cow w = rw (deref-ref p) (ground arith)

-- A child of the same owner is changed in place.
pub mutable_child-own :
    (n : NodeObj) (i : ℕ) (p : NodeObj)
    → get_elem? n.children i ≡ some (ref p)
    → p.cow ≡ n.cow
    → mutable_child n i ≡ ok (n, p)
unfolding mutable_child
mutable_child-own n i p e w =
    rw (e, mutable_for-own p n.cow w)
      (λ j. ok (record n { children = set_get n.children i e j }, p))

take_suc_le : (i n : ℕ) → i ≤ n → leb i n ≡ true
take_suc_le i n h = ground arith

-- The parts that `split` returns.
abbrev pub left_part : NodeObj → ℕ → NodeObj
left_part n i = record n { items = take i n.items; children = take (suc i) n.children }

abbrev pub right_part : NodeObj → ℕ → NodeObj
right_part n i = record (new_node n.cow) {
  items = drop (suc i) n.items;
  children = drop (suc i) n.children;
}

pub split-inner :
    (n : NodeObj) (i : ℕ) {it : Item}
    → get_elem? n.items i ≡ some it
    → i < length n.items
    → length n.children ≡ suc (length n.items)
    → split n i ≡ ok (left_part n i, it, right_part n i)
unfolding split slice_from truncate
split-inner n i e h l =
    let next : i + 1 ≡ suc i = omega arith in
    let a = take_suc_le (suc i) (length n.items) h in
    let b = take_suc_le i (length n.items) (omega arith) in
    let c = take_suc_le (suc i) (length n.children) (omega arith) in
    let d : ltb 0 (length n.children) ≡ true = ground arith in rw (e, next, a, b, c, d) refl

pub split-leaf :
    (n : NodeObj) (i : ℕ) {it : Item}
    → get_elem? n.items i ≡ some it
    → i < length n.items
    → n.children ≡ []
    → split n i
      ≡ ok (
        record n { items = take i n.items },
        it,
        record (new_node n.cow) { items = drop (suc i) n.items },
      )
unfolding split slice_from truncate
split-leaf n i e h l =
    let next : i + 1 ≡ suc i = omega arith in
    let a = take_suc_le (suc i) (length n.items) h in
    let b = take_suc_le i (length n.items) (omega arith) in
    let d : ltb 0 (length n.children) ≡ false = rw l refl in rw (e, next, a, b, d) refl

-- What a split leaves: two nodes of the same height and owner, which hold all but the item between.
pub record IsSplit (c d h : ℕ) (n : NodeObj) (i : ℕ) (first : NodeObj) (it : Item)
    (second : NodeObj) : Type 0 where
  pub low : IsObj c d h first
  pub high : IsObj c d h second
  pub whole : contents n ≡ contents first ++ it ∷ contents second
  pub low_size : length first.items ≡ i
  pub high_size : length second.items + suc i ≡ length n.items

All-take : {A : Type 0} (P : A → Type 0) (i : ℕ) (s : List A) → All P s → All P (take i s)
All-take P zero s h = tt
All-take P (suc i) [] h = tt
All-take P (suc i) (x ∷ s) h = (h.0, All-take P i s h.1)

All-drop : {A : Type 0} (P : A → Type 0) (i : ℕ) (s : List A) → All P s → All P (drop i s)
All-drop P zero s h = h
All-drop P (suc i) [] h = tt
All-drop P (suc i) (x ∷ s) h = All-drop P i s h.1

-- A node with an item at `i` splits there, at any height.
pub split-IsSplit :
    (c d h : ℕ) (n : NodeObj) (i : ℕ) {it : Item}
    → IsObj c d h n
    → get_elem? n.items i ≡ some it
    → i < length n.items
    → (first : NodeObj) × (second : NodeObj) × (split n i ≡ ok (first, it, second))
      × IsSplit c d h n i first it second
split-IsSplit c d zero n i {it} s e p =
    let first = record n { items = take i n.items } in
    let second = record (new_node n.cow) { items = drop (suc i) n.items } in
    (
      first,
      second,
      split-leaf n i e p s.1,
      record {
        low = s;
        high = (s.0, refl);
        whole = rw s.1 (list_cut n.items i e);
        low_size = omega (arith, length-take i n.items);
        high_size = omega (arith, length-drop (suc i) n.items);
      },
    )
split-IsSplit c d (suc h) n i {it} s e p = (
  left_part n i,
  right_part n i,
  split-inner n i e p s.1,
  record {
    low = (
      s.0,
      omega (arith, s.1, length-take (suc i) n.children, length-take i n.items),
      All-take (IsChild c d h) (suc i) n.children s.2,
    );
    high = (
      s.0,
      omega (arith, s.1, length-drop (suc i) n.children, length-drop (suc i) n.items),
      All-drop (IsChild c d h) (suc i) n.children s.2,
    );
    whole = weave_cut n.items n.children i e s.1;
    low_size = omega (arith, length-take i n.items);
    high_size = omega (arith, length-drop (suc i) n.items);
  },
)
