-- ===== src/BTree/Copies.antt =====
-- Two ways to a run-time panic: the copy of a foreign node has nil children, and an empty root is
-- replaced by a first child that it need not have.
use gocore.Common.{
  ℕ, zero, suc, ◌+◌, ◌*◌, ◌≤◌, ◌<◌, ◌≡◌, ◌≢◌, refl, sym, ap, ◌∙◌, true, false, [], ◌∷◌, none, some,
  arith, ltb, ◌==◌, length, replicate, get_elem?, length-replicate,
}
use gocore.Common.Run.{ok, panic}
use gocore.BTree.Items.{Item, find, remove_at, pop}
use gocore.BTree.Node.{NodeObj, null, ref, deref, new_node, mutable_for, maybe_split_child}
use gocore.BTree.Insert.{insert_step, insert}
use gocore.BTree.Order.{IsSorted}
use gocore.BTree.Find.{scan, find-scan}
use gocore.BTree.Weave.{items-IsSorted, flat, flat-ref}
use gocore.BTree.Splice.{scan_le}
use gocore.BTree.Shape.{max_of, IsObj, deref-ref, IsObj-cow, mutable_for-own}
use gocore.BTree.Tree.{BTree, clone, height, grow_root, replace_or_insert_at, replace_or_insert}
use gocore.BTree.Valid.{IsRoot}
use gocore.BTree.Remove.{
  find_item, remove_step, remove, shrink_root, delete_at, delete_item, delete, delete_min,
  delete_max, remove_item, remove_min, remove_max,
}

-- The copy of `o` for the context `c`.
abbrev copy : NodeObj → ℕ → NodeObj
copy o c = record (new_node c) { items = o.items; children = replicate (length o.children) null }

mutable_for-foreign : (o : NodeObj) (c : ℕ) → o.cow ≢ c → mutable_for (ref o) c ≡ ok (copy o c)
unfolding mutable_for
mutable_for-foreign o c ne =
    let other : (o.cow == c) ≡ false = ground arith in rw (deref-ref o, other) refl

get_elem?-replicate : (n i : ℕ) → i < n → get_elem? (replicate n null) i ≡ some null
get_elem?-replicate zero i h = elim h [ ]
get_elem?-replicate (suc n) zero h = refl
get_elem?-replicate (suc n) (suc i) h = get_elem?-replicate n i (omega arith)

nil_child :
    (n : NodeObj) (i m : ℕ) → get_elem? n.children i ≡ some null → maybe_split_child n i m ≡ panic
unfolding maybe_split_child deref
nil_child n i m e = rw e refl

copy-insert :
    (fuel : ℕ) (o : NodeObj) (x : Item) (c m : ℕ)
    → IsSorted o.items
    → (scan o.items x).1 ≡ false
    → length o.children ≡ suc (length o.items)
    → 1 ≤ fuel
    → insert fuel (copy o c) x m ≡ panic
unfolding insert insert_step
copy-insert zero o x c m sorted absent l f = elim f [ ]
copy-insert (suc fuel) o x c m sorted absent l f =
    let i = (scan o.items x).0 in
    let within = scan_le o.items x in
    let some_child : (length (replicate (length o.children) null) == 0) ≡ false =
      rw (length-replicate (length o.children) null) (ground arith) in
    let nil_there = get_elem?-replicate (length o.children) i (omega arith) in
    rw (find-scan o.items x sorted, absent, some_child, nil_child (copy o c) i m nil_there) refl

-- After `Clone` of a tree of at least two levels whose root is not full, `ReplaceOrInsert` on the clone
-- of an item whose rank the root does not hold panics.
pub clone-insert_panics :
    (t : BTree) (x : Item) (c1 c2 : ℕ) (r : IsRoot t.cow t.degree t.root)
    → IsSorted (flat t.root)
    → 1 ≤ r.level
    → length r.obj.items < max_of t.degree
    → (scan r.obj.items x).1 ≡ false
    → t.cow ≢ c2
    → replace_or_insert (clone t c1 c2).1 (some x) ≡ panic
unfolding replace_or_insert clone replace_or_insert_at grow_root
clone-insert_panics t x c1 c2 r sorted level small absent ne = by_level r.level r.shape level
  where
    o : NodeObj
    o = r.obj

    foreign : o.cow ≢ c2
    foreign e = ne (sym (IsObj-cow t.cow t.degree r.level o r.shape) ∙ e)

    ordered : IsSorted o.items
    ordered = items-IsSorted o.items o.children (rw (ap flat r.here ∙ flat-ref o) at sorted)

    fits : ltb (length o.items) (max_of t.degree) ≡ true
    fits = ground arith

    by_level :
        (h : ℕ)
        → IsObj t.cow t.degree h o
        → 1 ≤ h
        → replace_or_insert_at (record t { cow = c2 }) t.root x ≡ panic
    by_level zero s p = absurd (omega arith)
    by_level (suc h) s p =
        ap (λ n. replace_or_insert_at (record t { cow = c2 }) n x) r.here
        ∙ rw (
          mutable_for-foreign o c2 foreign,
          fits,
          copy-insert (height (ref o) + 1) o x c2 (max_of t.degree) ordered absent s.1
              (omega arith),
        )

-- Where the root is a leaf of one item, `DeleteMin`, `DeleteMax` and `Delete` of an item of its rank
-- panic.
pub delete_last-panics :
    (t : BTree) (x y : Item)
    → t.root ≡ ref (record { items = y ∷ []; children = []; cow = t.cow })
    → x.rank ≡ y.rank
    → (delete_min t ≡ panic) × (delete_max t ≡ panic) × (delete t (some x) ≡ panic)
unfolding delete_item delete_at remove remove_step find_item shrink_root remove_at pop
delete_last-panics t x y here same = (
  ap (λ n. delete_at t n none remove_min) here ∙ rw (own, fuel) refl,
  ap (λ n. delete_at t n none remove_max) here ∙ rw (own, fuel) refl,
  ap (λ n. delete_at t n (some x) remove_item) here ∙ rw (own, fuel) (rw found refl),
)
  where
    o : NodeObj
    o = record { items = y ∷ []; children = []; cow = t.cow }

    own : mutable_for (ref o) t.cow ≡ ok o
    own = mutable_for-own o t.cow refl

    fuel : 2 * height (ref o) + 2 ≡ suc (suc (2 * height (ref o)))
    fuel = omega arith

    found : find (y ∷ []) x ≡ (0, true)
    found = find-scan (y ∷ []) x (tt, tt) ∙ ground arith
