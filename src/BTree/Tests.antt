-- ===== src/BTree/Tests.antt =====
-- A tree of degree 2 on two levels, and the theorems of the B-tree at it.
use gocore.Common.{ℕ, ◌*◌, ◌≤◌, ◌<◌, ◌≡◌, refl, inr, true, List, [], ◌∷◌, some, arith, length}
use gocore.Common.Run.{Run, ok, panic, Returns, ◌>>=◌}
use gocore.BTree.Items.{
  Item, search_loop, search, find, insert_at, remove_at, pop, truncate, slice_from,
}
use gocore.BTree.Node.{
  Node, NodeObj, ref, deref, mutable_for, mutable_child, split, maybe_split_child,
}
use gocore.BTree.Insert.{replace_at, descend, choose_half, insert_step, insert}
use gocore.BTree.Order.{IsSorted, get_item}
use gocore.BTree.Weave.{flat, contents}
use gocore.BTree.Shape.{max_of, IsObj}
use gocore.BTree.Insertion.{Inserted}
use gocore.BTree.Put.{insert-Inserted}
use gocore.BTree.Tree.{
  BTree, new, clone, height, grow_root, replace_or_insert_at, replace_or_insert, get,
}
use gocore.BTree.Valid.{IsRoot, IsValid, Replaced, replace_or_insert-IsValid}
use gocore.BTree.Lookup.{get-eq}
use gocore.BTree.FreeList.{new_free_list, clean, take_node, IsClean, take_node-IsClean}
use gocore.BTree.Iterate.{ascend_all}
use gocore.BTree.Walks.{IsFirstLeaf, rev_onto, ascend_all-IsFirstLeaf}
use gocore.BTree.Copies.{clone-insert_panics, delete_last-panics}
use gocore.BTree.Remove.{
  delete, delete_min, delete_max, delete_item, delete_at, remove, remove_step, remove_below,
  find_item, child_size, grow_child, merge, steal_left, steal_right, shrink_root, replace_found,
}

abbrev item : ℕ → Item
item k = record { rank = k; payload = 10 * k }

abbrev leaf : ℕ → NodeObj
leaf k = record { items = item k ∷ []; children = []; cow = 0 }

abbrev top : NodeObj
top = record { items = item 2 ∷ []; children = ref (leaf 1) ∷ ref (leaf 3) ∷ []; cow = 0 }

abbrev sample : BTree
sample = record { degree = 2; length = 3; root = ref top; cow = 0 }

-- Four calls and a deletion make the sample.
sample_made : Run Node
unfolding new replace_or_insert replace_or_insert_at grow_root insert insert_step find search
    search_loop insert_at replace_at descend choose_half mutable_child mutable_for deref split
    maybe_split_child slice_from truncate height delete_item delete_at remove remove_step
    remove_below find_item child_size grow_child merge steal_left steal_right shrink_root
    replace_found remove_at pop
sample_made = do
  t0 ← new 2 0
  (t1, a) ← replace_or_insert t0 (some (item 1))
  (t2, b) ← replace_or_insert t1 (some (item 2))
  (t3, c) ← replace_or_insert t2 (some (item 3))
  (t4, d) ← replace_or_insert t3 (some (item 4))
  (t5, e) ← delete t4 (some (item 4))
  ok t5.root

sample_made_as : sample_made ≡ ok (ref top)
unfolding sample_made
sample_made_as = refl

top-shape : IsObj 0 2 1 top
top-shape = (
  refl,
  refl,
  ((leaf 1, refl, (refl, refl), omega arith), ((leaf 3, refl, (refl, refl), omega arith), tt)),
)

top-IsSorted : IsSorted (contents top)
unfolding flat
top-IsSorted = omega arith

abbrev sample-root : IsRoot 0 2 sample.root
sample-root = record {
  obj = top;
  level = 1;
  here = refl;
  shape = top-shape;
  some_item = omega arith;
  fits = omega arith;
}

sample-IsSorted : IsSorted (flat sample.root)
unfolding flat
sample-IsSorted = omega arith

sample-IsValid : IsValid sample
unfolding flat
sample-IsValid = record {
  degree = omega arith;
  counted = refl;
  sorted = sample-IsSorted;
  rooted = inr sample-root;
}

abbrev three_items : List Item
three_items = item 1 ∷ item 4 ∷ item 6 ∷ []

find_four : find three_items (item 4) ≡ (1, true)
unfolding find search search_loop
find_four = refl

insert-Inserted_example : Returns (Inserted 1 0 2 1 (item 4) top) (insert 2 top (item 4) (max_of 2))
insert-Inserted_example =
    insert-Inserted 0 2 1 2 (item 4) top (omega arith) (omega arith)
      (record { shape = top-shape; sorted = top-IsSorted; room = omega arith })

replace_or_insert-IsValid_example :
    Returns (Replaced (flat sample.root) (item 5)) (replace_or_insert sample (some (item 5)))
replace_or_insert-IsValid_example = replace_or_insert-IsValid sample (item 5) sample-IsValid

get-eq_example : get sample (item 3) ≡ ok (get_item (item 3) (flat sample.root))
get-eq_example = get-eq sample (item 3) sample-IsValid

ascend_all-IsFirstLeaf_example :
    (s : List Item) × IsFirstLeaf 1 top s
    × (ascend_all sample (λ i. true) ≡ ok (rev_onto s []))
    × (1 ≤ 1 → length s < length (flat sample.root))
ascend_all-IsFirstLeaf_example = ascend_all-IsFirstLeaf sample sample-root

clone-insert_panics_example : replace_or_insert (clone sample 1 2).1 (some (item 5)) ≡ panic
unfolding flat
clone-insert_panics_example =
    clone-insert_panics sample (item 5) 1 2 sample-root sample-IsSorted (omega arith) (omega arith)
      refl (omega arith)

abbrev single : BTree
single = record { degree = 2; length = 1; root = ref (leaf 7); cow = 0 }

delete_last-panics_example :
    (delete_min single ≡ panic)
    × (delete_max single ≡ panic)
    × (delete single (some (item 7)) ≡ panic)
delete_last-panics_example = delete_last-panics single (item 7) (item 7) refl refl

take_node-IsClean_example :
    ((take_node (new_free_list 4)).1 ≡ clean) × IsClean (take_node (new_free_list 4)).0
take_node-IsClean_example =
    take_node-IsClean (new_free_list 4) (record { empty = tt; fits = omega arith })
