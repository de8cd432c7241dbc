-- ===== src/BTree/Remove.antt =====
-- B-Tree/btree.go: `node.remove`, `growChildAndRemove` and the deletions of `BTree`. `none` stands for a
-- nil item.
use gocore.Common.{
  ℕ, zero, suc, ◌+◌, ◌-◌, ◌*◌, Bool, false, List, [], ◌∷◌, ◌++◌, ltb, leb, ◌==◌, if◌then◌else◌,
  length, set, Option, none, some,
}
use gocore.Common.Run.{Run, ok, panic, out_of_fuel, ◌>>=◌}
use gocore.Common.Arrays.{load}
use gocore.BTree.Items.{Item, find, insert_at, remove_at, pop}
use gocore.BTree.Node.{Node, null, node, NodeObj, ref, deref, mutable_for, mutable_child}
use gocore.BTree.Tree.{BTree, min_items, height}

pub data ToRemove : Type 0 where
  remove_item remove_min remove_max : ToRemove

abbrev pub Removal : Type 0
Removal = Run (NodeObj × Option Item)

-- `n.items.find(item)`; a nil item has no `Less`, so it is only found to be absent from no items.
unfoldable pub find_item : List Item → Option Item → Run (ℕ × Bool)
find_item s (some item) = ok (find s item)
find_item [] none = ok (0, false)
find_item (x ∷ s) none = panic

-- The length of the items of the child at `i`.
unfoldable pub child_size : NodeObj → ℕ → Run ℕ
child_size n i = do pointer ← load n.children i; c ← deref pointer; ok (length c.items)

-- `stealFrom.items.pop()` and, where it has children, `stealFrom.children.pop()` to the front of `child`.
unfoldable pub steal_left : NodeObj → ℕ → Run NodeObj
steal_left n i = do
  (n1, child) ← mutable_child n i
  (n2, steal_from) ← mutable_child n1 (i - 1)
  (stolen_item, rest) ← pop steal_from.items
  between ← load n2.items (i - 1)
  items ← insert_at child.items 0 between
  let last_child : Run (NodeObj × NodeObj) = do
    (moved, others) ← pop steal_from.children
    children ← insert_at child.children 0 moved
    ok (
      record child { items = items; children = children },
      record steal_from { items = rest; children = others },
    )
  (child', from') ←
      if ltb 0 (length steal_from.children)
      then last_child
      else ok (record child { items = items }, record steal_from { items = rest })
  ok (record n2 {
    items = set n2.items (i - 1) stolen_item;
    children = set (set n2.children i (ref child')) (i - 1) (ref from');
  })

unfoldable pub steal_right : NodeObj → ℕ → Run NodeObj
steal_right n i = do
  (n1, child) ← mutable_child n i
  (n2, steal_from) ← mutable_child n1 (i + 1)
  (stolen_item, rest) ← remove_at steal_from.items 0
  between ← load n2.items i
  let items = child.items ++ between ∷ []
  let first_child : Run (NodeObj × NodeObj) = do
    (moved, others) ← remove_at steal_from.children 0
    ok (
      record child { items = items; children = child.children ++ moved ∷ [] },
      record steal_from { items = rest; children = others },
    )
  (child', from') ←
      if ltb 0 (length steal_from.children)
      then first_child
      else ok (record child { items = items }, record steal_from { items = rest })
  ok (record n2 {
    items = set n2.items i stolen_item;
    children = set (set n2.children i (ref child')) (i + 1) (ref from');
  })

-- The child at `i` takes the item behind it and all of the next child.
unfoldable pub merge : NodeObj → ℕ → Run NodeObj
merge n i = do
  (n1, child) ← mutable_child n i
  (merge_item, items) ← remove_at n1.items i
  (pointer, children) ← remove_at n1.children (i + 1)
  merge_child ← deref pointer
  ok (record n1 {
    items = items;
    children = set children i (
        ref (record child {
          items = child.items ++ merge_item ∷ merge_child.items;
          children = child.children ++ merge_child.children;
        }));
  })

-- `growChildAndRemove` up to its last line, the call of `remove`.
unfoldable pub grow_child : NodeObj → ℕ → ℕ → Run NodeObj
grow_child n i min_items =
    let merged = merge n (if leb (length n.items) i then i - 1 else i) in
    let right : Run NodeObj = do
      size ← child_size n (i + 1)
      if ltb min_items size then steal_right n i else merged
    in let others = if ltb i (length n.items) then right else merged in
      let left : Run NodeObj = do
        size ← child_size n (i - 1)
        if ltb min_items size then steal_left n i else others
      in if ltb 0 i then left else others

-- `n.items[i] = child.remove(nil, minItems, removeMax)`, which is never nil.
unfoldable pub replace_found : NodeObj → ℕ → NodeObj → NodeObj × Option Item → Removal
replace_found n i child (child', none) = panic
replace_found n i child (child', some item) = do
  out ← load n.items i
  ok (record n { items = set n.items i item; children = set n.children i (ref child') }, some out)

-- `rec` is the call of `remove`, on a child or again on the node.
unfoldable pub remove_below :
    (NodeObj → Option Item → ToRemove → Removal)
    → NodeObj
    → ℕ
    → Bool
    → Option Item
    → ℕ
    → ToRemove
    → Removal
remove_below rec n i found item min_items typ = do
  size ← child_size n i
  let grown : Removal = grow_child n i min_items >>= λ n'. rec n' item typ
  let descend : Removal = do
    (n', child) ← mutable_child n i
    let inner : Removal = do
      (child', out) ← rec child item typ
      ok (record n' { children = set n'.children i (ref child') }, out)
    if found then (rec child none remove_max >>= replace_found n' i child) else inner
  if leb size min_items then grown else descend

abbrev pub taken : NodeObj → Run (Item × List Item) → Removal
taken n r = r >>= λ (item, rest). ok (record n { items = rest }, some item)

unfoldable pub remove_step :
    (NodeObj → Option Item → ToRemove → Removal) → NodeObj → Option Item → ℕ → ToRemove → Removal
remove_step rec n item min_items remove_max =
    if length n.children == 0
    then taken n (pop n.items)
    else remove_below rec n (length n.items) false item min_items remove_max
remove_step rec n item min_items remove_min =
    if length n.children == 0
    then taken n (remove_at n.items 0)
    else remove_below rec n 0 false item min_items remove_min
remove_step rec n item min_items remove_item = do
  (i, found) ← find_item n.items item
  if length n.children == 0
      then (if found then taken n (remove_at n.items i) else ok (n, none))
      else remove_below rec n i found item min_items remove_item

-- A call goes down, or once more to the same node when the child has grown.
unfoldable pub remove : ℕ → NodeObj → Option Item → ℕ → ToRemove → Removal
remove zero n item min_items typ = out_of_fuel
remove (suc fuel) n item min_items typ =
    remove_step (λ p x t. remove fuel p x min_items t) n item min_items typ

abbrev pub count_gone : Option Item → ℕ → ℕ
count_gone none n = n
count_gone (some out) n = n - 1

-- `len(t.root.children) >= 0` holds always: an empty root is replaced by its first child.
unfoldable pub shrink_root : NodeObj → Run Node
shrink_root root = if length root.items == 0 then load root.children 0 else ok (ref root)

unfoldable pub delete_at : BTree → Node → Option Item → ToRemove → Run (BTree × Option Item)
delete_at t null item typ = ok (t, none)
delete_at t (node is cs c) item typ =
    let rest : Run (BTree × Option Item) = do
      root ← mutable_for (node is cs c) t.cow
      (root', out) ← remove (2 * height (node is cs c) + 2) root item (min_items t) typ
      shrunk ← shrink_root root'
      ok (record t { root = shrunk; length = count_gone out t.length }, out)
    in if length is == 0 then ok (t, none) else rest

unfoldable pub delete_item : BTree → Option Item → ToRemove → Run (BTree × Option Item)
delete_item t item typ = delete_at t t.root item typ

abbrev pub delete : BTree → Option Item → Run (BTree × Option Item)
delete t item = delete_item t item remove_item

abbrev pub delete_min : BTree → Run (BTree × Option Item)
delete_min t = delete_item t none remove_min

abbrev pub delete_max : BTree → Run (BTree × Option Item)
delete_max t = delete_item t none remove_max
