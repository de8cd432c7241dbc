-- ===== src/BTree/Insert.antt =====
-- B-Tree/btree.go: `node.insert`.
use gocore.Common.{ℕ, zero, suc, ◌+◌, ◌==◌, if◌then◌else◌, length, set, Option, none, some}
use gocore.Common.Run.{Run, ok, out_of_fuel, ◌>>=◌}
use gocore.Common.Arrays.{load}
use gocore.BTree.Items.{Item, less, find, insert_at}
use gocore.BTree.Node.{NodeObj, ref, mutable_child, maybe_split_child}

-- `n.items[i] = item`, with the item that stood there.
unfoldable pub replace_at : NodeObj → ℕ → Item → Run (NodeObj × Option Item)
replace_at n i item = do
  out ← load n.items i
  ok (record n { items = set n.items i item }, some out)

-- `n.mutableChild(i).insert(...)`, where `rec` is the call on the child.
unfoldable pub descend :
    (NodeObj → Run (NodeObj × Option Item)) → NodeObj → ℕ → Run (NodeObj × Option Item)
descend rec n i = do
  (n', child) ← mutable_child n i
  (child', out) ← rec child
  ok (record n' { children = set n'.children i (ref child') }, out)

-- After the split of the child at `i`: the new item at `i` decides between the two halves.
unfoldable pub choose_half :
    (NodeObj → Run (NodeObj × Option Item)) → NodeObj → ℕ → Item → Run (NodeObj × Option Item)
choose_half rec n i item = do
  in_tree ← load n.items i
  if less item in_tree
      then descend rec n i
      else if less in_tree item
      then descend rec n (i + 1)
      else replace_at n i item

unfoldable pub insert_step :
    (NodeObj → Run (NodeObj × Option Item)) → NodeObj → Item → ℕ → Run (NodeObj × Option Item)
insert_step rec n item max_items =
    let (i, found) = find n.items item in
    let leaf : Run (NodeObj × Option Item) = do
      items ← insert_at n.items i item
      ok (record n { items = items }, none)
    in let inner : Run (NodeObj × Option Item) = do
      (n', was_split) ← maybe_split_child n i max_items
      if was_split then choose_half rec n' i item else descend rec n' i
      in if found then replace_at n i item else if length n.children == 0 then leaf else inner

-- Each call goes one level down, so that fuel above the height is enough.
unfoldable pub insert : ℕ → NodeObj → Item → ℕ → Run (NodeObj × Option Item)
insert zero n item max_items = out_of_fuel
insert (suc fuel) n item max_items =
    insert_step (λ child. insert fuel child item max_items) n item max_items
