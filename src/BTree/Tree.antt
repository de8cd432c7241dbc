-- ===== src/BTree/Tree.antt =====
-- B-Tree/btree.go: `BTree` and the operations that insert and look up. `length` counts in ℕ: an `int`
-- cannot overflow by counting nodes in memory.
use gocore.Common.{
  ℕ, zero, suc, ◌+◌, ◌-◌, ◌*◌, ◌/◌, Bool, true, false, [], ◌∷◌, ltb, ◌==◌, if◌then◌else◌, length,
  Option, none, some,
}
use gocore.Common.Run.{Run, ok, panic, out_of_fuel, ◌>>=◌}
use gocore.Common.Arrays.{load}
use gocore.BTree.Items.{Item, find}
use gocore.BTree.Node.{
  Node, Children, null, node, nil, cons, NodeObj, ref, deref, new_node, mutable_for, split,
}
use gocore.BTree.Insert.{insert}

pub record BTree : Type 0 where
  pub degree : ℕ
  pub length : ℕ
  pub root : Node
  pub cow : ℕ

-- `New(degree)`; `cow` names the context that is made for the tree.
unfoldable pub new : ℕ → ℕ → Run BTree
new degree cow =
    if ltb 1 degree
    then ok (record { degree = degree; length = 0; root = null; cow = cow })
    else panic

-- Both trees get a context of their own, and share the nodes, which neither owns any more.
unfoldable pub clone : BTree → ℕ → ℕ → BTree × BTree
clone t cow1 cow2 = (record t { cow = cow1 }, record t { cow = cow2 })

abbrev pub max_items : BTree → ℕ
max_items t = t.degree * 2 - 1

abbrev pub min_items : BTree → ℕ
min_items t = t.degree - 1

-- The number of nodes on the way down the first children.
unfoldable mutual
  pub height : Node → ℕ
  height null = 0
  height (node is cs c) = suc (height_first cs)

  pub height_first : Children → ℕ
  height_first nil = 0
  height_first (cons c cs) = height c

-- A full root is cut in two below a new one.
unfoldable pub grow_root : BTree → NodeObj → Run NodeObj
grow_root t root =
    let halves : Run NodeObj = do
      (old_root, item, second) ← split root (max_items t / 2)
      ok (record (new_node t.cow) { items = item ∷ []; children = ref old_root ∷ ref second ∷ [] })
    in if ltb (length root.items) (max_items t) then ok root else halves

abbrev pub count_new : Option Item → ℕ → ℕ
count_new none n = n + 1
count_new (some out) n = n

unfoldable pub replace_or_insert_at : BTree → Node → Item → Run (BTree × Option Item)
replace_or_insert_at t null item = ok (
  record t { root = ref (record (new_node t.cow) { items = item ∷ [] }); length = t.length + 1 },
  none,
)
replace_or_insert_at t (node is cs c) item = do
  own ← mutable_for (node is cs c) t.cow
  root ← grow_root t own
  (root', out) ← insert (height (node is cs c) + 1) root item (max_items t)
  ok (record t { root = ref root'; length = count_new out t.length }, out)

-- `none` stands for a nil item.
unfoldable pub replace_or_insert : BTree → Option Item → Run (BTree × Option Item)
replace_or_insert t none = panic
replace_or_insert t (some item) = replace_or_insert_at t t.root item

-- `node.get`: one level down with each call.
unfoldable pub get_node : ℕ → NodeObj → Item → Run (Option Item)
get_node zero n key = out_of_fuel
get_node (suc fuel) n key =
    let (i, found) = find n.items key in
    let here : Run (Option Item) = (do item ← load n.items i; ok (some item)) in
    let below : Run (Option Item) = do
      pointer ← load n.children i
      child ← deref pointer
      get_node fuel child key
    in if found then here else if ltb 0 (length n.children) then below else ok none

unfoldable pub get_at : Node → Item → Run (Option Item)
get_at null key = ok none
get_at (node is cs c) key = do n ← deref (node is cs c); get_node (height (node is cs c)) n key

unfoldable pub get : BTree → Item → Run (Option Item)
get t key = get_at t.root key

abbrev is_some : Option Item → Bool
is_some none = false
is_some (some x) = true

unfoldable pub has : BTree → Item → Run Bool
has t key = do found ← get t key; ok (is_some found)

abbrev pub len : BTree → ℕ
len t = t.length

-- `min`: down the first children.
unfoldable pub min_node : ℕ → NodeObj → Run (Option Item)
min_node zero n = out_of_fuel
min_node (suc fuel) n =
    let below : Run (Option Item) = do
      pointer ← load n.children 0
      child ← deref pointer
      min_node fuel child
    in let here : Run (Option Item) = (do item ← load n.items 0; ok (some item)) in
      if ltb 0 (length n.children) then below else if length n.items == 0 then ok none else here

-- `max`: down the last children.
unfoldable pub max_node : ℕ → NodeObj → Run (Option Item)
max_node zero n = out_of_fuel
max_node (suc fuel) n =
    let below : Run (Option Item) = do
      pointer ← load n.children (length n.children - 1)
      child ← deref pointer
      max_node fuel child
    in let here : Run (Option Item) = (do
      item ← load n.items (length n.items - 1)
      ok (some item)) in
      if ltb 0 (length n.children) then below else if length n.items == 0 then ok none else here

unfoldable pub min_at : Node → Run (Option Item)
min_at null = ok none
min_at (node is cs c) = do n ← deref (node is cs c); min_node (height (node is cs c)) n

unfoldable pub max_at : Node → Run (Option Item)
max_at null = ok none
max_at (node is cs c) = do n ← deref (node is cs c); max_node (height (node is cs c)) n
