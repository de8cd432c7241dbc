-- ===== src/BTree/Node.antt =====
-- B-Tree/btree.go: a node, its copy on write and its split. A node that a pointer refers to is owned by
-- one tree alone (`cow`), so that a pointer is modelled by the node it refers to; `null` is the nil
-- pointer. A node from the free list is an empty one, see FreeList.
use gocore.Common.{
  ℕ, ◌+◌, ◌/◌, Bool, true, false, List, [], ◌∷◌, ltb, ◌==◌, if◌then◌else◌, length, set, replicate,
}
use gocore.Common.Run.{Run, ok, panic, ◌>>=◌}
use gocore.Common.Arrays.{load}
use gocore.BTree.Items.{Item, insert_at, truncate, slice_from}

mutual
  pub data Node : Type 0 where
    null : Node
    node : List Item → Children → ℕ → Node

  pub data Children : Type 0 where
    nil : Children
    cons : Node → Children → Children

abbrev pub kids : Children → List Node
kids nil = []
kids (cons c cs) = c ∷ kids cs

abbrev pub pack : List Node → Children
pack [] = nil
pack (c ∷ cs) = cons c (pack cs)

-- The fields of a node. `cow` names the context that owns it.
pub record NodeObj : Type 0 where
  pub items : List Item
  pub children : List Node
  pub cow : ℕ

-- A nil pointer has no fields.
unfoldable pub deref : Node → Run NodeObj
deref null = panic
deref (node is cs c) = ok (record { items = is; children = kids cs; cow = c })

abbrev pub ref : NodeObj → Node
ref o = node o.items (pack o.children) o.cow

-- `cow.newNode()`
abbrev pub new_node : ℕ → NodeObj
new_node cow = record { items = []; children = []; cow = cow }

-- The copy that a foreign node is replaced by has the items, and as many children, but these are nil.
unfoldable pub mutable_for : Node → ℕ → Run NodeObj
mutable_for n cow = do
  o ← deref n
  ok (
      if o.cow == cow
      then o
      else record (new_node cow) { items = o.items; children = replicate (length o.children) null })

unfoldable pub mutable_child : NodeObj → ℕ → Run (NodeObj × NodeObj)
mutable_child n i = do
  child ← load n.children i
  c ← mutable_for child n.cow
  ok (record n { children = set n.children i (ref c) }, c)

unfoldable pub split : NodeObj → ℕ → Run (NodeObj × Item × NodeObj)
split n i = do
  item ← load n.items i
  upper ← slice_from n.items (i + 1)
  lower ← truncate n.items i
  let next = record (new_node n.cow) { items = upper }
  let kept = record n { items = lower }
  let inner : Run (NodeObj × Item × NodeObj) = do
    right ← slice_from n.children (i + 1)
    left ← truncate n.children (i + 1)
    ok (record kept { children = left }, item, record next { children = right })
  if ltb 0 (length n.children) then inner else ok (kept, item, next)

unfoldable pub maybe_split_child : NodeObj → ℕ → ℕ → Run (NodeObj × Bool)
maybe_split_child n i max_items = do
  pointer ← load n.children i
  child ← deref pointer
  let divide : Run (NodeObj × Bool) = do
    (n1, first) ← mutable_child n i
    (first', item, second) ← split first (max_items / 2)
    items ← insert_at n1.items i item
    children ← insert_at (set n1.children i (ref first')) (i + 1) (ref second)
    ok (record n1 { items = items; children = children }, true)
  if ltb (length child.items) max_items then ok (n, false) else divide
