-- ===== src/BTree/FreeList.antt =====
-- B-Tree/btree.go: `FreeList`, `copyOnWriteContext.freeNode`, `node.reset` and `Clear`. The list holds
-- the nodes that wait to be used again, the latest first; its capacity is fixed when it is made. A node
-- on it has no owner.
use gocore.Common.{
  ℕ, ◌≤◌, ◌≡◌, refl, Bool, true, false, List, [], ◌∷◌, ltb, ◌==◌, if◌then◌else◌, length, arith, All,
}
use gocore.Common.Run.{Run, ok, panic, ◌>>=◌}
use gocore.BTree.Items.{Item}
use gocore.BTree.Node.{Node, Children, null, node, nil, cons}
use gocore.BTree.Tree.{BTree}

pub record FreeNode : Type 0 where
  pub items : List Item
  pub children : List Node

pub record FreeList : Type 0 where
  pub free_list : List FreeNode
  pub capacity : ℕ

abbrev pub new_free_list : ℕ → FreeList
new_free_list size = record { free_list = []; capacity = size }

abbrev pub clean : FreeNode
clean = record { items = []; children = [] }

abbrev take_from : FreeList → List FreeNode → FreeList × FreeNode
take_from f [] = (f, clean)
take_from f (n ∷ rest) = (record f { free_list = rest }, n)

-- `newNode`: the last node that was put back, or a new one.
unfoldable pub take_node : FreeList → FreeList × FreeNode
take_node f = take_from f f.free_list

-- `FreeList.freeNode`
unfoldable pub put_node : FreeList → FreeNode → FreeList × Bool
put_node f n =
    if ltb (length f.free_list) f.capacity
    then (record f { free_list = n ∷ f.free_list }, true)
    else (f, false)

pub data FreeType : Type 0 where
  freelist_full stored node_owned : FreeType

-- `copyOnWriteContext.freeNode`, of a node with the owner `owner`.
unfoldable pub free_node : ℕ → FreeList → ℕ → FreeList × FreeType
unfolding put_node
free_node c f owner =
    let (f', out) = put_node f clean in
    if owner == c then (f', if out then stored else freelist_full) else (f, node_owned)

abbrev is_full : FreeType → Bool
is_full freelist_full = true
is_full _ = false

abbrev not_full : FreeList × FreeType → FreeList × Bool
not_full (f, full) = (f, if is_full full then false else true)

-- `reset` stops at the first node that finds the list full.
unfoldable mutual
  unfolding free_node

  pub reset : Node → ℕ → FreeList → Run (FreeList × Bool)
  reset null c f = panic
  reset (node is cs owner) c f = do
    (f', go_on) ← reset_children cs c f
    ok (if go_on then not_full (free_node c f' owner) else (f', false))

  pub reset_children : Children → ℕ → FreeList → Run (FreeList × Bool)
  reset_children nil c f = ok (f, true)
  reset_children (cons n cs) c f = do
    (f', go_on) ← reset n c f
    let rest = reset_children cs c f'
    if go_on then rest else ok (f', false)

abbrev forget : BTree → BTree
forget t = record t { root = null; length = 0 }

unfoldable pub clear_at : BTree → Node → FreeList → Bool → Run (BTree × FreeList)
clear_at t null f add = ok (forget t, f)
clear_at t (node is cs c) f false = ok (forget t, f)
clear_at t (node is cs c) f true = do (f', done) ← reset (node is cs c) t.cow f; ok (forget t, f')

unfoldable pub clear : BTree → FreeList → Bool → Run (BTree × FreeList)
clear t f add_nodes_to_freelist = clear_at t t.root f add_nodes_to_freelist

-- Every node on the list is empty, and no more stand there than it has room for.
pub record IsClean (f : FreeList) : Type 0 where
  pub empty : All (λ n. n ≡ clean) f.free_list
  pub fits : length f.free_list ≤ f.capacity

-- A node from a clean list is an empty one, and the list stays clean.
pub take_node-IsClean :
    (f : FreeList) → IsClean f → ((take_node f).1 ≡ clean) × IsClean (take_node f).0
unfolding take_node
take_node-IsClean f v = by_list f.free_list f.capacity v.empty v.fits
  where
    by_list :
        (l : List FreeNode) (c : ℕ)
        → All (λ n. n ≡ clean) l
        → length l ≤ c
        → ((take_node (record { free_list = l; capacity = c })).1 ≡ clean)
          × IsClean (take_node (record { free_list = l; capacity = c })).0
    by_list [] c e b = (refl, record { empty = tt; fits = b })
    by_list (n ∷ l) c e b = (e.0, record { empty = e.1; fits = omega arith })
