-- ===== src/BTree/Iterate.antt =====
-- B-Tree/btree.go: `node.iterate` and the walks of `BTree`. The iterator is a function of the item that
-- says whether to go on; the items that it is called on are listed, the latest first.
use gocore.Common.{
  ℕ, zero, suc, ◌+◌, ◌-◌, Bool, true, false, not, List, [], ◌∷◌, ltb, ◌&&◌, ◌||◌, if◌then◌else◌,
  length, Option, none, some,
}
use gocore.Common.Run.{Run, ok, out_of_fuel, ◌>>=◌}
use gocore.Common.Arrays.{load}
use gocore.BTree.Items.{Item, less, find}
use gocore.BTree.Node.{Node, null, node, NodeObj, deref}
use gocore.BTree.Tree.{BTree, height}

pub record Walk : Type 0 where
  pub start : Option Item
  pub stop : Option Item
  pub include_start : Bool
  pub iter : Item → Bool

-- The two results of `iterate`, and the items visited.
pub record Visit : Type 0 where
  pub hit : Bool
  pub go_on : Bool
  pub seen : List Item

abbrev pub Step : Type 0
Step = Bool → List Item → Run Visit

-- `start != nil && !start.Less(item)`
abbrev pub at_or_before : Option Item → Item → Bool
at_or_before none item = false
at_or_before (some start) item = not (less start item)

-- `stop != nil && !item.Less(stop)`
abbrev pub beyond : Option Item → Item → Bool
beyond none item = false
beyond (some stop) item = not (less item stop)

-- The call on a child, where the node has children.
unfoldable pub visit_child : (NodeObj → Step) → NodeObj → ℕ → Step
visit_child rec n i hit seen =
    let below : Run Visit = do
      pointer ← load n.children i
      child ← deref pointer
      rec child hit seen
    in if ltb 0 (length n.children)
      then below
      else ok (record { hit = hit; go_on = true; seen = seen })

-- `iter` is called on the item; `next` is the rest of the loop.
unfoldable pub visit_item : Walk → Bool → Item → Step → List Item → Run Visit
visit_item w past item next seen =
    let more = next true (item ∷ seen) in
    if past
    then ok (record { hit = true; go_on = false; seen = seen })
    else if w.iter item
    then more
    else ok (record { hit = true; go_on = false; seen = item ∷ seen })

-- The loop of `ascend`, with the rounds that are left.
unfoldable pub ascend_loop : Walk → (NodeObj → Step) → NodeObj → ℕ → ℕ → Step
ascend_loop w rec n zero i hit seen = do
  last ← visit_child rec n (length n.children - 1) hit seen
  ok (record last { go_on = false })
ascend_loop w rec n (suc rounds) i hit seen = do
  v ← visit_child rec n i hit seen
  item ← load n.items i
  let next : Step = ascend_loop w rec n rounds (i + 1)
  let skip = not w.include_start && not v.hit && at_or_before w.start item
  if not v.go_on
      then ok (record v { go_on = false })
      else if skip
      then next true v.seen
      else visit_item w (beyond w.stop item) item next v.seen

abbrev pub ascend_from : Option Item → List Item → ℕ
ascend_from none s = 0
ascend_from (some start) s = (find s start).0

unfoldable pub ascend : ℕ → Walk → NodeObj → Step
ascend zero w n hit seen = out_of_fuel
ascend (suc fuel) w n hit seen =
    let i = ascend_from w.start n.items in
    ascend_loop w (λ child. ascend fuel w child) n (length n.items - i) i hit seen

-- `start != nil && !item.Less(start)`, and then `!includeStart || hit || start.Less(item)`
abbrev pub passed_over : Walk → Option Item → Bool → Item → Bool
passed_over w none hit item = false
passed_over w (some start) hit item =
    not (less item start) && (not w.include_start || hit || less start item)

-- The loop of `descend` over the slots below `i`.
unfoldable pub descend_loop : Walk → (NodeObj → Step) → NodeObj → ℕ → Step
descend_loop w rec n zero hit seen = do
  first ← visit_child rec n 0 hit seen
  ok (record first { go_on = false })
descend_loop w rec n (suc i) hit seen = do
  item ← load n.items i
  let next : Step = descend_loop w rec n i
  let here : Run Visit = do
    v ← visit_child rec n (i + 1) hit seen
    let stopped = ok (record { hit = v.hit; go_on = false; seen = v.seen })
    if not v.go_on
        then ok (record v { go_on = false })
        else if at_or_before w.stop item
        then stopped
        else visit_item w false item next v.seen
  if passed_over w w.start hit item then next hit seen else here

-- The number of slots up to the first index; `index - 1` for a start that is not found.
abbrev pub descend_from : Option Item → List Item → ℕ
descend_from none s = length s
descend_from (some start) s = let (i, found) = find s start in if found then i + 1 else i

unfoldable pub descend : ℕ → Walk → NodeObj → Step
descend zero w n hit seen = out_of_fuel
descend (suc fuel) w n hit seen =
    descend_loop w (λ child. descend fuel w child) n (descend_from w.start n.items) hit seen

unfoldable pub walk_at : (ℕ → NodeObj → Step) → Node → Run (List Item)
walk_at run null = ok []
walk_at run (node is cs c) = do
  n ← deref (node is cs c)
  v ← run (height (node is cs c)) n false []
  ok v.seen

abbrev pub ascend_range : BTree → Option Item → Option Item → (Item → Bool) → Run (List Item)
ascend_range t greater_or_equal less_than iterator =
    walk_at
      (λ fuel. ascend fuel (record {
        start = greater_or_equal;
        stop = less_than;
        include_start = true;
        iter = iterator;
      }))
      t.root

abbrev pub ascend_less_than : BTree → Option Item → (Item → Bool) → Run (List Item)
ascend_less_than t pivot iterator =
    walk_at
      (λ fuel.
        ascend fuel (record { start = none; stop = pivot; include_start = false; iter = iterator }))
      t.root

abbrev pub ascend_greater_or_equal : BTree → Option Item → (Item → Bool) → Run (List Item)
ascend_greater_or_equal t pivot iterator =
    walk_at
      (λ fuel.
        ascend fuel (record { start = pivot; stop = none; include_start = true; iter = iterator }))
      t.root

abbrev pub ascend_all : BTree → (Item → Bool) → Run (List Item)
ascend_all t iterator =
    walk_at
      (λ fuel.
        ascend fuel (record { start = none; stop = none; include_start = false; iter = iterator }))
      t.root

abbrev pub descend_range : BTree → Option Item → Option Item → (Item → Bool) → Run (List Item)
descend_range t less_or_equal greater_than iterator =
    walk_at
      (λ fuel. descend fuel (record {
        start = less_or_equal;
        stop = greater_than;
        include_start = true;
        iter = iterator;
      }))
      t.root

abbrev pub descend_less_or_equal : BTree → Option Item → (Item → Bool) → Run (List Item)
descend_less_or_equal t pivot iterator =
    walk_at
      (λ fuel.
        descend fuel (record { start = pivot; stop = none; include_start = true; iter = iterator }))
      t.root

abbrev pub descend_greater_than : BTree → Option Item → (Item → Bool) → Run (List Item)
descend_greater_than t pivot iterator =
    walk_at
      (λ fuel.
        descend fuel
          (record { start = none; stop = pivot; include_start = false; iter = iterator }))
      t.root

abbrev pub descend_all : BTree → (Item → Bool) → Run (List Item)
descend_all t iterator =
    walk_at
      (λ fuel.
        descend fuel (record { start = none; stop = none; include_start = false; iter = iterator }))
      t.root
