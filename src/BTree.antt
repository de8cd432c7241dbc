-- ===== src/BTree.antt =====
-- B-Tree/btree.go: a B-tree of items under copy on write.
pub mod Items
pub mod Node
pub mod Insert
pub mod Order
pub mod Find
pub mod Weave
pub mod Splice
pub mod Shape
pub mod Insertion
pub mod Put
pub mod Tree
pub mod Valid
pub mod Lookup
pub mod Remove
pub mod Iterate
pub mod FreeList
pub mod Reset
pub mod Walks
pub mod Copies
mod Tests
