-- ===== src/BTree/Reset.antt =====
-- `reset` moves the nodes of a tree to the free list as far as there is room.
use Prim.Native.Nat.{min}
use gocore.Common.{
  ℕ, suc, ◌+◌, ◌≡◌, refl, Bool, true, leb, ltb, ◌==◌, length, arith, Bool-cases, inl, inr,
}
use gocore.Common.Run.{Returns, Returns-inv}
use gocore.BTree.Node.{Node, Children, null, node, nil, cons}
use gocore.BTree.FreeList.{FreeList, free_node, reset, reset_children, IsClean}

-- The number of nodes.
unfoldable mutual
  pub size : Node → ℕ
  size null = 0
  size (node is cs w) = suc (size_children cs)

  pub size_children : Children → ℕ
  size_children nil = 0
  size_children (cons n cs) = size n + size_children cs

-- Every node has the owner `c`, and no pointer is nil.
abbrev mutual
  pub IsOwned : ℕ → Node → Type 0
  IsOwned c null = ⊥
  IsOwned c (node is cs w) = (w ≡ c) × AllOwned c cs

  pub AllOwned : ℕ → Children → Type 0
  AllOwned c nil = Unit
  AllOwned c (cons n cs) = IsOwned c n × AllOwned c cs

-- The list after `n` more nodes were to be put on it, and whether there was room for all.
pub record IsFilled (f : FreeList) (n : ℕ) (r : FreeList × Bool) : Type 0 where
  pub same : r.0.capacity ≡ f.capacity
  pub stored_all : length r.0.free_list ≡ min f.capacity (length f.free_list + n)
  pub all_fit : r.1 ≡ leb (length f.free_list + n) f.capacity
  pub empty : IsClean r.0

mutual
  unfolding reset free_node size

  reset_node-IsFilled :
      (n : Node) (c : ℕ) (f : FreeList)
      → IsOwned c n
      → IsClean f
      → Returns (IsFilled f (size n)) (reset n c f)
  reset_node-IsFilled null c f o v = absurd o
  reset_node-IsFilled (node is cs w) c f o v =
      let ((f', b), ran, r) =
        Returns-inv (IsFilled f (size_children cs)) (reset_children cs c f)
          (reset_children-IsFilled cs c f o.1 v) in
      let own : (w == c) ≡ true = ground arith in
      rw (ran, own)
        (elim (Bool-cases b) [
          | inr stopped ↦ rw stopped (record {
            same = r.same;
            stored_all = ground (arith, r.stored_all, r.all_fit);
            all_fit = ground (arith, r.all_fit);
            empty = r.empty;
          })
          | inl more ↦ rw more (elim (Bool-cases (ltb (length f'.free_list) f'.capacity)) [
            | inl fits ↦ rw fits (record {
              same = r.same;
              stored_all = ground (arith, r.stored_all, r.all_fit, r.same);
              all_fit = ground (arith, r.stored_all, r.all_fit, r.same);
              empty = record { empty = (refl, r.empty.empty); fits = ground arith };
            })
            | inr full ↦ rw full (record {
              same = r.same;
              stored_all = ground (arith, r.stored_all, r.all_fit, r.same);
              all_fit = ground (arith, r.stored_all, r.all_fit, r.same);
              empty = r.empty;
            })
          ])
        ])

  reset_children-IsFilled :
      (cs : Children) (c : ℕ) (f : FreeList)
      → AllOwned c cs
      → IsClean f
      → Returns (IsFilled f (size_children cs)) (reset_children cs c f)
  reset_children-IsFilled nil c f o v = record {
    same = refl;
    stored_all = omega (arith, v.fits);
    all_fit = ground (arith, v.fits);
    empty = v;
  }
  reset_children-IsFilled (cons n cs) c f o v =
      let ((f', b), ran, r) =
        Returns-inv (IsFilled f (size n)) (reset n c f) (reset_node-IsFilled n c f o.0 v) in
      let ((f'', b'), ran', r') =
        Returns-inv (IsFilled f' (size_children cs)) (reset_children cs c f')
          (reset_children-IsFilled cs c f' o.1 r.empty) in
      rw ran (elim (Bool-cases b) [
        | inr stopped ↦ rw stopped (record {
          same = r.same;
          stored_all = ground (arith, r.stored_all, r.all_fit);
          all_fit = ground (arith, r.all_fit);
          empty = r.empty;
        })
        | inl more ↦
            rw (more, ran')
              (record {
                same = omega (arith, r.same, r'.same);
                stored_all = ground (arith, r.stored_all, r.all_fit, r.same, r'.stored_all);
                all_fit = ground (arith, r.stored_all, r.all_fit, r.same, r'.all_fit);
                empty = r'.empty;
              })
      ])

-- `reset` of a tree that the context owns ends well and keeps the list clean: it takes as many of the
-- tree's nodes as there is room for, and returns whether that was all of them.
pub reset-IsFilled :
    (n : Node) (c : ℕ) (f : FreeList)
    → IsOwned c n
    → IsClean f
    → Returns (IsFilled f (size n)) (reset n c f)
reset-IsFilled n c f o v = reset_node-IsFilled n c f o v
