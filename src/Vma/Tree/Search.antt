-- ===== src/Vma/Tree/Search.antt =====
-- The search for an address in a `VMATree`, and the way down to its first and last leaves.
use x.Base.{
  ℕ, zero, suc, ◌+◌, ◌-◌, ◌<◌, ◌≤◌, ◌≡◌, refl, sym, ◌∙◌, true, false, ltb, leb, ltb→lt, Bool-cases,
  inl, inr, Option, some, ◌++◌, arith,
}
use mathlib.Core.List.{append_assoc, append-nil}
use x.Vma.Node.{Side, left_side, right_side, LeafNode, BranchNode, branch, leaf, pivot}
use x.Vma.Tree.{VmaTree, LeafInfo, highest_user_address, descend, get_leaf_containing, node_at}
use x.Vma.Tree.Shape.{
  Shape, tip, fork, Place, top, below, plug, beside, address_of, above_of, lo_of, hi_of, areas,
  all_areas, depth, Holds, Stands, Ordered, Ordered-lt, key, areas_before, areas_behind,
}

-- The areas of a tree are those of a place, between the ones around it.
pub areas-plug :
    (c : Place) (t : Shape)
    → all_areas (plug c t) ≡ areas_before c ++ (areas t (lo_of c) (hi_of c) ++ areas_behind c)
unfolding areas areas_before areas_behind
areas-plug top t = sym (append-nil _)
areas-plug (below left_side a w m other above) t =
    areas-plug above (fork a w m t other) ∙ simp (append_assoc)
areas-plug (below right_side a w m other above) t =
    areas-plug above (fork a w m other t) ∙ simp (append_assoc)

-- What the search finds: the leaf of a place in the tree, whose bounds, parent and side it gives.
pub data Finds (s : VmaTree) (addr : ℕ) (t : Shape) : Option (LeafInfo × VmaTree) → Type 0 where
  finds :
      (c : Place) (l : LeafNode) (info : LeafInfo)
      → plug c (tip info.leaf_node l) ≡ t
      → node_at s info.leaf_node ≡ leaf l
      → info.parent_and_side ≡ beside c
      → info.start ≡ lo_of c
      → info.end + 1 ≡ hi_of c
      → info.start ≤ addr
      → addr ≤ info.end
      → Finds s addr t (some (info, s))

-- A round of the search, by what stands at the node.
module _ (rounds addr node : ℕ) (parent_and_side : Option (ℕ × Side)) (start end : ℕ)
    (s : VmaTree) where
  pub descend-leaf :
      (l : LeafNode)
      → node_at s node ≡ leaf l
      → leb 1 end ≡ true
      → descend (suc rounds) addr node parent_and_side start end s
        ≡ some (
          record {
            leaf_node = node;
            parent_and_side = parent_and_side;
            start = start;
            end = end - 1;
          },
          s,
        )
  unfolding descend
  descend-leaf l h e = ground arith

  pub descend-lower :
      (b : BranchNode)
      → node_at s node ≡ branch b
      → ltb addr (pivot b) ≡ true
      → leb (pivot b) end ≡ true
      → descend (suc rounds) addr node parent_and_side start end s
        ≡ descend rounds addr b.left (some (node, left_side)) start (pivot b) s
  unfolding descend
  descend-lower b h e f = ground arith

  pub descend-upper :
      (b : BranchNode)
      → node_at s node ≡ branch b
      → ltb addr (pivot b) ≡ false
      → leb start (pivot b) ≡ true
      → descend (suc rounds) addr node parent_and_side start end s
        ≡ descend rounds addr b.right (some (node, right_side)) (pivot b) end s
  unfolding descend
  descend-upper b h e f = ground arith

descend-Finds :
    (t : Shape) (c : Place) (rounds addr : ℕ) (s : VmaTree)
    → Holds s.storage.nodes (above_of c) t
    → Ordered t (lo_of c) (hi_of c)
    → lo_of c ≤ addr
    → addr < hi_of c
    → depth t < rounds
    → Finds s addr (plug c t) (descend rounds addr (address_of t) (beside c) (lo_of c) (hi_of c) s)
unfolding depth pivot key
descend-Finds t c zero addr s h o lo hi d = absurd (omega arith)
descend-Finds (tip a l) c (suc rounds) addr s h o lo hi d =
    rw (descend-leaf rounds addr a (beside c) (lo_of c) (hi_of c) s l h (ground arith))
      (finds c l _ refl h refl refl (omega arith) lo (omega arith))
descend-Finds (fork a w m lower upper) c (suc rounds) addr s h o lo hi d =
    elim (Bool-cases (ltb addr (key w))) [
      | inl is_lower ↦
          let inside = Ordered-lt upper (key w) (hi_of c) o.1 in
          rw
            (descend-lower rounds addr a (beside c) (lo_of c) (hi_of c) s _ (h.0) is_lower
              (ground arith))
            (descend-Finds lower (below left_side a w m upper c) rounds addr s (h.1) (o.0) lo
              (ltb→lt addr (key w) is_lower) (omega arith))
      | inr is_upper ↦
          let inside = Ordered-lt lower (lo_of c) (key w) o.0 in
          rw
            (descend-upper rounds addr a (beside c) (lo_of c) (hi_of c) s _ (h.0) is_upper
              (ground arith))
            (descend-Finds upper (below right_side a w m lower c) rounds addr s (h.2) (o.1)
              (ground arith) hi (omega arith))
    ]

-- On a tree that the memory holds and whose pivots are in order, the search for an address of a
-- process ends within more rounds than the tree is deep, without a panic and with the state as it was,
-- at the leaf whose area the address is in: its bounds are those of the leaf's place in the tree, and
-- the parent and the side are the branch above the leaf and the side that the leaf is on.
pub get_leaf_containing-Finds :
    (s : VmaTree) (t : Shape) (rounds addr : ℕ)
    → Stands s top t
    → Ordered t 0 (highest_user_address + 1)
    → addr ≤ highest_user_address
    → depth t < rounds
    → Finds s addr t (get_leaf_containing rounds addr s)
unfolding get_leaf_containing
get_leaf_containing-Finds s t rounds addr st o lim d =
    let e : leb addr highest_user_address ≡ true = ground arith in
    let found = descend-Finds t top rounds addr s (st.here) o (omega arith) (omega arith) d in
    simp (e, st.root) found
