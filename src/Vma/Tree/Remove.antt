-- ===== src/Vma/Tree/Remove.antt =====
-- `delete`, `delete_branch` and the end of `VMATree` in kernel/src/vma.rs. `node_size` is the size of a
-- node, `fuel` bounds the rounds of each loop. A node that is freed keeps the place that the code
-- read its children from.
use x.Base.{
  ℕ, zero, suc, ◌+◌, ◌-◌, ◌^◌, Bool, true, false, not, ltb, ◌&&◌, ◌||◌, if◌then◌else◌, Option, none,
  some, Command, pure, panic, ◌>>=◌, ◌>>◌, assert,
}
use x.Vma.Node.{
  NodeColor, red, black, opposite, BranchNode, Node, branch, leaf, empty, used, new_branch_node,
  child, is_branch, is_leaf, is_empty_leaf, is_used_leaf, with_pivot, pivot, is_temp_null,
}
use x.Vma.Storage.{free_node}
use x.Vma.Tree.{
  VmaTree, node_at, on_storage, read_node, read_branch, write, modify, color_at, replace_node,
  get_leaf_containing, update_max_empty_area_data, find_min, min_leaf, max_leaf,
}
use x.Vma.Tree.Insert.{update_parent}
use x.Vma.Tree.Link.{parent_of}
use x.Vma.Tree.Delete.{fix_delete}

-- `unwrap_empty_size_ptr`, read.
abbrev pub empty_size : Node → Command VmaTree ℕ
empty_size (branch b) = panic
empty_size (leaf (empty size)) = pure size
empty_size (leaf (used flags)) = panic

-- Both leaves take the sum of their sizes, which panics out of range.
unfoldable pub combine_sizes : (first second : ℕ) → Command VmaTree (Unit {0})
unfolding write
combine_sizes first second = do
  a ← read_node first
  m ← empty_size a
  b ← read_node second
  n ← empty_size b
  assert (ltb (m + n) (2 ^ 64))
  write first (leaf (empty (m + n)))
  write second (leaf (empty (m + n)))

module _ (node_size fuel : ℕ) where
  abbrev free : ℕ → Command VmaTree (Unit {0})
  free a = on_storage (free_node node_size fuel a)

  -- A leaf that goes away must not be used.
  unfoldable pub free_unused : ℕ → Command VmaTree (Unit {0})
  unfolding free_node
  free_unused a = do n ← read_node a; assert (not (is_used_leaf n)); free a

  -- A branch without branches below it: a red one leaves a leaf, a black one the temporary node.
  unfoldable pub child_of_leaf_parent : BranchNode → NodeColor → Command VmaTree ℕ
  unfolding write new_branch_node free_unused
  child_of_leaf_parent b black s =
      (do
        write s.storage.temp_node (branch (new_branch_node 0 true black none b.left b.right))
        pure s.storage.temp_node)
        s
  child_of_leaf_parent b red s =
      (do
        l ← read_node b.left
        if is_used_leaf l
            then (do free_unused b.right; pure b.left)
            else (do free_unused b.left; pure b.right))
        s

  unfoldable pub delete_node_with_zero_or_one_child : (node : ℕ) → Command VmaTree (ℕ × Option ℕ)
  unfolding replace_node free_unused child_of_leaf_parent
  delete_node_with_zero_or_one_child node = do
    b ← read_branch node
    l ← read_node b.left
    r ← read_node b.right
    if is_branch l
        then (do replace_node node b.left; free_unused b.right; pure (b.left, b.parent))
        else if is_branch r
        then (do replace_node node b.right; free_unused b.left; pure (b.right, b.parent))
        else (do
          c ← color_at node
          new_child ← child_of_leaf_parent b c
          replace_node node new_child
          pure (new_child, b.parent))

  -- The branch that goes away, itself or its successor, with its color.
  unfoldable pub take_out : (node : ℕ) → Command VmaTree ((ℕ × Option ℕ) × NodeColor)
  unfolding delete_node_with_zero_or_one_child free_node
  take_out node = do
    moved_up ← delete_node_with_zero_or_one_child node
    c ← color_at node
    free node
    pure (moved_up, c)

  unfoldable pub take_out_branch : (delete_node : ℕ) → Command VmaTree ((ℕ × Option ℕ) × NodeColor)
  unfolding take_out find_min modify with_pivot pivot
  take_out_branch delete_node = do
    b ← read_branch delete_node
    l ← read_node b.left
    r ← read_node b.right
    if is_leaf l || is_leaf r then take_out delete_node else (do
      successor ← find_min fuel b.right
      sb ← read_branch successor
      modify delete_node (with_pivot (pivot sb))
      modify delete_node (λ d. record d { max_empty_area_size = sb.max_empty_area_size })
      take_out successor)

  -- A temporary node becomes what is left of its two leaves.
  unfoldable pub settle_temp : (moved_up : ℕ) → Command VmaTree (Unit {0})
  unfolding write is_temp_null free_node
  settle_temp moved_up = do
    b ← read_branch moved_up
    if is_temp_null b
        then (do
          l ← read_node b.left
          r ← read_node b.right
          if is_used_leaf l
              then (do assert (not (is_used_leaf r)); write moved_up l)
              else write moved_up r
          free b.left
          free b.right)
        else pure tt

  unfoldable pub delete_branch : (delete_node : ℕ) → Command VmaTree (Unit {0})
  unfolding take_out_branch fix_delete settle_temp update_max_empty_area_data
  delete_branch delete_node = do
    ((moved_up, moved_up_parent), c) ← take_out_branch delete_node
    elim c [
      | red ↦ pure tt
      | black ↦ do _ ← read_branch moved_up; fix_delete fuel moved_up; settle_temp moved_up
    ]
    elim moved_up_parent [ none ↦ pure tt | some p ↦ update_max_empty_area_data fuel (some p) ]

  -- The way up: `true` when a pivot between two empty areas has been deleted.
  unfoldable pub join_up : (rounds : ℕ) → Option ℕ → Command VmaTree Bool
  unfolding max_leaf min_leaf combine_sizes delete_branch
  join_up zero current s = none
  join_up (suc rounds) none s = some (false, s)
  join_up (suc rounds) (some a) s =
      (do
        b ← read_branch a
        left_max ← max_leaf fuel b.left
        right_min ← min_leaf fuel b.right
        l ← read_node left_max
        r ← read_node right_min
        elim (is_empty_leaf l && is_empty_leaf r) [
          | true ↦ do combine_sizes left_max right_min; delete_branch a; pure true
          | false ↦ do b' ← read_branch a; join_up rounds b'.parent
        ])
        s

  unfoldable pub gap_join_loop : (rounds addr : ℕ) → Command VmaTree (Unit {0})
  unfolding get_leaf_containing update_parent join_up
  gap_join_loop zero addr s = none
  gap_join_loop (suc rounds) addr s =
      (do
        at ← get_leaf_containing fuel addr
        update_parent fuel at.parent_and_side
        joined ← join_up fuel (parent_of at.parent_and_side)
        elim joined [ true ↦ gap_join_loop rounds addr | false ↦ pure tt ])
        s

  unfoldable pub delete : (addr : ℕ) → Command VmaTree (Unit {0})
  unfolding get_leaf_containing write combine_sizes delete_branch gap_join_loop
  delete addr = do
    at ← get_leaf_containing fuel addr
    n ← read_node at.leaf_node
    assert (is_used_leaf n)
    write at.leaf_node (leaf (empty (at.end + 1 - at.start)))
    elim at.parent_and_side [
      | none ↦ pure tt
      | some (parent, side) ↦ do
        pb ← read_branch parent
        let sibling = child pb (opposite side)
        sn ← read_node sibling
        if is_empty_leaf sn
            then (do combine_sizes at.leaf_node sibling; delete_branch parent)
            else pure tt
        gap_join_loop fuel addr
    ]

  -- `drop_subtree`.
  unfoldable pub drop_subtree : (rounds node : ℕ) → Command VmaTree (Unit {0})
  unfolding free_node
  drop_subtree zero node s = none
  drop_subtree (suc rounds) node s = elim (node_at s node) [
    | leaf l ↦ free node s
    | branch b ↦ (do drop_subtree rounds b.left; drop_subtree rounds b.right; free node) s
  ]

  unfoldable pub drop : Command VmaTree (Unit {0})
  unfolding drop_subtree
  drop s = drop_subtree fuel s.root s
