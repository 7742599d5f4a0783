-- ===== src/Vma/Tree/Insert.antt =====
-- `insert` of `VMATree` in kernel/src/vma.rs, by the place of the new segment in its gap. `node_size`
-- is the size of a node, `fuel` bounds the rounds of each loop.
pub mod Exact
use x.Base.{
  ℕ, zero, suc, ◌+◌, ◌-◌, ◌^◌, Bool, true, false, leb, ltb, ◌==◌, ◌&&◌, if◌then◌else◌, Option, none,
  some, Result, ok, err, Command, pure, panic, ◌>>=◌, ◌>>◌, ◌>>=?◌, inspect_err, unwrap, assert,
  sub_checked,
}
use x.Vma.Node.{Side, Node, branch, leaf, used, NodeColor, black, new_branch_node, is_empty_leaf}
use x.Vma.Storage.{VmaMapError, reserve_node, new_empty_leaf, new_used_leaf, new_branch, free_node}
use x.Vma.Tree.{
  VmaTree, LeafInfo, on_storage, read_node, write, get_leaf_containing, update_max_empty_area_data,
}
use x.Vma.Tree.Link.{set_empty_size, link_in_branch, parent_of}

-- `update_max_empty_area_data` of the parent, where there is one.
unfoldable pub update_parent : (rounds : ℕ) → Option (ℕ × Side) → Command VmaTree (Unit {0})
unfolding update_max_empty_area_data
update_parent rounds none = pure tt
update_parent rounds (some (p, side)) = update_max_empty_area_data rounds (some p)

-- The gap is filled.
unfoldable pub insert_exact :
    (fuel : ℕ) → LeafInfo → (flags : ℕ) → Command VmaTree (Result VmaMapError ℕ)
unfolding write
insert_exact fuel gap flags = do
  write gap.leaf_node (leaf (used flags))
  update_parent fuel gap.parent_and_side
  pure (ok gap.leaf_node)

module _ (node_size fuel : ℕ) where
  abbrev free : ℕ → Command VmaTree (Unit {0})
  free a = on_storage (free_node node_size fuel a)

  abbrev used_leaf : (flags : ℕ) → Command VmaTree (Result VmaMapError ℕ)
  used_leaf flags = on_storage (new_used_leaf node_size fuel flags)

  -- The gap stays before the segment.
  unfoldable pub insert_at_end :
      LeafInfo → (start flags : ℕ) → Command VmaTree (Result VmaMapError ℕ)
  unfolding new_used_leaf new_branch free_node set_empty_size link_in_branch
  insert_at_end gap start flags = used_leaf flags >>=? λ new_leaf.
      inspect_err
        (on_storage
          (new_branch node_size fuel start (parent_of gap.parent_and_side) gap.leaf_node new_leaf))
        (free new_leaf)
      >>=? λ b. do
        set_empty_size gap.leaf_node (start - gap.start)
        link_in_branch fuel b gap.parent_and_side
        pure (ok new_leaf)

  -- The gap stays behind the segment.
  unfoldable pub insert_at_start :
      LeafInfo → (end flags : ℕ) → Command VmaTree (Result VmaMapError ℕ)
  unfolding new_used_leaf new_branch free_node set_empty_size link_in_branch
  insert_at_start gap end flags = used_leaf flags >>=? λ new_leaf.
      inspect_err
        (on_storage (
          new_branch node_size fuel (end + 1) (parent_of gap.parent_and_side) new_leaf
            gap.leaf_node))
        (free new_leaf)
      >>=? λ b. do
        set_empty_size gap.leaf_node (gap.end - end)
        link_in_branch fuel b gap.parent_and_side
        pure (ok new_leaf)

  -- What is linked once all the nodes of a segment inside its gap are there: the branch at its end,
  -- then, where the search now arrives, the branch at its start.
  unfoldable pub link_within :
      LeafInfo
      → (start end new_end_branch new_start_branch : ℕ) → Command VmaTree (Result VmaMapError ℕ)
  unfolding link_in_branch get_leaf_containing new_branch_node write set_empty_size
  link_within gap start end new_end_branch new_start_branch = do
    link_in_branch fuel new_end_branch gap.parent_and_side
    at ← get_leaf_containing fuel start
    assert (at.end == end)
    write new_start_branch (
        branch (
          new_branch_node start false black (parent_of at.parent_and_side) gap.leaf_node
            at.leaf_node))
    set_empty_size gap.leaf_node (start - gap.start)
    link_in_branch fuel new_start_branch at.parent_and_side
    pure (ok at.leaf_node)

  unfoldable pub insert_within :
      LeafInfo → (start end flags : ℕ) → Command VmaTree (Result VmaMapError ℕ)
  unfolding new_used_leaf new_empty_leaf new_branch reserve_node free_node link_within
  insert_within gap start end flags = used_leaf flags >>=? λ new_leaf.
      inspect_err (on_storage (new_empty_leaf node_size fuel (gap.end - end))) (free new_leaf)
      >>=? λ new_empty.
          inspect_err
            (on_storage (
              new_branch node_size fuel (end + 1) (parent_of gap.parent_and_side) new_leaf
                new_empty))
            (free new_empty >> free new_leaf)
          >>=? λ end_branch.
              inspect_err (on_storage (reserve_node node_size fuel))
                (free end_branch >> free new_empty >> free new_leaf)
              >>=? λ start_branch. link_within gap start end end_branch start_branch

  -- What follows the search for the gap.
  unfoldable pub insert_found :
      LeafInfo → (start end flags : ℕ) → Command VmaTree (Result VmaMapError ℕ)
  unfolding insert_exact insert_at_end insert_at_start insert_within
  insert_found gap start end flags = do
    n ← read_node gap.leaf_node
    assert (is_empty_leaf n)
    assert (leb gap.start start)
    assert (leb end gap.end)
    if gap.start == start && (end == gap.end)
        then insert_exact fuel gap flags
        else if ltb gap.start start && (end == gap.end)
        then insert_at_end gap start flags
        else if gap.start == start && ltb end gap.end
        then insert_at_start gap end flags
        else if ltb gap.start start && ltb end gap.end
        then insert_within gap start end flags
        else panic

  -- `insert`; the sums panic where they leave the range.
  unfoldable pub insert : (start len flags : ℕ) → Command VmaTree (Result VmaMapError ℕ)
  unfolding insert_found
  insert start len flags = do
    assert (ltb (start + len) (2 ^ 64))
    end ← sub_checked (start + len) 1
    gap ← get_leaf_containing fuel start
    insert_found gap start end flags
