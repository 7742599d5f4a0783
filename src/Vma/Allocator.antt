-- ===== src/Vma/Allocator.antt =====
-- `VMAAllocator`, `MapTask` and `UnmapTask` of kernel/src/vma.rs: the tree of areas together with the
-- page tables of the process. The lock around the tree serialises these calls.
pub mod Start
pub mod InGap
pub mod TryMap
use x.Base.{
  ℕ, ◌+◌, ◌-◌, ◌/◌, ◌%◌, ◌^◌, Bool, true, false, ltb, leb, ◌==◌, if◌then◌else◌, Option, none, some,
  Result, ok, err, Command, pure, panic, ◌>>=◌, ◌>>◌, ◌>>=?◌, assert, sub_checked,
}
use x.Paging.{page_size}
use x.PageAllocator.{Machine}
use x.UserMapper.UnmapTask.{UnmapMemTask, Poll, new_unmap}
use x.UserMapper.UnmapTask as Unmap
use x.UserMapper.MapTask.{MapMemTask, MapPoll, new_map, run_map}
use x.UserMapper.MapTask as Map
use x.Vma.Node.{
  SegmentFlags, Segment, Node, branch, leaf, LeafNode, empty, used, placeholder, locked, set_locked,
  node_flags,
}
use x.Vma.Storage.{Storage, VmaMapError, segment_already_exists, try_new_page, new_empty_leaf}
use x.Vma.Tree.{
  VmaTree, LeafInfo, node_at, on_storage, read_leaf, write, unwrap_leaf, get_leaf_containing,
  highest_user_address,
}
use x.Vma.Tree.Insert.{insert}
use x.Vma.Tree.Remove.{delete}

pub data VmaUnmapError : Type 0 where
  segment_already_unmapped segment_locked : VmaUnmapError

-- `unwrap_used_flags_ptr`, changed by `set_locked`.
unfoldable pub set_locked_at : Bool → (node : ℕ) → Command VmaTree (Unit {0})
unfolding write set_locked
set_locked_at value node = do
  l ← read_leaf node
  elim l [ empty size ↦ panic | used flags ↦ write node (leaf (used (set_locked value flags))) ]

-- `UnmapTask`.
pub record UnmapTask : Type 0 where
  pub start_address : ℕ
  pub unmap_mem_task : UnmapMemTask

unfoldable pub new_unmap_task : (start end : ℕ) → UnmapTask
unfolding new_unmap
new_unmap_task start end = record {
  start_address = start;
  unmap_mem_task = new_unmap start ((end + 1 - start) / page_size);
}

unfoldable pub start_unmap :
    (fuel segment_address : ℕ) → Command VmaTree (Result VmaUnmapError UnmapTask)
unfolding set_locked_at new_unmap_task
start_unmap fuel segment_address = do
  at ← get_leaf_containing fuel segment_address
  l ← read_leaf at.leaf_node
  elim l [
    | empty size ↦ pure (err segment_already_unmapped)
    | used flags ↦
        if locked flags
        then pure (err segment_locked)
        else do set_locked_at true at.leaf_node; pure (ok (new_unmap_task at.start at.end))
  ]

-- A command on the machine, with its memory and its allocator of pages.
abbrev pub on_tree_machine : {A : Type 0} → Command Machine A → Command VmaTree A
on_tree_machine f s = elim (f s.storage.machine) [
  | none ↦ none
  | some (a, m) ↦ some (a, record s { storage = record (s.storage) { machine = m } })
]

-- What `NodeStorageList::new` makes: a page of nodes and the temporary node.
module _ (node_size fuel : ℕ) where
  unfoldable pub new_list : (temp_node : ℕ) → Command Storage Bool
  unfolding try_new_page
  new_list temp_node = do
    head_page ← try_new_page node_size fuel none
    elim head_page [
      | none ↦ pure false
      | some page ↦ λ s. some (
        true,
        record s {
          head = page;
          temp_node = temp_node;
          nodes = λ a. if a == temp_node then placeholder else s.nodes a;
        },
      )
    ]

  -- `VMATree::new`: `false` is the error of the allocation.
  unfoldable pub new_tree : (temp_node : ℕ) → Command VmaTree Bool
  unfolding new_list new_empty_leaf
  new_tree temp_node = do
    made ← on_storage (new_list temp_node)
    if made
        then (do
          root ← on_storage (new_empty_leaf node_size fuel highest_user_address)
          elim root [ err e ↦ panic | ok a ↦ λ s. some (true, record s { root = a }) ])
        else pure false

  -- The map task of a segment, once its leaf is there and locked.
  unfoldable pub start_in_gap : Segment → Command VmaTree (Result VmaMapError MapMemTask)
  unfolding insert node_flags set_locked_at new_map
  start_in_gap new_segment =
      insert node_size fuel new_segment.start new_segment.len (node_flags new_segment.flags)
      >>=? λ new_leaf. do
        set_locked_at true new_leaf
        pure (ok (new_map new_segment.start (new_segment.len / page_size) new_segment.flags))

  -- What follows the search for the area at the start of the segment.
  unfoldable pub map_found :
      Segment → (new_segment_end : ℕ) → LeafInfo → Command VmaTree (Result VmaMapError MapMemTask)
  unfolding start_in_gap
  map_found new_segment new_segment_end at =
      if ltb at.end new_segment_end then pure (err segment_already_exists) else (do
        l ← read_leaf at.leaf_node
        elim l [
          | empty size ↦ start_in_gap new_segment
          | used flags ↦ pure (err segment_already_exists)
        ])

  unfoldable pub start_try_map_at : Segment → Command VmaTree (Result VmaMapError MapMemTask)
  start_try_map_at new_segment = do
    assert (new_segment.start % page_size == 0)
    assert (new_segment.len % page_size == 0)
    assert (ltb (new_segment.start + new_segment.len) (2 ^ 64))
    new_segment_end ← sub_checked (new_segment.start + new_segment.len) 1
    assert (leb new_segment_end highest_user_address)
    at ← get_leaf_containing fuel new_segment.start
    map_found new_segment new_segment_end at

  -- The answer of an unmap task: once all pages are gone, the segment goes.
  unfoldable pub end_unmap : (start_address : ℕ) → Poll → Command VmaTree (Unit {0})
  unfolding delete
  end_unmap start_address Unmap.pending = pure tt
  end_unmap start_address (Unmap.ready pages_freed) = delete node_size fuel start_address

  -- `UnmapTask::run`.
  unfoldable pub run_unmap_task :
      (pml4 : ℕ) (should_suspend : ℕ → Bool) → UnmapTask → Command VmaTree (Poll × UnmapTask)
  unfolding Unmap.run end_unmap
  run_unmap_task pml4 should_suspend task s =
      elim (Unmap.run pml4 should_suspend task.unmap_mem_task s.storage.machine) [
        | none ↦ none
        | some (poll, next, m) ↦
            (do
              end_unmap task.start_address poll
              pure (poll, record task { unmap_mem_task = next }))
              (record s { storage = record (s.storage) { machine = m } })
      ]

  -- The answer of a map task: once all pages are there, the segment is unlocked, and deleted.
  unfoldable pub end_map : (start_address : ℕ) → MapPoll → Command VmaTree (Unit {0})
  unfolding get_leaf_containing write set_locked_at delete
  end_map start_address Map.pending = pure tt
  end_map start_address (Map.ready (err e)) = pure tt
  end_map start_address (Map.ready (ok pages_allocated)) = do
    at ← get_leaf_containing fuel start_address
    l ← read_leaf at.leaf_node
    elim l [ empty size ↦ panic | used flags ↦ assert (locked flags) ]
    set_locked_at false at.leaf_node
    delete node_size fuel start_address

  -- `MapTask::run`.
  unfoldable pub run_map_task :
      (pml4 : ℕ) (should_suspend : ℕ → Bool) → MapMemTask → Command VmaTree (MapPoll × MapMemTask)
  unfolding run_map end_map
  run_map_task pml4 should_suspend task = do
    (poll, next) ← on_tree_machine (run_map pml4 should_suspend fuel 0 task)
    end_map task.start_address poll
    pure (poll, next)
