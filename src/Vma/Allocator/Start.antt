-- ===== src/Vma/Allocator/Start.antt =====
-- The start of a task on a segment: which area it is for, and what it refuses.
use x.Base.{
  ℕ, ◌+◌, ◌-◌, ◌/◌, ◌<◌, ◌≤◌, ◌≡◌, refl, ap, ◌∙◌, sym, subst, true, false, Option, some, Result, ok,
  err, arith, Bool-cases, inl, inr,
}
use x.Paging.{page_size}
use x.UserMapper.UnmapTask.{new_unmap}
use x.Vma.Node.{LeafNode, leaf, empty, used, locked, set_locked}
use x.Vma.Tree.{VmaTree, LeafInfo, node_at, get_leaf_containing, highest_user_address}
use x.Vma.Tree.Shape.{Shape, tip, Place, top, plug, lo_of, hi_of, depth, Stands, Ordered}
use x.Vma.Tree.Search.{Finds, finds, get_leaf_containing-Finds}
use x.Vma.Tree.Heap.{put, put-Writes, write-put}
use x.Vma.Tree.Leaves.{zoom_down, Writes-tip}
use x.Vma.Tree.Link.Reads.{zoom_top}
use x.Vma.Allocator.{
  UnmapTask, VmaUnmapError, segment_already_unmapped, segment_locked, start_unmap, new_unmap_task,
  set_locked_at,
}

-- What starting to unmap at an address does, by the leaf of the area that the address is in.
pub data StartsUnmap (s : VmaTree) (addr : ℕ) (t : Shape)
    : Option (Result VmaUnmapError UnmapTask × VmaTree) → Type 0 where
  free_area :
      (c : Place) (a area : ℕ)
      → plug c (tip a (empty area)) ≡ t
      → lo_of c ≤ addr
      → addr < hi_of c
      → StartsUnmap s addr t (some (err segment_already_unmapped, s))
  locked_area :
      (c : Place) (a flags : ℕ)
      → plug c (tip a (used flags)) ≡ t
      → lo_of c ≤ addr
      → addr < hi_of c
      → locked flags ≡ true
      → StartsUnmap s addr t (some (err segment_locked, s))
  started :
      (c : Place) (a flags : ℕ) (s' : VmaTree) (task : UnmapTask)
      → plug c (tip a (used flags)) ≡ t
      → lo_of c ≤ addr
      → addr < hi_of c
      → locked flags ≡ false
      → Stands s' top (plug c (tip a (used (set_locked true flags))))
      → task.start_address ≡ lo_of c
      → task.unmap_mem_task ≡ new_unmap (lo_of c) ((hi_of c - lo_of c) / page_size)
      → StartsUnmap s addr t (some (ok task, s'))

module _ (fuel addr : ℕ) (s : VmaTree) (info : LeafInfo)
    (run : get_leaf_containing fuel addr s ≡ some (info, s)) where
  start_empty :
      (area : ℕ)
      → node_at s info.leaf_node ≡ leaf (empty area)
      → start_unmap fuel addr s ≡ some (err segment_already_unmapped, s)
  unfolding start_unmap
  start_empty area e = ground arith

  start_locked :
      (flags : ℕ)
      → node_at s info.leaf_node ≡ leaf (used flags)
      → locked flags ≡ true
      → start_unmap fuel addr s ≡ some (err segment_locked, s)
  unfolding start_unmap
  start_locked flags e l = ground arith

  start_unlocked :
      (flags : ℕ)
      → node_at s info.leaf_node ≡ leaf (used flags)
      → locked flags ≡ false
      → start_unmap fuel addr s
        ≡ some (
          ok (new_unmap_task info.start info.end),
          put s info.leaf_node (leaf (used (set_locked true flags))),
        )
  unfolding start_unmap set_locked_at
  start_unlocked flags e l =
      let w = write-put s (info.leaf_node) (leaf (used (set_locked true flags))) in ground arith

-- The cases of a leaf that the search has found.
from_leaf :
    (s : VmaTree) (t : Shape) (fuel addr : ℕ) (c : Place) (l : LeafNode) (info : LeafInfo)
    → Stands s top t
    → get_leaf_containing fuel addr s ≡ some (info, s)
    → plug c (tip info.leaf_node l) ≡ t
    → node_at s info.leaf_node ≡ leaf l
    → info.start ≡ lo_of c
    → info.end + 1 ≡ hi_of c
    → info.start ≤ addr
    → addr ≤ info.end
    → StartsUnmap s addr t (start_unmap fuel addr s)
unfolding new_unmap_task
from_leaf s t fuel addr c (empty area) info st run p e lo hi b1 b2 =
    rw (start_empty fuel addr s info run area e)
      (free_area c info.leaf_node area p (omega arith) (omega arith))
from_leaf s t fuel addr c (used flags) info st run p e lo hi b1 b2 =
    elim (Bool-cases (locked flags)) [
      | inl is_locked ↦
          rw (start_locked fuel addr s info run flags e is_locked)
            (locked_area c info.leaf_node flags p (omega arith) (omega arith) is_locked)
      | inr is_not ↦
          let here =
            zoom_down c (tip info.leaf_node (used flags))
              (subst (λ x. Stands s top x) (sym p) st) in
          let wr = put-Writes s info.leaf_node (leaf (used (set_locked true flags))) in
          let st' =
            Writes-tip s _ c info.leaf_node (used flags) (used (set_locked true flags)) here wr in
          rw (start_unlocked fuel addr s info run flags e is_not) (
            started c info.leaf_node flags _ (new_unmap_task info.start info.end) p (omega arith)
              (omega arith) is_not
              (zoom_top c (tip info.leaf_node (used (set_locked true flags))) st') lo
              (ap (λ h. new_unmap info.start ((h - info.start) / page_size)) hi
                ∙ ap (λ b. new_unmap b ((hi_of c - b) / page_size)) lo))
    ]

from_search :
    (s : VmaTree) (t : Shape) (fuel addr : ℕ)
    → Stands s top t
    → (r : Option (LeafInfo × VmaTree)) → get_leaf_containing fuel addr s ≡ r
    → Finds s addr t r
    → StartsUnmap s addr t (start_unmap fuel addr s)
from_search s t fuel addr st r run (finds c l info p e b lo hi b1 b2) =
    from_leaf s t fuel addr c l info st run p e lo hi b1 b2

-- Every address of a process belongs to one case: in a free area and in a locked segment the answer is
-- the error for it and nothing changes; an unlocked segment is locked, in the same tree otherwise, and
-- the task is for all the pages of the segment, from its first address on. The tree must be held by
-- the memory, with its pivots in order, and be less deep than the rounds of the search.
pub start_unmap-StartsUnmap :
    (s : VmaTree) (t : Shape) (fuel addr : ℕ)
    → Stands s top t
    → Ordered t 0 (highest_user_address + 1)
    → addr ≤ highest_user_address
    → depth t < fuel
    → StartsUnmap s addr t (start_unmap fuel addr s)
start_unmap-StartsUnmap s t fuel addr st o lim d =
    from_search s t fuel addr st _ refl (get_leaf_containing-Finds s t fuel addr st o lim d)
