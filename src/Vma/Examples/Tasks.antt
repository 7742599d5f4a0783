-- ===== src/Vma/Examples/Tasks.antt =====
-- The theorems on tasks, at the tree of the examples.
use x.Vma.Tree.Same.{size}
use x.Vma.Allocator.{start_unmap, start_try_map_at}
use x.Vma.Allocator.Start.{StartsUnmap, start_unmap-StartsUnmap}
use x.Vma.Allocator.TryMap.{TryMaps, start_try_map_at-TryMaps}
use x.Base.{arith}
use x.Vma.Tree.Shape.{depth, key}
use x.Vma.Examples.{state, tree, state-Stands, segment}

-- The tasks at this tree.
start_unmap-StartsUnmap_example : StartsUnmap state 0x4000 tree (start_unmap 8 0x4000 state)
unfolding depth key
start_unmap-StartsUnmap_example =
    start_unmap-StartsUnmap state tree 8 0x4000 state-Stands (omega arith) (omega arith)
      (omega arith)

start_try_map_at-TryMaps_example :
    TryMaps 48 8 state segment tree (start_try_map_at 48 8 segment state)
unfolding depth key size
start_try_map_at-TryMaps_example =
    start_try_map_at-TryMaps 48 8 state segment tree state-Stands (omega arith) (omega arith)
      (omega arith) (omega arith) (omega arith) (omega arith) (omega arith)
