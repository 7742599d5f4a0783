-- ===== src/Vma/Examples.antt =====
-- A tree of three branches in the memory, whose two lower ones are red.
mod Trees
mod Links
mod Tasks
mod Nodes
mod Colors
use x.Vma.Allocator.{start_unmap, start_try_map_at}
use x.Vma.Allocator.Start.{StartsUnmap, start_unmap-StartsUnmap}
use x.Vma.Allocator.TryMap.{TryMaps, start_try_map_at-TryMaps}
use x.Paging.{page_size, not_u64}
use x.Vma.StoragePage.{max_nodes}
use x.Vma.Storage.{node_address}
use x.Vma.Storage.Address.{node_address_lem}
use x.Vma.Node.{new_branch_node, with_color, set_locked, locked}
use x.Vma.Node.Fields.{Packs, new_branch_node-Packs, with_color-Packs}
use x.Vma.Node.Flags.{ReadsFlags, set_locked-ReadsFlags}
use x.Base.{
  true, false, bit_and, ◌/◌, ◌^◌, ℕ, ◌+◌, ◌-◌, ◌<◌, ◌≡◌, refl, ◌==◌, if◌then◌else◌, Option, none,
  some, ◌∷◌, ◌++◌, [], ok, arith,
}
use x.Vma.Node.{
  red, black, left_side, right_side, BranchNode, Node, branch, leaf, empty, used, Segment,
}
use x.Vma.StoragePage.{StoragePage}
use x.Vma.Tree.{VmaTree, highest_user_address, get_leaf_containing, update_max_empty_area_data}
use x.Vma.Tree.Insert.{insert}
use x.Vma.Tree.Link.{rotate, fix_insert, link_in_branch}
use x.Vma.Tree.Shape.{
  Shape, tip, fork, Place, top, below, beside, lo_of, hi_of, areas, all_areas, areas_before,
  areas_behind, depth, Stands, Ordered, key, occurs, occurs_at, height,
}
use x.Vma.Tree.Search.{Finds, get_leaf_containing-Finds}
use x.Vma.Tree.Rotate.{rotate-Stands, turned}
use x.Vma.Tree.Same.{Same, size}
use x.Vma.Tree.Zoom.{color_of}
use x.Vma.Tree.Measure.{Measured, top_color, update_max_empty_area_data-Measured}
use x.Vma.Tree.Link.Fix.{Repaired, fix_insert-Repaired}
use x.Vma.Tree.Link.Linked.{Unlinked, link_in_branch-areas}
use x.Vma.Tree.Insert.Exact.{insert-exact}

abbrev pub no_page : StoragePage
no_page = record { next_page = none; prev_page = none; free_entries = 0; usage_bitmap = [] }

abbrev pub state_of : (root : ℕ) → (ℕ → Node) → VmaTree
state_of root nodes = record {
  root = root;
  storage = record {
    nodes = nodes;
    pages = λ p. no_page;
    head = 0;
    temp_node = 0;
    pages_used = 0;
    machine = record {
      allocator = record { memory_bitmap = []; total_pages = 0; free_pages = 0; page_table = 0 };
      memory = λ a i. 0;
    };
  };
}

abbrev pub node_of : (packed area : ℕ) (parent : Option ℕ) (left right : ℕ) → Node
node_of packed area parent left right = branch (record {
  packed_fields = packed;
  max_empty_area_size = area;
  parent = parent;
  left = left;
  right = right;
})

abbrev pub memory : ℕ → Node
memory b =
    if b == 0x100
    then node_of 0x3001 0x3000 none 0x140 0x180
    else if b == 0x140
    then leaf (empty 0x3000)
    else if b == 0x180
    then node_of 0x5000 0x2000 (some 0x100) 0x1c0 0x240
    else if b == 0x1c0
    then leaf (used 5)
    else if b == 0x240
    then node_of 0x7000 0x2000 (some 0x180) 0x280 0x2c0
    else if b == 0x280
    then leaf (empty 0x2000)
    else leaf (used 7)

abbrev pub state : VmaTree
state = state_of 0x100 memory

abbrev pub low_leaf : Shape
low_leaf = tip 0x140 (empty 0x3000)

abbrev pub middle_leaf : Shape
middle_leaf = tip 0x1c0 (used 5)

abbrev pub last_branch : Shape
last_branch = fork 0x240 0x7000 0x2000 (tip 0x280 (empty 0x2000)) (tip 0x2c0 (used 7))

abbrev pub place_of_second : Place
place_of_second = below right_side 0x100 0x3001 0x3000 low_leaf top

abbrev pub place_of_last : Place
place_of_last = below right_side 0x180 0x5000 0x2000 middle_leaf place_of_second

abbrev pub tree : Shape
tree = fork 0x100 0x3001 0x3000 low_leaf (fork 0x180 0x5000 0x2000 middle_leaf last_branch)

pub state-Stands : Stands state top tree
unfolding occurs occurs_at
state-Stands = record {
  root = refl;
  here = (refl, refl, (refl, refl, (refl, refl, refl)));
  around = tt;
  once = λ b. ground arith;
}

pub second-Stands : Stands state place_of_second (fork 0x180 0x5000 0x2000 middle_leaf last_branch)
unfolding occurs occurs_at
second-Stands = record {
  root = refl;
  here = (refl, refl, (refl, refl, refl));
  around = (refl, refl, tt);
  once = λ b. ground arith;
}

pub last-Stands : Stands state place_of_last last_branch
unfolding occurs occurs_at
last-Stands = record {
  root = refl;
  here = (refl, refl, refl);
  around = (refl, refl, (refl, refl, tt));
  once = λ b. ground arith;
}

abbrev pub segment : Segment
segment = record {
  start = 0x5000;
  len = 0x2000;
  flags = record { read = true; write = true; execute = false };
}

abbrev pub place_of_gap : Place
place_of_gap = below left_side 0x240 0x7000 0x2000 (tip 0x2c0 (used 7)) place_of_last
