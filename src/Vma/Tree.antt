-- ===== src/Vma/Tree.antt =====
-- `VMATree` of kernel/src/vma.rs: reading and writing through node pointers, the search for an
-- address, the update of the empty areas and the rotations. A pointer to a branch that is no branch
-- fails the assertion of `unwrap_branch`.
pub mod Leaves
pub mod Reach
pub mod Link
pub mod Insert
pub mod Delete
pub mod Remove
pub mod Shape
pub mod Search
pub mod Heap
pub mod Relink
pub mod Rotate
pub mod Same
pub mod Zoom
pub mod Measure
pub mod Balance
pub mod Depth
use x.Base.{
  ℕ, zero, suc, ◌+◌, ◌-◌, ◌≤◌, max, Bool, true, false, not, ltb, leb, ◌==◌, ◌&&◌, if◌then◌else◌,
  Option, none, some, Command, pure, panic, ◌>>=◌, ◌>>◌, unwrap, assert, sub_checked,
}
use x.Vma.Node.{
  NodeColor, red, black, Side, left_side, right_side, BranchNode, LeafNode, empty, used, Node,
  branch, leaf, pivot, color, with_color, with_child, is_branch, empty_area,
}
use x.Vma.Storage.{Storage}

-- `arch::process::HIGHEST_USER_ADDRESS`.
abbrev pub highest_user_address : ℕ
highest_user_address = 0x7fffffffffff

pub record VmaTree : Type 0 where
  pub root : ℕ
  pub storage : Storage

pub record LeafInfo : Type 0 where
  pub leaf_node : ℕ
  pub parent_and_side : Option (ℕ × Side)
  pub start : ℕ
  pub end : ℕ

abbrev pub node_at : VmaTree → ℕ → Node
node_at s a = s.storage.nodes a

abbrev pub on_storage : {A : Type 0} → Command Storage A → Command VmaTree A
on_storage f s = elim (f s.storage) [
  | none ↦ none
  | some (a, t) ↦ some (a, record s { storage = t })
]

abbrev pub read_node : ℕ → Command VmaTree Node
read_node a s = some (node_at s a, s)

unfoldable pub write : ℕ → Node → Command VmaTree (Unit {0})
write a n s = some (
  tt,
  record s {
    storage = record (s.storage) { nodes = λ b. if b == a then n else s.storage.nodes b };
  },
)

abbrev pub unwrap_branch : Node → Command VmaTree BranchNode
unwrap_branch (branch b) = pure b
unwrap_branch (leaf l) = panic

abbrev pub unwrap_leaf : Node → Command VmaTree LeafNode
unwrap_leaf (branch b) = panic
unwrap_leaf (leaf l) = pure l

abbrev pub read_branch : ℕ → Command VmaTree BranchNode
read_branch a s = unwrap_branch (node_at s a) s

abbrev pub read_leaf : ℕ → Command VmaTree LeafNode
read_leaf a s = unwrap_leaf (node_at s a) s

-- A change of a branch in place.
unfoldable pub modify : ℕ → (BranchNode → BranchNode) → Command VmaTree (Unit {0})
unfolding write
modify a f = do b ← read_branch a; write a (branch (f b))

abbrev pub set_root : ℕ → Command VmaTree (Unit {0})
set_root a s = some (tt, record s { root = a })

unfoldable pub set_color : NodeColor → ℕ → Command VmaTree (Unit {0})
unfolding modify with_color
set_color c a = modify a (with_color c)

abbrev pub color_at : ℕ → Command VmaTree NodeColor
color_at a s = some (color (node_at s a), s)

-- `BranchNodePtr::get_parent` and `get_grandparent`.
unfoldable pub get_parent : ℕ → Command VmaTree ℕ
get_parent a = do b ← read_branch a; unwrap b.parent

unfoldable pub get_grandparent : ℕ → Command VmaTree ℕ
unfolding get_parent
get_grandparent a = do p ← get_parent a; get_parent p

-- `is_left_side` and `is_right_side`: `none` at the root.
unfoldable pub is_left_side : ℕ → Command VmaTree (Option Bool)
is_left_side a = do
  b ← read_branch a
  elim b.parent [ none ↦ pure none | some p ↦ do pb ← read_branch p; pure (some (a == pb.left)) ]

unfoldable pub is_right_side : ℕ → Command VmaTree (Option Bool)
is_right_side a = do
  b ← read_branch a
  elim b.parent [ none ↦ pure none | some p ↦ do pb ← read_branch p; pure (some (a == pb.right)) ]

unfoldable pub get_sibling : ℕ → Command VmaTree ℕ
unfolding get_parent
get_sibling a = do
  p ← get_parent a
  pb ← read_branch p
  if a == pb.left then pure pb.right else if a == pb.right then pure pb.left else panic

-- The largest empty area of the two children.
unfoldable pub children_area : BranchNode → Command VmaTree ℕ
children_area b s = some (max (empty_area (node_at s b.left)) (empty_area (node_at s b.right)), s)

unfoldable pub recalculate_max_empty_area_size : ℕ → Command VmaTree (Unit {0})
unfolding children_area modify
recalculate_max_empty_area_size a = do
  b ← read_branch a
  area ← children_area b
  modify a (λ c. record c { max_empty_area_size = area })

-- The parent's pointer to a branch, or the root.
unfoldable pub replace_child : (old new : ℕ) → Command VmaTree (Unit {0})
unfolding is_left_side get_parent modify
replace_child old new = do
  side ← is_left_side old
  elim side [
    | none ↦ set_root new
    | some true ↦ do p ← get_parent old; modify p (λ b. record b { left = new })
    | some false ↦ do p ← get_parent old; modify p (λ b. record b { right = new })
  ]

-- A parent is written where the node is a branch.
unfoldable pub set_parent : ℕ → Option ℕ → Command VmaTree (Unit {0})
unfolding write
set_parent a p s = elim (node_at s a) [
  | branch b ↦ write a (branch (record b { parent = p })) s
  | leaf l ↦ some (tt, s)
]

unfoldable pub left_rotate : ℕ → Command VmaTree (Unit {0})
unfolding set_parent replace_child modify recalculate_max_empty_area_size
left_rotate node = do
  nb ← read_branch node
  let right = nb.right
  rb ← read_branch right
  modify node (λ b. record b { right = rb.left })
  set_parent rb.left (some node)
  nb' ← read_branch node
  modify right (λ b. record b { parent = nb'.parent })
  replace_child node right
  modify right (λ b. record b { left = node })
  modify node (λ b. record b { parent = some right })
  recalculate_max_empty_area_size node
  recalculate_max_empty_area_size right

unfoldable pub right_rotate : ℕ → Command VmaTree (Unit {0})
unfolding set_parent replace_child modify recalculate_max_empty_area_size
right_rotate node = do
  nb ← read_branch node
  let left = nb.left
  lb ← read_branch left
  modify node (λ b. record b { left = lb.right })
  set_parent lb.right (some node)
  nb' ← read_branch node
  modify left (λ b. record b { parent = nb'.parent })
  replace_child node left
  modify left (λ b. record b { right = node })
  modify node (λ b. record b { parent = some left })
  recalculate_max_empty_area_size node
  recalculate_max_empty_area_size left

unfoldable pub replace_node : (old_branch new_node : ℕ) → Command VmaTree (Unit {0})
unfolding replace_child set_parent
replace_node old_branch new_node = do
  replace_child old_branch new_node
  ob ← read_branch old_branch
  set_parent new_node ob.parent

-- The loops down and up the tree, with the rounds that are left.
unfoldable pub descend :
    (rounds addr : ℕ)
    → (node : ℕ) (parent_and_side : Option (ℕ × Side)) (start end : ℕ) → Command VmaTree LeafInfo
descend zero addr node parent_and_side start end s = none
descend (suc rounds) addr node parent_and_side start end s = elim (node_at s node) [
  | leaf l ↦
      if leb 1 end
      then some (
        record {
          leaf_node = node;
          parent_and_side = parent_and_side;
          start = start;
          end = end - 1;
        },
        s,
      )
      else none
  | branch b ↦
      let p = pivot b in
      let lower = descend rounds addr b.left (some (node, left_side)) start p in
      let upper = descend rounds addr b.right (some (node, right_side)) p end in
      if ltb addr p
      then (if leb p end then lower s else none)
      else if leb start p
      then upper s
      else none
]

unfoldable pub get_leaf_containing : (rounds addr : ℕ) → Command VmaTree LeafInfo
unfolding descend pivot
get_leaf_containing rounds addr s =
    if leb addr highest_user_address
    then descend rounds addr s.root none 0 (highest_user_address + 1) s
    else none

unfoldable pub update_max_empty_area_data :
    (rounds : ℕ) (current_branch : Option ℕ) → Command VmaTree (Unit {0})
unfolding children_area modify
update_max_empty_area_data zero current_branch s = none
update_max_empty_area_data (suc rounds) none s = some (tt, s)
update_max_empty_area_data (suc rounds) (some a) s =
    (do
      b ← read_branch a
      area ← children_area b
      modify a (λ c. record c { max_empty_area_size = area })
      update_max_empty_area_data rounds b.parent)
      s

unfoldable pub find_min : (rounds node : ℕ) → Command VmaTree ℕ
find_min zero node s = none
find_min (suc rounds) node s =
    (do
      b ← read_branch node
      l ← read_node b.left
      let lower = find_min rounds b.left in if is_branch l then lower else pure node)
      s

unfoldable pub min_leaf : (rounds node : ℕ) → Command VmaTree ℕ
min_leaf zero node s = none
min_leaf (suc rounds) node s = elim (node_at s node) [
  | branch b ↦ min_leaf rounds b.left s
  | leaf l ↦ some (node, s)
]

unfoldable pub max_leaf : (rounds node : ℕ) → Command VmaTree ℕ
max_leaf zero node s = none
max_leaf (suc rounds) node s = elim (node_at s node) [
  | branch b ↦ max_leaf rounds b.right s
  | leaf l ↦ some (node, s)
]
