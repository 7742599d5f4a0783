-- ===== src/Vma/Tree/Link.antt =====
-- `link_in_branch` and `fix_insert` of `VMATree` in kernel/src/vma.rs.
pub mod Reads
pub mod Uncle
pub mod Settle
pub mod Colors
pub mod Round
pub mod Red
pub mod Fixed
pub mod Rounds
pub mod Loop
pub mod Fix
pub mod Locate
pub mod Linked
use x.Base.{
  ℕ, zero, suc, ◌+◌, ◌-◌, ◌^◌, Bool, true, false, leb, ltb, ◌==◌, ◌&&◌, if◌then◌else◌, Option, none,
  some, Result, ok, err, Command, pure, panic, ◌>>=◌, ◌>>◌, ◌>>=?◌, inspect_err, unwrap, assert,
  sub_checked,
}
use x.Vma.Node.{
  NodeColor, red, black, Side, left_side, right_side, opposite, Node, branch, leaf, empty, used,
  new_branch_node, child, with_child, is_branch, is_empty_leaf, color,
}
use x.Vma.Storage.{VmaMapError, reserve_node, new_empty_leaf, new_used_leaf, new_branch, free_node}
use x.Vma.Tree.{
  VmaTree, LeafInfo, node_at, on_storage, read_branch, write, modify, set_root, set_color, color_at,
  get_parent, get_grandparent, is_left_side, is_right_side, left_rotate, right_rotate,
  get_leaf_containing, update_max_empty_area_data,
}

-- `is_left_side().unwrap()` and `is_right_side().unwrap()`.
unfoldable pub is_on : Side → ℕ → Command VmaTree Bool
unfolding is_left_side is_right_side
is_on left_side a = do r ← is_left_side a; unwrap r
is_on right_side a = do r ← is_right_side a; unwrap r

abbrev pub rotate : Side → ℕ → Command VmaTree (Unit {0})
rotate left_side a = left_rotate a
rotate right_side a = right_rotate a

-- `unwrap_empty_set_size`.
unfoldable pub set_empty_size : ℕ → (size : ℕ) → Command VmaTree (Unit {0})
unfolding write
set_empty_size a size s = elim (node_at s a) [
  | branch b ↦ none
  | leaf (empty old_size) ↦ write a (leaf (empty size)) s
  | leaf (used flags) ↦ none
]

-- The color of the parent, then that of the grandparent.
unfoldable pub recolor_parents : ℕ → Command VmaTree (Unit {0})
unfolding set_color get_parent get_grandparent
recolor_parents k = do p ← get_parent k; set_color black p; g ← get_grandparent k; set_color red g

-- A red uncle gives the violation to the grandparent.
unfoldable pub fix_red_uncle : (k uncle : ℕ) → Command VmaTree ℕ
unfolding recolor_parents set_color get_grandparent
fix_red_uncle k uncle = do set_color black uncle; recolor_parents k; get_grandparent k

-- A black uncle is settled by rotations; the parent of `k` is on `side`.
unfoldable pub fix_black_uncle : Side → (k : ℕ) → Command VmaTree ℕ
unfolding recolor_parents get_parent get_grandparent is_on
fix_black_uncle side k = do
  inner ← is_on (opposite side) k
  k' ← (if inner then (do p ← get_parent k; rotate side p; pure p) else pure k)
  recolor_parents k'
  g ← get_grandparent k'
  rotate (opposite side) g
  pure k'

-- A round of the loop of `fix_insert`.
unfoldable pub fix_insert_round : (k : ℕ) → Command VmaTree ℕ
unfolding get_parent get_grandparent is_on fix_red_uncle fix_black_uncle
fix_insert_round k = do
  p ← get_parent k
  on_right ← is_on right_side p
  let side = if on_right then right_side else left_side
  g ← get_grandparent k
  gb ← read_branch g
  let uncle = child gb (opposite side)
  c ← color_at uncle
  elim c [ red ↦ fix_red_uncle k uncle | black ↦ fix_black_uncle side k ]

unfoldable pub fix_insert_loop : (rounds k : ℕ) → Command VmaTree (Unit {0})
unfolding get_parent fix_insert_round
fix_insert_loop zero k s = none
fix_insert_loop (suc rounds) k s =
    (do
      p ← get_parent k
      c ← color_at p
      elim c [
        | black ↦ pure tt
        | red ↦ do
          k' ← fix_insert_round k
          let again = fix_insert_loop rounds k'
          λ t. (if k' == t.root then some (tt, t) else again t)
      ])
      s

unfoldable pub fix_insert : (rounds node : ℕ) → Command VmaTree (Unit {0})
unfolding fix_insert_loop set_color
fix_insert rounds node = do
  _ ← read_branch node
  fix_insert_loop rounds node
  λ s. set_color black s.root s

unfoldable pub link_in_branch :
    (rounds new_branch : ℕ) (new_parent_and_side : Option (ℕ × Side)) → Command VmaTree (Unit {0})
unfolding modify set_color fix_insert update_max_empty_area_data
link_in_branch rounds new_branch none = do
  set_root new_branch
  update_max_empty_area_data rounds (some new_branch)
link_in_branch rounds new_branch (some (new_parent, side)) = do
  modify new_parent (λ b. with_child b side new_branch)
  set_color red new_branch
  b ← read_branch new_parent
  elim b.parent [ none ↦ pure tt | some p ↦ fix_insert rounds new_branch ]
  update_max_empty_area_data rounds (some new_branch)

-- `parent_and_side.map(|(parent, _)| parent)`.
abbrev pub parent_of : Option (ℕ × Side) → Option ℕ
parent_of none = none
parent_of (some (p, side)) = some p
