-- ===== src/Vma/Node.antt =====
-- The nodes of the tree of kernel/src/vma.rs: `Node`, `BranchNode` with its packed fields, `LeafNode`
-- and `NodeFlags`. A `BranchNodePtr` and the `NodePtr` of the same node differ by a constant, and
-- both are the address of the node here.
pub mod Fields
pub mod Flags
use x.Base.{
  ℕ, ◌+◌, ◌*◌, ◌^◌, ◌/◌, ◌%◌, ◌-◌, bit_and, bit_or, Bool, true, false, not, ◌==◌, if◌then◌else◌,
  to_bit, Option, none, some,
}
use x.Paging.{flag, not_u64}

pub data NodeColor : Type 0 where
  red black : NodeColor

pub data Side : Type 0 where
  left_side right_side : Side

-- `!side`.
abbrev pub opposite : Side → Side
opposite left_side = right_side
opposite right_side = left_side

-- `packed_fields` holds the color in bit 0, `is_temp_null` in bit 1 and the pivot above.
pub record BranchNode : Type 0 where
  pub packed_fields : ℕ
  pub max_empty_area_size : ℕ
  pub parent : Option ℕ
  pub left : ℕ
  pub right : ℕ

pub data LeafNode : Type 0 where
  empty : (size : ℕ) → LeafNode
  used : (flags : ℕ) → LeafNode

pub data Node : Type 0 where
  branch : BranchNode → Node
  leaf : LeafNode → Node

abbrev pub placeholder : Node
placeholder = leaf (empty 0)

-- The discriminants of `NodeColor`.
abbrev pub color_bit : NodeColor → ℕ
color_bit red = 0
color_bit black = 1

-- `BranchNode::new`.
unfoldable pub new_branch_node :
    (pivot : ℕ) (is_temp_null : Bool)
    → NodeColor
    → (parent : Option ℕ) → (left right : ℕ) → BranchNode
new_branch_node pivot is_temp_null color parent left right = record {
  packed_fields =
      bit_or (bit_or (bit_and pivot (not_u64 3)) (to_bit is_temp_null * 2)) (color_bit color);
  max_empty_area_size = 0;
  parent = parent;
  left = left;
  right = right;
}

unfoldable pub pivot : BranchNode → ℕ
pivot b = bit_and b.packed_fields (not_u64 3)

unfoldable pub branch_color : BranchNode → NodeColor
branch_color b = if bit_and b.packed_fields 1 == 0 then red else black

unfoldable pub is_temp_null : BranchNode → Bool
is_temp_null b = not (bit_and b.packed_fields 2 == 0)

-- `NodePtr::color`: leaves are black.
unfoldable pub color : Node → NodeColor
unfolding branch_color
color (branch b) = branch_color b
color (leaf l) = black

unfoldable pub with_pivot : ℕ → BranchNode → BranchNode
with_pivot p b = record b {
  packed_fields = bit_or (bit_and b.packed_fields 3) (bit_and p (not_u64 3));
}

unfoldable pub with_color : NodeColor → BranchNode → BranchNode
with_color c b = record b {
  packed_fields = bit_or (bit_and b.packed_fields (not_u64 1)) (color_bit c);
}

-- `Index<Side>`.
abbrev pub child : BranchNode → Side → ℕ
child b left_side = b.left
child b right_side = b.right

abbrev pub with_child : BranchNode → Side → ℕ → BranchNode
with_child b left_side n = record b { left = n }
with_child b right_side n = record b { right = n }

abbrev pub is_branch : Node → Bool
is_branch (branch b) = true
is_branch (leaf l) = false

abbrev pub is_leaf : Node → Bool
is_leaf (branch b) = false
is_leaf (leaf l) = true

abbrev pub is_empty_leaf : Node → Bool
is_empty_leaf (branch b) = false
is_empty_leaf (leaf (empty size)) = true
is_empty_leaf (leaf (used flags)) = false

abbrev pub is_used_leaf : Node → Bool
is_used_leaf (branch b) = false
is_used_leaf (leaf (empty size)) = false
is_used_leaf (leaf (used flags)) = true

-- The largest empty area below a node, as a branch above it reads it.
abbrev pub empty_area : Node → ℕ
empty_area (branch b) = b.max_empty_area_size
empty_area (leaf (used flags)) = 0
empty_area (leaf (empty size)) = size

-- `Segment` and `SegmentFlags`.
pub record SegmentFlags : Type 0 where
  pub read : Bool
  pub write : Bool
  pub execute : Bool

pub record Segment : Type 0 where
  pub start : ℕ
  pub len : ℕ
  pub flags : SegmentFlags

-- The getters and setters of `NodeFlags`, a word of 32 bits.
abbrev pub readable : ℕ → Bool
readable w = flag 0 w

abbrev pub flags_writable : ℕ → Bool
flags_writable w = flag 1 w

abbrev pub executable : ℕ → Bool
executable w = flag 2 w

abbrev pub locked : ℕ → Bool
locked w = flag 31 w

-- A setter of `bitfield!` for bit `n`.
unfoldable pub set_flag : (n : ℕ) → Bool → ℕ → ℕ
set_flag n value w = w / 2 ^ (n + 1) * 2 ^ (n + 1) + to_bit value * 2 ^ n + w % 2 ^ n

unfoldable pub set_locked : Bool → ℕ → ℕ
unfolding set_flag
set_locked value w = set_flag 31 value w

-- `NodeFlags::from`.
unfoldable pub node_flags : SegmentFlags → ℕ
unfolding set_flag
node_flags f = set_flag 2 f.execute (set_flag 1 f.write (set_flag 0 f.read 0))
