-- ===== src/Vma/Examples/Nodes.antt =====
-- The theorems on the fields of nodes, at single nodes.
use x.Vma.Node.{new_branch_node, with_color}
use x.Vma.Node.Fields.{Packs, new_branch_node-Packs, with_color-Packs}
use x.Base.{false, none, arith}
use x.Vma.Node.{red, black, BranchNode}

-- The fields of a node.
abbrev old_branch : BranchNode
old_branch = new_branch_node 0x5000 false black none 0x140 0x180

with_color-Packs_example : Packs (with_color red old_branch) 0x5000 false red
with_color-Packs_example =
    with_color-Packs (new_branch_node-Packs 0x5000 false black none 0x140 0x180 (omega arith))
      (omega arith) red
