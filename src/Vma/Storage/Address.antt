-- ===== src/Vma/Storage/Address.antt =====
-- The address of an entry, and the page and index that `free` takes from it.
use x.Base.{ℕ, ◌+◌, ◌-◌, ◌*◌, ◌/◌, ◌%◌, ◌^◌, ◌≤◌, ◌<◌, ◌≡◌, ap, ◌∙◌, bit_and, arith}
use x.Base.Bits.{bit_and_field, bit_and_mask}
use native.Mathlib.Nat.{mul-le-mul_right, mul-div_cancel}
use x.Paging.{page_size, not_u64}
use x.Vma.StoragePage.{max_nodes}
use x.Vma.StoragePage.Capacity.{max_nodes_lem}
use x.Vma.Storage.{node_address}

-- `free` finds the page and the index that the address was made from.
pub node_address_lem :
    (node_size fuel page i : ℕ)
    → 0 < node_size
    → page % page_size ≡ 0
    → page < 2 ^ 64
    → i < max_nodes node_size
    → (bit_and (node_address node_size fuel page i) (not_u64 (page_size - 1)) ≡ page)
      × (bit_and (node_address node_size fuel page i) (page_size - 1) / node_size ≡ i)
unfolding node_address
node_address_lem node_size fuel page i pos aligned fits below =
    let most = (max_nodes_lem node_size (max_nodes node_size) pos).1 (omega arith) in
    let room : (i + 1) * node_size ≤ max_nodes node_size * node_size =
      mul-le-mul_right node_size (omega arith) in
    let inside : i * node_size < page_size = omega (arith, most, room) in
    let low : bit_and (page + i * node_size) (page_size - 1) ≡ i * node_size =
      omega (arith, bit_and_mask 12 (page + i * node_size)) in
    (
      omega (arith, bit_and_field 12 52 (page + i * node_size)),
      ap (λ (t : ℕ). t / node_size) low ∙ mul-div_cancel i pos,
    )
