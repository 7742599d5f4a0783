-- ===== src/Vma/StoragePage/Capacity.antt =====
-- `MAX_NODES` is the largest number of entries that fits.
use x.Base.{
  ℕ, zero, suc, ◌+◌, ◌*◌, ◌/◌, ◌%◌, ◌≡◌, ◌≤◌, ◌<◌, ◌↔◌, arith, leb, leb→le, ◌==◌, ==_iff,
  Bool-cases, inl, inr,
}
use x.Vma.StoragePage.{max_array_and_bitmap_space, bitmap_byte_size, reduce_entries, max_nodes}

-- The entries, and a bit for each of them in whole bytes, fit behind the header of three words.
abbrev pub Fits : (node_size entries : ℕ) → Type 0
Fits node_size entries = 3 * 8 + entries * node_size + (entries + 7) / 8 ≤ 4096

bitmap_byte_size_lem : (n : ℕ) → bitmap_byte_size n ≡ (n + 7) / 8
unfolding bitmap_byte_size
bitmap_byte_size_lem n = elim (Bool-cases (n % 8 == 0)) [
  | inl whole ↦ rw whole (ground arith)
  | inr part ↦ rw part (ground arith)
]

-- The test of the code.
fits_lem :
    (node_size n : ℕ)
    → Fits node_size n ↔ (n * node_size + bitmap_byte_size n ≤ max_array_and_bitmap_space)
fits_lem node_size n =
    let same = bitmap_byte_size_lem n in (λ h. omega (arith, same), λ h. omega (arith, same))

reduce_entries-Fits :
    (node_size n : ℕ)
    → Fits node_size (reduce_entries node_size n)
      × (reduce_entries node_size n ≤ n)
      × ((m : ℕ) → reduce_entries node_size n < m → m ≤ n → ¬ Fits node_size m)
unfolding reduce_entries
reduce_entries-Fits node_size zero = (omega arith, omega arith, λ m a b. absurd (omega arith))
reduce_entries-Fits node_size (suc n) =
    elim (Bool-cases
      (leb (suc n * node_size + bitmap_byte_size (suc n)) max_array_and_bitmap_space)) [
        | inl fits ↦
            let here = (fits_lem node_size (suc n)).1 (leb→le _ _ fits) in
            rw fits (here, omega arith, λ m a b. absurd (omega arith))
        | inr large ↦
            let (fits, below, greatest) = reduce_entries-Fits node_size n in
            rw large (
              fits,
              omega arith,
              λ m a b f. elim (Bool-cases (m == suc n)) [
                | inl top ↦ ground (arith, (==_iff m (suc n)).0 top, (fits_lem node_size m).0 f)
                | inr other ↦ greatest m a (ground arith) f
              ],
            )
      ]

-- Beyond the entries that fit without a bitmap nothing fits.
too_many :
    (node_size m : ℕ)
    → 0 < node_size
    → max_array_and_bitmap_space / node_size < m
    → ¬ Fits node_size m
too_many node_size m h above f = grind arith

Fits-mono : (node_size m n : ℕ) → m ≤ n → Fits node_size n → Fits node_size m
unfolding bitmap_byte_size
Fits-mono node_size m n below f = grind arith

-- For nodes of a size above 0, so many entries fit in the 4096 bytes of a page, behind a header of
-- three words of eight bytes and with a bit for each entry in whole bytes, exactly when they are at
-- most MAX_NODES.
pub max_nodes_lem :
    (node_size m : ℕ) → 0 < node_size → (Fits node_size m ↔ (m ≤ max_nodes node_size))
unfolding max_nodes
max_nodes_lem node_size m h =
    let (fits, below, greatest) =
      reduce_entries-Fits node_size (max_array_and_bitmap_space / node_size) in
    (
      λ f. elim (Bool-cases (leb m (max_array_and_bitmap_space / node_size))) [
        | inl within ↦ elim (Bool-cases (leb m (max_nodes node_size))) [
          | inl done ↦ leb→le _ _ done
          | inr above ↦ absurd (greatest m (ground arith) (leb→le _ _ within) f)
        ]
        | inr beyond ↦ absurd (too_many node_size m h (ground arith) f)
      ],
      λ le. Fits-mono node_size m _ le fits,
    )
