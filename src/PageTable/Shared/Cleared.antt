-- ===== src/PageTable/Shared/Cleared.antt =====
-- Walks of the page tables where an entry is cleared.
use x.Base.{
  ℕ, ◌/◌, ◌≡◌, refl, sym, ◌∙◌, bit_and, true, false, ◌==◌, ◌&&◌, List, [], ◌∷◌, some, inl, inr,
  Bool-cases, arith,
}
use x.Paging.{present, address, address_mask, page_size}
use x.Paging.Fields.{bit_and-address_mask}
use x.PageAllocator.{Machine, Memory}
use x.PageAllocator.Bitmap.{is_reserved}
use x.PageTable.{levels, table_index, write_entry}
use x.PageTable.Index.{page_number, table_index_fields}
use x.PageTable.Extend.{Backs, Extends}
use x.PageTable.Walk.{leaf, Backed, leaf-present, leaf-missing}

-- The walk does not read the bits of an address that are cut off.
page_number-bit_and : (v : ℕ) → page_number (bit_and v address_mask) ≡ page_number v
page_number-bit_and v = omega (arith, bit_and-address_mask v)

pub leaf-bit_and :
    (m : Memory) (v table : ℕ)
    → leaf levels m (bit_and v address_mask) table ≡ leaf levels m v table
leaf-bit_and m v table =
    let (a, b, c, d) = table_index_fields v in
    let (a', b', c', d') = table_index_fields (bit_and v address_mask) in
    let same = page_number-bit_and v in
    unfold leaf in rw (a', b', c', d', same, ← a, ← b, ← c, ← d) refl

-- Clearing an entry that names a free page ends no walk through reserved tables to a reserved page.
module _ (s t : Machine) (e : Extends s t) (last index : ℕ)
    (free : is_reserved s.allocator.memory_bitmap (address (t.memory last index) / page_size)
      ≡ false) where
  -- An entry that names a reserved page is another one.
  kept :
      (a i : ℕ)
      → Backs s a
      → present (s.memory a i) ≡ true
      → Backs s (address (s.memory a i))
      → write_entry t.memory last index 0 a i ≡ s.memory a i
  kept a i b is named = elim (Bool-cases (a == last && i == index)) [
    | inl here ↦ ground (arith, free, named, e.keeps a i b is)
    | inr elsewhere ↦ unfold write_entry in rw elsewhere (e.keeps a i b is)
  ]

  pub leaf_kept :
      (ls : List (ℕ × ℕ)) (w table old : ℕ)
      → Backed ls s w table
      → leaf ls s.memory w table ≡ some old
      → Backs s (address old)
      → leaf ls (write_entry t.memory last index 0) w table ≡ some old
  leaf_kept [] w table old b h named = unfold leaf in cc h
  leaf_kept ((i, level_mask) ∷ []) w table old b h named =
      unfold leaf in ground (arith, h, b, named, kept table (table_index i level_mask w))
  leaf_kept ((i, level_mask) ∷ next ∷ rest) w table old b h named =
      elim (Bool-cases (present (s.memory table (table_index i level_mask w)))) [
        | inl is ↦
            let same = kept table (table_index i level_mask w) b.0 is (b.1 is).0 in
            leaf-present i level_mask next rest _ w table (rw same is)
            ∙ rw same (
                leaf_kept (next ∷ rest) w _ old (b.1 is)
                  (sym (leaf-present i level_mask next rest s.memory w table is) ∙ h) named)
        | inr is_not ↦ absurd (cc (leaf-missing i level_mask next rest s.memory w table is_not))
      ]
