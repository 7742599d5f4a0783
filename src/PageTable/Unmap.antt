-- ===== src/PageTable/Unmap.antt =====
-- `unmap_and_free_page` against the walk of the processor.
use x.Base.{
  ℕ, ◌≡◌, refl, ◌∙◌, true, ◌==◌, ==_refl, ◌&&◌, Option, none, some, inl, inr, Bool-cases, List, [],
  ◌∷◌, bit_and,
}
use x.Paging.{present, address, address_mask}
use x.PageAllocator.{Machine}
use x.PageAllocator.Valid.{IsValid}
use x.PageAllocator.Free.{Freed, free_page-Freed}
use x.PageTable.{levels, table_index, write_entry, unmap_levels, unmap_and_free_page}
use x.PageTable.Walk.{leaf, Descends, leaf-present, leaf-missing}

-- The memory with one entry cleared.
abbrev pub cleared_at : Machine → (table index : ℕ) → Machine
cleared_at s table index = record s { memory = write_entry s.memory table index 0 }

-- With no translation nothing happens. Otherwise the entry of the last table, and no other word, is
-- cleared, which ends the translation, and the page that the entry names is freed.
pub data Unmapped (ls : List (ℕ × ℕ)) (s : Machine) (v table : ℕ)
    : Option (Unit {0} × Machine) → Type 0 where
  unmapped_before : leaf ls s.memory v table ≡ none → Unmapped ls s v table (some (tt, s))
  unmapped :
      {o : Option (Unit {0} × Machine)} (entry last index : ℕ)
      → leaf ls s.memory v table ≡ some entry
      → s.memory last index ≡ entry
      → leaf ls (write_entry s.memory last index 0) v table ≡ none
      → Freed (cleared_at s last index) (address entry) o
      → Unmapped ls s v table o

module _ (v i level_mask : ℕ) (next : ℕ × ℕ) (rest : List (ℕ × ℕ)) (s : Machine) (table : ℕ) where
  abbrev word : ℕ
  word = s.memory table (table_index i level_mask v)

  -- Clearing a word that ends the walk below ends the whole walk, also where it is the word here.
  leaf_cleared :
      (last index : ℕ)
      → present word ≡ true
      → leaf (next ∷ rest) (write_entry s.memory last index 0) v (address word) ≡ none
      → leaf ((i, level_mask) ∷ next ∷ rest) (write_entry s.memory last index 0) v table ≡ none
  leaf_cleared last index is below =
      elim (Bool-cases (table == last && table_index i level_mask v == index)) [
        | inl here ↦ leaf-missing i level_mask next rest _ v table (unfold write_entry in rw here)
        | inr elsewhere ↦
            let same : write_entry s.memory last index 0 table (table_index i level_mask v) ≡ word =
              unfold write_entry in rw elsewhere in
            leaf-present i level_mask next rest _ v table (rw same is) ∙ rw same below
      ]

  lift-Unmapped :
      {o : Option (Unit {0} × Machine)}
      → present word ≡ true
      → Unmapped (next ∷ rest) s v (address word) o
      → Unmapped ((i, level_mask) ∷ next ∷ rest) s v table o
  lift-Unmapped is (unmapped_before h) =
      unmapped_before (leaf-present i level_mask next rest s.memory v table is ∙ h)
  lift-Unmapped is (unmapped entry last index h same gone f) =
      unmapped entry last index (leaf-present i level_mask next rest s.memory v table is ∙ h) same
        (leaf_cleared last index is gone) f

cleared-IsValid :
    (s : Machine) (last index : ℕ)
    → IsValid s.allocator
    → IsValid (cleared_at s last index).allocator
cleared-IsValid s last index valid = valid

module _ (v : ℕ) (s : Machine) (valid : IsValid s.allocator) where
  last_level :
      (i level_mask table : ℕ)
      → (i == 3) ≡ true
      → Unmapped ((i, level_mask) ∷ []) s v table (unmap_levels ((i, level_mask) ∷ []) v table s)
  unfolding unmap_levels leaf
  last_level i level_mask table three =
      let index : ℕ = table_index i level_mask v in
      elim (Bool-cases (present (s.memory table index))) [
        | inl is ↦
            rw (is, three)
              (unmapped (s.memory table index) table index (rw is) refl
                (unfold write_entry in rw (==_refl table, ==_refl index))
                (free_page-Freed (cleared_at s table index) _ valid))
        | inr is_not ↦ rw is_not (unmapped_before (rw is_not))
      ]

  unmap_levels-Unmapped :
      (ls : List (ℕ × ℕ)) (table : ℕ)
      → Descends ls
      → Unmapped ls s v table (unmap_levels ls v table s)
  unfolding unmap_levels
  unmap_levels-Unmapped [] table d = absurd d
  unmap_levels-Unmapped ((i, level_mask) ∷ []) table d = last_level i level_mask table d
  unmap_levels-Unmapped ((i, level_mask) ∷ next ∷ rest) table d =
      let index : ℕ = table_index i level_mask v in
      elim (Bool-cases (present (s.memory table index))) [
        | inl is ↦
            rw (is, d.0)
              (lift-Unmapped v i level_mask next rest s table is
                (unmap_levels-Unmapped (next ∷ rest) (address (s.memory table index)) d.1))
        | inr is_not ↦
            rw is_not
              (unmapped_before (leaf-missing i level_mask next rest s.memory v table is_not))
      ]

-- `unmap_and_free_page` on every branch; the address is cut to its page first.
pub unmap_and_free_page-Unmapped :
    (s : Machine) (v : ℕ)
    → IsValid s.allocator
    → Unmapped levels s
        (bit_and v address_mask)
        (address s.allocator.page_table)
        (unmap_and_free_page v s)
unfolding unmap_and_free_page
unmap_and_free_page-Unmapped s v valid =
    unmap_levels-Unmapped (bit_and v address_mask) s valid levels _ (refl, (refl, (refl, refl)))
