-- ===== src/UserMapper/Cut.antt =====
-- The translations that `unmap_page` ends.
use x.Base.{
  ℕ, zero, suc, ◌+◌, ◌≤◌, ◌≡◌, refl, ap, ◌∙◌, if◌then◌else◌, List, [], ◌∷◌, Option, none, some, inl,
  inr, Bool-cases, arith, ltb, length, take, All, bit_and,
}
use x.Paging.{present, address, address_mask}
use x.PageAllocator.{Memory, Machine}
use x.PageAllocator.Covered.{Covers}
use x.PageTable.{levels, table_index}
use x.PageTable.Walk.{NoHuge, leaf, leaf-present, leaf-missing}
use x.UserMapper.{free_tables, free_collected, unmap_page}
use x.UserMapper.Walk.{path, onto, Collected, missing, complete, collect_tables-Collected}
use x.UserMapper.Unmap.{clear_all, Below, clear_all-Below, clear_all-get_elem?, free_tables_lem}

-- The entry of the walk at so many levels below the first is now zero.
abbrev Zeroed : ℕ → List (ℕ × ℕ) → (m m' : Memory) → (v table : ℕ) → Type 0
Zeroed k [] m m' v table = ⊥
Zeroed zero ((i, level_mask) ∷ rest) m m' v table = m' table (table_index i level_mask v) ≡ 0
Zeroed (suc k) ((i, level_mask) ∷ rest) m m' v table =
    Zeroed k rest m m' v (address (m table (table_index i level_mask v)))

-- Two addresses have the same index at each of the levels.
abbrev pub SameIndices : List (ℕ × ℕ) → (v w : ℕ) → Type 0
SameIndices ls v w = All (λ l. table_index l.0 l.1 v ≡ table_index l.0 l.1 w) ls

module _ (m m' : Memory) (v w : ℕ) (below : Below m' m) where
  -- It ends the walk of every address that comes to it.
  cut :
      (ls : List (ℕ × ℕ)) (k table : ℕ)
      → SameIndices (take (suc k) ls) v w
      → Zeroed k ls m m' v table
      → leaf ls m' w table ≡ none
  cut [] k table same z = absurd z
  cut ((i, level_mask) ∷ []) zero table same z = unfold leaf in rw (← same.0, z) refl
  cut ((i, level_mask) ∷ next ∷ rest) zero table same z =
      leaf-missing i level_mask next rest m' w table (rw (← same.0, z) refl)
  cut ((i, level_mask) ∷ []) (suc k) table same z = absurd z
  cut ((i, level_mask) ∷ next ∷ rest) (suc k) table same z =
      let index : ℕ = table_index i level_mask w in
      elim (Bool-cases (present (m' table index))) [
        | inr is_not ↦ leaf-missing i level_mask next rest m' w table is_not
        | inl is ↦ elim (below table index) [
          | inr gone ↦ absurd (ground (arith, gone, is))
          | inl kept ↦
              leaf-present i level_mask next rest m' w table is
              ∙ rw kept (rw (← same.0) (cut (next ∷ rest) k _ same.1 z))
        ]
      ]

take-nil : (n : ℕ) → take {A = ℕ × ℕ} n [] ≡ []
take-nil zero = refl
take-nil (suc n) = refl

length-take :
    (ts : List (ℕ × ℕ)) (n : ℕ) → length (take n ts) ≡ (if ltb n (length ts) then n else length ts)
length-take [] n = rw (take-nil n) (ground arith)
length-take (x ∷ ts) zero = ground arith
length-take (x ∷ ts) (suc n) = ground (arith, length-take ts n)

-- The tables of a walk, the last first.
abbrev pub tables_up : Machine → (v pml4 : ℕ) → List (ℕ × ℕ)
tables_up s v pml4 = onto (path levels s.memory v pml4) []

-- A page without a translation: nothing happens. Otherwise one entry of each table from the last up
-- to the depth is cleared, whatever else the table holds, and for each a page is freed; so that
-- every address whose walk comes through one of those entries loses its translation.
pub data PageUnmapped (s : Machine) (pml4 v depth : ℕ) : Option (ℕ × Machine) → Type 0 where
  no_translation : leaf levels s.memory v pml4 ≡ none → PageUnmapped s pml4 v depth (some (0, s))
  tables_freed :
      (entry : ℕ) (t : Machine)
      → leaf levels s.memory v pml4 ≡ some entry
      → t.memory ≡ clear_all (take (suc depth) (tables_up s v pml4)) s.memory
      → ((k w : ℕ)
          → k ≤ 3
          → 3 ≤ k + depth
          → SameIndices (take (suc k) levels) v w
          → leaf levels t.memory w pml4 ≡ none)
      → Covers t.allocator
      → PageUnmapped s pml4 v depth (some ((if ltb depth 4 then suc depth else 4), t))

module _ (s : Machine) (pml4 v depth : ℕ) (c : Covers s.allocator) where
  zeroed :
      (k : ℕ)
      → k ≤ 3
      → 3 ≤ k + depth
      → Zeroed k levels s.memory (clear_all (take (suc depth) (tables_up s v pml4)) s.memory) v pml4
  unfolding path onto
  zeroed zero low deep =
      clear_all-get_elem? (tables_up s v pml4) (suc depth) 3 _ _ s.memory (omega arith) refl
  zeroed (suc zero) low deep =
      clear_all-get_elem? (tables_up s v pml4) (suc depth) 2 _ _ s.memory (omega arith) refl
  zeroed (suc (suc zero)) low deep =
      clear_all-get_elem? (tables_up s v pml4) (suc depth) 1 _ _ s.memory (omega arith) refl
  zeroed (suc (suc (suc zero))) low deep =
      clear_all-get_elem? (tables_up s v pml4) (suc depth) 0 _ _ s.memory (omega arith) refl
  zeroed (suc (suc (suc (suc k)))) low deep = absurd (omega arith)

  four_tables : length (tables_up s v pml4) ≡ 4
  unfolding path onto
  four_tables = refl

  freed_count :
      length (take (suc depth) (tables_up s v pml4)) ≡ (if ltb depth 4 then suc depth else 4)
  freed_count = ground (arith, length-take (tables_up s v pml4) (suc depth), four_tables)

  free_collected-PageUnmapped :
      {r : Option (Option (List (ℕ × ℕ)))}
      → Collected levels s.memory v pml4 [] r
      → PageUnmapped s pml4 v depth (free_collected r depth s)
  unfolding free_collected
  free_collected-PageUnmapped (missing h) = no_translation h
  free_collected-PageUnmapped (complete entry h) =
      let (t, run, memory, covers) =
        free_tables_lem (tables_up s v pml4) depth 0 0 depth s c (omega arith) in
      let whole : free_tables (tables_up s v pml4) 0 0 depth s
          ≡ some ((if ltb depth 4 then suc depth else 4), t) =
        run ∙ ap (λ n. some (n, t)) (omega (arith, freed_count)) in
      rw whole (
        tables_freed entry t h memory
          (λ k w low deep same.
            cut s.memory t.memory v w
              (rw memory (clear_all-Below (take (suc depth) (tables_up s v pml4)) s.memory)) levels
              k pml4 same (rw memory (zeroed k low deep)))
          covers)

-- `unmap_page` with an allocator whose bitmap covers the machine's pages and no huge page on the way
-- to the address never panics. Without a translation nothing happens and the count is 0. Otherwise
-- it clears one entry of each table of the walk, from the last up to the given depth, whatever else
-- the tables hold, and counts a page for each; every address whose walk comes through one of those
-- entries loses its translation.
pub unmap_page-PageUnmapped :
    (s : Machine) (pml4 v depth : ℕ)
    → Covers s.allocator
    → NoHuge levels s.memory (bit_and v address_mask) pml4
    → PageUnmapped s pml4 (bit_and v address_mask) depth (unmap_page pml4 v depth s)
unfolding unmap_page
unmap_page-PageUnmapped s pml4 v depth c n =
    free_collected-PageUnmapped s pml4 (bit_and v address_mask) depth c (
      collect_tables-Collected levels s.memory (bit_and v address_mask) pml4 []
        (refl, (refl, (refl, refl))) n)
