-- ===== src/PageTable/Walk.antt =====
-- What the processor reads on its way through the tables, as a specification: the entry of the last
-- table, if every entry on the way is present.
use x.Base.{
  ℕ, ◌/◌, ◌⊎◌, ◌≡◌, refl, sym, ◌∙◌, true, false, ◌==◌, if◌then◌else◌, List, [], ◌∷◌, Option, none,
  some, Bool-cases, inl, inr, arith,
}
use x.Paging.{page_size, present, huge_page, address}
use x.PageAllocator.{Machine, Memory}
use x.PageTable.{table_index}
use x.PageTable.Extend.{Backs, Extends}

unfoldable pub leaf : List (ℕ × ℕ) → Memory → (virtual_address table : ℕ) → Option ℕ
leaf [] m v table = none
leaf ((i, level_mask) ∷ []) m v table =
    let entry = m table (table_index i level_mask v) in if present entry then some entry else none
leaf ((i, level_mask) ∷ next ∷ rest) m v table =
    let entry = m table (table_index i level_mask v) in
    let deeper = leaf (next ∷ rest) m v (address entry) in if present entry then deeper else none

-- Only the last level has the number 3.
abbrev pub Descends : List (ℕ × ℕ) → Type 0
Descends [] = ⊥
Descends ((i, level_mask) ∷ []) = (i == 3) ≡ true
Descends ((i, level_mask) ∷ next ∷ rest) = ((i == 3) ≡ false) × Descends (next ∷ rest)

-- Every table that the walk comes to stands in a reserved page.
abbrev pub Backed : List (ℕ × ℕ) → Machine → (virtual_address table : ℕ) → Type 0
Backed [] s v table = Unit
Backed ((i, level_mask) ∷ rest) s v table =
    Backs s table
    × (present (s.memory table (table_index i level_mask v)) ≡ true
        → Backed rest s v (address (s.memory table (table_index i level_mask v))))

-- The page is that of a table below the first on the way.
abbrev pub OnWay : List (ℕ × ℕ) → Memory → (virtual_address table page : ℕ) → Type 0
OnWay [] m v table p = ⊥
OnWay ((i, level_mask) ∷ []) m v table p = ⊥
OnWay ((i, level_mask) ∷ next ∷ rest) m v table p =
    let child = address (m table (table_index i level_mask v)) in
    (child / page_size ≡ p) ⊎ OnWay (next ∷ rest) m v child p

-- No entry on the way is a huge page.
abbrev pub NoHuge : List (ℕ × ℕ) → Memory → (virtual_address table : ℕ) → Type 0
NoHuge [] m v table = Unit
NoHuge ((i, level_mask) ∷ rest) m v table =
    (huge_page (m table (table_index i level_mask v)) ≡ false)
    × (present (m table (table_index i level_mask v)) ≡ true
        → NoHuge rest m v (address (m table (table_index i level_mask v))))

-- One level of a walk, with the levels below it shut.
leaf_step :
    (i level_mask : ℕ) (next : ℕ × ℕ) (rest : List (ℕ × ℕ)) (m : Memory) (v table entry : ℕ)
    → m table (table_index i level_mask v) ≡ entry
    → leaf ((i, level_mask) ∷ next ∷ rest) m v table
      ≡ (if present entry then leaf (next ∷ rest) m v (address entry) else none)
leaf_step i level_mask next rest m v table entry e = rw (← e) (unfold leaf in refl)

-- The same, where the entry is known to be present or not.
pub leaf-present :
    (i level_mask : ℕ) (next : ℕ × ℕ) (rest : List (ℕ × ℕ)) (m : Memory) (v table : ℕ)
    → present (m table (table_index i level_mask v)) ≡ true
    → leaf ((i, level_mask) ∷ next ∷ rest) m v table
      ≡ leaf (next ∷ rest) m v (address (m table (table_index i level_mask v)))
leaf-present i level_mask next rest m v table is =
    leaf_step i level_mask next rest m v table _ refl ∙ rw is

pub leaf-missing :
    (i level_mask : ℕ) (next : ℕ × ℕ) (rest : List (ℕ × ℕ)) (m : Memory) (v table : ℕ)
    → present (m table (table_index i level_mask v)) ≡ false
    → leaf ((i, level_mask) ∷ next ∷ rest) m v table ≡ none
leaf-missing i level_mask next rest m v table is_not =
    leaf_step i level_mask next rest m v table _ refl ∙ rw is_not

module _ (s t : Machine) (e : Extends s t) (v : ℕ) where
  -- A translation that is there stays as it is.
  pub leaf-keeps :
      (ls : List (ℕ × ℕ)) (table entry : ℕ)
      → Backed ls s v table
      → leaf ls s.memory v table ≡ some entry
      → leaf ls t.memory v table ≡ some entry
  leaf-keeps [] table entry b h = unfold leaf in cc h
  leaf-keeps ((i, level_mask) ∷ []) table entry b h =
      unfold leaf in ground (arith, h, e.keeps table (table_index i level_mask v) b.0)
  leaf-keeps ((i, level_mask) ∷ next ∷ rest) table entry b h =
      elim (Bool-cases (present (s.memory table (table_index i level_mask v)))) [
        | inl is ↦
            let same = e.keeps table (table_index i level_mask v) b.0 is in
            leaf-present i level_mask next rest t.memory v table (rw same is)
            ∙ rw same (
                leaf-keeps (next ∷ rest) (address (s.memory table (table_index i level_mask v)))
                  entry (b.1 is)
                  (sym (leaf-present i level_mask next rest s.memory v table is) ∙ h))
        | inr is_not ↦ absurd (cc (leaf-missing i level_mask next rest s.memory v table is_not))
      ]

-- A table without entries.
pub Backed-zero :
    (ls : List (ℕ × ℕ)) (s : Machine) (v table : ℕ)
    → Backs s table
    → ((i : ℕ) → s.memory table i ≡ 0)
    → Backed ls s v table
Backed-zero [] s v table b zero_ = tt
Backed-zero ((i, level_mask) ∷ rest) s v table b zero_ =
    (b, λ is. ground (arith, zero_ (table_index i level_mask v)))

pub leaf-zero :
    (ls : List (ℕ × ℕ)) (m : Memory) (v table : ℕ)
    → ((i : ℕ) → m table i ≡ 0)
    → leaf ls m v table ≡ none
leaf-zero [] m v table empty = unfold leaf in refl
leaf-zero ((i, level_mask) ∷ []) m v table empty =
    unfold leaf in ground (arith, empty (table_index i level_mask v))
leaf-zero ((i, level_mask) ∷ next ∷ rest) m v table empty =
    leaf-missing i level_mask next rest m v table
      (ground (arith, empty (table_index i level_mask v)))
