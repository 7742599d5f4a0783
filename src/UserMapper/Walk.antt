-- ===== src/UserMapper/Walk.antt =====
-- The tables that `unmap_page` collects, and the walk of the processor.
use x.Base.{ℕ, ◌≡◌, refl, ◌∙◌, true, List, [], ◌∷◌, Option, none, some, inl, inr, Bool-cases}
use x.Paging.{present, address}
use x.PageAllocator.{Memory}
use x.PageTable.{table_index}
use x.PageTable.Walk.{NoHuge, leaf, Descends, leaf-present, leaf-missing}
use x.UserMapper.{collect_tables}

-- The index and the table of each level of a walk, the first level first.
unfoldable pub path : List (ℕ × ℕ) → Memory → (virtual_address table : ℕ) → List (ℕ × ℕ)
path [] m v table = []
path ((i, level_mask) ∷ rest) m v table =
    (table_index i level_mask v, table)
    ∷ path rest m v (address (m table (table_index i level_mask v)))

-- A list turned around before another.
unfoldable pub onto : List (ℕ × ℕ) → List (ℕ × ℕ) → List (ℕ × ℕ)
onto [] ys = ys
onto (x ∷ xs) ys = onto xs (x ∷ ys)

pub data Collected (ls : List (ℕ × ℕ)) (m : Memory) (v table : ℕ) (found : List (ℕ × ℕ))
    : Option (Option (List (ℕ × ℕ))) → Type 0 where
  missing : leaf ls m v table ≡ none → Collected ls m v table found (some none)
  complete :
      (entry : ℕ)
      → leaf ls m v table ≡ some entry
      → Collected ls m v table found (some (some (onto (path ls m v table) found)))

onto-path :
    (i level_mask : ℕ) (next : ℕ × ℕ) (rest : List (ℕ × ℕ)) (m : Memory) (v table : ℕ)
    (found : List (ℕ × ℕ))
    → onto (path ((i, level_mask) ∷ next ∷ rest) m v table) found
      ≡ onto
          (path (next ∷ rest) m v (address (m table (table_index i level_mask v))))
          ((table_index i level_mask v, table) ∷ found)
unfolding onto path
onto-path i level_mask next rest m v table found = refl

lift-Collected :
    (i level_mask : ℕ) (next : ℕ × ℕ) (rest : List (ℕ × ℕ)) (m : Memory) (v table : ℕ)
    (found : List (ℕ × ℕ)) {r : Option (Option (List (ℕ × ℕ)))}
    → present (m table (table_index i level_mask v)) ≡ true
    → Collected
        (next ∷ rest)
        m
        v
        (address (m table (table_index i level_mask v)))
        ((table_index i level_mask v, table) ∷ found)
        r
    → Collected ((i, level_mask) ∷ next ∷ rest) m v table found r
lift-Collected i level_mask next rest m v table found is (missing h) =
    missing (leaf-present i level_mask next rest m v table is ∙ h)
lift-Collected i level_mask next rest m v table found is (complete entry h) =
    let whole = onto-path i level_mask next rest m v table found in
    rw (← whole) (complete entry (leaf-present i level_mask next rest m v table is ∙ h))

last_complete :
    (i level_mask : ℕ) (m : Memory) (v table : ℕ) (found : List (ℕ × ℕ))
    → present (m table (table_index i level_mask v)) ≡ true
    → Collected
        ((i, level_mask) ∷ [])
        m
        v
        table
        found
        (some (some ((table_index i level_mask v, table) ∷ found)))
unfolding onto path
last_complete i level_mask m v table found is =
    complete (m table (table_index i level_mask v)) (unfold leaf in rw is refl)

pub collect_tables-Collected :
    (ls : List (ℕ × ℕ)) (m : Memory) (v table : ℕ) (found : List (ℕ × ℕ))
    → Descends ls
    → NoHuge ls m v table
    → Collected ls m v table found (collect_tables ls m v table found)
unfolding collect_tables
collect_tables-Collected [] m v table found d n = absurd d
collect_tables-Collected ((i, level_mask) ∷ []) m v table found d n =
    elim (Bool-cases (present (m table (table_index i level_mask v)))) [
      | inl is ↦ rw (n.0, is) (last_complete i level_mask m v table found is)
      | inr is_not ↦ rw (n.0, is_not) (missing (unfold leaf in rw is_not refl))
    ]
collect_tables-Collected ((i, level_mask) ∷ next ∷ rest) m v table found d n =
    elim (Bool-cases (present (m table (table_index i level_mask v)))) [
      | inl is ↦
          rw (n.0, is)
            (lift-Collected i level_mask next rest m v table found is
              (collect_tables-Collected (next ∷ rest) m v _ _ d.1 (n.1 is)))
      | inr is_not ↦
          rw (n.0, is_not) (missing (leaf-missing i level_mask next rest m v table is_not))
    ]
