-- ===== src/PageTable/Check/Pages.antt =====
-- `check_flags` holds for a range exactly when the walk of each of its addresses has the flags.
use x.Base.{
  ℕ, zero, suc, ◌+◌, ◌-◌, ◌*◌, ◌/◌, ◌^◌, ◌≤◌, ◌<◌, ◌≡◌, ◌↔◌, refl, sym, subst, bit_and, Bool, true,
  false, not, ◌||◌, ltb, leb, ◌==◌, ==_iff, if◌then◌else◌, List, [], ◌∷◌, some, inl, inr,
  Bool-cases, arith, All,
}
use x.Paging.{present, address, replace_addr_with}
use x.Paging.Fields.{align_to_page_lem}
use x.PageAllocator.{Memory, Machine}
use x.PageTable.{levels, table_index}
use x.PageTable.Index.{table_index_fields}
use x.PageTable.Check.{check_levels, check_pages, num_pages, check_flags}

-- Every entry of the walk is present and has the flags.
abbrev pub Grants : List (ℕ × ℕ) → Memory → (flags virtual_address table : ℕ) → Type 0
Grants [] m flags v table = Unit
Grants ((i, level_mask) ∷ rest) m flags v table =
    (present (m table (table_index i level_mask v)) ≡ true)
    × (bit_and (m table (table_index i level_mask v)) flags ≡ flags)
    × Grants rest m flags v (address (m table (table_index i level_mask v)))

-- The test of one entry.
abbrev passes : (entry flags : ℕ) → Bool
passes entry flags = not (not (present entry) || not (bit_and entry flags == flags))

passes_iff :
    (entry flags : ℕ)
    → (passes entry flags ≡ true) ↔ ((present entry ≡ true) × (bit_and entry flags ≡ flags))
passes_iff entry flags = ground arith

check_levels-pass :
    (i level_mask : ℕ) (rest : List (ℕ × ℕ)) (m : Memory) (flags v table : ℕ)
    → check_levels ((i, level_mask) ∷ rest) m flags v table ≡ (
        if passes (m table (table_index i level_mask v)) flags
        then check_levels rest m flags v (address (m table (table_index i level_mask v)))
        else false)
check_levels-pass i level_mask rest m flags v table = unfold check_levels in ground arith

check_levels-Grants :
    (ls : List (ℕ × ℕ)) (m : Memory) (flags v table : ℕ)
    → (check_levels ls m flags v table ≡ true) ↔ Grants ls m flags v table
check_levels-Grants [] m flags v table = (λ h. tt, λ g. unfold check_levels in refl)
check_levels-Grants ((i, level_mask) ∷ rest) m flags v table =
    let entry = m table (table_index i level_mask v) in
    let deeper = check_levels-Grants rest m flags v (address entry) in
    rw (check_levels-pass i level_mask rest m flags v table)
      (elim (Bool-cases (passes entry flags)) [
        | inl pass ↦
            let (is, has) = (passes_iff entry flags).0 pass in
            rw pass (λ h. (is, has, deeper.0 h), λ g. deeper.1 g.2)
        | inr fail ↦
            rw fail (λ h. absurd (cc h), λ g. absurd (cc ((passes_iff entry flags).1 (g.0, g.1))))
      ])

-- The walk depends on the page of the address only.
Grants-page :
    (ls : List (ℕ × ℕ)) (m : Memory) (flags v w table : ℕ)
    → All (λ l. table_index l.0 l.1 v ≡ table_index l.0 l.1 w) ls
    → Grants ls m flags v table
    → Grants ls m flags w table
Grants-page [] m flags v w table same g = tt
Grants-page ((i, level_mask) ∷ rest) m flags v w table same g =
    rw (← same.0) (g.0, g.1, Grants-page rest m flags v w _ same.1 g.2)

same_indices :
    (v w : ℕ)
    → v / 2 ^ 12 ≡ w / 2 ^ 12
    → All (λ l. table_index l.0 l.1 v ≡ table_index l.0 l.1 w) levels
same_indices v w e = (
  omega (arith, table_index_fields v, table_index_fields w),
  (
    omega (arith, table_index_fields v, table_index_fields w),
    (
      omega (arith, table_index_fields v, table_index_fields w),
      (omega (arith, table_index_fields v, table_index_fields w), tt),
    ),
  ),
)

-- The walk of page `j` of a range has the flags.
abbrev page_checks : Machine → (v flags j : ℕ) → Bool
page_checks s v flags j =
    check_levels levels s.memory flags (v + j * 2 ^ 12) (address s.allocator.page_table)

check_pages_step :
    (pages i : ℕ) (s : Machine) (v flags : ℕ)
    → check_pages (suc pages) i s v flags
      ≡ (if page_checks s v flags i then check_pages pages (i + 1) s v flags else false)
unfolding check_pages
check_pages_step pages i s v flags = elim (Bool-cases (page_checks s v flags i)) [
  | inl pass ↦ rw pass refl
  | inr fail ↦ rw fail refl
]

check_pages_iff :
    (pages i : ℕ) (s : Machine) (v flags : ℕ)
    → (check_pages pages i s v flags ≡ true)
      ↔ ((j : ℕ) → i ≤ j → j < i + pages → page_checks s v flags j ≡ true)
check_pages_iff zero i s v flags =
    (λ h j a b. absurd (omega arith), λ h. unfold check_pages in refl)
check_pages_iff (suc pages) i s v flags =
    let later = check_pages_iff pages (i + 1) s v flags in
    rw (check_pages_step pages i s v flags) (elim (Bool-cases (page_checks s v flags i)) [
      | inl pass ↦ rw pass (
        λ h j a b. elim (Bool-cases (i == j)) [
          | inl here ↦ subst (λ k. page_checks s v flags k ≡ true) ((==_iff i j).0 here) pass
          | inr above ↦ later.0 h j (ground arith) (omega arith)
        ],
        λ h. later.1 (λ j a b. h j (omega arith) (omega arith)),
      )
      | inr fail ↦ rw fail (λ h. absurd (cc h), λ h. absurd (cc (h i (omega arith) (omega arith))))
    ])

num_pages_lem :
    (v size : ℕ)
    → 0 < size
    → v + size ≤ 2 ^ 64
    → num_pages v size ≡ (v + (size - 1)) / 2 ^ 12 - v / 2 ^ 12 + 1
unfolding num_pages
num_pages_lem v size some_bytes fits =
    omega
      (arith, align_to_page_lem v (omega arith), align_to_page_lem (v + (size - 1)) (omega arith))

-- The walk of an address has the flags of `flags` in each of its entries.
abbrev pub GrantsAt : Machine → (flags virtual_address : ℕ) → Type 0
GrantsAt s flags a =
    Grants levels s.memory (replace_addr_with flags 0) a (address s.allocator.page_table)

module _ (s : Machine) (v size flags : ℕ) (some_bytes : 0 < size) (fits : v + size ≤ 2 ^ 64) where
  abbrev checks : ℕ → Bool
  checks j = page_checks s v (replace_addr_with flags 0) j

  -- An address in the page that round `j` walks through.
  page_grants : (j a : ℕ) → v / 2 ^ 12 + j ≡ a / 2 ^ 12 → checks j ≡ true ↔ GrantsAt s flags a
  page_grants j a e =
      let start = v + j * 2 ^ 12 in
      let same : start / 2 ^ 12 ≡ a / 2 ^ 12 = omega arith in
      let walk =
        check_levels-Grants levels s.memory (replace_addr_with flags 0) start
          (address s.allocator.page_table) in
      (
        λ h. Grants-page levels s.memory _ start a _ (same_indices start a same) (walk.0 h),
        λ g. walk.1 (Grants-page levels s.memory _ a start _ (same_indices a start (sym same)) g),
      )

  -- An address of the range in each of its pages.
  page_inside :
      (j : ℕ)
      → j < num_pages v size
      → (a : ℕ) × (v ≤ a) × (a < v + size) × (v / 2 ^ 12 + j ≡ a / 2 ^ 12)
  page_inside j h =
      let count = num_pages_lem v size some_bytes fits in
      elim (Bool-cases (j == 0)) [
        | inl first ↦ (v, omega arith, omega arith, ground (arith, first))
        | inr later ↦
            ((v / 2 ^ 12 + j) * 2 ^ 12, ground arith, ground (arith, count, h), omega arith)
      ]

  -- For a range of at least one byte that ends at the last address at most, `check_flags` does not
  -- panic, and answers `true` exactly when, for every address of the range, all four entries of its
  -- walk are present and have every flag of `flags`.
  pub check_flags-Grants :
      (b : Bool) × (check_flags s v size flags ≡ some b)
      × ((b ≡ true) ↔ ((a : ℕ) → v ≤ a → a < v + size → GrantsAt s flags a))
  unfolding check_flags
  check_flags-Grants =
      let pages = check_pages_iff (num_pages v size) 0 s v (replace_addr_with flags 0) in
      let one : leb 1 size ≡ true = ground arith in
      let below : ltb (v + (size - 1)) (2 ^ 64) ≡ true = ground arith in
      (
        check_pages (num_pages v size) 0 s v (replace_addr_with flags 0),
        rw (one, below) refl,
        (
          λ h a low high.
              let count = num_pages_lem v size some_bytes fits in
              let j = a / 2 ^ 12 - v / 2 ^ 12 in
              (page_grants j a (omega arith)).0 (pages.0 h j (omega arith) (omega (arith, count))),
          λ g. pages.1 (λ j low high.
              let (a, from, to, e) = page_inside j (omega arith) in
              (page_grants j a e).1 (g a from to)),
        ),
      )
