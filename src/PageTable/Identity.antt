-- ===== src/PageTable/Identity.antt =====
-- `is_address_identity_mapped` of `PageAllocatorInternal`.
use x.Base.{
  ℕ, ◌≡◌, refl, ap, sym, ◌∙◌, bit_and, Bool, true, false, not, ◌||◌, ◌==◌, if◌then◌else◌, List, [],
  ◌∷◌, Option, none, some, inl, inr, ==_iff, Bool-cases, arith,
}
use x.Paging.{present, huge_page, address, align_to_page}
use x.PageAllocator.{Machine, Memory}
use x.PageTable.{levels, table_index}
use x.PageTable.Walk.{leaf, Descends, NoHuge, leaf-present, leaf-missing}

-- The mask of the page size of a level; past the last stands `unreachable!()`.
unfoldable pub page_mask : ℕ → Option ℕ
page_mask i =
    if i == 0
    then some 0xFFFFFF80C0000000
    else if i == 1
    then some 0xFFFFFFFFC0000000
    else if i == 2
    then some 0xFFFFFFFFFFE00000
    else if i == 3
    then some 0xFFFFFFFFFFFFF000
    else none

unfoldable pub same_page : (mask : Option ℕ) → (virtual_address entry : ℕ) → Option Bool
same_page none virtual_address entry = none
same_page (some mask) virtual_address entry = some (bit_and virtual_address mask == address entry)

-- The loop; after it stands `unreachable!()`.
unfoldable pub identity_levels :
    List (ℕ × ℕ) → Memory → (virtual_address current_address : ℕ) → Option Bool
unfolding page_mask same_page
identity_levels [] m virtual_address current_address = none
identity_levels ((i, level_mask) ∷ rest) m virtual_address current_address =
    let entry = m current_address (table_index i level_mask virtual_address) in
    let deeper = identity_levels rest m virtual_address (address entry) in
    if not (present entry)
    then some false
    else if i == 3 || huge_page entry
    then same_page (page_mask i) virtual_address entry
    else deeper

unfoldable pub is_address_identity_mapped : Machine → ℕ → Option Bool
unfolding identity_levels
is_address_identity_mapped s virtual_address =
    identity_levels levels s.memory virtual_address (address s.allocator.page_table)

-- Whether an entry names the page of the address.
abbrev pub names_page : ℕ → Option ℕ → Bool
names_page v none = false
names_page v (some entry) = align_to_page v == address entry

module _ (i level_mask : ℕ) (rest : List (ℕ × ℕ)) (m : Memory) (v table : ℕ) where
  abbrev word : ℕ
  word = m table (table_index i level_mask v)

  not_there : present word ≡ false → identity_levels ((i, level_mask) ∷ rest) m v table ≡ some false
  unfolding identity_levels
  not_there is_not = rw is_not refl

  goes_on :
      present word ≡ true
      → (i == 3) ≡ false
      → huge_page word ≡ false
      → identity_levels ((i, level_mask) ∷ rest) m v table ≡ identity_levels rest m v (address word)
  unfolding identity_levels
  goes_on is above small = rw (is, above, small) refl

  at_page :
      present word ≡ true
      → (i == 3) ≡ true
      → identity_levels ((i, level_mask) ∷ rest) m v table ≡ some (align_to_page v == address word)
  unfolding identity_levels same_page align_to_page
  at_page is last = let three : i ≡ 3 = (==_iff i 3).0 last in ground (arith, three, is)

identity_levels-leaf :
    (ls : List (ℕ × ℕ)) (m : Memory) (v table : ℕ)
    → Descends ls
    → NoHuge ls m v table
    → identity_levels ls m v table ≡ some (names_page v (leaf ls m v table))
identity_levels-leaf [] m v table d n = absurd d
identity_levels-leaf ((i, level_mask) ∷ []) m v table d n =
    elim (Bool-cases (present (m table (table_index i level_mask v)))) [
      | inl is ↦
          let here : leaf ((i, level_mask) ∷ []) m v table
              ≡ some (m table (table_index i level_mask v)) =
            unfold leaf in rw is refl in
          rw here (at_page i level_mask [] m v table is d)
      | inr is_not ↦
          let here : leaf ((i, level_mask) ∷ []) m v table ≡ none = unfold leaf in rw is_not refl in
          rw here (not_there i level_mask [] m v table is_not)
    ]
identity_levels-leaf ((i, level_mask) ∷ next ∷ rest) m v table d n =
    elim (Bool-cases (present (m table (table_index i level_mask v)))) [
      | inl is ↦
          goes_on i level_mask (next ∷ rest) m v table is d.0 n.0
          ∙ identity_levels-leaf (next ∷ rest) m v _ d.1 (n.1 is)
          ∙ sym (ap (λ o. some (names_page v o)) (leaf-present i level_mask next rest m v table is))
      | inr is_not ↦
          not_there i level_mask (next ∷ rest) m v table is_not
          ∙ sym (
              ap (λ o. some (names_page v o))
                (leaf-missing i level_mask next rest m v table is_not))
    ]

-- Where no entry on the way is a huge page, the walk for an address does not panic, and answers
-- whether the address has a translation to the page at the same address.
pub is_address_identity_mapped-leaf :
    (s : Machine) (v : ℕ)
    → NoHuge levels s.memory v (address s.allocator.page_table)
    → is_address_identity_mapped s v
      ≡ some (names_page v (leaf levels s.memory v (address s.allocator.page_table)))
unfolding is_address_identity_mapped
is_address_identity_mapped-leaf s v n =
    identity_levels-leaf levels s.memory v _ (refl, (refl, (refl, refl))) n
