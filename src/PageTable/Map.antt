-- ===== src/PageTable/Map.antt =====
-- `map_page_translation` against the walk of the processor.
use x.Base.{
  ℕ, ◌/◌, ◌⊎◌, ◌≡◌, refl, ◌∙◌, subst, bit_and, true, false, Option, none, some, Result, ok, err,
  inl, inr, pure, ◌>>=◌, Bool-cases, arith, List, [], ◌∷◌, ==_refl,
}
use x.Paging.{page_size, present, address, address_mask, replace_addr_with}
use x.Paging.Fields.{present-replace_addr_with}
use x.PageAllocator.{Machine}
use x.PageAllocator.Bitmap.{is_reserved}
use x.PageTable.{
  MapPageError, levels, map_page_translation, out_of_pages, page_already_exists, map_levels,
  map_child, table_index, write_entry,
}
use x.PageTable.Extend.{
  Backs, IsSound, Extends, Extends-refl, Extends-trans, Parent, there, full, fresh,
  parent_table-Parent,
}
use x.PageTable.Walk.{
  leaf-present, leaf-missing, leaf, leaf-keeps, Descends, Backed, Backed-zero, leaf-zero, OnWay,
}

-- The pages that are newly reserved are those of tables on the way of `v`.
abbrev pub Grows : List (ℕ × ℕ) → Machine → (v table : ℕ) → Machine → Type 0
Grows ls s v table t =
    (q : ℕ)
    → is_reserved t.allocator.memory_bitmap q ≡ true
    → (is_reserved s.allocator.memory_bitmap q ≡ true) ⊎ OnWay ls t.memory v table q

-- The outcome of mapping `entry` at `v`, below `table`.
pub data Mapped (ls : List (ℕ × ℕ)) (s : Machine) (v table entry : ℕ)
    : Option (Result MapPageError (Unit {0}) × Machine) → Type 0 where
  mapped :
      (t : Machine)
      → leaf ls s.memory v table ≡ none
      → Extends s t
      → leaf ls t.memory v table ≡ some entry
      → Grows ls s v table t
      → Mapped ls s v table entry (some (ok tt, t))
  exists :
      (t : Machine) (old : ℕ)
      → leaf ls s.memory v table ≡ some old
      → t ≡ s
      → Mapped ls s v table entry (some (err page_already_exists, t))
  no_pages :
      (t : Machine)
      → leaf ls s.memory v table ≡ none
      → Extends s t
      → leaf ls t.memory v table ≡ none
      → ((p : ℕ) → is_reserved t.allocator.memory_bitmap p ≡ true)
      → Mapped ls s v table entry (some (err out_of_pages, t))

module _ (v entry : ℕ) (is : present entry ≡ true) where
  -- The state with the entry written.
  child-Extends :
      (table index : ℕ) (s : Machine)
      → IsSound s
      → present (s.memory table index) ≡ false
      → Extends s (record s { memory = write_entry s.memory table index entry })
  unfolding write_entry
  child-Extends table index s sound missing = record {
    sound = record { valid = sound.valid; fits = sound.fits };
    backs = λ a h. h;
    keeps = λ a i h p. ground arith;
    table = refl;
    total = refl;
  }

  child-Mapped :
      (i level_mask table : ℕ) (s : Machine)
      → IsSound s
      → Mapped
          ((i, level_mask) ∷ [])
          s
          v
          table
          entry
          (map_child table (table_index i level_mask v) entry s)
  unfolding map_child leaf write_entry
  child-Mapped i level_mask table s sound =
      let index : ℕ = table_index i level_mask v in
      elim (Bool-cases (present (s.memory table index))) [
        | inl old ↦ rw old (exists s (s.memory table index) (rw old) refl)
        | inr missing ↦ rw missing (
            mapped _ (rw missing) (child-Extends table index s sound missing)
              (rw (==_refl table, ==_refl index, is)) (λ q h. inl h))
      ]

  module _ (i level_mask : ℕ) (next : ℕ × ℕ) (rest : List (ℕ × ℕ)) (s : Machine) (table : ℕ) where
    abbrev index : ℕ
    index = table_index i level_mask v

    -- Below a table that was there.
    lift_there :
        {r : Option (Result MapPageError (Unit {0}) × Machine)}
        → Backs s table
        → present (s.memory table index) ≡ true
        → Mapped (next ∷ rest) s v (address (s.memory table index)) entry r
        → Mapped ((i, level_mask) ∷ next ∷ rest) s v table entry r
    lift_there b old (mapped t before e after grows) =
        let same = e.keeps table index b old in
        mapped t (leaf-present i level_mask next rest s.memory v table old ∙ before) e
          (leaf-present i level_mask next rest t.memory v table (rw same old) ∙ rw same after)
          (λ q h. elim (grows q h) [ inl was ↦ inl was | inr on ↦ inr (inr (rw same on)) ])
    lift_there b old (exists t o before same) =
        exists t o (leaf-present i level_mask next rest s.memory v table old ∙ before) same
    lift_there b old (no_pages t before e after all) =
        let same = e.keeps table index b old in
        no_pages t (leaf-present i level_mask next rest s.memory v table old ∙ before) e
          (leaf-present i level_mask next rest t.memory v table (rw same old) ∙ rw same after) all

    -- Below a table that has just been made.
    lift_fresh :
        {r : Option (Result MapPageError (Unit {0}) × Machine)} (t : Machine)
        → present (s.memory table index) ≡ false
        → Extends s t
        → Backs t table
        → present (t.memory table index) ≡ true
        → leaf (next ∷ rest) t.memory v (address (t.memory table index)) ≡ none
        → ((q : ℕ)
            → is_reserved t.allocator.memory_bitmap q ≡ true
            → (is_reserved s.allocator.memory_bitmap q ≡ true)
              ⊎ (address (t.memory table index) / page_size ≡ q))
        → Mapped (next ∷ rest) t v (address (t.memory table index)) entry r
        → Mapped ((i, level_mask) ∷ next ∷ rest) s v table entry r
    lift_fresh t missing e b new empty only (mapped u before f after grows) =
        let same = f.keeps table index b new in
        mapped u (leaf-missing i level_mask next rest s.memory v table missing) (Extends-trans e f)
          (leaf-present i level_mask next rest u.memory v table (rw same new) ∙ rw same after)
          (λ q h. elim (grows q h) [
            | inl was ↦ elim (only q was) [ inl old ↦ inl old | inr it ↦ inr (inl (rw same it)) ]
            | inr on ↦ inr (inr (rw same on))
          ])
    lift_fresh t missing e b new empty only (exists u o before same) = absurd (cc)
    lift_fresh t missing e b new empty only (no_pages u before f after all) =
        let same = f.keeps table index b new in
        no_pages u (leaf-missing i level_mask next rest s.memory v table missing)
          (Extends-trans e f)
          (leaf-present i level_mask next rest u.memory v table (rw same new) ∙ rw same after) all

-- The loop, from any level.
module _ (v flags physical : ℕ) (is : present (replace_addr_with flags physical) ≡ true) where
  abbrev entry : ℕ
  entry = replace_addr_with flags physical

  -- The levels below, where they are known to map.
  abbrev MapsBelow : List (ℕ × ℕ) → Type 0
  MapsBelow ls =
      (table : ℕ) (s : Machine)
      → Descends ls
      → IsSound s
      → Backed ls s v table
      → Mapped ls s v table entry (map_levels ls physical v flags table s)

  descend :
      (i level_mask : ℕ) (next : ℕ × ℕ) (rest : List (ℕ × ℕ)) (s : Machine) (table : ℕ)
      {r : Option (Option ℕ × Machine)}
      → MapsBelow (next ∷ rest)
      → Descends (next ∷ rest)
      → IsSound s
      → Backed ((i, level_mask) ∷ next ∷ rest) s v table
      → Parent s table (table_index i level_mask v) r
      → Mapped ((i, level_mask) ∷ next ∷ rest) s v table entry (
          ◌>>=◌
            (λ _. r)
            (λ found. elim found [
              | none ↦ pure (err out_of_pages)
              | some child ↦ map_levels (next ∷ rest) physical v flags child
            ])
            s)
  descend i level_mask next rest s table ih d sound b (there old) =
      lift_there v entry is i level_mask next rest s table b.0 old
        (ih (address (s.memory table (table_index i level_mask v))) s d sound (b.1 old))
  descend i level_mask next rest s table ih d sound b (full missing all) =
      let none_before = leaf-missing i level_mask next rest s.memory v table missing in
      no_pages s none_before (Extends-refl s sound) none_before all
  descend i level_mask next rest s table ih d sound b
        (fresh page t missing e b' new at empty only) =
      lift_fresh v entry is i level_mask next rest s table t missing e (e.backs table b.0) new
        (rw at (leaf-zero (next ∷ rest) t.memory v page empty)) (rw at only)
        (rw at (ih page t d e.sound (Backed-zero (next ∷ rest) t v page b' empty)))

  pub map_levels-Mapped : (ls : List (ℕ × ℕ)) → MapsBelow ls
  unfolding map_levels
  map_levels-Mapped [] table s d sound b = absurd d
  map_levels-Mapped ((i, level_mask) ∷ []) table s d sound b =
      rw d (child-Mapped v _ is i level_mask table s sound)
  map_levels-Mapped ((i, level_mask) ∷ next ∷ rest) table s d sound b = rw d.0 (
      descend i level_mask next rest s table (map_levels-Mapped (next ∷ rest)) d.1 sound b
        (parent_table-Parent s table (table_index i level_mask v) sound b.0))

-- A root table, and every table that the walk of `v` comes to, stand in reserved pages.
abbrev pub BackedAt : Machine → ℕ → Type 0
BackedAt s v = Backed levels s v (address s.allocator.page_table)

-- The entry that the processor finds for an address.
abbrev pub translation : Machine → ℕ → Option ℕ
translation s v = leaf levels s.memory v (address s.allocator.page_table)

-- The entry that `map_page_translation` writes for a physical address.
abbrev pub entry_for : (flags physical : ℕ) → ℕ
entry_for flags physical = replace_addr_with flags (bit_and physical address_mask)

-- For a valid allocator with at most 2^39 pages, an address whose walk runs through tables in reserved
-- pages, and flags with the present bit, `map_page_translation` never panics: it ends with the entry
-- for the physical address and the flags as the translation of an address that had none, and the pages
-- that are newly reserved are tables on the way of the address; or reports that the address is
-- translated already and changes nothing; or reports that pages ran out, with the address untranslated
-- and every page reserved.
pub map_page_translation-Mapped :
    (s : Machine) (physical v flags : ℕ)
    → IsSound s
    → BackedAt s v
    → present flags ≡ true
    → Mapped levels s v
        (address s.allocator.page_table)
        (entry_for flags physical)
        (map_page_translation physical v flags s)
map_page_translation-Mapped s physical v flags sound b is =
    unfold map_page_translation in
    map_levels-Mapped v flags (bit_and physical address_mask)
      (present-replace_addr_with flags _ ∙ is) levels _ s (refl, (refl, (refl, refl))) sound b

Mapped-Extends :
    {ls : List (ℕ × ℕ)} {s : Machine} {v table entry : ℕ}
    {o : Option (Result MapPageError (Unit {0}) × Machine)} (r : Result MapPageError (Unit {0}))
    (t : Machine)
    → IsSound s
    → Mapped ls s v table entry o
    → o ≡ some (r, t)
    → Extends s t
Mapped-Extends {s} r t sound (mapped u before e after grows) h =
    let same : u ≡ t = cc in subst (λ m. Extends s m) same e
Mapped-Extends {s} r t sound (exists u old before same) h =
    let same' : s ≡ t = cc in subst (λ m. Extends s m) same' (Extends-refl s sound)
Mapped-Extends {s} r t sound (no_pages u before e after all) h =
    let same : u ≡ t = cc in subst (λ m. Extends s m) same e

pub translation-Extends :
    {s t : Machine} (w old : ℕ)
    → Extends s t
    → BackedAt s w
    → translation s w ≡ some old
    → translation t w ≡ some old
translation-Extends {s} {t} w old e b h =
    rw e.table (leaf-keeps s t e w levels (address s.allocator.page_table) old b h)

-- Whatever `map_page_translation` returns for an address, another or the same one that had a
-- translation before has the same one after. The allocator must be valid, with at most 2^39 pages, the
-- walks of both addresses must run through tables in reserved pages, and the flags must have the
-- present bit.
pub map_page_translation-keeps :
    (s t : Machine) (physical v flags w old : ℕ) (r : Result MapPageError (Unit {0}))
    → IsSound s
    → BackedAt s v
    → BackedAt s w
    → present flags ≡ true
    → map_page_translation physical v flags s ≡ some (r, t)
    → translation s w ≡ some old
    → translation t w ≡ some old
map_page_translation-keeps s t physical v flags w old r sound bv bw is run h =
    translation-Extends w old
      (Mapped-Extends r t sound (map_page_translation-Mapped s physical v flags sound bv is) run) bw
      h
