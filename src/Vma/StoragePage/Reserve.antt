-- ===== src/Vma/StoragePage/Reserve.antt =====
-- `find_and_reserve_node` against the set of entries in use.
use x.Base.{
  ℕ, ◌+◌, ◌≤◌, ◌<◌, ◌≡◌, refl, true, false, ltb, ltb→lt, ◌==◌, if◌then◌else◌, List, Option, none,
  some, inl, inr, Bool-cases, arith,
}
use x.PageAllocator.Bitmap.{Bytes, is_reserved, zeros, mark-Bytes, is_reserved-mark, zeros-mark}
use x.PageAllocator.First.{First, all_reserved, first_free, reserve_first-First}
use x.Vma.StoragePage.{StoragePage, find_and_reserve_node, reserve_entry}

-- Entry `e` is the first that was not in use; now it is, and nothing else has changed.
pub record TakesEntry (s : StoragePage) (e : ℕ) (t : StoragePage) : Type 0 where
  pub was_free : is_reserved s.usage_bitmap e ≡ false
  pub least : (q : ℕ) → q < e → is_reserved s.usage_bitmap q ≡ true
  pub in_use :
      (q : ℕ)
      → is_reserved t.usage_bitmap q ≡ (if q == e then true else is_reserved s.usage_bitmap q)
  pub bytes : Bytes t.usage_bitmap
  pub counted : t.free_entries + 1 ≡ s.free_entries
  pub zeros_less : zeros t.usage_bitmap + 1 ≡ zeros s.usage_bitmap
  pub next_page : t.next_page ≡ s.next_page
  pub prev_page : t.prev_page ≡ s.prev_page

-- With no entry left by the count, nothing. Otherwise the first clear bit, if it belongs to an
-- entry; a panic, if it lies past the entries or if there is none.
pub data EntryReserved (max : ℕ) (s : StoragePage) : Option (Option ℕ × StoragePage) → Type 0 where
  no_entry : s.free_entries ≡ 0 → EntryReserved max s (some (none, s))
  entry_taken :
      (e : ℕ) (t : StoragePage)
      → 0 < s.free_entries
      → e < max
      → TakesEntry s e t
      → EntryReserved max s (some (some e, t))
  past_the_entries :
      (e : ℕ)
      → 0 < s.free_entries
      → max ≤ e
      → is_reserved s.usage_bitmap e ≡ false
      → ((q : ℕ) → q < e → is_reserved s.usage_bitmap q ≡ true)
      → EntryReserved max s none
  none_clear :
      0 < s.free_entries
      → ((q : ℕ) → is_reserved s.usage_bitmap q ≡ true)
      → EntryReserved max s none

module _ (max : ℕ) (s : StoragePage) (b : Bytes s.usage_bitmap) where
  reserve_entry-EntryReserved :
      {r : Option (List ℕ × ℕ × ℕ)}
      → 0 < s.free_entries
      → First s.usage_bitmap r
      → EntryReserved max s (reserve_entry max s r)
  unfolding reserve_entry
  reserve_entry-EntryReserved some_left (all_reserved h) = none_clear some_left h
  reserve_entry-EntryReserved some_left (first_free e i j bm' number inside free least marked) =
      rw (← number) (elim (Bool-cases (ltb e max)) [
        | inl below ↦
            rw (below, marked)
              (entry_taken e _ some_left (ltb→lt _ _ below) (record {
                was_free = free;
                least = least;
                in_use = is_reserved-mark s.usage_bitmap b e inside;
                bytes = mark-Bytes s.usage_bitmap b e inside;
                counted = omega arith;
                zeros_less = ground (arith, zeros-mark s.usage_bitmap b e inside);
                next_page = refl;
                prev_page = refl;
              }))
        | inr beyond ↦ rw beyond (past_the_entries e some_left (ground arith) free least)
      ])

  -- Whatever bits of the bitmap are set, `find_and_reserve_node` returns nothing when no entry is left
  -- by the count; else it takes the first clear bit, sets it and no other and lowers the count, if the
  -- bit belongs to an entry, and leaves the links. It panics exactly when entries are left by the
  -- count and the first clear bit is past the entries, or no bit is clear. The bitmap must be a list
  -- of bytes.
  pub find_and_reserve_node-EntryReserved : EntryReserved max s (find_and_reserve_node max s)
  unfolding find_and_reserve_node
  find_and_reserve_node-EntryReserved = elim (Bool-cases (s.free_entries == 0)) [
    | inl empty ↦ rw empty (no_entry (ground arith))
    | inr left ↦
        rw left (reserve_entry-EntryReserved (ground arith) (reserve_first-First s.usage_bitmap b))
  ]
