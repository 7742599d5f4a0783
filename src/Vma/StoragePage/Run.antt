-- ===== src/Vma/StoragePage/Run.antt =====
-- Reservations in a row from a new page, when its last byte of bitmap is shared.
use x.Base.{
  ℕ, zero, suc, ◌+◌, ◌*◌, ◌≤◌, ◌<◌, ◌≡◌, refl, true, false, not, ltb, ltb→lt, Bool-cases,
  if◌then◌else◌, Option, none, some, inl, inr, arith,
}
use x.PageAllocator.Bitmap.{Bytes, is_reserved}
use x.Vma.StoragePage.{StoragePage, new_with_prev_page, find_and_reserve_node}
use x.Vma.StoragePage.Initial.{initial_usage_bitmap_lem, initial-Bytes}
use x.Vma.StoragePage.Reserve.{
  EntryReserved, no_entry, entry_taken, past_the_entries, none_clear,
  find_and_reserve_node-EntryReserved,
}

-- The page after a call that reserved an entry.
unfoldable pub reserved_page : Option (Option ℕ × StoragePage) → Option StoragePage
reserved_page none = none
reserved_page (some (none, s)) = none
reserved_page (some (some e, s)) = some s

-- The page after so many calls, when each of them reserved an entry.
unfoldable pub reserve_times : (times max : ℕ) → StoragePage → Option StoragePage
unfolding reserved_page
reserve_times zero max s = some s
reserve_times (suc times) max s = elim (reserve_times times max s) [
  | none ↦ none
  | some t ↦ reserved_page (find_and_reserve_node max t)
]

module _ (k n : ℕ) (pos : 0 < n) (below : n < 8) where
  abbrev max : ℕ
  max = 8 * k + n

  -- The first `j` entries are in use, besides those in use from the start.
  record Filled (j : ℕ) (t : StoragePage) : Type 0 where
    bytes : Bytes t.usage_bitmap
    counted : t.free_entries + j ≡ max
    in_use :
        (q : ℕ)
        → is_reserved t.usage_bitmap q ≡ (
            if ltb q j
            then true
            else if ltb q (8 * k)
            then false
            else if ltb q max
            then true
            else not (ltb q (8 * k + 8)))

  new-Filled : (prev : Option ℕ) → Filled 0 (new_with_prev_page max prev)
  unfolding new_with_prev_page
  new-Filled prev = record {
    bytes = initial-Bytes k n pos below;
    counted = omega arith;
    in_use = λ q. ground (arith, initial_usage_bitmap_lem k n pos below q);
  }

  takes_next :
      (j : ℕ) (t : StoragePage)
      → j < 8 * k
      → Filled j t
      → {r : Option (Option ℕ × StoragePage)} → EntryReserved max t r
      → (u : StoragePage) × (reserved_page r ≡ some u) × Filled (suc j) u
  unfolding reserved_page
  takes_next j t h f (no_entry empty) = absurd (omega (arith, f.counted))
  takes_next j t h f (entry_taken e u some_left inside take) =
      let low : e ≤ j = elim (Bool-cases (ltb j e)) [
        | inl beyond ↦ absurd (ground (arith, f.in_use j, take.least j (ltb→lt j e beyond)))
        | inr within ↦ ground arith
      ] in
      let same : e ≡ j = ground (arith, f.in_use e, take.was_free, low) in
      (
        u,
        refl,
        record {
          bytes = take.bytes;
          counted = omega (arith, take.counted, f.counted);
          in_use = λ q. ground (arith, take.in_use q, f.in_use q, same);
        },
      )
  takes_next j t h f (past_the_entries e left beyond free least) =
      absurd (ground (arith, f.in_use j, least j (omega arith)))
  takes_next j t h f (none_clear left all) = absurd (ground (arith, f.in_use j, all j))

  fills :
      (prev : Option ℕ) (j : ℕ)
      → j ≤ 8 * k
      → (t : StoragePage) × (reserve_times j max (new_with_prev_page max prev) ≡ some t)
        × Filled j t
  unfolding reserve_times
  fills prev zero h = (_, refl, new-Filled prev)
  fills prev (suc j) h =
      let (t, run, f) = fills prev j (omega arith) in
      rw run (takes_next j t (omega arith) f (find_and_reserve_node-EntryReserved max t f.bytes))

  panics_next :
      (t : StoragePage)
      → Filled (8 * k) t
      → {r : Option (Option ℕ × StoragePage)} → EntryReserved max t r
      → r ≡ none
  panics_next t f (no_entry empty) = absurd (omega (arith, f.counted))
  panics_next t f (entry_taken e u some_left inside take) =
      absurd (ground (arith, f.in_use e, take.was_free))
  panics_next t f (past_the_entries e left beyond free least) = refl
  panics_next t f (none_clear left all) = refl

  -- Of a new page with `8 * k + n` entries, where `0 < n < 8`, the first `8 * k` can be reserved one
  -- after the other; then `n` entries count as free, and the next call panics.
  pub find_and_reserve_node-new_with_prev_page :
      (prev : Option ℕ)
      → (t : StoragePage) × (reserve_times (8 * k) max (new_with_prev_page max prev) ≡ some t)
        × (t.free_entries ≡ n)
        × (find_and_reserve_node max t ≡ none)
  find_and_reserve_node-new_with_prev_page prev =
      let (t, run, f) = fills prev (8 * k) (omega arith) in
      (
        t,
        run,
        omega (arith, f.counted),
        panics_next t f (find_and_reserve_node-EntryReserved max t f.bytes),
      )
