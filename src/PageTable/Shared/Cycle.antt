-- ===== src/PageTable/Shared/Cycle.antt =====
-- A page of the kernel that is mapped and then unmapped.
use x.Base.{
  ℕ, ◌⊎◌, ◌*◌, ◌/◌, ◌^◌, ◌<◌, ◌≡◌, refl, sym, ◌∙◌, subst, ap, bit_and, true, false, ◌==◌,
  if◌then◌else◌, Option, none, some, Result, ok, inl, inr, Bool-cases, arith, ltb, ltb→lt, Command,
}
use x.Paging.{present, address, address_mask, page_size}
use x.Paging.Fields.{bit_and-address_mask, replace_addr_with_lem, align_to_page_lem}
use x.PageAllocator.{Machine, PageAllocator}
use x.PageAllocator.Bitmap.{is_reserved}
use x.PageAllocator.Free.{Freed, ignored, freed, Gives, page_of}
use x.PageAllocator.Shared.{Kernel, with_allocator}
use x.PageAllocator.Shared.Owned.{machine_of, kernel_of}
use x.PageTable.{MapPageError, levels, table_index, write_entry}
use x.PageTable
use x.PageTable.Extend.{Backs, IsSound, Extends}
use x.PageTable.Walk.{leaf, OnWay}
use x.PageTable.Map.{BackedAt, translation, entry_for}
use x.PageTable.MapPage.{
  OnlyTables, PageMapped, page_mapped, page_exists, no_page, no_table, map_page-PageMapped,
}
use x.PageTable.Unmap.{
  Unmapped, unmapped, unmapped_before, cleared_at, unmap_and_free_page-Unmapped,
}
use x.PageTable.Shared.{map_page, unmap_and_free_page}
use x.PageTable.Shared.Cleared.{leaf-bit_and, leaf_kept}

-- A call through the lock, where the call on the machine is known.
module _ {A : Type 0} (f : Command Machine A) (a : PageAllocator) (k : Kernel) (x : A) where
  with_allocator-run :
      (t : Machine)
      → k.page_allocator ≡ some a
      → f (machine_of a k) ≡ some (x, t)
      → with_allocator f k ≡ some (x, kernel_of t)
  unfolding with_allocator
  with_allocator-run t e run = ground (arith, e, run)

  with_allocator-result :
      (l : Kernel)
      → k.page_allocator ≡ some a
      → with_allocator f k ≡ some (x, l)
      → (t : Machine) × (f (machine_of a k) ≡ some (x, t)) × (l ≡ kernel_of t)
  unfolding with_allocator
  with_allocator-result l e run = by_result (f (machine_of a k)) refl
    where
      by_result :
          (r : Option (A × Machine))
          → f (machine_of a k) ≡ r
          → (t : Machine) × (f (machine_of a k) ≡ some (x, t)) × (l ≡ kernel_of t)
      by_result none same = absurd (ground (arith, e, run, same))
      by_result (some (y, t)) same = (t, ground (arith, e, run, same), ground (arith, e, run, same))

-- What is left of a page that was mapped at `v` in `s`, which gave `t`, and then unmapped: the page is
-- free again, `v` has no translation, the reserved pages are those from before and those of tables that
-- the walk of `v` came through in `t`, and every translation to a reserved page is as it was.
pub record Undone (s t : Machine) (v p : ℕ) (u : Machine) : Type 0 where
  pub sound : IsSound u
  pub unmapped : translation u v ≡ none
  pub page_free : is_reserved u.allocator.memory_bitmap p ≡ false
  pub others :
      (q : ℕ)
      → is_reserved s.allocator.memory_bitmap q ≡ true
      → is_reserved u.allocator.memory_bitmap q ≡ true
  pub only :
      (q : ℕ)
      → is_reserved u.allocator.memory_bitmap q ≡ true
      → (is_reserved s.allocator.memory_bitmap q ≡ true)
        ⊎ OnWay levels t.memory v (address t.allocator.page_table) q
  pub translations :
      (w old : ℕ)
      → BackedAt s w
      → translation s w ≡ some old
      → Backs s (address old)
      → translation u w ≡ some old

module _ (s t : Machine) (v flags p : ℕ) (e : Extends s t)
    (free : is_reserved s.allocator.memory_bitmap p ≡ false) (backed : Backs t (p * page_size))
    (valid : IsSound s) (only : OnlyTables s v p t) where
  reserved_now : is_reserved t.allocator.memory_bitmap p ≡ true
  reserved_now = let number : p * page_size / page_size ≡ p = omega arith in rw number at backed

  inside : p < t.allocator.total_pages
  inside = elim (Bool-cases (ltb p s.allocator.total_pages)) [
    | inl h ↦ omega (arith, ltb→lt _ _ h, e.total)
    | inr h ↦ ground (arith, valid.valid.spare p, free)
  ]

  page_was_free : is_reserved s.allocator.memory_bitmap (p * page_size / page_size) ≡ false
  page_was_free = let number : p * page_size / page_size ≡ p = omega arith in rw number free

  -- The entry names the page.
  named : address (entry_for flags (p * page_size)) ≡ p * page_size
  named =
      let small : p < 2 ^ 39 = omega (arith, inside, e.sound.fits) in
      let at : bit_and (p * page_size) address_mask ≡ p * page_size =
        omega (arith, bit_and-address_mask (p * page_size)) in
      let (low, executable, reads) = replace_addr_with_lem flags (p * page_size) (omega arith) in
      rw at (reads ∙ omega (arith, align_to_page_lem (p * page_size) (omega arith)))

  -- Pages that were reserved before are, since the freed one was not.
  other_page :
      (u : Machine) (q : ℕ)
      → ((q : ℕ)
          → is_reserved u.allocator.memory_bitmap q
            ≡ (if q == p then false else is_reserved t.allocator.memory_bitmap q))
      → is_reserved s.allocator.memory_bitmap q ≡ true
      → is_reserved u.allocator.memory_bitmap q ≡ true
  other_page u q g h =
      let number : q * page_size / page_size ≡ q = omega arith in
      let kept : is_reserved t.allocator.memory_bitmap q ≡ true =
        rw number at (e.backs (q * page_size) (rw number h)) in
      ground (arith, g q, free)

  only_tables :
      (u : Machine) (q : ℕ)
      → ((q : ℕ)
          → is_reserved u.allocator.memory_bitmap q
            ≡ (if q == p then false else is_reserved t.allocator.memory_bitmap q))
      → is_reserved u.allocator.memory_bitmap q ≡ true
      → (is_reserved s.allocator.memory_bitmap q ≡ true)
        ⊎ OnWay levels t.memory v (address t.allocator.page_table) q
  only_tables u q g h =
      let before : is_reserved t.allocator.memory_bitmap q ≡ true = ground (arith, g q, h) in
      elim (only q before) [
        | inl was ↦ inl was
        | inr (inl it) ↦
            let gone : is_reserved u.allocator.memory_bitmap p ≡ false = ground (arith, g p) in
            absurd (cc (ap (λ n. is_reserved u.allocator.memory_bitmap n) it))
        | inr (inr on) ↦ inr on
      ]

  module _ (last index : ℕ) (same : t.memory last index ≡ entry_for flags (p * page_size))
      (gone : leaf levels (write_entry t.memory last index 0) v (address t.allocator.page_table)
        ≡ none) where
    Gives-Undone : (u : Machine) → Gives (cleared_at t last index) p u → Undone s t v p u
    Gives-Undone u g = record {
      sound = record {
        valid = g.valid reserved_now (λ z. ground (arith, free, valid.valid.null_reserved));
        fits = omega (arith, g.total, e.sound.fits);
      };
      unmapped = rw (g.memory, g.table) gone;
      page_free = ground (arith, g.reserved p);
      others = λ q h. other_page u q g.reserved h;
      only = λ q h. only_tables u q g.reserved h;
      translations = λ w old b h r.
          rw (g.memory, g.table, e.table)
            (leaf_kept s t e last index (rw (same, named) page_was_free) levels w _ old b h r);
    }

    Freed-Undone :
        {o : Option (Unit {0} × Machine)}
        → Freed (cleared_at t last index) (p * page_size) o
        → (u : Machine) × (o ≡ some (tt, u)) × Undone s t v p u
    Freed-Undone (ignored h) =
        let number : page_of (p * page_size) ≡ p = omega arith in absurd (omega (arith, inside))
    Freed-Undone (freed u h g) =
        let number : page_of (p * page_size) ≡ p = omega arith in
        (u, refl, Gives-Undone u (rw number at g))

  -- The call that unmaps finds the entry, and clears it.
  Unmapped-Undone :
      {o : Option (Unit {0} × Machine)}
      → translation t v ≡ some (entry_for flags (p * page_size))
      → Unmapped levels t (bit_and v address_mask) (address t.allocator.page_table) o
      → (u : Machine) × (o ≡ some (tt, u)) × Undone s t v p u
  Unmapped-Undone is (unmapped_before h) =
      absurd (cc (leaf-bit_and t.memory v (address t.allocator.page_table)))
  Unmapped-Undone {o} is (unmapped entry last index h same gone f) =
      let found : entry ≡ entry_for flags (p * page_size) =
        cc (leaf-bit_and t.memory v (address t.allocator.page_table)) in
      Freed-Undone last index (same ∙ found) (sym (leaf-bit_and _ v _) ∙ gone)
        (subst (λ a. Freed (cleared_at t last index) a o) (ap address found ∙ named) f)

-- The page that a mapping took, where it was successful.
mapped_page :
    {s t : Machine} {v flags : ℕ} {o : Option (Result MapPageError (Unit {0}) × Machine)}
    → PageMapped s v flags o
    → o ≡ some (ok tt, t)
    → (p : ℕ) × (is_reserved s.allocator.memory_bitmap p ≡ false)
      × Extends s t
      × Backs t (p * page_size)
      × (translation t v ≡ some (entry_for flags (p * page_size)))
      × OnlyTables s v p t
mapped_page {s} {t} {v} {flags} (page_mapped p u free before e b is only) h =
    let same : u ≡ t = cc in
    (
      p,
      free,
      subst (λ m. Extends s m) same e,
      subst (λ m. Backs m (p * page_size)) same b,
      subst (λ m. translation m v ≡ some (entry_for flags (p * page_size))) same is,
      subst (λ m. OnlyTables s v p m) same only,
    )
mapped_page (page_exists p old u free before back same) h = absurd (cc)
mapped_page (no_page u all same) h = absurd (cc)
mapped_page (no_table p u free before back all) h = absurd (cc)

-- When `map_page` has mapped an address on a sound kernel, `unmap_and_free_page` for the address right
-- after it ends without a panic, frees the page that was taken, which the entry of the address named,
-- and leaves the address without a translation. The kernel is sound after it. The reserved pages are
-- those from before and others that the walk of the address came through as tables while it was
-- mapped. Each translation from before to a reserved page stands. The flags must have the present bit,
-- and the tables on the way must stand in reserved pages.
pub map_page-unmap_and_free_page :
    (a : PageAllocator) (k l : Kernel) (v flags : ℕ)
    → k.page_allocator ≡ some a
    → IsSound (machine_of a k)
    → BackedAt (machine_of a k) v
    → present flags ≡ true
    → map_page v flags k ≡ some (ok tt, l)
    → (p : ℕ) × (t : Machine) × (u : Machine) × (l ≡ kernel_of t)
      × (translation t v ≡ some (entry_for flags (p * page_size)))
      × (is_reserved a.memory_bitmap p ≡ false)
      × (unmap_and_free_page v l ≡ some (tt, kernel_of u))
      × Undone (machine_of a k) t v p u
unfolding map_page unmap_and_free_page
map_page-unmap_and_free_page a k l v flags found sound b is run =
    let (t, mapped, at) =
      with_allocator-result (PageTable.map_page v flags) a k (ok tt) l found run in
    let (p, free, e, backs, reads, only) =
      mapped_page (map_page-PageMapped (machine_of a k) v flags sound b is) mapped in
    let (u, unmaps, undone) =
      Unmapped-Undone (machine_of a k) t v flags p e free backs sound only reads
        (unmap_and_free_page-Unmapped t v e.sound.valid) in
    let goes =
      with_allocator-run (PageTable.unmap_and_free_page v) t.allocator (kernel_of t) tt u refl
        unmaps in
    (p, t, u, at, reads, free, rw at goes, undone)
