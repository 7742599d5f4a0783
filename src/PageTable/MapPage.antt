-- ===== src/PageTable/MapPage.antt =====
-- `map_page`: a page is reserved for the address, and given back where mapping it fails.
use x.Base.{
  if◌then◌else◌, ℕ, ◌⊎◌, ◌==◌, ==_iff, ◌*◌, ◌/◌, ◌<◌, ◌≡◌, ◌≢◌, refl, sym, ◌∙◌, subst, true, false,
  Option, none, some, Result, ok, err, inl, inr, Bool-cases, arith, ◌>>=◌, ltb, ltb→lt,
}
use x.Paging.{present, address, page_size}
use x.PageAllocator.{Machine, ReservePageError, free_page}
use x.PageAllocator.Bitmap.{is_reserved}
use x.PageAllocator.Reserve.{Takes, Reserved, exhausted, taken, find_and_reserve_page-Reserved}
use x.PageAllocator.Free.{Freed, ignored, freed, Gives, page_of, free_page-Freed}
use x.PageTable.{
  MapPageError, levels, map_page, keep_or_free, map_reserved, out_of_pages, page_already_exists,
}
use x.PageTable.Extend.{Backs, IsSound, Extends, Extends-refl, Extends-trans}
use x.PageTable.Walk.{OnWay}
use x.PageTable.Map.{
  Mapped, mapped, exists, no_pages, BackedAt, translation, entry_for, map_page_translation-Mapped,
  translation-Extends,
}
use x.PageTable.Taken.{Takes-Extends, Backed-Takes, leaf-Takes}

-- What the failed mapping of a page leaves once the page is freed: the page itself is free again, all
-- pages that were reserved are, and every translation stays.
pub record GivenBack (s : Machine) (p : ℕ) (t : Machine) : Type 0 where
  pub sound : IsSound t
  pub page_free : is_reserved t.allocator.memory_bitmap p ≡ false
  pub others :
      (q : ℕ)
      → is_reserved s.allocator.memory_bitmap q ≡ true
      → is_reserved t.allocator.memory_bitmap q ≡ true
  pub translations :
      (w old : ℕ) → BackedAt s w → translation s w ≡ some old → translation t w ≡ some old

-- The page and the new tables on the way of `v` are all that is newly reserved.
abbrev pub OnlyTables : Machine → (v p : ℕ) → Machine → Type 0
OnlyTables s v p t =
    (q : ℕ)
    → is_reserved t.allocator.memory_bitmap q ≡ true
    → (is_reserved s.allocator.memory_bitmap q ≡ true)
      ⊎ ((q ≡ p) ⊎ OnWay levels t.memory v (address t.allocator.page_table) q)

pub data PageMapped (s : Machine) (v flags : ℕ)
    : Option (Result MapPageError (Unit {0}) × Machine) → Type 0 where
  page_mapped :
      (p : ℕ) (t : Machine)
      → is_reserved s.allocator.memory_bitmap p ≡ false
      → translation s v ≡ none
      → Extends s t
      → Backs t (p * page_size)
      → translation t v ≡ some (entry_for flags (p * page_size))
      → OnlyTables s v p t
      → PageMapped s v flags (some (ok tt, t))
  page_exists :
      (p old : ℕ) (t : Machine)
      → is_reserved s.allocator.memory_bitmap p ≡ false
      → translation s v ≡ some old
      → GivenBack s p t
      → ((q : ℕ)
          → is_reserved t.allocator.memory_bitmap q ≡ is_reserved s.allocator.memory_bitmap q)
      → PageMapped s v flags (some (err page_already_exists, t))
  no_page :
      (t : Machine)
      → ((p : ℕ) → is_reserved s.allocator.memory_bitmap p ≡ true)
      → t ≡ s
      → PageMapped s v flags (some (err out_of_pages, t))
  no_table :
      (p : ℕ) (t : Machine)
      → is_reserved s.allocator.memory_bitmap p ≡ false
      → translation s v ≡ none
      → GivenBack s p t
      → ((q : ℕ) → q ≢ p → is_reserved t.allocator.memory_bitmap q ≡ true)
      → PageMapped s v flags (some (err out_of_pages, t))

keep_or_free-err :
    (page : ℕ) (e : MapPageError) (u t : Machine)
    → free_page page u ≡ some (tt, t)
    → keep_or_free page (err e) u ≡ some (err e, t)
unfolding keep_or_free
keep_or_free-err page e u t run = rw (run, ◌>>=◌)

module _ (s : Machine) (v flags : ℕ) (sound : IsSound s) (b : BackedAt s v) where
  module _ (p : ℕ) (s' : Machine) (take : Takes s p s') where
    before_same : translation s' v ≡ translation s v
    before_same =
        rw take.table (leaf-Takes s p s' sound take levels v (address s.allocator.page_table) b)

    taken-BackedAt : BackedAt s' v
    taken-BackedAt = rw take.table (Backed-Takes s p s' sound take levels v _ b)

    taken-Backs : Backs s' (p * page_size)
    taken-Backs =
        let number : p * page_size / page_size ≡ p = omega arith in
        rw number (ground (arith, take.reserved p))

    -- The page was reserved at first, extended states keep it so, and then it is freed.
    module _ (u : Machine) (e : Extends s' u) where
      still_reserved : is_reserved u.allocator.memory_bitmap p ≡ true
      still_reserved =
          let number : p * page_size / page_size ≡ p = omega arith in
          rw number at (e.backs (p * page_size) taken-Backs)

      inside : p < u.allocator.total_pages
      inside = elim (Bool-cases (ltb p s.allocator.total_pages)) [
        | inl h ↦ omega (arith, ltb→lt _ _ h, take.total, e.total)
        | inr h ↦ ground (arith, sound.valid.spare p, take.was_free)
      ]

      Gives-GivenBack : (t : Machine) → Gives u p t → GivenBack s p t
      Gives-GivenBack t g = record {
        sound = record {
          valid =
              g.valid still_reserved
                (λ z. ground (arith, take.was_free, sound.valid.null_reserved));
          fits = omega (arith, g.total, e.sound.fits);
        };
        page_free = ground (arith, g.reserved p);
        others = λ q h. other_pages t g q h;
        translations = λ w old bw h.
            rw (g.memory, g.table)
              (translation-Extends w old (Extends-trans (Takes-Extends s p s' sound take) e) bw h);
      }
        where
          other_pages :
              (t : Machine)
              → Gives u p t
              → (q : ℕ) → is_reserved s.allocator.memory_bitmap q ≡ true
              → is_reserved t.allocator.memory_bitmap q ≡ true
          other_pages t g q h =
              let number : q * page_size / page_size ≡ q = omega arith in
              let kept = e.backs (q * page_size) (rw number (ground (arith, take.reserved q))) in
              let kept' : is_reserved u.allocator.memory_bitmap q ≡ true = rw number at kept in
              ground (arith, g.reserved q, take.was_free)

    give_back :
        (u : Machine) {o : Option (Unit {0} × Machine)}
        → Extends s' u
        → Freed u (p * page_size) o
        → (t : Machine) × (o ≡ some (tt, t)) × GivenBack s p t × Gives u p t
    give_back u e (ignored h) =
        let number : page_of (p * page_size) ≡ p = omega arith in absurd (omega (arith, inside u e))
    give_back u e (freed t h g) =
        let number : page_of (p * page_size) ≡ p = omega arith in
        let g' : Gives u p t = rw number at g in (t, refl, Gives-GivenBack u e t g', g')

    freed_after :
        (u : Machine)
        → Extends s' u
        → (t : Machine) × (free_page (p * page_size) u ≡ some (tt, t))
          × GivenBack s p t
          × Gives u p t
    freed_after u e = give_back u e (free_page-Freed u (p * page_size) e.sound.valid)

    -- The page that was taken is new, and what is new after it is.
    only_new :
        {B : Type 0} (q : ℕ)
        → (is_reserved s'.allocator.memory_bitmap q ≡ true) ⊎ B
        → (is_reserved s.allocator.memory_bitmap q ≡ true) ⊎ ((q ≡ p) ⊎ B)
    only_new q (inr on) = inr (inr on)
    only_new q (inl was) = elim (Bool-cases (q == p)) [
      | inl it ↦ inr (inl ((==_iff q p).0 it))
      | inr other ↦ inl (ground (arith, take.reserved q, was))
    ]

    -- The page that was taken and freed again is all that had changed.
    nothing_new :
        (u t : Machine)
        → u ≡ s'
        → Gives u p t
        → (q : ℕ)
        → is_reserved t.allocator.memory_bitmap q ≡ is_reserved s.allocator.memory_bitmap q
    nothing_new u t same g q =
        let before : is_reserved u.allocator.memory_bitmap q
            ≡ (if q == p then true else is_reserved s.allocator.memory_bitmap q) =
          subst
            (λ m.
              is_reserved m.allocator.memory_bitmap q
              ≡ (if q == p then true else is_reserved s.allocator.memory_bitmap q))
            (sym same) (take.reserved q) in
        elim (Bool-cases (q == p)) [
          | inl it ↦
              let eq : q ≡ p = (==_iff q p).0 it in
              rw (eq, take.was_free) (ground (arith, g.reserved p))
          | inr other ↦ ground (arith, g.reserved q, before, other)
        ]

    -- After the reservation.
    reserved-PageMapped :
        {o : Option (Result MapPageError (Unit {0}) × Machine)}
        → Mapped levels s' v (address s'.allocator.page_table) (entry_for flags (p * page_size)) o
        → PageMapped s v flags (◌>>=◌ (λ _. o) (keep_or_free (p * page_size)) s')
    unfolding keep_or_free
    reserved-PageMapped (mapped u before e after grows) =
        page_mapped p u take.was_free (sym before_same ∙ before)
          (Extends-trans (Takes-Extends s p s' sound take) e) (e.backs (p * page_size) taken-Backs)
          (rw e.table after) (λ q h. rw e.table (only_new q (grows q h)))
    reserved-PageMapped (exists u old before same) =
        let (t, run, back, gives) = freed_after u (
          subst (λ m. Extends s' m) (sym same)
            (Extends-refl s' (Takes-Extends s p s' sound take).sound)) in
        subst (λ o. PageMapped s v flags o) (sym (keep_or_free-err _ page_already_exists u t run))
          (page_exists p old t take.was_free (sym before_same ∙ before) back
            (nothing_new u t same gives))
    reserved-PageMapped (no_pages u before e after all) =
        let (t, run, back, gives) = freed_after u e in
        subst (λ o. PageMapped s v flags o) (sym (keep_or_free-err _ out_of_pages u t run))
          (no_table p t take.was_free (sym before_same ∙ before) back
            (λ q ne. ground (arith, gives.reserved q, all q, ne)))

  map_reserved-PageMapped :
      {o : Option (Result ReservePageError ℕ × Machine)}
      → present flags ≡ true
      → Reserved s o
      → PageMapped s v flags (◌>>=◌ (λ _. o) (map_reserved v flags) s)
  unfolding map_reserved
  map_reserved-PageMapped is (exhausted h) = no_page s h refl
  map_reserved-PageMapped is (taken p s' take) = reserved-PageMapped p s' take (
      map_page_translation-Mapped s' (p * page_size) v flags (Takes-Extends s p s' sound take).sound
        (taken-BackedAt p s' take) is)

-- For a valid allocator with at most 2^39 pages, an address whose walk runs through tables in reserved
-- pages, and flags with the present bit, `map_page` never panics and has one of four outcomes. It maps
-- a page that was free and is now reserved, at an address that had no translation, and the pages that
-- are newly reserved are that page and tables on the way of the address; or the address is translated
-- already, the page is given back, and the same pages are reserved as before; or every page was
-- reserved and nothing changes; or no page was left for a table: the address had no translation, the
-- page is given back, and every other page is reserved. Reserved pages stay reserved and existing
-- translations stay on all of them.
pub map_page-PageMapped :
    (s : Machine) (v flags : ℕ)
    → IsSound s
    → BackedAt s v
    → present flags ≡ true
    → PageMapped s v flags (map_page v flags s)
unfolding map_page
map_page-PageMapped s v flags sound b is =
    map_reserved-PageMapped s v flags sound b is (find_and_reserve_page-Reserved s sound.valid)
