-- ===== src/Vma/StoragePage/Release.antt =====
-- `unreserve_node`: an entry given back, or a page that leaves the list.
use x.Base.{
  ℕ, ◌+◌, ◌*◌, ◌≤◌, ◌<◌, ◌≡◌, ◌≢◌, Bool, true, false, ◌==◌, if◌then◌else◌, Option, some, length,
}
use x.PageAllocator.Bitmap.{Bytes, zeros, is_reserved, unmark}
use x.Vma.StoragePage.{StoragePage, Pages, update}

-- Entry `e` is free, and nothing else of the page has changed.
pub record GivesEntry (s : StoragePage) (e : ℕ) (t : StoragePage) : Type 0 where
  pub in_use :
      (q : ℕ)
      → is_reserved t.usage_bitmap q ≡ (if q == e then false else is_reserved s.usage_bitmap q)
  pub counted : t.free_entries ≡ s.free_entries + 1
  pub next_page : t.next_page ≡ s.next_page
  pub prev_page : t.prev_page ≡ s.prev_page
  pub bytes : Bytes t.usage_bitmap
  pub zeros_more : zeros t.usage_bitmap ≡ zeros s.usage_bitmap + 1

-- The pages before and after are linked to each other, and keep all else.
pub record Unlinked (pages : Pages) (page prev : ℕ) (after : Pages) : Type 0 where
  pub forward : (after prev).next_page ≡ (pages page).next_page
  pub backward :
      (next : ℕ) → (pages page).next_page ≡ some next → (after next).prev_page ≡ some prev
  pub bitmaps : (at : ℕ) → (after at).usage_bitmap ≡ (pages at).usage_bitmap
  pub counts : (at : ℕ) → (after at).free_entries ≡ (pages at).free_entries
  pub others : (at : ℕ) → at ≢ prev → (pages page).next_page ≢ some at → after at ≡ pages at

-- On a page behind another one the last entry in use takes the page out of the list; otherwise the
-- entry becomes free.
pub data Released (max : ℕ) (pages : Pages) (page i : ℕ) : Option (Bool × Pages) → Type 0 where
  page_unlinked :
      (prev : ℕ) (after : Pages)
      → (pages page).free_entries + 1 ≡ max
      → (pages page).prev_page ≡ some prev
      → Unlinked pages page prev after
      → Released max pages page i (some (true, after))
  entry_freed :
      (after : Pages)
      → ((prev : ℕ) → (pages page).prev_page ≡ some prev → (pages page).free_entries + 1 ≢ max)
      → GivesEntry (pages page) i (after page)
      → ((at : ℕ) → at ≢ page → after at ≡ pages at)
      → Released max pages page i (some (false, after))

module _ (max : ℕ) (pages : Pages) (page i : ℕ) (v : Bytes (pages page).usage_bitmap)
    (covered : max ≤ 8 * length ((pages page).usage_bitmap)) (below : i < max)
    (used : is_reserved (pages page).usage_bitmap i ≡ true) where
  abbrev given : StoragePage
  given = record (pages page) {
    usage_bitmap = unmark (pages page).usage_bitmap i;
    free_entries = (pages page).free_entries + 1;
  }

-- The neighbours of a page of the list are other pages, and different ones.
module _ (pages : Pages) (page prev : ℕ) (before : (pages page).prev_page ≡ some prev)
    (apart : page ≢ prev)
    (next_apart : (next : ℕ)
      → (pages page).next_page ≡ some next
      → (next ≢ page) × (next ≢ prev)) where
  -- The second write, of the page before.
  abbrev link_on : Pages → Pages
  link_on ps = update ps prev (record (ps prev) { next_page = (ps page).next_page })

  abbrev last_after : Pages
  last_after = link_on pages

  module _ (next : ℕ) (e : (pages page).next_page ≡ some next) where
    abbrev linked_back : StoragePage
    linked_back = record (pages next) { prev_page = some prev }

    abbrev relinked : Pages
    relinked = update pages next linked_back

    abbrev linked_on : StoragePage
    linked_on = record (relinked prev) { next_page = (relinked page).next_page }
