-- ===== src/UserMapper/MapPage.antt =====
-- `map_blank_page` of kernel/src/arch/x86_64/user_page_mapping.rs.
use x.Base.{
  ℕ, ◌+◌, bit_and, bit_or, ltb, ◌==◌, if◌then◌else◌, List, [], ◌∷◌, ◌++◌, none, some, Result, ok,
  err, Command, pure, ◌>>=◌, ◌>>◌, sub_checked, ◌^◌,
}
use x.Paging.{present, address, address_mask, read_write_execute}
use x.PageAllocator.{Machine, ReservePageError, find_and_reserve_page, free_page, clear_page}
use x.PageTable.{levels, table_index, write_entry}

pub data UserPageMapperError : Type 0 where
  page_already_exists out_of_memory : UserPageMapperError

-- The machine, with the counter `pages_used` of the caller.
pub record Mapping : Type 0 where
  pub pages_used : ℕ
  pub machine : Machine

abbrev pub on_machine : {A : Type 0} → Command Machine A → Command Mapping A
on_machine f s = elim (f s.machine) [
  | none ↦ none
  | some (a, m) ↦ some (a, record s { machine = m })
]

-- `*pages_used += 1` and `*pages_used -= 1`, which panic out of range.
unfoldable pub count_page : Command Mapping (Unit {0})
count_page s =
    if ltb (s.pages_used + 1) (2 ^ 64)
    then some (tt, record s { pages_used = s.pages_used + 1 })
    else none

unfoldable pub uncount_page : Command Mapping (Unit {0})
uncount_page s = elim (sub_checked s.pages_used 1 s) [
  | none ↦ none
  | some (n, t) ↦ some (tt, record t { pages_used = n })
]

-- The flags of the new page: of those asked for, with the page present and open to the user.
unfoldable pub child_flags_of : ℕ → ℕ
child_flags_of flags = bit_or (bit_and flags 0x8000000000000007) 5

-- How the loop over the levels ends: when no page is left, with the tables that it has made.
pub data LoopEnd : Type 0 where
  complete exists : LoopEnd
  failed : (parent_pages_created : List ℕ) → LoopEnd

-- The new entry of a page that is zeroed; a table above the last is open to everything.
unfoldable pub fill_entry : (i table index child_flags new_page : ℕ) → Command Mapping ℕ
unfolding clear_page write_entry read_write_execute
fill_entry i table index child_flags new_page s =
    let flags = if ltb i 3 then read_write_execute else child_flags in
    let entry = bit_or (bit_and new_page address_mask) flags in
    some (
      address entry,
      record s {
        machine = record (s.machine) {
          memory = write_entry (clear_page s.machine.memory new_page) table index entry;
        };
      },
    )

unfoldable pub fresh_entry :
    (i table index child_flags : ℕ) → Command Mapping (Result ReservePageError (ℕ × ℕ))
unfolding count_page find_and_reserve_page fill_entry
fresh_entry i table index child_flags = do
  count_page
  reserved ← on_machine find_and_reserve_page
  elim reserved [
    | err e ↦ pure (err e)
    | ok new_page ↦ do
      next ← fill_entry i table index child_flags new_page
      pure (ok (new_page, next))
  ]

unfoldable pub map_blank_levels :
    List (ℕ × ℕ)
    → (virtual_address child_flags current_address : ℕ) (parent_pages_created : List ℕ)
    → Command Mapping LoopEnd
unfolding fresh_entry
map_blank_levels [] virtual_address child_flags current_address created s = some (complete, s)
map_blank_levels ((i, level_mask) ∷ rest) virtual_address child_flags current_address created s =
    let index = table_index i level_mask virtual_address in
    let entry = s.machine.memory current_address index in
    let deeper = map_blank_levels rest virtual_address child_flags (address entry) created in
    if present entry
    then (if i == 3 then some (exists, s) else deeper s)
    else (do
      fresh ← fresh_entry i current_address index child_flags
      elim fresh [
        | err e ↦ pure (failed created)
        | ok (new_page, next) ↦
            map_blank_levels rest virtual_address child_flags next
              (if ltb i 3 then created ++ (new_page ∷ []) else created)
      ])
        s

-- The tables that were made are freed, and stay linked.
unfoldable pub clean_up : List ℕ → Command Mapping (Unit {0})
unfolding free_page uncount_page
clean_up [] = pure tt
clean_up (page ∷ rest) = do on_machine (free_page page); uncount_page; clean_up rest

unfoldable pub end_map : LoopEnd → Command Mapping (Result UserPageMapperError (Unit {0}))
unfolding clean_up
end_map complete = pure (ok tt)
end_map exists = pure (err page_already_exists)
end_map (failed created) = do clean_up created; pure (err out_of_memory)

unfoldable pub map_blank_page :
    (pml4 virtual_address flags : ℕ) → Command Mapping (Result UserPageMapperError (Unit {0}))
unfolding child_flags_of map_blank_levels end_map
map_blank_page pml4 virtual_address flags = do
  e ← map_blank_levels levels virtual_address (child_flags_of flags) pml4 []
  end_map e
