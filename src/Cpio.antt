-- ===== src/Cpio.antt =====
-- The archive of initial files, kernel/src/cpio.rs: octal fields and the search for a file.
pub mod Octal
pub mod Archive
pub mod Find
pub mod Search
mod Examples
use x.Base.{
  ℕ, zero, suc, ◌+◌, ◌-◌, ◌*◌, ◌%◌, ◌^◌, Bool, true, false, not, ltb, leb, ◌==◌, ◌&&◌,
  if◌then◌else◌, List, [], ◌∷◌, Option, none, some, length, get_elem?, take, drop,
}

-- Bytes of the archive are numbers below 256. A computation that panics is `none`.
infixl 5 ◌>>=◌
abbrev ◌>>=◌ {ℓ κ} : {A : Type ℓ} {B : Type κ} → Option A → (A → Option B) → Option B
none >>= f = none
some a >>= f = f a

-- `octal_to_binary`, from the number read so far. The subtraction of `b'0'` and the addition panic
-- out of range; the shift drops what leaves the word.
unfoldable pub octal_from : List ℕ → (number : ℕ) → Option ℕ
octal_from [] number = some number
octal_from (digit ∷ digits) number =
    let sum = number * 8 % 2 ^ 64 + (digit - 48) in
    if ltb digit 48 then none else if ltb sum (2 ^ 64) then octal_from digits sum else none

unfoldable pub octal_to_binary : List ℕ → Option ℕ
unfolding octal_from
octal_to_binary octal = octal_from octal 0

-- The header of a file, in the layout of `#[repr(C)]`.
pub record Node : Type 0 where
  pub magic : List ℕ
  pub device : List ℕ
  pub i_number : List ℕ
  pub mode : List ℕ
  pub user_id : List ℕ
  pub group_id : List ℕ
  pub num_links : List ℕ
  pub r_device : List ℕ
  pub modified_time : List ℕ
  pub name_len_octal : List ℕ
  pub file_size_octal : List ℕ

abbrev pub size_of_node : ℕ
size_of_node = 76

abbrev pub name_offset : ℕ
name_offset = 76

-- `b"070707"`.
abbrev pub node_magic : List ℕ
node_magic = 48 ∷ 55 ∷ 48 ∷ 55 ∷ 48 ∷ 55 ∷ []

unfoldable pub get_name_cstring_len : Node → Option ℕ
unfolding octal_to_binary
get_name_cstring_len node = octal_to_binary node.name_len_octal

unfoldable pub get_file_size : Node → Option ℕ
unfolding octal_to_binary
get_file_size node = octal_to_binary node.file_size_octal

-- Equality of byte slices.
unfoldable pub bytes_eq : List ℕ → List ℕ → Bool
bytes_eq [] [] = true
bytes_eq [] (y ∷ ys) = false
bytes_eq (x ∷ xs) [] = false
bytes_eq (x ∷ xs) (y ∷ ys) = (x == y) && bytes_eq xs ys

-- `&archive[start..][0..len]`, which panics out of range.
unfoldable pub slice : List ℕ → (start len : ℕ) → Option (List ℕ)
slice archive start len =
    if leb start (length archive) && leb len (length archive - start)
    then some (take len (drop start archive))
    else none

-- What one round of the loop of `find_file` comes to: `break`, the next position, or the file.
pub data Visit : Type 0 where
  stop : Visit
  go_on : (current_pos : ℕ) → Visit
  return_file : (content : List ℕ) → Visit

-- The header is read through a pointer, which does not heed the end of the slice: `behind` is what
-- memory holds after it.
module _ (behind : ℕ → ℕ) (archive : List ℕ) where
  unfoldable pub byte_read : ℕ → ℕ
  byte_read i = elim (get_elem? archive i) [ none ↦ behind (i - length archive) | some b ↦ b ]

  unfoldable pub read_bytes : (start len : ℕ) → List ℕ
  unfolding byte_read
  read_bytes start zero = []
  read_bytes start (suc len) = byte_read start ∷ read_bytes (suc start) len

  unfoldable pub read_node : (current_pos : ℕ) → Node
  unfolding read_bytes
  read_node current_pos = record {
    magic = read_bytes current_pos 6;
    device = read_bytes (current_pos + 6) 6;
    i_number = read_bytes (current_pos + 12) 6;
    mode = read_bytes (current_pos + 18) 6;
    user_id = read_bytes (current_pos + 24) 6;
    group_id = read_bytes (current_pos + 30) 6;
    num_links = read_bytes (current_pos + 36) 6;
    r_device = read_bytes (current_pos + 42) 6;
    modified_time = read_bytes (current_pos + 48) 11;
    name_len_octal = read_bytes (current_pos + 59) 6;
    file_size_octal = read_bytes (current_pos + 65) 11;
  }

  -- The body of the loop once both lengths are read.
  unfoldable pub visit_sized :
      (file_name : List ℕ) (current_pos : ℕ) → Node → (name_len file_size : ℕ) → Option Visit
  unfolding slice bytes_eq
  visit_sized file_name current_pos node zero file_size = none
  visit_sized file_name current_pos node (suc chars) file_size = do
    node_name ← slice archive (current_pos + name_offset) chars
    if not (bytes_eq node.magic node_magic)
        then some stop
        else if not (bytes_eq file_name node_name)
        then some (go_on (current_pos + (76 + suc chars + file_size)))
        else do
          content ← slice archive (current_pos + name_offset + suc chars) file_size
          some (return_file content)

  unfoldable pub visit : (file_name : List ℕ) (current_pos : ℕ) → Option Visit
  unfolding read_node visit_sized get_name_cstring_len get_file_size
  visit file_name current_pos =
      if ltb (length archive - current_pos + 1) size_of_node
      then some stop
      else let node = read_node current_pos in
        do
          name_len ← get_name_cstring_len node
          file_size ← get_file_size node
          visit_sized file_name current_pos node name_len file_size

  -- The loop. Each round moves on by a header at least, so that the length of the archive bounds the
  -- rounds.
  unfoldable pub find_from :
      (fuel : ℕ) (file_name : List ℕ) (current_pos : ℕ) → Option (Option (List ℕ))
  unfolding visit
  find_from zero file_name current_pos = none
  find_from (suc fuel) file_name current_pos =
      if ltb current_pos (length archive)
      then elim (visit file_name current_pos) [
        | none ↦ none
        | some stop ↦ some none
        | some (go_on next_pos) ↦ find_from fuel file_name next_pos
        | some (return_file content) ↦ some (some content)
      ]
      else some none

  unfoldable pub find_file : (file_name : List ℕ) → Option (Option (List ℕ))
  unfolding find_from
  find_file file_name = find_from (suc (length archive)) file_name 0
