-- ===== src/Cpio/Search.antt =====
-- The loop of `find_file` over a packed archive with zero bytes behind the files, and on an archive
-- too short for a header.
use x.Base.{
  ℕ, zero, suc, ◌+◌, ◌-◌, ◌≤◌, ◌<◌, ◌≡◌, refl, ap, sym, ◌∙◌, List, [], ◌∷◌, ◌++◌, Option, none,
  some, arith, inl, inr, Bool-cases, Option-cases, true, false, length, drop, leb, ltb,
  if◌then◌else◌, replicate, All, length-drop, length-replicate,
}
use x.Cpio.{
  octal_to_binary, Node, read_node, slice, bytes_eq, get_name_cstring_len, get_file_size, Visit,
  stop, go_on, return_file, visit_sized, visit, find_from, find_file,
}
use x.Cpio.Archive.{File, IsFile, pack, lookup, drop-length, read_bytes_lem}
use x.Cpio.Find.{inside, at_next, visit_lem}

-- What a search comes to: the first file of that name; without one, `None`, or a panic when the
-- bytes behind the files are enough to be read as a header.
unfoldable pub search_result :
    (file_name : List ℕ) → List File → (padding : ℕ) → Option (Option (List ℕ))
unfolding lookup
search_result file_name files padding = elim (lookup file_name files) [
  | some content ↦ some (some content)
  | none ↦ if ltb padding 75 then some none else none
]

module _ (file_name : List ℕ) (padding : ℕ) where
  missing : search_result file_name [] padding ≡ (if ltb padding 75 then some none else none)
  unfolding search_result lookup
  missing = refl

  first_found :
      (f : File) (files : List File)
      → bytes_eq file_name f.name ≡ true
      → search_result file_name (f ∷ files) padding ≡ some (some f.content)
  unfolding search_result lookup
  first_found f files same = rw (search_result, lookup, same) refl

  first_passed :
      (f : File) (files : List File)
      → bytes_eq file_name f.name ≡ false
      → search_result file_name (f ∷ files) padding ≡ search_result file_name files padding
  unfolding search_result lookup
  first_passed f files other = rw (search_result, lookup, other) refl

replicate_split : (i j a : ℕ) → replicate (i + j) a ≡ replicate i a ++ replicate j a
replicate_split zero j a = ap (λ n. replicate n a) (omega arith)
replicate_split (suc i) j a =
    let next : suc i + j ≡ suc (i + j) = omega arith in
    rw next (ap (λ t. a ∷ t) (replicate_split i j a))

module _ (behind : ℕ → ℕ) (archive file_name : List ℕ) where
  -- A zero byte is no octal digit.
  padding_name_len :
      (pos more : ℕ)
      → drop pos archive ≡ replicate (59 + (6 + more)) 0
      → get_name_cstring_len (read_node behind archive pos) ≡ none
  unfolding get_name_cstring_len read_node octal_to_binary
  padding_name_len pos more e =
      let field =
        drop-length archive (replicate 59 0) (replicate (6 + more) 0) pos (pos + 59)
          (e ∙ replicate_split 59 (6 + more) 0) refl in
      let digits =
        read_bytes_lem behind archive (replicate 6 0) (replicate more 0) (pos + 59)
          (field ∙ replicate_split 6 more 0) in
      ap octal_to_binary digits

  visit_padding :
      (pos n : ℕ)
      → drop pos archive ≡ replicate n 0
      → length archive - pos ≡ n
      → visit behind archive file_name pos ≡ (if ltb n 75 then some stop else none)
  unfolding visit
  visit_padding pos n e l = elim (Bool-cases (ltb n 75)) [
    | inl short ↦
        let header : ltb (length archive - pos + 1) 76 ≡ true = ground arith in
        rw (short, header) refl
    | inr long ↦
        let header : ltb (length archive - pos + 1) 76 ≡ false = ground arith in
        let split : n ≡ 59 + (6 + (n - 65)) = ground arith in
        rw (long, header)
          (rw (padding_name_len pos (n - 65) (e ∙ ap (λ m. replicate m 0) split)) refl)
  ]

  -- What a round of the loop makes of a visit.
  abbrev after : (fuel : ℕ) → Option Visit → Option (Option (List ℕ))
  after fuel none = none
  after fuel (some stop) = some none
  after fuel (some (go_on next_pos)) = find_from behind archive fuel file_name next_pos
  after fuel (some (return_file content)) = some (some content)

  round :
      (fuel pos : ℕ) {v : Option Visit}
      → ltb pos (length archive) ≡ true
      → visit behind archive file_name pos ≡ v
      → find_from behind archive (suc fuel) file_name pos ≡ after fuel v
  unfolding find_from
  round fuel pos h e = rw h (ap (after fuel) e)

  past_the_end :
      (fuel pos : ℕ)
      → ltb pos (length archive) ≡ false
      → find_from behind archive (suc fuel) file_name pos ≡ some none
  unfolding find_from
  past_the_end fuel pos h = rw h refl

  find_from_lem :
      (padding : ℕ) (files : List File) (fuel pos : ℕ)
      → All IsFile files
      → pos ≤ length archive
      → drop pos archive ≡ pack files (replicate padding 0)
      → length archive - pos < fuel
      → find_from behind archive fuel file_name pos ≡ search_result file_name files padding
  unfolding pack
  find_from_lem padding files zero pos a h e enough = absurd (omega arith)
  find_from_lem padding [] (suc fuel) pos a h e enough =
      let total : length archive - pos ≡ padding =
        sym (length-drop pos archive) ∙ ap (length {A = ℕ}) e ∙ length-replicate padding 0 in
      rw (missing file_name padding) (elim (Bool-cases (ltb pos (length archive))) [
        | inl more ↦
            round fuel pos more (visit_padding pos padding e total)
            ∙ elim (Bool-cases (ltb padding 75)) [
              | inl short ↦ rw short refl
              | inr long ↦ rw long refl
            ]
        | inr done ↦
            let short : ltb padding 75 ≡ true = ground arith in
            rw short (past_the_end fuel pos done)
      ])
  find_from_lem padding (f ∷ files) (suc fuel) pos a h e enough =
      let rest = pack files (replicate padding 0) in
      let here = inside behind archive pos f rest a.0 e in
      let more : ltb pos (length archive) ≡ true = ground (arith, here) in
      let step = round fuel pos more (visit_lem behind archive pos f rest a.0 e file_name) in
      elim (Bool-cases (bytes_eq file_name f.name)) [
        | inl same ↦ rw (first_found file_name padding f files same) (step ∙ rw same refl)
        | inr other ↦
            let next = at_next behind archive pos f rest a.0 e in
            let moved = pos + (76 + suc (length f.name) + length f.content) in
            let later =
              find_from_lem padding files fuel moved a.1 (omega (arith, here)) next
                (omega (arith, here)) in
            rw (first_passed file_name padding f files other) (step ∙ rw other later)
      ]

  -- An archive that a header does not fit into.
  visit_sized_short :
      (node : Node) (name_len file_size : ℕ)
      → length archive < 76
      → visit_sized behind archive file_name 0 node name_len file_size ≡ none
  unfolding visit_sized slice
  visit_sized_short node zero file_size h = refl
  visit_sized_short node (suc chars) file_size h =
      let outside : leb 76 (length archive) ≡ false = ground arith in rw outside refl

  visit_short :
      length archive < 76
      → visit behind archive file_name 0 ≡ (if ltb (length archive) 75 then some stop else none)
  unfolding visit
  visit_short h =
      let node = read_node behind archive 0 in
      elim (Bool-cases (ltb (length archive) 75)) [
        | inl short ↦
            let header : ltb (length archive - 0 + 1) 76 ≡ true = ground arith in
            rw (short, header) refl
        | inr long ↦
            let header : ltb (length archive - 0 + 1) 76 ≡ false = ground arith in
            rw (long, header)
              (elim (Option-cases (get_name_cstring_len node)) [
                | inl e ↦ rw e refl
                | inr (name_len, e) ↦ rw e (elim (Option-cases (get_file_size node)) [
                  | inl s ↦ rw s refl
                  | inr (file_size, s) ↦ rw s (visit_sized_short node name_len file_size h)
                ])
              ])
      ]

-- In an archive of files whose lengths fit their octal fields, with zero bytes behind them,
-- `find_file` returns the content of the first file of the name. Without such a file it returns
-- `None` when fewer than 75 zero bytes stand behind the files, and panics when there are more: they
-- are read as a header before its magic number is tested.
pub find_file-pack :
    (behind : ℕ → ℕ) (file_name : List ℕ) (padding : ℕ) (files : List File)
    → All IsFile files
    → find_file behind (pack files (replicate padding 0)) file_name
      ≡ search_result file_name files padding
unfolding find_file
find_file-pack behind file_name padding files a =
    let archive = pack files (replicate padding 0) in
    find_from_lem behind archive file_name padding files (suc (length archive)) 0 a (omega arith)
      refl (omega arith)

-- An archive shorter than a header by two bytes or more has no file; one that is a single byte short
-- passes the test of the length, is read past its end, and makes the search panic.
pub find_file_short :
    (behind : ℕ → ℕ) (archive file_name : List ℕ)
    → length archive < 76
    → find_file behind archive file_name ≡ (if ltb (length archive) 75 then some none else none)
unfolding find_file
find_file_short behind archive file_name h = elim (Bool-cases (ltb 0 (length archive))) [
  | inl more ↦
      round behind archive file_name (length archive) 0 more
        (visit_short behind archive file_name h)
      ∙ elim (Bool-cases (ltb (length archive) 75)) [
        | inl short ↦ rw short refl
        | inr long ↦ rw long refl
      ]
  | inr empty ↦
      let short : ltb (length archive) 75 ≡ true = ground arith in
      rw short (past_the_end behind archive file_name (length archive) 0 empty)
]
