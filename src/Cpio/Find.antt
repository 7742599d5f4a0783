-- ===== src/Cpio/Find.antt =====
-- `find_file` on an archive that packs files finds what stands first under a name.
use x.Base.{
  ℕ, suc, ◌+◌, ◌-◌, ◌≡◌, refl, ap, sym, ◌∙◌, List, [], ◌∷◌, ◌++◌, some, arith, inl, inr, Bool-cases,
  true, false, length, drop, ltb, if◌then◌else◌, length-drop, ==_refl,
}
use x.Cpio.{
  octal_to_binary, Node, node_magic, read_bytes, read_node, bytes_eq, get_name_cstring_len,
  get_file_size, Visit, go_on, return_file, visit_sized, visit,
}
use x.Cpio.Octal.{octal, length-octal, octal_to_binary-octal}
use x.Cpio.Archive.{
  File, IsFile, file_bytes, length-file_bytes, drop-length, read_bytes_lem, slice_lem,
}

bytes_eq_refl : (xs : List ℕ) → bytes_eq xs xs ≡ true
unfolding bytes_eq
bytes_eq_refl [] = refl
bytes_eq_refl (x ∷ xs) = rw (==_refl x) (bytes_eq_refl xs)

module _ (behind : ℕ → ℕ) (archive : List ℕ) where
  read_octal :
      (width n pos : ℕ) (rest : List ℕ)
      → drop pos archive ≡ octal width n ++ rest
      → read_bytes behind archive pos width ≡ octal width n
  read_octal width n pos rest e =
      ap (read_bytes behind archive pos) (sym (length-octal width n))
      ∙ read_bytes_lem behind archive (octal width n) rest pos e

  -- A file stands at a position of the archive.
  module _ (pos : ℕ) (f : File) (rest : List ℕ) (h : IsFile f)
      (e : drop pos archive ≡ file_bytes f rest) where
    abbrev name_part : List ℕ
    name_part = f.name ++ (0 ∷ [] ++ (f.content ++ rest))

    at_metadata :
        drop (pos + 6) archive
        ≡ f.metadata ++ (octal 6 (length f.name + 1) ++ (octal 11 (length f.content) ++ name_part))
    unfolding file_bytes
    at_metadata = drop-length archive node_magic _ pos (pos + 6) e (omega arith)

    at_name_len :
        drop (pos + 59) archive
        ≡ octal 6 (length f.name + 1) ++ (octal 11 (length f.content) ++ name_part)
    at_name_len =
        drop-length archive f.metadata _ (pos + 6) (pos + 59) at_metadata
          (omega (arith, h.metadata_fits))

    at_file_size : drop (pos + 65) archive ≡ octal 11 (length f.content) ++ name_part
    at_file_size =
        drop-length archive (octal 6 (length f.name + 1)) _ (pos + 59) (pos + 65) at_name_len
          (omega (arith, length-octal 6 (length f.name + 1)))

    at_name : drop (pos + 76) archive ≡ name_part
    at_name =
        drop-length archive (octal 11 (length f.content)) _ (pos + 65) (pos + 76) at_file_size
          (omega (arith, length-octal 11 (length f.content)))

    at_content : drop (pos + 76 + suc (length f.name)) archive ≡ f.content ++ rest
    at_content =
        let zero_byte =
          drop-length archive f.name _ (pos + 76) (pos + 76 + length f.name) at_name refl in
        drop-length archive (0 ∷ []) _ (pos + 76 + length f.name) _ zero_byte (omega arith)

    pub at_next : drop (pos + (76 + suc (length f.name) + length f.content)) archive ≡ rest
    at_next =
        drop-length archive f.content _ (pos + 76 + suc (length f.name)) _ at_content (omega arith)

    -- The whole of it lies inside the archive.
    pub inside : pos + 76 + suc (length f.name) + length f.content + length rest ≡ length archive
    inside =
        omega (arith, length-drop pos archive, ap (length {A = ℕ}) e, length-file_bytes f rest h)

    name_len_lem : get_name_cstring_len (read_node behind archive pos) ≡ some (suc (length f.name))
    unfolding get_name_cstring_len read_node
    name_len_lem =
        ap octal_to_binary (read_octal 6 (length f.name + 1) (pos + 59) _ at_name_len)
        ∙ (octal_to_binary-octal 6 (length f.name + 1) (omega arith) h.name_fits
            ∙ ap some (omega arith))

    file_size_lem : get_file_size (read_node behind archive pos) ≡ some (length f.content)
    unfolding get_file_size read_node
    file_size_lem =
        ap octal_to_binary (read_octal 11 (length f.content) (pos + 65) _ at_file_size)
        ∙ octal_to_binary-octal 11 (length f.content) (omega arith) h.content_fits

    magic_lem : (read_node behind archive pos).magic ≡ node_magic
    unfolding read_node file_bytes
    magic_lem = read_bytes_lem behind archive node_magic _ pos e

    abbrev visited : List ℕ → Visit
    visited file_name =
        if bytes_eq file_name f.name
        then return_file f.content
        else go_on (pos + (76 + suc (length f.name) + length f.content))

    visit_sized_lem :
        (file_name : List ℕ) (node : Node)
        → node.magic ≡ node_magic
        → visit_sized behind archive file_name pos node (suc (length f.name)) (length f.content)
          ≡ some (visited file_name)
    unfolding visit_sized
    visit_sized_lem file_name node m =
        let name = slice_lem archive f.name _ (pos + 76) at_name (omega (arith, inside)) in
        let content =
          slice_lem archive f.content rest (pos + 76 + suc (length f.name)) at_content
            (omega (arith, inside)) in
        rw (name, m, content)
          (elim (Bool-cases (bytes_eq file_name f.name)) [
            | inl same ↦ rw same refl
            | inr other ↦ rw other refl
          ])

    pub visit_lem :
        (file_name : List ℕ) → visit behind archive file_name pos ≡ some (visited file_name)
    unfolding visit
    visit_lem file_name =
        let header : ltb (length archive - pos + 1) 76 ≡ false = ground (arith, inside) in
        rw (header, name_len_lem, file_size_lem)
          (visit_sized_lem file_name (read_node behind archive pos) magic_lem)
