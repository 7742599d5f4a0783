-- ===== src/Cpio/Archive.antt =====
-- Archives as lists of files, and what stands at a position of one.
use x.Base.{
  ℕ, zero, suc, ◌+◌, ◌-◌, ◌^◌, ◌≤◌, ◌<◌, ◌≡◌, refl, ap, sym, ◌∙◌, List, [], ◌∷◌, ◌++◌, Option, none,
  some, arith, true, length, get_elem?, take, drop, leb, if◌then◌else◌, length-drop, length-append,
}
use x.Cpio.{node_magic, byte_read, read_bytes, slice, bytes_eq}
use x.Cpio.Octal.{octal, length-octal}

-- A file: the fields of its header that a search does not read, its name and its content.
pub record File : Type 0 where
  pub metadata : List ℕ
  pub name : List ℕ
  pub content : List ℕ

-- The fields fit: 53 bytes of metadata, the length of the name with its zero byte in six octal
-- digits, the size in eleven.
pub record IsFile (f : File) : Type 0 where
  pub metadata_fits : length f.metadata ≡ 53
  pub name_fits : length f.name + 1 < 8 ^ 6
  pub content_fits : length f.content < 8 ^ 11

-- The bytes of a file, before the bytes that follow it.
unfoldable pub file_bytes : File → List ℕ → List ℕ
file_bytes f rest =
    node_magic
    ++ (f.metadata
        ++ (octal 6 (length f.name + 1)
            ++ (octal 11 (length f.content) ++ (f.name ++ (0 ∷ [] ++ (f.content ++ rest))))))

unfoldable pub pack : List File → List ℕ → List ℕ
pack [] rest = rest
pack (f ∷ files) rest = file_bytes f (pack files rest)

-- The content of the first file of that name.
unfoldable pub lookup : List ℕ → List File → Option (List ℕ)
lookup file_name [] = none
lookup file_name (f ∷ files) =
    if bytes_eq file_name f.name then some f.content else lookup file_name files

drop-suc :
    (xs : List ℕ) (i x : ℕ) (rest : List ℕ)
    → drop i xs ≡ x ∷ rest
    → (get_elem? xs i ≡ some x) × (drop (suc i) xs ≡ rest)
drop-suc [] zero x rest e = absurd (cc e)
drop-suc [] (suc i) x rest e = absurd (cc e)
drop-suc (y ∷ ys) zero x rest e = (cc e, cc e)
drop-suc (y ∷ ys) (suc i) x rest e = drop-suc ys i x rest e

pub drop-append : (xs ys : List ℕ) → drop (length xs) (xs ++ ys) ≡ ys
drop-append [] ys = refl
drop-append (x ∷ xs) ys = drop-append xs ys

pub take-append : (xs ys : List ℕ) → take (length xs) (xs ++ ys) ≡ xs
take-append [] ys = refl
take-append (x ∷ xs) ys = ap (λ t. x ∷ t) (take-append xs ys)

-- Past the bytes that stand at a position.
pub drop-length :
    (archive xs rest : List ℕ) (pos next : ℕ)
    → drop pos archive ≡ xs ++ rest
    → next ≡ pos + length xs
    → drop next archive ≡ rest
drop-length archive [] rest pos next e n = ap (λ i. drop i archive) (omega arith) ∙ e
drop-length archive (x ∷ xs) rest pos next e n =
    drop-length archive xs rest (suc pos) next (drop-suc archive pos x (xs ++ rest) e).1
      (omega arith)

-- The pointer reads the bytes that stand at its position.
pub read_bytes_lem :
    (behind : ℕ → ℕ) (archive xs rest : List ℕ) (pos : ℕ)
    → drop pos archive ≡ xs ++ rest
    → read_bytes behind archive pos (length xs) ≡ xs
unfolding read_bytes byte_read
read_bytes_lem behind archive [] rest pos e = refl
read_bytes_lem behind archive (x ∷ xs) rest pos e =
    let (head, tail) = drop-suc archive pos x (xs ++ rest) e in
    let byte : byte_read behind archive pos ≡ x = rw (byte_read, head) refl in
    rw (byte, read_bytes_lem behind archive xs rest (suc pos) tail) refl

-- So does the slice, inside the archive.
pub slice_lem :
    (archive xs rest : List ℕ) (pos : ℕ)
    → drop pos archive ≡ xs ++ rest
    → pos ≤ length archive
    → slice archive pos (length xs) ≡ some xs
unfolding slice
slice_lem archive xs rest pos e h =
    let total : length archive - pos ≡ length xs + length rest =
      sym (length-drop pos archive) ∙ ap length e ∙ length-append xs rest in
    let inside : leb pos (length archive) ≡ true = ground arith in
    let enough : leb (length xs) (length archive - pos) ≡ true = ground arith in
    rw (inside, enough, e) (ap some (take-append xs rest))

pub length-file_bytes :
    (f : File) (rest : List ℕ)
    → IsFile f
    → length (file_bytes f rest) ≡ 76 + suc (length f.name) + length f.content + length rest
unfolding file_bytes
length-file_bytes f rest h =
    let name_part = f.name ++ (0 ∷ [] ++ (f.content ++ rest)) in
    let size_part = octal 11 (length f.content) ++ name_part in
    omega (
      arith,
      h.metadata_fits,
      length-append f.metadata (octal 6 (length f.name + 1) ++ size_part),
      length-append (octal 6 (length f.name + 1)) size_part,
      length-octal 6 (length f.name + 1),
      length-append (octal 11 (length f.content)) name_part,
      length-octal 11 (length f.content),
      length-append f.name (0 ∷ [] ++ (f.content ++ rest)),
      length-append f.content rest,
    )
