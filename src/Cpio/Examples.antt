-- ===== src/Cpio/Examples.antt =====
-- An archive of two files, and the theorems at it.
use x.Base.{
  ℕ, ◌≡◌, refl, List, [], ◌∷◌, none, some, arith, length, ltb, if◌then◌else◌, replicate, All,
}
use x.Cpio.{octal_to_binary, find_file, bytes_eq}
use x.Cpio.Octal.{octal, octal_to_binary-octal}
use x.Cpio.Archive.{File, IsFile, file_bytes, pack, lookup}
use x.Cpio.Search.{search_result, find_file-pack, find_file_short}

-- The files "a" and "bc".
abbrev first : File
first = record { metadata = replicate 53 48; name = 97 ∷ []; content = 1 ∷ 2 ∷ 3 ∷ [] }

abbrev second : File
second = record { metadata = replicate 53 49; name = 98 ∷ 99 ∷ []; content = 7 ∷ [] }

abbrev files : List File
files = first ∷ second ∷ []

files-IsFile : All IsFile files
files-IsFile = (
  record { metadata_fits = refl; name_fits = omega arith; content_fits = omega arith },
  (record { metadata_fits = refl; name_fits = omega arith; content_fits = omega arith }, tt),
)

second_found : find_file (λ i. 0) (pack files []) (98 ∷ 99 ∷ []) ≡ some (some (7 ∷ []))
unfolding find_file pack octal file_bytes
second_found = refl

padding_panics : search_result (100 ∷ []) files 80 ≡ none
unfolding search_result lookup bytes_eq
padding_panics = refl

find_file-pack_example :
    find_file (λ i. 0) (pack files (replicate 80 0)) (98 ∷ 99 ∷ [])
    ≡ search_result (98 ∷ 99 ∷ []) files 80
find_file-pack_example = find_file-pack (λ i. 0) (98 ∷ 99 ∷ []) 80 files files-IsFile

abbrev digits : List ℕ
digits = replicate 75 48

find_file_short_example :
    find_file (λ i. 0) digits (97 ∷ []) ≡ (if ltb (length digits) 75 then some none else none)
find_file_short_example = find_file_short (λ i. 0) digits (97 ∷ []) (omega arith)

octal_to_binary-octal_example : octal_to_binary (octal 11 1234567) ≡ some 1234567
octal_to_binary-octal_example = octal_to_binary-octal 11 1234567 (omega arith) (omega arith)
