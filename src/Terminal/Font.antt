-- ===== src/Terminal/Font.antt =====
-- Fonts, `psf` of kernel/src/terminal.rs.
use x.Base.{
  ℕ, ◌+◌, ◌*◌, ◌^◌, not, ◌==◌, leb, if◌then◌else◌, List, [], Option, none, some, length, get_or,
  take, drop, Result, ok, err,
}

abbrev pub magic : ℕ
magic = 0x864AB572

abbrev pub version : ℕ
version = 0

pub record Header : Type 0 where
  pub magic : ℕ
  pub version : ℕ
  pub header_size : ℕ
  pub flags : ℕ
  pub num_glyphs : ℕ
  pub bytes_per_glyph : ℕ
  pub height : ℕ
  pub width : ℕ

pub data HeaderParseError : Type 0 where
  invalid_magic unknown_version : HeaderParseError

-- `u32::from_le_bytes` of the four bytes at an offset; the array has 32.
unfoldable pub word_at : List ℕ → (offset : ℕ) → ℕ
word_at bytes offset =
    get_or bytes offset 0
    + get_or bytes (offset + 1) 0 * 2 ^ 8
    + get_or bytes (offset + 2) 0 * 2 ^ 16
    + get_or bytes (offset + 3) 0 * 2 ^ 24

unfoldable pub from_bytes : (bytes : List ℕ) → Result HeaderParseError Header
unfolding word_at
from_bytes bytes =
    if not (word_at bytes 0 == magic)
    then err invalid_magic
    else if not (word_at bytes 4 == version)
    then err unknown_version
    else ok (record {
      magic = word_at bytes 0;
      version = word_at bytes 4;
      header_size = word_at bytes 8;
      flags = word_at bytes 12;
      num_glyphs = word_at bytes 16;
      bytes_per_glyph = word_at bytes 20;
      height = word_at bytes 24;
      width = word_at bytes 28;
    })

pub record Font : Type 0 where
  pub header : Header
  pub font_data : List ℕ

-- The messages of `Font::new`.
pub data FontError : Type 0 where
  bad_magic bad_bytes_per_glyph : FontError

unfoldable pub font_of : Result HeaderParseError Header → (file : List ℕ) → Result FontError Font
font_of (err e) file = err bad_magic
font_of (ok header) file =
    if header.bytes_per_glyph == 16
    then ok (record { header = header; font_data = drop 32 file })
    else err bad_bytes_per_glyph

-- `Font::new`: the slice of the header panics on a file that is shorter.
unfoldable pub new_font : (file : List ℕ) → Option (Result FontError Font)
unfolding from_bytes font_of
new_font file =
    if leb 32 (length file) then some (font_of (from_bytes (take 32 file)) file) else none

unfoldable pub glyph_index : Font → (character : ℕ) → ℕ
glyph_index font character = if leb font.header.num_glyphs character then b'?' else character

unfoldable pub get_character : Font → (character : ℕ) → List ℕ
unfolding glyph_index
get_character font character =
    let start_pos = font.header.bytes_per_glyph * glyph_index font character in
    let end_pos = start_pos + font.header.bytes_per_glyph in
    if leb (length font.font_data) end_pos
    then []
    else take font.header.bytes_per_glyph (drop start_pos font.font_data)
