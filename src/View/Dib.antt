-- ===== src/View/Dib.antt =====
-- rdp-view-item.h: `imageFromDib`, which puts a file header before a bitmap from the clipboard.
pub mod Header
use qfreerdp.Base.{
  ℕ, ◌+◌, ◌*◌, ◌^◌, Bool, ◌&&◌, ◌||◌, List, [], ◌∷◌, ◌++◌, Option, none, some, length, ltb, leb,
  ◌==◌, if◌then◌else◌,
}
use qfreerdp.Base.Word.{u32}
use qfreerdp.Base.Bytes.{slice, to_le, of_le}
use qfreerdp.Entry.Types.{Bytes}

-- `qFromLittleEndian` at an offset.
abbrev pub read_le : ℕ → ℕ → Bytes → ℕ
read_le i n b = of_le (slice i n b)

abbrev pub header_size : Bytes → ℕ
header_size dib = read_le 0 4 dib

-- The fields `biBitCount`, `biCompression` and `biClrUsed`, 0 in a header that has none.
abbrev pub info_field : ℕ → ℕ → Bytes → ℕ
info_field i n dib = if leb 40 (header_size dib) && leb 40 (length dib) then read_le i n dib else 0

unfoldable pub color_table_bytes : Bytes → ℕ
color_table_bytes dib =
    let bits = info_field 14 2 dib in
    let used = info_field 32 4 dib in
    if ltb 0 used
    then u32 (used * 4)
    else (if ltb 0 bits && leb bits 8 then u32 (2 ^ bits * 4) else 0)

unfoldable pub bitfields_bytes : Bytes → ℕ
bitfields_bytes dib = if header_size dib == 40 && info_field 16 4 dib == 3 then 12 else 0

unfoldable pub pixel_offset : Bytes → ℕ
unfolding bitfields_bytes color_table_bytes
pixel_offset dib = u32 (14 + header_size dib + bitfields_bytes dib + color_table_bytes dib)

unfoldable pub file_header : ℕ → ℕ → Bytes
file_header file_size offset =
    b'B' ∷ b'M' ∷ (to_le 4 file_size ++ (to_le 2 0 ++ (to_le 2 0 ++ to_le 4 offset)))

-- The bytes that QImage::fromData gets as a BMP file: `none` is the null image.
unfoldable pub image_from_dib : Bytes → Option Bytes
unfolding file_header pixel_offset
image_from_dib dib =
    if ltb (length dib) 40
    then none
    else (if ltb (header_size dib) 12 || ltb (length dib) (header_size dib)
        then none
        else some (file_header (u32 (14 + u32 (length dib))) (pixel_offset dib) ++ dib))
