-- ===== src/View/Dib/Header.antt =====
-- The file that `imageFromDib` makes of a bitmap in its parts.
use qfreerdp.Base.{
  ℕ, zero, suc, ◌+◌, ◌*◌, ◌^◌, ◌<◌, ◌≤◌, ◌≡◌, false, refl, ap, ◌∙◌, sym, ◌&&◌, ◌||◌, [], ◌∷◌, ◌++◌,
  some, arith, length, take, drop, ltb, leb, ◌==◌, if◌then◌else◌, length-append, append_assoc,
  subst, else_branch,
}
use qfreerdp.Base.Word.{u32}
use qfreerdp.Base.Bytes.{of_le, of_le-to_le, slice}
use qfreerdp.Entry.Types.{Bytes}
use qfreerdp.View.Dib.{
  read_le, header_size, info_field, color_table_bytes, bitfields_bytes, pixel_offset, file_header,
  image_from_dib,
}

drop-append : (xs ys : Bytes) → drop (length xs) (xs ++ ys) ≡ ys
drop-append [] ys = refl
drop-append (x ∷ xs) ys = drop-append xs ys

take-append : (n : ℕ) (xs ys : Bytes) → n ≤ length xs → take n (xs ++ ys) ≡ take n xs
take-append zero xs ys h = refl
take-append (suc n) [] ys h = absurd (omega arith)
take-append (suc n) (x ∷ xs) ys h = ap (◌∷◌ x) (take-append n xs ys (omega arith))

-- A field of the header is read from the header.
slice-append : (i n : ℕ) (xs ys : Bytes) → i + n ≤ length xs → slice i n (xs ++ ys) ≡ slice i n xs
slice-append zero n xs ys h = take-append n xs ys (omega arith)
slice-append (suc i) n [] ys h = absurd (omega arith)
slice-append (suc i) n (x ∷ xs) ys h = slice-append i n xs ys (omega arith)

read_le-append :
    (i n : ℕ) (xs ys : Bytes) → i + n ≤ length xs → read_le i n (xs ++ ys) ≡ read_le i n xs
read_le-append i n xs ys h = ap of_le (slice-append i n xs ys h)

-- The number of colours in the table, by biBitCount and biClrUsed: as many as are used, where 0 stands
-- for all that the bits can tell apart, if these are at most 8, and for none otherwise.
abbrev pub colors : ℕ → ℕ → ℕ
colors bits zero = if leb 1 bits && leb bits 8 then 2 ^ bits else 0
colors bits (suc n) = suc n

-- BI_BITFIELDS: the masks of red, green and blue stand behind a header of the oldest kind.
abbrev pub masks_length : ℕ → ℕ → ℕ
masks_length size compression = if size == 40 && compression == 3 then 12 else 0

-- The parts of a bitmap that stand before its pixels: a header of 40 bytes or more that names its own
-- length, three masks where it has them elsewhere than inside, and a table of 4 bytes a colour.
pub record IsBitmap (header masks table : Bytes) : Type 0 where
  pub has_info : 40 ≤ length header
  pub sized : read_le 0 4 header ≡ length header
  pub masked : length masks ≡ masks_length (length header) (read_le 16 4 header)
  pub colored : length table ≡ 4 * colors (read_le 14 2 header) (read_le 32 4 header)

-- The header has 14 bytes, names the file's length and where the pixels begin.
header_fields :
    (size offset : ℕ) (dib : Bytes)
    → size < 2 ^ 32
    → offset < 2 ^ 32
    → (read_le 2 4 (file_header size offset ++ dib) ≡ size)
      × (read_le 10 4 (file_header size offset ++ dib) ≡ offset)
unfolding file_header
header_fields size offset dib a b =
    (of_le-to_le 4 size (omega arith), of_le-to_le 4 offset (omega arith))

header_length : (size offset : ℕ) → length (file_header size offset) ≡ 14
unfolding file_header
header_length size offset = refl

module _ (header masks table pixels : Bytes) (is : IsBitmap header masks table) where
  abbrev dib : Bytes
  dib = header ++ (masks ++ (table ++ pixels))

  length-dib : length dib ≡ length header + length masks + length table + length pixels
  length-dib = omega (
    arith,
    length-append header (masks ++ (table ++ pixels)),
    length-append masks (table ++ pixels),
    length-append table pixels,
  )

  field : (i n : ℕ) → i + n ≤ 40 → read_le i n dib ≡ read_le i n header
  field i n h = read_le-append i n header (masks ++ (table ++ pixels)) (omega (arith, is.has_info))

  size_read : header_size dib ≡ length header
  size_read = field 0 4 (omega arith) ∙ is.sized

  info_read : (i n : ℕ) → i + n ≤ 40 → info_field i n dib ≡ read_le i n header
  info_read i n h =
      let a = size_read in
      let b = length-dib in let c = is.has_info in let d = field i n h in ground arith

  masks_counted : bitfields_bytes dib ≡ length masks
  unfolding bitfields_bytes
  masks_counted = (λ i. masks_length (size_read i) (info_read 16 4 (omega arith) i)) ∙ sym is.masked

  colors_counted : length dib < 2 ^ 32 → color_table_bytes dib ≡ length table
  unfolding color_table_bytes
  colors_counted small =
      rw (info_read 14 2 (omega arith), info_read 32 4 (omega arith))
        (counted (read_le 14 2 header) (read_le 32 4 header) (length table) is.colored
          (omega (arith, length-dib)))
    where
      counted :
          (bits used n : ℕ)
          → n ≡ 4 * colors bits used
          → n < 2 ^ 32
          → (if ltb 0 used
              then u32 (used * 4)
              else (if ltb 0 bits && leb bits 8 then u32 (2 ^ bits * 4) else 0))
            ≡ n
      counted bits zero n e h = ground arith
      counted bits (suc k) n e h = ground arith

  offset_counted :
      length dib + 14 < 2 ^ 32
      → pixel_offset dib ≡ 14 + (length header + (length masks + length table))
  unfolding pixel_offset
  offset_counted small =
      (λ i. u32 (14 + size_read i + masks_counted i + colors_counted (omega arith) i))
      ∙ omega (arith, length-dib)

  pixels_behind :
      (file : Bytes)
      → length file ≡ 14
      → drop (14 + (length header + (length masks + length table))) (file ++ dib) ≡ pixels
  pixels_behind file e =
      let front : Bytes = file ++ (header ++ (masks ++ table)) in
      let n : length front ≡ 14 + (length header + (length masks + length table)) = omega (
        arith,
        length-append file (header ++ (masks ++ table)),
        length-append header (masks ++ table),
        length-append masks table,
      ) in
      let whole : file ++ dib ≡ front ++ pixels = simp (append_assoc) in
      subst (λ k. drop k (file ++ dib) ≡ pixels) n
        (ap (drop (length front)) whole ∙ drop-append front pixels)

  made :
      length dib + 14 < 2 ^ 32
      → image_from_dib dib ≡ some (file_header (14 + length dib) (pixel_offset dib) ++ dib)
  unfolding image_from_dib
  made small =
      let long : ltb (length dib) 40 ≡ false = ground (arith, length-dib, is.has_info) in
      let whole : (ltb (length header) 12 || ltb (length dib) (length header)) ≡ false =
        ground (arith, length-dib, is.has_info) in
      let size : u32 (14 + u32 (length dib)) ≡ 14 + length dib = omega arith in
      else_branch _ _ _ long
      ∙ else_branch _ _ _ (ap (λ n. ltb n 12 || ltb (length dib) n) size_read ∙ whole)
      ∙ ap (λ n. some (file_header n (pixel_offset dib) ++ dib)) size

  -- A bitmap becomes a file that is the bitmap behind 14 bytes of header: the letters BM, the file's own
  -- length, and the place at which the pixels begin: there the pixels themselves stand, behind the
  -- bitmap's header, its masks and its colour table. The bitmap's header has at least 40 bytes, and the
  -- file's length fits 32 bits; masks stand behind a header of 40 bytes with compression 3, and the table
  -- has 4 bytes for each of the colours that the header says or its bits imply.
  pub image_from_dib-header :
      length dib + 14 < 2 ^ 32
      → (file : Bytes) × (image_from_dib dib ≡ some file)
        × (take 2 file ≡ b'B' ∷ b'M' ∷ [])
        × (read_le 2 4 file ≡ length file)
        × (drop (read_le 10 4 file) file ≡ pixels)
        × (drop 14 file ≡ dib)
  image_from_dib-header small =
      let size = 14 + length dib in
      let head : Bytes = file_header size (pixel_offset dib) in
      let place = offset_counted small in
      let (length_read, offset_read) =
        header_fields size (pixel_offset dib) dib (omega arith)
          (omega (arith, place, length-dib)) in
      let head_length = header_length size (pixel_offset dib) in
      (
        head ++ dib,
        made small,
        unfold file_header in refl,
        length_read ∙ omega (arith, length-append head dib, head_length),
        ap (λ n. drop n (head ++ dib)) (offset_read ∙ place) ∙ pixels_behind head head_length,
        unfold file_header in refl,
      )
