-- ===== src/Client/Files.antt =====
-- mini-qf-client.cc: the file descriptors that stand for files on the clipboard,
-- `qf_CliprdrServerFormatDataResponseCallBack` and `qf_CliprdrServerFormatDataRequestCallBack`.
pub mod Transfer
use qfreerdp.Base.{
  ℕ, suc, ◌+◌, ◌-◌, ◌/◌, ◌%◌, Bool, true, false, ◌&&◌, List, [], ◌∷◌, ◌++◌, map, Option, none, some,
  length, take, drop, replicate, ◌==◌, if◌then◌else◌,
}
use qfreerdp.Base.Word.{low32, high32, join64}
use qfreerdp.Base.Bytes.{to_le}
use qfreerdp.Entry.Types.{Text, Bytes, FileInfo}
use qfreerdp.Entry.Batch.{same_text}
use qfreerdp.Client.Formats.{Formats, name_files}
use qfreerdp.Status.{Rc, channel_rc_ok, error_invalid_parameter}
use qfreerdp.Wire.{cf_dib, cf_unicodetext}

-- FILEDESCRIPTORW: the directory bit stands for the attributes; `file_name` is the array of 260 units.
pub record Descriptor : Type 0 where
  pub size_low : ℕ
  pub size_high : ℕ
  pub is_directory : Bool
  pub file_name : List ℕ

abbrev pub max_chars : ℕ
max_chars = 259

-- The array starts as zeros.
unfoldable pub qf_copy_file_descriptor_name : Text → List ℕ
qf_copy_file_descriptor_name name =
    let clipped = take max_chars name in clipped ++ replicate (260 - length clipped) 0

unfoldable pub descriptor_of : FileInfo → Descriptor
unfolding qf_copy_file_descriptor_name
descriptor_of file =
    let size = if file.is_directory then 0 else file.total in
    record {
      size_low = low32 size;
      size_high = high32 size;
      is_directory = file.is_directory;
      file_name = qf_copy_file_descriptor_name file.display_name;
    }

-- QString::fromUtf16 without a length reads up to the terminating zero: `none` is a read past the array.
unfoldable pub until_nul : List ℕ → Option Text
until_nul [] = none
until_nul (u ∷ us) =
    let rest = until_nul us in
    if u == 0 then some [] else elim rest [ none ↦ none | some t ↦ some (u ∷ t) ]

-- `from_utf16` is what QString::fromUtf16 makes of the units that it reads.
module _ (from_utf16 : List ℕ → Text) where
  unfoldable pub file_of : Descriptor → Option FileInfo
  unfolding until_nul
  file_of d = elim (until_nul d.file_name) [
    | none ↦ none
    | some units ↦
        let name = from_utf16 units in
        some (record {
          display_name = name;
          local_path = name;
          total = join64 d.size_high d.size_low;
          is_directory = d.is_directory;
        })
  ]

  unfoldable pub files_of : List Descriptor → Option (List FileInfo)
  files_of [] = some []
  files_of (d ∷ ds) = elim (file_of d) [
    | none ↦ none
    | some f ↦ elim (files_of ds) [ none ↦ none | some fs ↦ some (f ∷ fs) ]
  ]

-- CLIPRDR_FORMAT_DATA_RESPONSE.
pub record DataResponse : Type 0 where
  pub is_ok : Bool
  pub bytes : Bytes

-- What the answer of the remote side is passed on to: `enqueue_remote_file_list`, or
-- `updateClipboardDataFromRemote` with the format that was asked for.
pub data Effect : Type 0 where
  nothing : Effect
  enqueues_files : List FileInfo → Effect
  shows : Bytes → ℕ → Text → Effect

-- `parse` is cliprdr_parse_file_list, `none` its error; the outer `none` is a read out of bounds.
module _ (from_utf16 : List ℕ → Text) (parse : Bytes → Option (List Descriptor)) where
  unfoldable pub file_list_response : Bool → Bytes → Option Effect
  file_list_response has_entry b = elim (parse b) [
    | none ↦ some nothing
    | some ds ↦ elim (files_of from_utf16 ds) [
      | none ↦ none
      | some fs ↦ some (if has_entry then enqueues_files fs else nothing)
    ]
  ]

  unfoldable pub data_response : Bool → Formats → DataResponse → Option Effect
  unfolding file_list_response
  data_response has_entry c r =
      if r.is_ok
      then (if same_text c.requested_name name_files
          then file_list_response has_entry r.bytes
          else some (shows r.bytes c.requested_id c.requested_name))
      else some nothing

  -- `context` and `formatDataResponse` may be null.
  unfoldable pub server_format_data_response :
      Bool → Bool → Formats → Option DataResponse → Rc × Option Effect
  unfolding data_response
  server_format_data_response false has_entry c r = (error_invalid_parameter, some nothing)
  server_format_data_response true has_entry c none = (error_invalid_parameter, some nothing)
  server_format_data_response true has_entry c (some r) =
      (channel_rc_ok, data_response has_entry c r)

-- The image on the clipboard: null, or what QImage::save gives for it.
pub data LocalImage : Type 0 where
  null_image : LocalImage
  image : Option Bytes → Option Bytes → LocalImage

-- QMimeData, by what the code reads of it. The callback keeps a pointer into the QString that `text()`
-- returns, which is destroyed before the units are read: `text_memory` is what the memory from there on
-- holds then.
pub record Mime : Type 0 where
  pub text : Option Text
  pub text_memory : List ℕ
  pub picture : Option LocalImage
  pub has_urls : Bool

-- What is sent by ClientFormatDataResponse: data, CB_RESPONSE_FAIL, or nothing at all.
pub data Answer : Type 0 where
  responds : Bytes → Answer
  refuses : Answer
  silent : Answer

abbrev pub format_png : ℕ
format_png = 0xC001

abbrev pub format_file : ℕ
format_file = 0xD001

-- `std::char_traits::length`: up to the first zero, or the end of the memory.
unfoldable pub c_string : Text → Text
c_string [] = []
c_string (u ∷ us) = let rest = c_string us in if u == 0 then [] else u ∷ rest

abbrev pub utf16_bytes : Text → Bytes
utf16_bytes [] = []
utf16_bytes (u ∷ us) = to_le 2 u ++ utf16_bytes us

abbrev pub bmp_header : ℕ
bmp_header = 14

abbrev pub saved : (Bytes → Bytes) → Option Bytes → Answer
saved f none = silent
saved f (some b) = responds (f b)

abbrev pub is_some {ℓ} : {A : Type ℓ} → Option A → Bool
is_some none = false
is_some (some a) = true

-- The answer is read from the memory, not from the text.
unfoldable pub text_answer : Option Text → List ℕ → Answer
unfolding c_string
text_answer none memory = silent
text_answer (some t) memory = responds (utf16_bytes (c_string memory ++ 0 ∷ []))

unfoldable pub dib_answer : Option LocalImage → Answer
dib_answer none = silent
dib_answer (some null_image) = silent
dib_answer (some (image bmp png)) = saved (drop bmp_header) bmp

unfoldable pub png_answer : Option LocalImage → Answer
png_answer none = silent
png_answer (some null_image) = silent
png_answer (some (image bmp png)) = saved (λ b. b) png

-- CB_STREAM_FILECLIP_ENABLED, and the flags that the file list is written with: the remote side's if
-- they have that bit.
abbrev pub fileclip_enabled : ℕ
fileclip_enabled = 4

abbrev pub file_list_flags : Option ℕ → ℕ
file_list_flags none = fileclip_enabled
file_list_flags (some flags) = if flags / 4 % 2 == 1 then flags else fileclip_enabled

-- `serialize` is cliprdr_serialize_file_list_ex, `none` where it fails or gives no data.
module _ (serialize : ℕ → List Descriptor → Option Bytes) where
  unfoldable pub file_list_answer : Option ℕ → List FileInfo → Answer
  file_list_answer remote_flags [] = refuses
  file_list_answer remote_flags (f ∷ fs) =
      elim (serialize (file_list_flags remote_flags) (map descriptor_of (f ∷ fs))) [
        | none ↦ refuses
        | some b ↦ responds b
      ]

  unfoldable pub data_answer : Option ℕ → List FileInfo → Mime → ℕ → Answer
  unfolding text_answer dib_answer png_answer file_list_answer
  data_answer remote_flags files mime id =
      if is_some mime.text && id == cf_unicodetext
      then text_answer mime.text mime.text_memory
      else (if is_some mime.picture && id == cf_dib
          then dib_answer mime.picture
          else (if is_some mime.picture && id == format_png
              then png_answer mime.picture
              else (if mime.has_urls && id == format_file
                  then file_list_answer remote_flags files
                  else refuses)))

  -- `context` and the request may be null, and so may `mimeData()`.
  unfoldable pub server_format_data_request :
      Bool → Option ℕ → List FileInfo → Option Mime → Option ℕ → Rc × Answer
  unfolding data_answer
  server_format_data_request false flags files mime id = (error_invalid_parameter, silent)
  server_format_data_request true flags files mime none = (error_invalid_parameter, silent)
  server_format_data_request true flags files none (some id) = (channel_rc_ok, silent)
  server_format_data_request true flags files (some m) (some id) =
      (channel_rc_ok, data_answer flags files m id)
