-- ===== src/Entry/Types.antt =====
-- The records of qf_util.h and clipboard-entry.h, and what is sent and received by the channel.
pub mod Utf16
use qfreerdp.Base.{ℕ, Bool, List, Option}

-- A QString, by its UTF-16 units; a sequence of bytes.
abbrev pub Text : Type 0
Text = List ℕ

abbrev pub Bytes : Type 0
Bytes = List ℕ

-- `clipboard_info_file_t`; `total` is a uint64_t.
pub record FileInfo : Type 0 where
  pub display_name : Text
  pub local_path : Text
  pub total : ℕ
  pub is_directory : Bool

-- CLIPRDR_FILE_CONTENTS_REQUEST: `dwFlags` by its two bits, the other numbers are UINT32.
pub record Request : Type 0 where
  pub stream_id : ℕ
  pub list_index : ℕ
  pub wants_size : Bool
  pub wants_range : Bool
  pub position_low : ℕ
  pub position_high : ℕ
  pub requested : ℕ

-- CLIPRDR_FILE_CONTENTS_RESPONSE: `is_ok` says that `msgFlags` is CB_RESPONSE_OK, and the data are
-- null or `cbRequested` bytes.
pub record Response : Type 0 where
  pub stream_id : ℕ
  pub is_ok : Bool
  pub requested_data : Option Bytes
