-- ===== src/Entry/Serve.antt =====
-- clipboard-entry.h: `server_file_contents_request`, `send_file_size`, `send_file_range` and
-- `send_file_contents_response`. Files are read through QFile, an interface here.
pub mod Laws
use qfreerdp.Base.{
  ℕ, ◌+◌, ◌-◌, ◌%◌, ◌^◌, ◌≤◌, ◌≡◌, min, Bool, true, List, Option, none, some, length, get_elem?,
  leb, ◌==◌, if◌then◌else◌,
}
use qfreerdp.Base.Word.{u64, join64}
use qfreerdp.Base.Bytes.{slice, to_le}
use qfreerdp.Entry.Types.{Text, Bytes, FileInfo, Request, Response}
use qfreerdp.Status.{Rc, error_invalid_parameter, cb_response_fail}

-- QFile over the file system: `content` is what a file opened for reading holds (`none`: it cannot be
-- opened), `read` is QFile::read behind a seek (`none`: -1).
pub record Disk : Type 0 where
  pub content : Text → Option Bytes
  pub seek : Text → ℕ → Bool
  pub read : Text → ℕ → ℕ → Option Bytes
  -- A read gives at most what was asked for, as it stands in the file.
  pub read_lem :
      (p : Text) (i n : ℕ) (c b : Bytes)
      → content p ≡ some c
      → read p i n ≡ some b
      → b ≡ slice i (length b) c

-- The code returned, and the response handed to `ClientFileContentsResponse`, if any.
pub record Reply : Type 0 where
  pub rc : Rc
  pub sent : Option Response

abbrev pub refuse : Reply
refuse = record { rc = cb_response_fail; sent = none }

-- How much is read from `offset`: `file.size() - offset` is a uint64_t difference.
abbrev pub bytes_to_read : ℕ → ℕ → ℕ → ℕ
bytes_to_read size offset requested = min (u64 (size + 2 ^ 64 - offset)) requested

-- `send` is the channel's ClientFileContentsResponse.
module _ (send : Response → Rc) where
  abbrev pub send_file_contents_response : ℕ → Bytes → Reply
  send_file_contents_response id data' =
      let r : Response = record { stream_id = id; is_ok = true; requested_data = some data' } in
      record { rc = send r; sent = some r }

  -- The eight bytes of the uint64_t, in memory order.
  unfoldable pub send_file_size : ℕ → FileInfo → Reply
  send_file_size id info =
      send_file_contents_response id (to_le 8 (if info.is_directory then 0 else info.total))

  unfoldable pub read_range : Disk → Request → FileInfo → ℕ → Bytes → Reply
  read_range disk req info offset c =
      let n = bytes_to_read (length c) offset req.requested in
      elim (disk.read info.local_path offset n) [
        | none ↦ refuse
        | some b ↦ if length b == n then send_file_contents_response req.stream_id b else refuse
      ]

  unfoldable pub send_file_range : Disk → Request → FileInfo → Reply
  unfolding read_range
  send_file_range disk req info =
      let offset = join64 req.position_high req.position_low in
      if info.is_directory
      then refuse
      else (if leb info.total offset then refuse else elim (disk.content info.local_path) [
        | none ↦ refuse
        | some c ↦
            if disk.seek info.local_path offset then read_range disk req info offset c else refuse
      ])

  unfoldable pub answer : Disk → Request → FileInfo → Reply
  unfolding send_file_size send_file_range
  answer disk req info =
      if req.wants_size
      then send_file_size req.stream_id info
      else (if req.wants_range then send_file_range disk req info else refuse)

  -- `request` and `m_client` may be null; `files` are the client's `clipboard_info_files_`.
  unfoldable pub file_contents_request : Disk → Option (List FileInfo) → Option Request → Reply
  unfolding answer
  file_contents_request disk none request = record { rc = error_invalid_parameter; sent = none }
  file_contents_request disk (some files) none = record {
    rc = error_invalid_parameter;
    sent = none;
  }
  file_contents_request disk (some files) (some req) = elim (get_elem? files req.list_index) [
    | none ↦ refuse
    | some info ↦ answer disk req info
  ]

-- A null `context` is refused too; another one brings its ClientFileContentsResponse.
unfoldable pub server_file_contents_request :
    Option (Response → Rc) → Disk → Option (List FileInfo) → Option Request → Reply
unfolding file_contents_request
server_file_contents_request none disk client request = record {
  rc = error_invalid_parameter;
  sent = none;
}
server_file_contents_request (some send) disk client request =
    file_contents_request send disk client request
