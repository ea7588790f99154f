-- ===== src/Entry/Download.antt =====
-- clipboard-entry.h: `download_remote_file` with `request_remote_size`, `request_remote_range` and
-- `next_remote_stream_id`.
pub mod Safety
pub mod Exact
pub mod Streams
use qfreerdp.Base.{
  ℕ, zero, suc, ◌+◌, ◌-◌, ◌*◌, ◌%◌, ◌^◌, min, Bool, true, false, List, [], ◌∷◌, ◌++◌, Option, none,
  some, length, ltb, leb, ◌==◌, if◌then◌else◌, take,
}
use qfreerdp.Base.Word.{u32, u64, low32, high32}
use qfreerdp.Base.Bytes.{of_le}
use qfreerdp.Entry.Types.{Text, Bytes, Request}

-- `m_next_stream_id++`, once more behind 0: the id and the counter behind it.
unfoldable pub next_remote_stream_id : ℕ → ℕ × ℕ
next_remote_stream_id n = if n == 0 then (u32 (n + 1), u32 (u32 (n + 1) + 1)) else (n, u32 (n + 1))

abbrev pub size_request : ℕ → ℕ → Request
size_request id index = record {
  stream_id = id;
  list_index = index;
  wants_size = true;
  wants_range = false;
  position_low = 0;
  position_high = 0;
  requested = 8;
}

abbrev pub range_request : ℕ → ℕ → ℕ → ℕ → Request
range_request id index offset n = record {
  stream_id = id;
  list_index = index;
  wants_size = false;
  wants_range = true;
  position_low = low32 offset;
  position_high = high32 offset;
  requested = n;
}

abbrev pub chunk_size : ℕ
chunk_size = 64 * 1024

-- How the loop over the chunks ended: with the file written, given up and the file removed, or short
-- of fuel, with the stream counter.
pub data LoopEnd : Type 0 where
  finished : Bytes → LoopEnd
  failed : LoopEnd
  out_of_fuel : LoopEnd

-- `remote` gives the data that `send_remote_file_request` and `wait_remote_response` bring for a
-- request, and `none` when one of them fails; `write_ok` says whether a chunk is written at an offset.
module _ (remote : Request → Option Bytes) (write_ok : ℕ → Bool) where
  unfoldable pub request_remote_size : ℕ → ℕ → Option ℕ
  request_remote_size id index = elim (remote (size_request id index)) [
    | none ↦ none
    | some b ↦ if ltb (length b) 8 then none else some (of_le (take 8 b))
  ]

  unfoldable pub request_remote_range : ℕ → ℕ → ℕ → ℕ → Option Bytes
  request_remote_range id index offset n = elim (remote (range_request id index offset n)) [
    | none ↦ none
    | some b ↦ if u32 (length b) == n then some b else none
  ]

  -- The `while` loop: `done` has been written to the local file so far.
  unfoldable pub download_chunks : ℕ → ℕ → ℕ → ℕ → Bytes → ℕ → LoopEnd × ℕ
  download_chunks zero index size offset done next = (out_of_fuel, next)
  download_chunks (suc fuel) index size offset done next =
      let n = min chunk_size (size - offset) in
      let (id, next') = next_remote_stream_id next in
      elim (ltb offset size) [
        | false ↦ (finished done, next)
        | true ↦ elim (request_remote_range id index offset n) [
          | none ↦ (failed, next')
          | some b ↦ elim (write_ok offset) [
            | false ↦ (failed, next')
            | true ↦ download_chunks fuel index size (u64 (offset + length b)) (done ++ b) next'
          ]
        ]
      ]

  -- `finished b` is the local path returned, with `b` in the file; `failed` is the empty path, and no
  -- file. The loop makes `size` rounds at most, so the fuel is not used up.
  unfoldable pub download_remote_file : Bool → ℕ → ℕ → LoopEnd × ℕ
  download_remote_file create_ok index next =
      let (id, next') = next_remote_stream_id next in
      elim (request_remote_size id index) [
        | none ↦ (failed, next')
        | some size ↦
            if create_ok then download_chunks (suc size) index size 0 [] next' else (failed, next')
      ]
