-- ===== src/Entry/Download/Exact.antt =====
-- The two ends together: a download whose requests another instance's `server_file_contents_request`
-- answers.
use qfreerdp.Base.{
  ℕ, zero, suc, ◌+◌, ◌-◌, ◌^◌, ◌≤◌, ◌<◌, min, ◌≡◌, refl, sym, ap, ◌∙◌, inl, inr, Bool, true, false,
  Bool-cases, List, [], ◌++◌, Option, none, some, arith, length, ltb, ltb→lt, take, get_elem?, leb,
}
use qfreerdp.Base.Word.{u64, join64, low32, high32, join64_halves}
use qfreerdp.Base.Bytes.{slice, take-add, take_all, length-slice, to_le, of_le-to_le, Fits-u64}
use qfreerdp.Status.{channel_rc_ok}
use qfreerdp.Entry.Types.{Bytes, Request, Response, FileInfo}
use qfreerdp.Entry.Serve.{
  Disk, Reply, bytes_to_read, read_range, file_contents_request, send_file_contents_response,
}
use qfreerdp.Entry.Download.{
  finished, size_request, range_request, next_remote_stream_id, request_remote_size,
  request_remote_range, chunk_size, download_chunks, download_remote_file,
}
use qfreerdp.Entry.Download.Safety.{chunks_done, chunks_got}

abbrev pub data_of : Option Response → Option Bytes
data_of none = none
data_of (some r) = r.requested_data

-- The remote side: this code, over its disk and its file list, on a channel that carries each
-- response back.
unfoldable pub peer : Disk → List FileInfo → Request → Option Bytes
peer disk files req =
    data_of (file_contents_request (λ r. channel_rc_ok) disk (some files) (some req)).sent

-- A regular file of the list that can be read to its end, with the size recorded when it was listed.
pub record IsServed (disk : Disk) (files : List FileInfo) (index : ℕ) (info : FileInfo) (c : Bytes)
    : Type 0 where
  pub listed : get_elem? files index ≡ some info
  pub regular : info.is_directory ≡ false
  pub opens : disk.content info.local_path ≡ some c
  pub size_known : info.total ≡ length c
  pub small : length c < 2 ^ 64
  pub seeks : (i : ℕ) → disk.seek info.local_path i ≡ true
  pub reads : (i n : ℕ) → i + n ≤ length c → disk.read info.local_path i n ≡ some (slice i n c)

module _ (disk : Disk) (files : List FileInfo) (index : ℕ) (info : FileInfo) (c : Bytes)
    (s : IsServed disk files index info c) where
  peer_size : (id : ℕ) → peer disk files (size_request id index) ≡ some (to_le 8 (length c))
  unfolding peer file_contents_request
  peer_size id = rw (s.listed, file_contents_request) (rw (s.regular, s.size_known))

  request_size_lem :
      (write_ok : ℕ → Bool) (id : ℕ)
      → request_remote_size (peer disk files) write_ok id index ≡ some (length c)
  unfolding request_remote_size
  request_size_lem write_ok id =
      rw (peer_size id, request_remote_size)
        (ap some (of_le-to_le 8 (length c) (Fits-u64 (length c) s.small)))

  read_range_full :
      (req : Request) (i n : ℕ)
      → i + n ≤ length c
      → bytes_to_read (length c) i req.requested ≡ n
      → read_range (λ r. channel_rc_ok) disk req info i c
        ≡ send_file_contents_response (λ r. channel_rc_ok) req.stream_id (slice i n c)
  unfolding read_range
  read_range_full req i n h e =
      let len : length (slice i n c) ≡ n = omega (arith, length-slice i n c) in
      rw (e, read_range) (rw (s.reads i n h, read_range) (rw len (ground arith)))

  peer_range :
      (id i n : ℕ)
      → 0 < n
      → i + n ≤ length c
      → peer disk files (range_request id index i n) ≡ some (slice i n c)
  unfolding peer file_contents_request
  peer_range id i n p h =
      let at : join64 (high32 i) (low32 i) ≡ i = join64_halves i (omega (arith, s.small)) in
      let inside : leb (length c) i ≡ false = ground arith in
      let full = read_range_full (range_request id index i n) i n h (omega (arith, s.small)) in
      rw (s.listed, file_contents_request)
        (rw (s.regular, s.size_known, at, inside, s.opens)
          (rw (at, s.seeks i) (ap (λ r. data_of (Reply.sent r)) full)))

  request_range_lem :
      (write_ok : ℕ → Bool) (id i n : ℕ)
      → 0 < n
      → n < 2 ^ 32
      → i + n ≤ length c
      → request_remote_range (peer disk files) write_ok id index i n ≡ some (slice i n c)
  unfolding request_remote_range
  request_range_lem write_ok id i n p q h =
      let len : length (slice i n c) ≡ n = omega (arith, length-slice i n c) in
      rw (peer_range id i n p h, request_remote_range) (ground arith)

  chunks_exact :
      (fuel offset : ℕ) (done : Bytes) (next : ℕ)
      → offset ≤ length c
      → length c - offset < fuel
      → done ≡ take offset c
      → (download_chunks (peer disk files) (λ i. true) fuel index (length c) offset done next).0
        ≡ finished c
  chunks_exact zero offset done next o f d = absurd (omega arith)
  chunks_exact (suc fuel) offset done next o f d =
      let n : ℕ = min chunk_size (length c - offset) in
      let next' = (next_remote_stream_id next).1 in
      elim (Bool-cases (ltb offset (length c))) [
        | inr e ↦
            let end : length c ≤ offset = ground arith in
            rw (chunks_done (peer disk files) (λ i. true) fuel index (length c) offset done next e)
              (ap finished (d ∙ take_all offset c end))
        | inl e ↦
            let lt : offset < length c = ltb→lt offset (length c) e in
            let got =
              request_range_lem (λ i. true) (next_remote_stream_id next).0 offset n (omega arith)
                (omega arith) (omega arith) in
            let len : length (slice offset n c) ≡ n = omega (arith, length-slice offset n c) in
            let same : u64 (offset + length (slice offset n c)) ≡ offset + n =
              omega (arith, s.small) in
            rw
              (chunks_got (peer disk files) (λ i. true) fuel index (length c) offset done next
                (slice offset n c) e got)
              (rw same (
                chunks_exact fuel (offset + n) (done ++ slice offset n c) next' (omega arith)
                  (omega arith) (ap (λ a. a ++ slice offset n c) d ∙ sym (take-add offset n c))))
      ]

  -- A file that the other side serves is fetched whole and unchanged, whatever its length and
  -- whatever the stream counter; the local file must be open for writing and take every chunk.
  pub download_remote_file-peer :
      (next : ℕ)
      → (download_remote_file (peer disk files) (λ i. true) true index next).0 ≡ finished c
  unfolding download_remote_file
  download_remote_file-peer next =
      rw (request_size_lem (λ i. true) (next_remote_stream_id next).0, download_remote_file)
        (chunks_exact (suc (length c)) 0 [] (next_remote_stream_id next).1 (omega arith)
          (omega arith) refl)
