-- ===== src/Entry/Download/Safety.antt =====
-- The download ends, whatever the remote side answers, and a file that is kept has the announced size.
use qfreerdp.Base.{
  ℕ, zero, suc, ◌+◌, ◌-◌, ◌^◌, ◌≤◌, ◌<◌, min, ◌≡◌, refl, inl, inr, Bool, true, false, Bool-cases,
  Option-cases, [], ◌++◌, Option, none, some, arith, length, length-append, if◌then◌else◌, ltb,
  ltb→lt,
}
use qfreerdp.Base.Word.{u64}
use qfreerdp.Entry.Types.{Bytes, Request}
use qfreerdp.Entry.Download.{
  LoopEnd, finished, failed, out_of_fuel, range_request, next_remote_stream_id, request_remote_size,
  request_remote_range, chunk_size, download_chunks, download_remote_file,
}

-- The counter stays a UINT32, and the id handed out is one, and never 0.
pub next_remote_stream_id_lem :
    (n : ℕ)
    → n < 2 ^ 32
    → let (id, n') = next_remote_stream_id n in (0 < id) × (id < 2 ^ 32) × (n' < 2 ^ 32)
unfolding next_remote_stream_id
next_remote_stream_id_lem n h = ground arith

module _ (remote : Request → Option Bytes) (write_ok : ℕ → Bool) where
  -- One round of the loop, by what happens in it.
  pub chunks_done :
      (fuel index size offset : ℕ) (done : Bytes) (next : ℕ)
      → ltb offset size ≡ false
      → download_chunks remote write_ok (suc fuel) index size offset done next
        ≡ (finished done, next)
  unfolding download_chunks
  chunks_done fuel index size offset done next e = rw (e, download_chunks)

  pub chunks_refused :
      (fuel index size offset : ℕ) (done : Bytes) (next : ℕ)
      → ltb offset size ≡ true
      → request_remote_range remote write_ok
          (next_remote_stream_id next).0
          index
          offset
          (min chunk_size (size - offset))
        ≡ none
      → download_chunks remote write_ok (suc fuel) index size offset done next
        ≡ (failed, (next_remote_stream_id next).1)
  unfolding download_chunks
  chunks_refused fuel index size offset done next e f =
      rw (e, download_chunks) (rw (f, download_chunks))

  pub chunks_got :
      (fuel index size offset : ℕ) (done : Bytes) (next : ℕ) (b : Bytes)
      → ltb offset size ≡ true
      → request_remote_range remote write_ok
          (next_remote_stream_id next).0
          index
          offset
          (min chunk_size (size - offset))
        ≡ some b
      → download_chunks remote write_ok (suc fuel) index size offset done next ≡ (
          if write_ok offset
          then download_chunks remote write_ok fuel index size
              (u64 (offset + length b))
              (done ++ b)
              (next_remote_stream_id next).1
          else (failed, (next_remote_stream_id next).1))
  unfolding download_chunks
  chunks_got fuel index size offset done next b e f =
      rw (e, download_chunks) (rw (f, download_chunks) (ground arith))

module _ (remote : Request → Option Bytes) (write_ok : ℕ → Bool)
    (short : (r : Request) (b : Bytes) → remote r ≡ some b → length b < 2 ^ 32) where
  -- The chunk that the check lets through is as long as was asked.
  request_remote_range-length :
      (id index offset n : ℕ) (b : Bytes)
      → request_remote_range remote write_ok id index offset n ≡ some b
      → length b ≡ n
  unfolding request_remote_range
  request_remote_range-length id index offset n b e =
      elim (Option-cases (remote (range_request id index offset n))) [
        | inl f ↦ ground arith
        | inr (d, f) ↦ ground (arith, short _ d f)
      ]

  -- What the loop leaves.
  abbrev pub Ends : ℕ → LoopEnd → Type 0
  Ends size (finished b) = length b ≡ size
  Ends size failed = Unit {0}
  Ends size out_of_fuel = ⊥

  download_chunks-Ends :
      (fuel index size offset : ℕ) (done : Bytes) (next : ℕ)
      → size < 2 ^ 64
      → offset ≤ size
      → size - offset < fuel
      → length done ≡ offset
      → Ends size (download_chunks remote write_ok fuel index size offset done next).0
  unfolding download_chunks
  download_chunks-Ends zero index size offset done next s o f d = absurd (omega arith)
  download_chunks-Ends (suc fuel) index size offset done next s o f d =
      let n : ℕ = min chunk_size (size - offset) in
      let (id, next') = next_remote_stream_id next in
      elim (Bool-cases (ltb offset size)) [
        | inr e ↦ rw (chunks_done remote write_ok fuel index size offset done next e) (ground arith)
        | inl e ↦ elim (Option-cases (request_remote_range remote write_ok id index offset n)) [
          | inl g ↦ rw (chunks_refused remote write_ok fuel index size offset done next e g) tt
          | inr (b, g) ↦
              rw (chunks_got remote write_ok fuel index size offset done next b e g)
                (elim (Bool-cases (write_ok offset)) [
                  | inr w ↦ rw w tt
                  | inl w ↦
                      let m = request_remote_range-length id index offset n b g in
                      let lt : offset < size = ltb→lt offset size e in
                      rw w (
                        download_chunks-Ends fuel index size (u64 (offset + length b)) (done ++ b)
                          next' s (omega arith) (omega arith) (omega (arith, length-append done b)))
                ])
        ]
      ]

  -- A download comes to an end for every remote side whose answers are shorter than 4 GiB, the limit
  -- of the protocol's 32-bit lengths: the loop does not run for ever, and a file that is kept is
  -- exactly as long as the size that the remote side announced; all else is given up.
  pub download_remote_file-Ends :
      (create_ok : Bool) (index next size : ℕ)
      → request_remote_size remote write_ok (next_remote_stream_id next).0 index ≡ some size
      → size < 2 ^ 64
      → Ends size (download_remote_file remote write_ok create_ok index next).0
  unfolding download_remote_file
  download_remote_file-Ends create_ok index next size e s =
      rw (got create_ok) (elim (Bool-cases create_ok) [
        | inr c ↦ rw c tt
        | inl c ↦ rw c (
            download_chunks-Ends (suc size) index size 0 [] (next_remote_stream_id next).1 s
              (omega arith) (omega arith) refl)
      ])
    where
      got :
          (c : Bool)
          → download_remote_file remote write_ok c index next ≡ (
              if c
              then download_chunks remote write_ok
                  (suc size)
                  index
                  size
                  0
                  []
                  (next_remote_stream_id next).1
              else (failed, (next_remote_stream_id next).1))
      got c = rw (e, download_remote_file)
