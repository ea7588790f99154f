-- ===== src/Entry/Fetch.antt =====
-- clipboard-entry.h: `download_remote_file` on the state that the threads share and on the local files,
-- with `send_remote_file_request` and `wait_remote_response` as whole calls.
pub mod Answered
pub mod Refines
pub mod Limits
pub mod Ending
pub mod Over
pub mod Elsewhere
pub mod World
use qfreerdp.Base.{
  ℕ, zero, suc, ◌+◌, ◌-◌, min, Bool, true, false, not, List, [], ◌∷◌, ◌++◌, Option, none, some,
  length, ltb, ◌==◌, if◌then◌else◌, take,
}
use qfreerdp.Base.Word.{u32, u64}
use qfreerdp.Base.Bytes.{of_le}
use qfreerdp.Status.{Rc, is_error}
use qfreerdp.Entry.Types.{Text, Bytes, Request, Response}
use qfreerdp.Entry.Batch.{same_text}
use qfreerdp.Entry.Download.{next_remote_stream_id, size_request, range_request, chunk_size}
use qfreerdp.Entry.Pending.{
  RequestKind, size, range, Link, open_request, close_request, accept_response, may_return,
  take_response, stop_remote_file_worker,
}

-- What other threads do under the mutex: the channel hands a response over, the destructor stops.
pub data Event : Type 0 where
  hears : Response → Event
  stops : Event

abbrev pub happen : Event → Link → Link
happen (hears r) l = accept_response r l
happen stops l = stop_remote_file_worker l

abbrev pub happen_all : List Event → Link → Link
happen_all [] l = l
happen_all (e ∷ es) l = happen_all es (happen e l)

-- What meets a request: the code of ClientFileContentsRequest, what happens before that call has
-- returned, and what happens from then on until the worker looks for its answer.
pub record Traffic : Type 0 where
  pub rc : Rc
  pub early : List Event
  pub later : List Event

unfoldable pub send_remote_file_request : Traffic → Request → RequestKind → Link → Bool × Link
send_remote_file_request t r kind l =
    (not (is_error t.rc), close_request t.rc (happen_all t.early (open_request r.stream_id kind l)))

-- `none` is a wait that goes on.
unfoldable pub wait_remote_response : List Event → ℕ → Link → Option (Option Bytes) × Link
wait_remote_response later id l =
    let m = happen_all later l in
    if may_return id m then (some (take_response m).0, (take_response m).1) else (none, m)

-- Both calls, as the two kinds of request make them.
unfoldable pub ask : Traffic → Request → RequestKind → Link → Option (Option Bytes) × Link
unfolding send_remote_file_request wait_remote_response
ask t r kind l =
    let (sent, m) = send_remote_file_request t r kind l in
    if sent then wait_remote_response t.later r.stream_id m else (some none, m)

-- The local files, by their paths.
abbrev pub Files : Type 0
Files = Text → Option Bytes

abbrev pub put : Text → Option Bytes → Files → Files
put p b s q = if same_text p q then b else s q

-- What the worker reads and writes.
pub record Site : Type 0 where
  pub link : Link
  pub next : ℕ
  pub files : Files

-- How a download ends: saved, given up, or not at all as it waits for an answer. The fuel is one more
-- than the size of the file.
pub data Fetched : Type 0 where
  saved : Fetched
  given_up : Fetched
  waits : Fetched
  out_of_fuel : Fetched

-- The answer to a request for the size, `none` for the result false.
abbrev pub size_of : Option Bytes → Option ℕ
size_of none = none
size_of (some b) = if ltb (length b) 8 then none else some (of_le (take 8 b))

abbrev pub chunk_of : ℕ → Option Bytes → Option Bytes
chunk_of n none = none
chunk_of n (some b) = if u32 (length b) == n then some b else none

-- `env` is what meets each request; `creates` and `writes` are QFile::open and QFile::write, the latter
-- at an offset. QFile::remove, whose result the code ignores, always removes the file here.
module _ (env : Request → Traffic) (creates : Text → Bool) (writes : Text → ℕ → Bool) where
  unfoldable pub fetch_chunks : ℕ → Text → ℕ → ℕ → ℕ → Bytes → Site → Fetched × Site
  unfolding ask
  fetch_chunks zero path index total offset done s = (out_of_fuel, s)
  fetch_chunks (suc fuel) path index total offset done s =
      let n = min chunk_size (total - offset) in
      let (id, next') = next_remote_stream_id s.next in
      let req = range_request id index offset n in
      let (a, l) = ask (env req) req range s.link in
      let asked : Site = record s { link = l; next = next' } in
      let removed : Site = record asked { files = put path none s.files } in
      elim (ltb offset total) [
        | false ↦ (saved, s)
        | true ↦ elim a [
          | none ↦ (waits, asked)
          | some x ↦ elim (chunk_of n x) [
            | none ↦ (given_up, removed)
            | some b ↦ elim (writes path offset) [
              | false ↦ (given_up, removed)
              | true ↦
                  fetch_chunks fuel path index total (u64 (offset + length b)) (done ++ b)
                    (record asked { files = put path (some (done ++ b)) s.files })
            ]
          ]
        ]
      ]

  unfoldable pub fetch : Text → ℕ → Site → Fetched × Site
  unfolding fetch_chunks
  fetch path index s =
      let (id, next') = next_remote_stream_id s.next in
      let req = size_request id index in
      let (a, l) = ask (env req) req size s.link in
      let asked : Site = record s { link = l; next = next' } in
      elim a [
        | none ↦ (waits, asked)
        | some x ↦ elim (size_of x) [
          | none ↦ (given_up, asked)
          | some total ↦
              if creates path
              then fetch_chunks (suc total) path index total 0 []
                  (record asked { files = put path (some []) s.files })
              else (given_up, asked)
        ]
      ]
