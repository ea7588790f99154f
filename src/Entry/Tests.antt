-- ===== src/Entry/Tests.antt =====
-- The theorems on the clipboard entry at concrete inputs.
mod Worker
mod Fetch
use qfreerdp.Base.{
  inl, ℕ, ◌-◌, ◌≡◌, ◌≢◌, refl, ◌⊎◌, true, false, not, List, [], ◌∷◌, ◌++◌, Option, none, some,
  arith, ◌+◌, ◌≤◌, ◌<◌, ◌^◌, length, leb, All, ◌==◌, if◌then◌else◌,
}
use qfreerdp.Base.Bytes.{slice, length-slice, to_le}
use qfreerdp.Status.{Rc, channel_rc_ok, cb_response_fail}
use qfreerdp.Channel.Defs.{payload, message, channel_client_thread_proc}
use qfreerdp.Channel.Worker.{stopped}
use qfreerdp.Entry.Types.{Text, Bytes, FileInfo, Request, Response}
use qfreerdp.Entry.Serve.{Disk, server_file_contents_request}
use qfreerdp.Entry.Serve.Laws.{unanswered_request_stops_channel}
use qfreerdp.Entry.Download.{
  finished, range_request, next_remote_stream_id, request_remote_size, download_remote_file,
}
use qfreerdp.Entry.Download.Streams.{counter_after, stream_ids_differ}
use qfreerdp.Entry.Download.Safety.{Ends, download_remote_file-Ends}
use qfreerdp.Entry.Download.Exact.{peer, IsServed, download_remote_file-peer}
use qfreerdp.Entry.Path.{slash, backslash, safe_remote_relative_path, parts}
use qfreerdp.Entry.Path.Safe.{walk, safe_path_inside, safe_path_kept}
use qfreerdp.Entry.Path.Api.{path_api, cut, split_skip, join_by}
use qfreerdp.Entry.Pending.{
  size, Link, cleared, open_request, close_request, accept_response, take_response,
}
use qfreerdp.Entry.Pending.Run as Waiting
use qfreerdp.Entry.Pending.Mailbox
use qfreerdp.Entry.Batch.Stop.{rounds, stop_ends}
use qfreerdp.Entry.Batch.{
  DirApi, Move, enqueues, works, stops, run, start, step, enqueue_remote_file_list, make_batch,
  add_files, add_file, add_placed, push_job, start_remote_file_worker, note_top,
  publish_remote_batch, work, finish_job, take_job, start_job,
}
use qfreerdp.Entry.Batch.Invariant.{times, in_flight}
use qfreerdp.Entry.Batch.Publish.{run-published, run-counted}
use qfreerdp.Entry.Batch.Count.{jobs_of}

-- A file of three bytes and a disk on which every path is that file.
abbrev file : Bytes
file = 10 ∷ 20 ∷ 30 ∷ []

abbrev read_file : ℕ → ℕ → Option Bytes
read_file i n = if leb (i + n) (length file) then some (slice i n file) else none

read_file_lem :
    (i n : ℕ) (c b : Bytes) → some file ≡ some c → read_file i n ≡ some b → b ≡ slice i (length b) c
read_file_lem i n c b e r = ground (arith, length-slice i n file)

reads_file : (i n : ℕ) → i + n ≤ length file → read_file i n ≡ some (slice i n file)
reads_file i n h = ground arith

abbrev disk : Disk
disk = record {
  content = λ p. some file;
  seek = λ p i. true;
  read = λ p. read_file;
  read_lem = λ p. read_file_lem;
}

abbrev info : FileInfo
info = record { display_name = 97 ∷ []; local_path = 47 ∷ 97 ∷ []; total = 3; is_directory = false }

info-IsServed : IsServed disk (info ∷ []) 0 info file
info-IsServed = record {
  listed = refl;
  regular = refl;
  opens = refl;
  size_known = refl;
  small = omega arith;
  seeks = λ i. refl;
  reads = reads_file;
}

download_remote_file-peer_example :
    (download_remote_file (peer disk (info ∷ [])) (λ i. true) true 0 5).0 ≡ finished file
download_remote_file-peer_example =
    download_remote_file-peer disk (info ∷ []) 0 info file info-IsServed 5

-- Around the wrap of the counter.
stream_ids_differ_example :
    (0 < (next_remote_stream_id (counter_after 1 (2 ^ 32 - 1))).0)
    × ((next_remote_stream_id (counter_after 1 (2 ^ 32 - 1))).0
        ≢ (next_remote_stream_id (counter_after 3 (2 ^ 32 - 1))).0)
stream_ids_differ_example =
    stream_ids_differ (2 ^ 32 - 1) 1 3 (omega arith) (omega arith) (omega arith)

abbrev accepts_all : Response → Rc
accepts_all r = channel_rc_ok

abbrev ask : Request
ask = record (range_request 7 0 1 5) { list_index = 0 }

abbrev told : Response
told = record { stream_id = 7; is_ok = true; requested_data = some (20 ∷ 30 ∷ []) }

-- A plugin that gets the request `ask` in each message, while no file is on the clipboard.
abbrev serves_none : ℕ → List ℕ → Rc × ℕ
serves_none u b =
    ((server_file_contents_request (some accepts_all) disk (some []) (some ask)).rc, u)

nothing_sent :
    (server_file_contents_request (some accepts_all) disk (some []) (some ask)).sent ≡ none
unfolding server_file_contents_request
nothing_sent = refl

unanswered_request_stops_channel_example :
    channel_client_thread_proc serves_none 0
      (message (payload (8 ∷ [])) ∷ message (payload (9 ∷ [])) ∷ [])
    ≡ stopped serves_none 0 cb_response_fail
unfolding server_file_contents_request
unanswered_request_stops_channel_example =
    unanswered_request_stops_channel serves_none 0 0 (8 ∷ []) (message (payload (9 ∷ [])) ∷ [])
      (some accepts_all) disk (some []) (some ask) nothing_sent refl

-- a\b
abbrev nested : Text
nested = 97 ∷ backslash ∷ 98 ∷ []

nested_kept : safe_remote_relative_path path_api nested ≡ 97 ∷ slash ∷ 98 ∷ []
unfolding safe_remote_relative_path cut join_by
nested_kept = refl

nested_some : safe_remote_relative_path path_api nested ≢ []
nested_some e = absurd (ground (arith, nested_kept))

safe_path_inside_example :
    let ps = split_skip slash (safe_remote_relative_path path_api nested) in
    (walk 0 ps ≡ some 2) × (0 < 2) × All (λ p. All (λ u. not (u == backslash) ≡ true) p) ps
unfolding cut join_by
safe_path_inside_example = safe_path_inside path_api nested nested_some
