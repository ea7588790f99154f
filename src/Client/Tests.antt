-- ===== src/Client/Tests.antt =====
-- The theorems on the clipboard channel's callbacks at concrete inputs.
mod Session
use qfreerdp.Base.{
  ◌++◌, map, All, ℕ, ◌≡◌, refl, ◌⊎◌, Bool, true, false, List, [], ◌∷◌, Option, none, some, arith,
  ◌*◌, ◌/◌, ◌%◌, ◌==◌, if◌then◌else◌, ap, zero, suc, ◌+◌, ◌≤◌, ltb, leb, length, not, ◌&&◌,
}
use qfreerdp.Status.{channel_rc_ok}
use qfreerdp.Entry.Types.{Text, Bytes, FileInfo}
use qfreerdp.Entry.Types.Utf16.{from_utf16, from_utf16-keeps}
use qfreerdp.Wire.{cf_dib, cf_unicodetext}
use qfreerdp.Client.Formats.{Format, Formats, name_files, name_png, server_format_list}
use qfreerdp.Client.Formats.Choice.{known, Asks, preferred, last_name, server_format_list-preferred}
use qfreerdp.Client.Files.{
  Descriptor, Mime, descriptor_of, server_format_data_request, server_format_data_response,
  enqueues_files, responds, format_file, file_list_answer, data_answer,
  qf_copy_file_descriptor_name,
}
use qfreerdp.Client.Session.{Round, Opening, left, rdp_loop_thread}
use qfreerdp.Client.Session.Ends.{walked, remains, nothing_made, rdp_loop_thread-remains}
use qfreerdp.Client.Frame.{Rectangle, Extent, scale_frame}
use qfreerdp.Client.Frame.Inside.{Within, scale_frame-Within}
use qfreerdp.Client.Setup.{Setup, Outcome, qt_clipboard_channel_init}
use qfreerdp.Base.Bytes.{slice, length-slice}
use qfreerdp.Entry.Serve.{Disk}
use qfreerdp.Entry.Batch.{run, DirApi, start}
use qfreerdp.Client.Copy.Whole.{Copies, jobs_after, copy_whole}
use qfreerdp.Entry.Types.{Request, Response}
use qfreerdp.Entry.Download.Exact.{peer}
use qfreerdp.Entry.Fetch.{Traffic, Site, hears}
use qfreerdp.Entry.Fetch.Answered.{Answers, responds as answers_with}
use qfreerdp.Entry.Pending.{cleared, bytes_of}
use qfreerdp.Entry.Batch.Plan.{planned}
use qfreerdp.Client.Copy.{Arrives, Serves, take_effect, copy_files}
use qfreerdp.Client.Paint.{
  is_proper, RegionApi, Gdi, Update, updates, end_paint, update_frame, paint,
}
use qfreerdp.Client.Paint.Drawn.{end_paint-drawn}
use qfreerdp.Client.Connect.{Instance, cliprdr}
use qfreerdp.Client.Connect.Ready.{Connects, connecting}
use qfreerdp.Client.Program.{Ui, main, event_loop}
use qfreerdp.Client.Program.Joins.{reaches, fresh as fresh_start, joined, main_joins}
use qfreerdp.Client.Files.Transfer.{received, files_transfer}

abbrev png_and_dib : List Format
png_and_dib = record { id = 49153; name = some name_png } ∷ record { id = cf_dib; name = none } ∷ []

abbrev asked_text : Formats
asked_text = record {
  requested_id = cf_unicodetext;
  requested_name = [];
  from_remote = (cf_unicodetext, []) ∷ [];
}

server_format_list-preferred_example :
    let r = server_format_list png_and_dib asked_text in
    ((r.0 ≡ some 49153) × (r.1.requested_id ≡ 49153) × (r.1.requested_name ≡ name_png))
    × (known cf_dib r.1.from_remote ≡ some [])
server_format_list-preferred_example = server_format_list-preferred png_and_dib asked_text cf_dib

-- A list of one file, written as its numbers and its name.
abbrev write_one : ℕ → List Descriptor → Option Bytes
write_one flags (d ∷ []) =
    some (d.size_low ∷ d.size_high ∷ (if d.is_directory then 1 else 0) ∷ d.file_name)
write_one flags [] = none
write_one flags (d ∷ e ∷ ds) = none

abbrev read_one : Bytes → Option (List Descriptor)
read_one (low ∷ high ∷ kind ∷ name) =
    some
      (record { size_low = low; size_high = high; is_directory = kind == 1; file_name = name } ∷ [])
read_one [] = none
read_one (a ∷ []) = none
read_one (a ∷ b ∷ []) = none

one_read :
    (flags : ℕ) (ds : List Descriptor) (b : Bytes)
    → write_one flags ds ≡ some b
    → read_one b ≡ some ds
one_read flags [] b e = absurd (ground arith)
one_read flags (d ∷ x ∷ ds) b e = absurd (ground arith)
one_read flags (d ∷ []) b e =
    let same : b ≡ d.size_low ∷ d.size_high ∷ (if d.is_directory then 1 else 0) ∷ d.file_name =
      ground arith in
    rw same (ap (λ k. some (record d { is_directory = k } ∷ [])) (kind_read d.is_directory))
  where
    kind_read : (k : Bool) → ((if k then 1 else 0) == 1) ≡ k
    kind_read true = refl
    kind_read false = refl

abbrev info : FileInfo
info = record { display_name = 97 ∷ []; local_path = 47 ∷ 97 ∷ []; total = 3; is_directory = false }

abbrev mime : Mime
mime = record { text = none; text_memory = []; picture = none; has_urls = true }

abbrev wants_files : Formats
wants_files = record { requested_id = 49154; requested_name = name_files; from_remote = [] }

abbrev written : Bytes
written = 3 ∷ 0 ∷ 0 ∷ qf_copy_file_descriptor_name (97 ∷ [])

info_written :
    (server_format_data_request write_one true none (info ∷ []) (some mime) (some format_file)).1
    ≡ responds written
unfolding server_format_data_request data_answer file_list_answer descriptor_of
info_written = refl

files_transfer_example :
    server_format_data_response from_utf16 read_one true true wants_files
      (some (record { is_ok = true; bytes = written }))
    ≡ (channel_rc_ok, some (enqueues_files (record info { local_path = 97 ∷ [] } ∷ [])))
files_transfer_example =
    files_transfer from_utf16 from_utf16-keeps write_one read_one one_read none (info ∷ []) mime
      written wants_files (((ground arith, tt), (ground arith, ground arith), omega arith), tt) refl
      info_written refl

-- The sender's disk, on which every path is a file of three bytes.
abbrev content : Bytes
content = 10 ∷ 20 ∷ 30 ∷ []

abbrev read_content : ℕ → ℕ → Option Bytes
read_content i n = if leb (i + n) 3 then some (slice i n content) else none

read_content_lem :
    (i n : ℕ) (c b : Bytes)
    → some content ≡ some c
    → read_content i n ≡ some b
    → b ≡ slice i (length b) c
read_content_lem i n c b e r = ground (arith, length-slice i n content)

reads_content : (i n : ℕ) → i + n ≤ length content → read_content i n ≡ some (slice i n content)
reads_content i n h = ground arith

abbrev disk : Disk
disk = record {
  content = λ p. some content;
  seek = λ p i. true;
  read = λ p. read_content;
  read_lem = λ p. read_content_lem;
}

disk-Serves : Serves disk (info ∷ [])
disk-Serves zero f e r = (
  content,
  record {
    listed = e;
    regular = r;
    opens = refl;
    size_known = ground arith;
    small = omega arith;
    seeks = λ i. refl;
    reads = reads_content;
  },
)
disk-Serves (suc i) f e r = absurd (ground arith)

abbrev dirs : DirApi
dirs = record {
  safe_path = λ t. t;
  file_path = λ r p. r ++ 47 ∷ p;
  first_section = λ t. t;
  parent_path = λ t. [];
  batch_root = λ n. n ∷ [];
  mkpath = λ t. true;
}

-- Each request meets a late response to another one, then its own.
abbrev is_some : Option Bytes → Bool
is_some none = false
is_some (some b) = true

abbrev own_response : Request → Response
own_response r = record {
  stream_id = r.stream_id;
  is_ok = is_some (peer disk (info ∷ []) r);
  requested_data = peer disk (info ∷ []) r;
}

abbrev channel : Request → Traffic
channel r = record {
  rc = channel_rc_ok;
  early = hears (record { stream_id = suc r.stream_id; is_ok = true; requested_data = none }) ∷ [];
  later = hears (own_response r) ∷ [];
}

own-answer : (a : Option Bytes) → (if is_some a then some (bytes_of a) else none) ≡ a
own-answer none = refl
own-answer (some b) = refl

channel-Answers : (r : Request) → Answers (channel r) r.stream_id (peer disk (info ∷ []) r)
channel-Answers r =
    answers_with
      (hears (record { stream_id = suc r.stream_id; is_ok = true; requested_data = none }) ∷ []) []
      (own_response r) refl refl ((λ e. absurd (omega arith)), tt) tt refl
      (own-answer (peer disk (info ∷ []) r))

abbrev at_rest : Site
at_rest = record {
  link = record { pending = cleared; stopped = false };
  next = 1;
  files = λ p. none;
}

copy_whole_example :
    let got =
      server_format_data_response from_utf16 read_one true true wants_files
        (some (record { is_ok = true; bytes = written })) in
    Copies disk
      (info ∷ [])
      true
      channel
      at_rest
      (jobs_after dirs true [] (info ∷ []))
      0
      (take_effect dirs true got.1 start.entry)
unfolding run
copy_whole_example =
    copy_whole from_utf16 from_utf16-keeps write_one read_one one_read disk (info ∷ []) none mime
      written wants_files dirs true [] at_rest channel refl (omega arith)
      (((ground arith, tt), (ground arith, ground arith), omega arith), tt) disk-Serves refl
      info_written refl refl refl refl refl refl channel-Answers (refl, tt)
