-- ===== src/Entry/Batch.antt =====
-- clipboard-entry.h: `enqueue_remote_file_list`, `remote_file_worker_loop` and
-- `publish_remote_batch`. A shared `remote_file_batch` is known by a number of its own.
pub mod Texts
pub mod Count
pub mod Invariant
pub mod Rounds
pub mod Publish
pub mod Plan
pub mod Placed
pub mod Stop
pub mod Shown
use qfreerdp.Base.{
  ℕ, zero, suc, ◌+◌, ◌-◌, ◌%◌, ◌^◌, Bool, true, false, not, ◌&&◌, ◌||◌, List, [], ◌∷◌, ◌++◌, Option,
  none, some, ◌==◌, if◌then◌else◌,
}
use qfreerdp.Base.Word.{u32, u64}
use qfreerdp.Entry.Types.{Text, FileInfo}
use qfreerdp.Entry.Path.{is_empty}

-- `remote_file_job`.
pub record Job : Type 0 where
  pub list_index : ℕ
  pub display_name : Text
  pub local_path : Text
  pub batch : ℕ

-- What the code asks of QDir, QFileInfo, QString and the process: directories are made, paths put
-- together and taken apart, and the name of the batch's directory.
pub record DirApi : Type 0 where
  pub safe_path : Text → Text
  pub file_path : Text → Text → Text
  pub first_section : Text → Text
  pub parent_path : Text → Text
  pub batch_root : ℕ → Text
  pub mkpath : Text → Bool

-- The part of `clipboard_entry` that the two threads share. Batches made so far are numbered below
-- `made`; `remaining` and `top_paths` are their fields. `published` lists the calls of
-- `updateClipboardFilesFromRemote` that were queued, the newest first.
pub record Entry : Type 0 where
  pub jobs : List Job
  pub made : ℕ
  pub remaining : ℕ → ℕ
  pub top_paths : ℕ → List Text
  pub has_context : Bool
  pub has_worker : Bool
  pub stopped : Bool
  pub next_batch_id : ℕ
  pub published : List (ℕ × List Text)

abbrev pub update {ℓ} : {A : Type ℓ} → (ℕ → A) → ℕ → A → ℕ → A
update f k v j = if k == j then v else f j

abbrev pub same_text : Text → Text → Bool
same_text [] [] = true
same_text [] (b ∷ s) = false
same_text (a ∷ r) [] = false
same_text (a ∷ r) (b ∷ s) = a == b && same_text r s

abbrev pub has_path : Text → List Text → Bool
has_path p [] = false
has_path p (q ∷ qs) = same_text q p || has_path p qs

-- `m_client` and its view are there when `has_view` holds.
abbrev pub nothing_to_show : List Text → Bool
nothing_to_show [] = true
nothing_to_show (_ ∷ _) = false

unfoldable pub publish_remote_batch : Bool → ℕ → Entry → Entry
publish_remote_batch has_view k e =
    if nothing_to_show (e.top_paths k) || not has_view
    then e
    else record e { published = (k, e.top_paths k) ∷ e.published }

unfoldable pub start_remote_file_worker : Entry → Entry
start_remote_file_worker e =
    if e.has_worker then e else record e { stopped = false; has_worker = true }

module _ (dir : DirApi) (root : Text) (k : ℕ) where
  abbrev pub add_top : Text → List Text → List Text
  add_top p tops = if has_path p tops then tops else tops ++ p ∷ []

  unfoldable pub note_top : Text → Entry → Entry
  note_top top e = record e { top_paths = update e.top_paths k (add_top top (e.top_paths k)) }

  unfoldable pub push_job : ℕ → Text → Text → Entry → Entry
  push_job i name local e = record e {
    jobs = e.jobs ++ job ∷ [];
    remaining = update e.remaining k (e.remaining k + 1);
  }
    where
      job : Job
      job = record { list_index = u32 i; display_name = name; local_path = local; batch = k }

  -- A file behind the path check: its top-level path is noted, a directory is made at once, and any
  -- other file becomes a job if its parent directory can be made.
  unfoldable pub add_placed : ℕ → FileInfo → Text → Entry → Entry
  add_placed i file path e =
      let local = dir.file_path root path in
      let noted = note_top (dir.file_path root (dir.first_section path)) e in
      if file.is_directory || not (dir.mkpath (dir.parent_path local))
      then noted
      else push_job i file.display_name local noted

  unfoldable pub add_file : ℕ → FileInfo → Entry → Entry
  add_file i file e =
      let path = dir.safe_path file.display_name in
      if is_empty path then e else add_placed i file path e

  -- The `for` loop, from index `i` on.
  unfoldable pub add_files : ℕ → List FileInfo → Entry → Entry
  add_files i [] e = e
  add_files i (f ∷ fs) e = add_files (suc i) fs (add_file i f e)

abbrev pub no_files : List FileInfo → Bool
no_files [] = true
no_files (_ ∷ _) = false

-- The locked part of `enqueue_remote_file_list`: a new batch with its directory, its files, and its
-- publication when it has no job.
unfoldable pub make_batch : DirApi → Bool → List FileInfo → Entry → Entry
make_batch dir has_view files e =
    let root = dir.batch_root e.next_batch_id in
    let k = e.made in
    let named : Entry = record e {
      has_context = true;
      next_batch_id = u64 (e.next_batch_id + 1);
    } in
    let fresh : Entry = record named {
      made = suc k;
      remaining = update named.remaining k 0;
      top_paths = update named.top_paths k [];
    } in
    let filled = add_files dir root k 0 files fresh in
    if dir.mkpath root
    then (if filled.remaining k == 0 then publish_remote_batch has_view k filled else filled)
    else named

unfoldable pub enqueue_remote_file_list : DirApi → Bool → Bool → List FileInfo → Entry → Entry
unfolding make_batch
enqueue_remote_file_list dir has_view has_context files e =
    if not has_context || no_files files
    then e
    else make_batch dir has_view files (start_remote_file_worker e)

-- One round of `remote_file_worker_loop` up to the download: the job taken, if there is one, and
-- whether there is a context for it.
unfoldable pub take_job : Entry → Option Job × Entry
take_job e = elim e.jobs [ [] ↦ (none, e) | j ∷ js ↦ (some j, record e { jobs = js }) ]

-- `--n` on a size_t.
abbrev pub pred_size : ℕ → ℕ
pred_size n = if n == 0 then 2 ^ 64 - 1 else n - 1

-- Behind the download: `--remaining == 0` publishes the batch.
unfoldable pub finish_job : Bool → Job → Entry → Entry
finish_job has_view j e =
    let left = pred_size (e.remaining j.batch) in
    let counted : Entry = record e { remaining = update e.remaining j.batch left } in
    if left == 0 then publish_remote_batch has_view j.batch counted else counted

-- The shared state with the job that the worker is downloading.
pub record Sys : Type 0 where
  pub entry : Entry
  pub current : Option Job

pub data Move : Type 0 where
  -- `enqueue_remote_file_list` on the channel's thread.
  enqueues : DirApi → Bool → List FileInfo → Move
  -- The worker takes a job, or finishes the one it has.
  works : Move
  -- `stop_remote_file_worker` sets the flag.
  stops : Move

-- A job that is taken with no context is dropped.
unfoldable pub start_job : Option Job × Entry → Sys
start_job (none, e) = record { entry = e; current = none }
start_job (some j, e) = record { entry = e; current = if e.has_context then some j else none }

abbrev pub set_stopped : Entry → Entry
set_stopped e = record e { stopped = true }

-- One round of the worker. With the flag set it leaves its loop: no more rounds have an effect.
unfoldable pub work : Bool → Sys → Sys
unfolding finish_job take_job start_job
work has_view s = elim s.current [
  | some j ↦ record { entry = finish_job has_view j s.entry; current = none }
  | none ↦ if s.entry.stopped then s else start_job (take_job s.entry)
]

unfoldable pub step : Bool → Sys → Move → Sys
unfolding work
step has_view s (enqueues dir has_context files) = record s {
  entry = enqueue_remote_file_list dir has_view has_context files s.entry;
}
step has_view s works = work has_view s
step has_view s stops = record s { entry = set_stopped s.entry }

unfoldable pub run : Bool → Sys → List Move → Sys
run has_view s [] = s
run has_view s (m ∷ ms) = run has_view (step has_view s m) ms

abbrev pub start : Sys
start = record {
  entry = record {
    jobs = [];
    made = 0;
    remaining = λ k. 0;
    top_paths = λ k. [];
    has_context = false;
    has_worker = false;
    stopped = false;
    next_batch_id = 1;
    published = [];
  };
  current = none;
}
