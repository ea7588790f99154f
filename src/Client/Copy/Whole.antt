-- ===== src/Client/Copy/Whole.antt =====
-- Files copied from one client to another, up to the files on the receiver's disk.
use qfreerdp.Base.{
  ℕ, ◌+◌, ◌*◌, ◌<◌, ◌^◌, ◌≡◌, refl, sym, ap, ◌∙◌, subst, Bool, true, false, ◌&&◌, ◌||◌, then_branch,
  List, [], ◌∷◌, ◌++◌, map, All, Option, none, some, arith, length, get_elem?, if◌then◌else◌,
}
use qfreerdp.Entry.Types.{Text, Bytes, Request, FileInfo}
use qfreerdp.Entry.Types.Utf16.{KeepsUnmarked}
use qfreerdp.Entry.Serve.{Disk}
use qfreerdp.Entry.Batch.{
  Job, DirApi, Entry, Move, same_text, no_files, run, start, enqueue_remote_file_list,
}
use qfreerdp.Entry.Batch.Texts.{same_text_refl}
use qfreerdp.Entry.Batch.Plan.{planned, enqueue_remote_file_list-planned, enqueue-IsReady}
use qfreerdp.Entry.Batch.Invariant.{times, has_tops, Inv, enqueue-Inv}
use qfreerdp.Entry.Batch.Rounds.{run-Inv, start-Inv}
use qfreerdp.Entry.Batch.Shown.{Inv-rounds}
use qfreerdp.Entry.Download.Exact.{peer}
use qfreerdp.Entry.Fetch.{Traffic, Files, put, Site}
use qfreerdp.Entry.Fetch.Answered.{Answers}
use qfreerdp.Entry.Fetch.World.{World, rounds_world}
use qfreerdp.Entry.Fetch.World.Drained.{overlay, rounds_for, Brings, rounds_world-overlay}
use qfreerdp.Client.Formats.{Formats, name_files}
use qfreerdp.Client.Files.{
  Descriptor, Mime, server_format_data_request, server_format_data_response, responds, format_file,
}
use qfreerdp.Client.Files.Transfer.{received, Portable, files_transfer}
use qfreerdp.Client.Copy.{Arrives, Serves, take_effect, planned-Arrives, nonempty-map}

-- No two jobs write to one path.
abbrev pub has_target : Text → List Job → Bool
has_target p [] = false
has_target p (j ∷ js) = same_text j.local_path p || has_target p js

abbrev pub Apart : List Job → Type 0
Apart [] = Unit {0}
Apart (j ∷ js) = (has_target j.local_path js ≡ false) × Apart js

-- A job's file is on the receiver's disk: the content that the sender's disk holds for the file of its
-- list that the job names.
pub record Lands (disk : Disk) (fs : List FileInfo) (files : Files) (j : Job) : Type 0 where
  pub file : FileInfo
  pub content : Bytes
  pub listed : get_elem? fs j.list_index ≡ some file
  pub stored : disk.content file.local_path ≡ some content
  pub landed : files j.local_path ≡ some content

overlay-other :
    (ds : List (Job × Bytes)) (files : Files) (p : Text)
    → has_target p (map (λ d. d.0) ds) ≡ false
    → overlay ds files p ≡ files p
overlay-other [] files p h = refl
overlay-other ((j, c) ∷ ds) files p h =
    overlay-other ds (put j.local_path (some c) files) p (ground arith) ∙ ground arith

module _ (disk : Disk) (fs : List FileInfo) (dir : DirApi) (root : Text) where
  -- The jobs with their contents.
  abbrev contents : (js : List Job) → All (Arrives disk fs dir root) js → List (Job × Bytes)
  contents [] a = []
  contents (j ∷ js) a = (j, a.0.content) ∷ contents js a.1

  contents-jobs :
      (js : List Job) (a : All (Arrives disk fs dir root) js) → map (λ d. d.0) (contents js a) ≡ js
  contents-jobs [] a = refl
  contents-jobs (j ∷ js) a = ap (◌∷◌ j) (contents-jobs js a.1)

  contents-Lands :
      (js : List Job) (a : All (Arrives disk fs dir root) js) (files : Files)
      → Apart js
      → All (Lands disk fs (overlay (contents js a) files)) js
  contents-Lands [] a files h = tt
  contents-Lands (j ∷ js) a files h =
      let c : Bytes = a.0.content in
      let first : Files = put j.local_path (some c) files in
      let others : has_target j.local_path (map (λ d. d.0) (contents js a.1)) ≡ false =
        ap (has_target j.local_path) (contents-jobs js a.1) ∙ h.0 in
      (
        record {
          file = a.0.file;
          content = c;
          listed = a.0.listed;
          stored = a.0.stored;
          landed =
              overlay-other (contents js a.1) first j.local_path others
              ∙ then_branch (same_text j.local_path j.local_path) (some c) (files j.local_path)
                  (same_text_refl j.local_path);
        },
        contents-Lands js a.1 first h.1,
      )

  rounds_for-length :
      (js : List Job) (a : All (Arrives disk fs dir root) js)
      → rounds_for (contents js a) ≡ 2 * length js + 1
  rounds_for-length [] a = refl
  rounds_for-length (j ∷ js) a = omega (arith, rounds_for-length js a.1)

  -- The contents are what the downloads bring.
  contents-Brings :
      (env : Request → Traffic) (v : Bool)
      (answers : (r : Request) → Answers (env r) r.stream_id (peer disk fs r)) (js : List Job)
      (a : All (Arrives disk fs dir root) js)
      → All (Brings (peer disk fs) env (λ p. true) (λ p i. true) v answers) (contents js a)
  contents-Brings env v answers [] a = tt
  contents-Brings env v answers (j ∷ js) a = (a.0.fetched, contents-Brings env v answers js a.1)

Lands-same :
    (disk : Disk) (fs : List FileInfo) (f g : Files) (js : List Job)
    → ((q : Text) → g q ≡ f q)
    → All (Lands disk fs f) js
    → All (Lands disk fs g) js
Lands-same disk fs f g [] e h = tt
Lands-same disk fs f g (j ∷ js) e h = (
  record {
    file = h.0.file;
    content = h.0.content;
    listed = h.0.listed;
    stored = h.0.stored;
    landed = e j.local_path ∙ h.0.landed;
  },
  Lands-same disk fs f g js e h.1,
)

-- The receiver's entry behind its history.
abbrev pub entry_after : Bool → List Move → Entry
entry_after v history = (run v start history).entry

-- The jobs that the list becomes there.
abbrev pub jobs_after : DirApi → Bool → List Move → List FileInfo → List Job
jobs_after dir v history fs =
    let e = entry_after v history in
    planned dir (dir.batch_root e.next_batch_id) e.made 0 (map received fs)

-- What the worker makes of the entry `e`: it ends its rounds, with the jobs' files on the disk, and with
-- batch `k` shown.
abbrev pub Copies :
    Disk → List FileInfo → Bool → (Request → Traffic) → Site → List Job → ℕ → Entry → Type 0
Copies disk fs v env site jobs k e =
    (t : World) × (rounds_world env (λ p. true) (λ p i. true) v (2 * length jobs + 1)
        (record { sys = record { entry = e; current = none }; site = site })
      ≡ some t)
    × All (Lands disk fs t.site.files) jobs
    × (times k t.sys.entry.published ≡ (if v && has_tops (e.top_paths k) then 1 else 0))

module _ (disk : Disk) (fs : List FileInfo) (dir : DirApi) (v : Bool) (history : List Move)
    (site : Site) (env : Request → Traffic)
    (answers : (r : Request) → Answers (env r) r.stream_id (peer disk fs r)) where
  abbrev e : Entry
  e = entry_after v history

  abbrev filled : Entry
  filled = enqueue_remote_file_list dir v true (map received fs) e

  enqueued-Copies :
      no_files fs ≡ false
      → length fs < 2 ^ 32
      → Serves disk fs
      → dir.mkpath (dir.batch_root e.next_batch_id) ≡ true
      → (run v start history).current ≡ none
      → e.jobs ≡ []
      → e.stopped ≡ false
      → site.link.stopped ≡ false
      → Apart (jobs_after dir v history fs)
      → Copies disk fs v env site (jobs_after dir v history fs) e.made filled
  enqueued-Copies some_file few served made rest none_left runs go apart =
      let root : Text = dir.batch_root e.next_batch_id in
      let jobs : List Job = jobs_after dir v history fs in
      let gs : List FileInfo = map received fs in
      let n : ℕ = 2 * length jobs + 1 in
      let queue : filled.jobs ≡ jobs =
        enqueue_remote_file_list-planned dir v gs e (nonempty-map fs some_file) made
        ∙ ap (λ js. js ++ jobs) none_left in
      let ready = enqueue-IsReady dir v gs e (nonempty-map fs some_file) made runs in
      let a =
        planned-Arrives disk fs dir root e.made few served 0 fs (omega arith)
          (λ n f h. subst (λ i. get_elem? fs i ≡ some f) (omega arith) h) in
      let ds = contents disk fs dir root jobs a in
      let (t, done, same, files) =
        rounds_world-overlay (peer disk fs) env (λ p. true) (λ p i. true) v answers ds filled site
          (queue ∙ sym (contents-jobs disk fs dir root jobs a)) ready.runs ready.fed go
          (contents-Brings disk fs dir root env v answers jobs a) in
      let count : rounds_for ds ≡ n = rounds_for-length disk fs dir root jobs a in
      let inv : Inv v none filled =
        enqueue-Inv v none dir true gs e
          (subst (λ x. Inv v x e) rest (run-Inv v start history (start-Inv v))) in
      (
        t,
        ap
              (λ k.
                rounds_world env (λ p. true) (λ p i. true) v k
                  (record { sys = record { entry = filled; current = none }; site = site }))
              (sym count)
            ∙ done,
        Lands-same disk fs (overlay ds site.files) t.site.files jobs files
            (contents-Lands disk fs dir root jobs a site.files apart),
        ap (λ x. times e.made x.entry.published) same
            ∙ Inv-rounds v (record { entry = filled; current = none }) e.made (rounds_for ds) inv
                ready.runs (omega (arith, ready.one_more)) (omega (arith, count, ap length queue)),
      )

-- A copy from one client to the other, whole: the sender answers with its list of files, the
-- receiver enqueues it, and its worker empties the queue. The worker ends its rounds, every job's
-- file is on the receiver's disk with the content that the sender has for it, and the batch has
-- been shown once, if there is a view and it has a path. The receiver may have any history, and its
-- worker is at rest, not stopped; each request is answered as the sender's code answers it, or with
-- a failure where that code sends nothing, among whatever late responses to others. The list is not
-- empty and has fewer than 2^32 entries, no name holds a zero or starts with a byte-order mark, no
-- size is beyond 64 bits, the list is read back as it was written, the receiver asked for files,
-- the batch's directory can be made, no two jobs have one path, the sender can read its files, and
-- the receiver can create and write its own.
pub copy_whole :
    (from_utf16 : List ℕ → Text) (keeps : KeepsUnmarked from_utf16)
    (serialize : ℕ → List Descriptor → Option Bytes) (parse : Bytes → Option (List Descriptor))
    (wire : (flags : ℕ) (ds : List Descriptor) (b : Bytes)
      → serialize flags ds ≡ some b
      → parse b ≡ some ds)
    (disk : Disk) (fs : List FileInfo) (flags : Option ℕ) (m : Mime) (b : Bytes) (c : Formats)
    (dir : DirApi) (v : Bool) (history : List Move) (site : Site) (env : Request → Traffic)
    → no_files fs ≡ false
    → length fs < 2 ^ 32
    → All Portable fs
    → Serves disk fs
    → m.has_urls ≡ true
    → (server_format_data_request serialize true flags fs (some m) (some format_file)).1
      ≡ responds b
    → c.requested_name ≡ name_files
    → dir.mkpath (dir.batch_root (entry_after v history).next_batch_id) ≡ true
    → (run v start history).current ≡ none
    → (entry_after v history).jobs ≡ []
    → (entry_after v history).stopped ≡ false
    → site.link.stopped ≡ false
    → ((r : Request) → Answers (env r) r.stream_id (peer disk fs r))
    → Apart (jobs_after dir v history fs)
    → let e = entry_after v history in
      let got =
        server_format_data_response from_utf16 parse true true c
          (some (record { is_ok = true; bytes = b })) in
      Copies disk fs v env site (jobs_after dir v history fs) e.made (take_effect dir v got.1 e)
copy_whole from_utf16 keeps serialize parse wire disk fs flags m b c dir v history site env
      some_file few fine served u sent asked made rest none_left runs go answers apart =
    let e = entry_after v history in
    subst (Copies disk fs v env site (jobs_after dir v history fs) e.made)
      (sym (
        ap (λ r. take_effect dir v r.1 e)
          (files_transfer from_utf16 keeps serialize parse wire flags fs m b c fine u sent asked)))
      (enqueued-Copies disk fs dir v history site env answers some_file few served made rest
        none_left runs go apart)
