-- ===== src/Client/Copy.antt =====
-- Files copied from one client to another: the list that is sent and enqueued, and the downloads of
-- its jobs.
pub mod Whole
use qfreerdp.Base.{
  ℕ, suc, ◌+◌, ◌≤◌, ◌<◌, ◌^◌, ◌≡◌, refl, ap, ◌∙◌, Bool, true, false, Bool-cases, inl, inr, List, [],
  ◌∷◌, ◌++◌, map, Option, none, some, arith, length, take, All, get_elem?, subst,
}
use qfreerdp.Base.Word.{u32}
use qfreerdp.Entry.Types.{Text, Bytes, FileInfo}
use qfreerdp.Entry.Types.Utf16.{KeepsUnmarked}
use qfreerdp.Entry.Serve.{Disk}
use qfreerdp.Entry.Download.{finished, download_remote_file}
use qfreerdp.Entry.Download.Exact.{peer, IsServed, download_remote_file-peer}
use qfreerdp.Entry.Batch.{Job, DirApi, Entry, no_files, enqueue_remote_file_list}
use qfreerdp.Entry.Batch.Plan.{is_fetched, job_for, planned, enqueue_remote_file_list-planned}
use qfreerdp.Client.Formats.{Formats, name_files}
use qfreerdp.Client.Files.{
  Descriptor, Mime, max_chars, server_format_data_request, server_format_data_response, Effect,
  nothing, enqueues_files, shows, responds, format_file,
}
use qfreerdp.Client.Files.Transfer.{received, Portable, files_transfer}

-- A job of the receiver that names a regular file of the sender's list by its index, keeps its name as
-- far as it is sent, lies below the batch's directory by the name's safe path, and downloads what the
-- sender's disk holds for it.
pub record Arrives (disk : Disk) (fs : List FileInfo) (dir : DirApi) (root : Text) (j : Job)
    : Type 0 where
  pub file : FileInfo
  pub content : Bytes
  pub listed : get_elem? fs j.list_index ≡ some file
  pub regular : file.is_directory ≡ false
  pub stored : disk.content file.local_path ≡ some content
  pub named : j.display_name ≡ take max_chars file.display_name
  pub placed : j.local_path ≡ dir.file_path root (dir.safe_path (take max_chars file.display_name))
  pub fetched :
      (next : ℕ)
      → (download_remote_file (peer disk fs) (λ i. true) true j.list_index next).0
        ≡ finished content

-- Every regular file of the list can be read to its end.
abbrev pub Serves : Disk → List FileInfo → Type 0
Serves disk fs =
    (i : ℕ) (f : FileInfo)
    → get_elem? fs i ≡ some f
    → f.is_directory ≡ false
    → (c : Bytes) × IsServed disk fs i f c

module _ (disk : Disk) (fs : List FileInfo) (dir : DirApi) (root : Text) (k : ℕ)
    (few : length fs < 2 ^ 32) (served : Serves disk fs) where
  job_for-Arrives :
      (i : ℕ) (f : FileInfo)
      → i < length fs
      → get_elem? fs i ≡ some f
      → f.is_directory ≡ false
      → Arrives disk fs dir root (job_for dir root k i (received f))
  job_for-Arrives i f s l r =
      let (c, is) = served i f l r in
      let same : u32 i ≡ i = omega arith in
      record {
        file = f;
        content = c;
        listed = rw same l;
        regular = r;
        stored = is.opens;
        named = refl;
        placed = refl;
        fetched = λ next. rw same (download_remote_file-peer disk fs i f c is next);
      }

  pub planned-Arrives :
      (i : ℕ) (ds : List FileInfo)
      → i + length ds ≤ length fs
      → ((n : ℕ) (f : FileInfo) → get_elem? ds n ≡ some f → get_elem? fs (i + n) ≡ some f)
      → All (Arrives disk fs dir root) (planned dir root k i (map received ds))
  planned-Arrives i [] s at = tt
  planned-Arrives i (d ∷ ds) s at =
      let rest =
        planned-Arrives (suc i) ds (omega arith)
          (λ n f e. subst (λ m. get_elem? fs m ≡ some f) (omega arith) (at (suc n) f e)) in
      elim (Bool-cases (is_fetched dir root k (received d))) [
        | inl y ↦
            let here : get_elem? fs i ≡ some d =
              subst (λ m. get_elem? fs m ≡ some d) (omega arith) (at 0 d refl) in
            rw y (job_for-Arrives i d (omega arith) here (ground arith), rest)
        | inr n ↦ rw n rest
      ]

-- What the receiver does with the effect of a data response.
abbrev pub take_effect : DirApi → Bool → Option Effect → Entry → Entry
take_effect dir v (some (enqueues_files gs)) e = enqueue_remote_file_list dir v true gs e
take_effect dir v (some nothing) e = e
take_effect dir v (some (shows b id name)) e = e
take_effect dir v none e = e

pub nonempty-map : (fs : List FileInfo) → no_files fs ≡ false → no_files (map received fs) ≡ false
nonempty-map [] h = h
nonempty-map (f ∷ fs) h = refl

-- From the sender's answer with its list of files to the files in the receiver's directory: if the
-- list is not empty and has fewer than 2^32 entries, holds no zero in a name, no byte-order mark at
-- its start, and no size beyond 64 bits, is read back as it was written, the receiver asked for a
-- list of files, and the batch's directory can be made, then the receiver's queue grows by the
-- planned jobs. Each of these names a regular file of the sender by the index that the sender knows
-- it by, and its download, from whatever stream counter, gives the content of that very file, whole
-- and unchanged, as long as the sender can read its files and the receiver can write.
pub copy_files :
    (from_utf16 : List ℕ → Text) (keeps : KeepsUnmarked from_utf16)
    (serialize : ℕ → List Descriptor → Option Bytes) (parse : Bytes → Option (List Descriptor))
    (wire : (flags : ℕ) (ds : List Descriptor) (b : Bytes)
      → serialize flags ds ≡ some b
      → parse b ≡ some ds)
    (disk : Disk) (fs : List FileInfo) (flags : Option ℕ) (m : Mime) (b : Bytes) (c : Formats)
    (dir : DirApi) (v : Bool) (e : Entry)
    → no_files fs ≡ false
    → length fs < 2 ^ 32
    → All Portable fs
    → Serves disk fs
    → m.has_urls ≡ true
    → (server_format_data_request serialize true flags fs (some m) (some format_file)).1
      ≡ responds b
    → c.requested_name ≡ name_files
    → dir.mkpath (dir.batch_root e.next_batch_id) ≡ true
    → let root : Text = dir.batch_root e.next_batch_id in
      let jobs : List Job = planned dir root e.made 0 (map received fs) in
      let got =
        server_format_data_response from_utf16 parse true true c
          (some (record { is_ok = true; bytes = b })) in
      ((take_effect dir v got.1 e).jobs ≡ e.jobs ++ jobs) × All (Arrives disk fs dir root) jobs
copy_files from_utf16 keeps serialize parse wire disk fs flags m b c dir v e some_file few fine
      served u sent asked made =
    let root : Text = dir.batch_root e.next_batch_id in
    let got =
      files_transfer from_utf16 keeps serialize parse wire flags fs m b c fine u sent asked in
    (
      ap (λ r. (take_effect dir v r.1 e).jobs) got
          ∙ enqueue_remote_file_list-planned dir v (map received fs) e (nonempty-map fs some_file)
              made,
      planned-Arrives disk fs dir root e.made few served 0 fs (omega arith)
          (λ n f h. subst (λ i. get_elem? fs i ≡ some f) (omega arith) h),
    )
