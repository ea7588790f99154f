-- ===== src/Entry/Batch/Plan.antt =====
-- What `enqueue_remote_file_list` puts into the queue, as a list.
use qfreerdp.Base.{
  ℕ, suc, ◌+◌, ◌≡◌, refl, sym, ap, ◌∙◌, subst, Bool, true, false, not, ◌&&◌, ◌||◌, List, [], ◌∷◌,
  ◌++◌, arith, append_assoc, append-nil, ◌==◌, if◌then◌else◌,
}
use qfreerdp.Base.Word.{u32, u64}
use qfreerdp.Entry.Types.{Text, FileInfo}
use qfreerdp.Entry.Path.{is_empty}
use qfreerdp.Entry.Batch.Count.{add_files-Filled}
use qfreerdp.Entry.Batch.{
  Job, DirApi, Entry, update, note_top, push_job, add_placed, add_file, add_files, no_files,
  make_batch, publish_remote_batch, start_remote_file_worker, enqueue_remote_file_list,
}

append_if :
    (b : Bool) (xs : List Job) (x : Job) (ys : List Job)
    → (if b then xs ++ x ∷ [] else xs) ++ ys ≡ xs ++ (if b then x ∷ ys else ys)
append_if true xs x ys = append_assoc xs (x ∷ []) ys
append_if false xs x ys = refl

module _ (dir : DirApi) (root : Text) (k : ℕ) where
  abbrev pub place : FileInfo → Text
  place f = dir.file_path root (dir.safe_path f.display_name)

  -- The files that are fetched: with a name that is let through, no directories, and a parent that
  -- can be made.
  abbrev pub is_fetched : FileInfo → Bool
  is_fetched f =
      not (is_empty (dir.safe_path f.display_name))
      && not (f.is_directory || not (dir.mkpath (dir.parent_path (place f))))

  abbrev pub job_for : ℕ → FileInfo → Job
  job_for i f = record {
    list_index = u32 i;
    display_name = f.display_name;
    local_path = place f;
    batch = k;
  }

  -- The jobs for the files from index `i` on.
  abbrev pub planned : ℕ → List FileInfo → List Job
  planned i [] = []
  planned i (f ∷ fs) =
      let rest = planned (suc i) fs in if is_fetched f then job_for i f ∷ rest else rest

  add_file-jobs :
      (i : ℕ) (f : FileInfo) (e : Entry)
      → (add_file dir root k i f e).jobs
        ≡ (if is_fetched f then e.jobs ++ job_for i f ∷ [] else e.jobs)
  unfolding add_file add_placed note_top push_job
  add_file-jobs i f e = ground arith

  add_files-jobs :
      (i : ℕ) (fs : List FileInfo) (e : Entry)
      → (add_files dir root k i fs e).jobs ≡ e.jobs ++ planned i fs
  unfolding add_files
  add_files-jobs i [] e = sym (append-nil e.jobs)
  add_files-jobs i (f ∷ fs) e =
      add_files-jobs (suc i) fs (add_file dir root k i f e)
      ∙ ap (λ js. js ++ planned (suc i) fs) (add_file-jobs i f e)
      ∙ append_if (is_fetched f) e.jobs (job_for i f) (planned (suc i) fs)

publish-jobs : (v : Bool) (k : ℕ) (e : Entry) → (publish_remote_batch v k e).jobs ≡ e.jobs
unfolding publish_remote_batch
publish-jobs v k e = ground arith

publish_if-jobs :
    (v : Bool) (k : ℕ) (b : Bool) (e : Entry)
    → (if b then publish_remote_batch v k e else e).jobs ≡ e.jobs
publish_if-jobs v k true e = publish-jobs v k e
publish_if-jobs v k false e = refl

pub worker-jobs :
    (e : Entry)
    → ((start_remote_file_worker e).jobs ≡ e.jobs)
      × ((start_remote_file_worker e).made ≡ e.made)
      × ((start_remote_file_worker e).next_batch_id ≡ e.next_batch_id)
unfolding start_remote_file_worker
worker-jobs e = ground arith

make_batch-jobs :
    (dir : DirApi) (v : Bool) (fs : List FileInfo) (e : Entry)
    → dir.mkpath (dir.batch_root e.next_batch_id) ≡ true
    → (make_batch dir v fs e).jobs
      ≡ e.jobs ++ planned dir (dir.batch_root e.next_batch_id) e.made 0 fs
unfolding make_batch
make_batch-jobs dir v fs e m =
    let k : ℕ = e.made in
    let root = dir.batch_root e.next_batch_id in
    let named : Entry = record e {
      has_context = true;
      next_batch_id = u64 (e.next_batch_id + 1);
    } in
    let fresh : Entry = record named {
      made = suc k;
      remaining = update named.remaining k 0;
      top_paths = update named.top_paths k [];
    } in
    let filled : Entry = add_files dir root k 0 fs fresh in
    let added : filled.jobs ≡ e.jobs ++ planned dir root k 0 fs =
      add_files-jobs dir root k 0 fs fresh in
    rw (m, make_batch) (publish_if-jobs v k (filled.remaining k == 0) filled ∙ added)

-- A list of files that is enqueued adds its planned jobs behind the queue, in the list's order and
-- with the indexes of that list, and nothing else, if there is a context, the list is not empty, and
-- the batch's directory can be made.
pub enqueue_remote_file_list-planned :
    (dir : DirApi) (v : Bool) (fs : List FileInfo) (e : Entry)
    → no_files fs ≡ false
    → dir.mkpath (dir.batch_root e.next_batch_id) ≡ true
    → (enqueue_remote_file_list dir v true fs e).jobs
      ≡ e.jobs ++ planned dir (dir.batch_root e.next_batch_id) e.made 0 fs
unfolding enqueue_remote_file_list
enqueue_remote_file_list-planned dir v fs e n m =
    let s : Entry = start_remote_file_worker e in
    let (js, made, next) = worker-jobs e in
    rw (n, enqueue_remote_file_list)
      (make_batch-jobs dir v fs s (ap (λ b. dir.mkpath (dir.batch_root b)) next ∙ m)
        ∙ rw (js, made, next))

-- What stays of the entry, as files are added.
add_file-stopped :
    (dir : DirApi) (root : Text) (k i : ℕ) (f : FileInfo) (e : Entry)
    → (add_file dir root k i f e).stopped ≡ e.stopped
unfolding add_file add_placed note_top push_job
add_file-stopped dir root k i f e = ground arith

add_files-stopped :
    (dir : DirApi) (root : Text) (k i : ℕ) (fs : List FileInfo) (e : Entry)
    → (add_files dir root k i fs e).stopped ≡ e.stopped
unfolding add_files
add_files-stopped dir root k i [] e = refl
add_files-stopped dir root k i (f ∷ fs) e =
    add_files-stopped dir root k (suc i) fs (add_file dir root k i f e)
    ∙ add_file-stopped dir root k i f e

-- The entry is ready for its worker: it runs on, it has a context, and it has one more batch.
pub record IsReady (made : ℕ) (e : Entry) : Type 0 where
  pub runs : e.stopped ≡ false
  pub fed : e.has_context ≡ true
  pub one_more : e.made ≡ suc made

publish-IsReady :
    (v b : Bool) (k made : ℕ) (e : Entry)
    → IsReady made e
    → IsReady made (if b then publish_remote_batch v k e else e)
unfolding publish_remote_batch
publish-IsReady v false k made e h = h
publish-IsReady v true k made e h = record {
  runs = ground (arith, h.runs);
  fed = ground (arith, h.fed);
  one_more = ground (arith, h.one_more);
}

make_batch-IsReady :
    (dir : DirApi) (v : Bool) (fs : List FileInfo) (e : Entry)
    → dir.mkpath (dir.batch_root e.next_batch_id) ≡ true
    → e.stopped ≡ false
    → IsReady e.made (make_batch dir v fs e)
unfolding make_batch
make_batch-IsReady dir v fs e m h =
    let k : ℕ = e.made in
    let root = dir.batch_root e.next_batch_id in
    let named : Entry = record e {
      has_context = true;
      next_batch_id = u64 (e.next_batch_id + 1);
    } in
    let fresh : Entry = record named {
      made = suc k;
      remaining = update named.remaining k 0;
      top_paths = update named.top_paths k [];
    } in
    let filled : Entry = add_files dir root k 0 fs fresh in
    let f = add_files-Filled dir root k 0 fs fresh in
    let ready : IsReady k filled = record {
      runs = add_files-stopped dir root k 0 fs fresh ∙ h;
      fed = f.same_context;
      one_more = f.same_made;
    } in
    rw (m, make_batch) (publish-IsReady v (filled.remaining k == 0) k k filled ready)

worker-runs : (e : Entry) → e.stopped ≡ false → (start_remote_file_worker e).stopped ≡ false
unfolding start_remote_file_worker
worker-runs e h = ground arith

pub enqueue-IsReady :
    (dir : DirApi) (v : Bool) (fs : List FileInfo) (e : Entry)
    → no_files fs ≡ false
    → dir.mkpath (dir.batch_root e.next_batch_id) ≡ true
    → e.stopped ≡ false
    → IsReady e.made (enqueue_remote_file_list dir v true fs e)
unfolding enqueue_remote_file_list
enqueue-IsReady dir v fs e n m h =
    let s : Entry = start_remote_file_worker e in
    let (js, made, next) = worker-jobs e in
    rw (n, enqueue_remote_file_list)
      (subst (λ k. IsReady k (make_batch dir v fs s)) made
        (make_batch-IsReady dir v fs s (ap (λ b. dir.mkpath (dir.batch_root b)) next ∙ m)
          (worker-runs e h)))
