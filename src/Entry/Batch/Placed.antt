-- ===== src/Entry/Batch/Placed.antt =====
-- clipboard-entry.h: where `enqueue_remote_file_list` files what it puts into the queue.
use qfreerdp.Base.{
  ℕ, suc, ◌<◌, ◌≡◌, ◌≢◌, refl, sym, ap, ◌∙◌, subst, Bool, true, false, Bool-cases, inl, inr, List,
  [], ◌∷◌, ◌++◌, All, some, arith, length, not, ◌||◌, if◌then◌else◌, then_branch, else_branch,
}
use qfreerdp.Entry.Types.{Text, FileInfo}
use qfreerdp.Entry.Path.{PathApi, slash, is_empty, parts, safe_remote_relative_path}
use qfreerdp.Entry.Path.Safe.{walk, safe_path_inside}
use qfreerdp.Entry.Batch.{
  Job, DirApi, Entry, no_files, make_batch, enqueue_remote_file_list, start_remote_file_worker,
}
use qfreerdp.Entry.Batch.Plan.{
  is_fetched, job_for, planned, worker-jobs, enqueue_remote_file_list-planned,
}

empty_path : {t : Text} → t ≡ [] → ¬ (is_empty t ≡ false)
empty_path z h = ground arith

-- What both branches of a conditional have.
pub both : {A : Type 0} → (P : A → Type 0) (b : Bool) (x y : A) → P x → P y → P (if b then x else y)
both P true x y h k = h
both P false x y h k = k

module _ (api : PathApi) (dir : DirApi) where
  open api use {split}

  -- A path filed in a batch's directory under a relative one that, followed component by component,
  -- never leaves the directory it starts from, and ends below it.
  pub record IsPlaced (p : Text) : Type 0 where
    pub batch_id : ℕ
    pub relative : Text
    pub filed : p ≡ dir.file_path (dir.batch_root batch_id) relative
    pub depth : ℕ
    pub below : 0 < depth
    pub inside : walk 0 (split slash relative) ≡ some depth

  abbrev pub AllPlaced : List Job → Type 0
  AllPlaced = All (λ j. IsPlaced j.local_path)

  if_Placed :
      (b : Bool) (j : Job) (js : List Job)
      → (b ≡ true → IsPlaced j.local_path)
      → AllPlaced js
      → AllPlaced (if b then j ∷ js else js)
  if_Placed true j js h k = (h refl, k)
  if_Placed false j js h k = k

  module _ (safe : (t : Text) → dir.safe_path t ≡ safe_remote_relative_path api t) where
    place-IsPlaced :
        (id : ℕ) (t : Text)
        → is_empty (dir.safe_path t) ≡ false
        → IsPlaced (dir.file_path (dir.batch_root id) (dir.safe_path t))
    place-IsPlaced id t h =
        let some_path : safe_remote_relative_path api t ≢ [] =
          λ z. absurd (empty_path (safe t ∙ z) h) in
        let (walked, below, _) = safe_path_inside api t some_path in
        record {
          batch_id = id;
          relative = safe_remote_relative_path api t;
          filed = ap (dir.file_path (dir.batch_root id)) (safe t);
          depth = length (parts api t);
          below = below;
          inside = walked;
        }

    planned-IsPlaced :
        (id k i : ℕ) (fs : List FileInfo) → AllPlaced (planned dir (dir.batch_root id) k i fs)
    planned-IsPlaced id k i [] = tt
    planned-IsPlaced id k i (f ∷ fs) =
        if_Placed (is_fetched dir (dir.batch_root id) k f) (job_for dir (dir.batch_root id) k i f)
          (planned dir (dir.batch_root id) k (suc i) fs)
          (λ h. place-IsPlaced id f.display_name (ground arith)) (planned-IsPlaced id k (suc i) fs)

  append-Placed : (xs ys : List Job) → AllPlaced xs → AllPlaced ys → AllPlaced (xs ++ ys)
  append-Placed [] ys h k = k
  append-Placed (x ∷ xs) ys h k = (h.0, append-Placed xs ys h.1 k)

  no_list :
      (v c : Bool) (fs : List FileInfo) (e : Entry)
      → (not c || no_files fs) ≡ true
      → (enqueue_remote_file_list dir v c fs e).jobs ≡ e.jobs
  unfolding enqueue_remote_file_list
  no_list v c fs e h = ap (λ (x : Entry). x.jobs) (then_branch (not c || no_files fs) e _ h)

  no_directory :
      (v : Bool) (fs : List FileInfo) (e : Entry)
      → dir.mkpath (dir.batch_root e.next_batch_id) ≡ false
      → (make_batch dir v fs e).jobs ≡ e.jobs
  unfolding make_batch
  no_directory v fs e h =
      ap (λ (x : Entry). x.jobs) (else_branch (dir.mkpath (dir.batch_root e.next_batch_id)) _ _ h)

  enqueued_none :
      (v : Bool) (fs : List FileInfo) (e : Entry)
      → no_files fs ≡ false
      → dir.mkpath (dir.batch_root e.next_batch_id) ≡ false
      → (enqueue_remote_file_list dir v true fs e).jobs ≡ e.jobs
  unfolding enqueue_remote_file_list
  enqueued_none v fs e n h =
      let (js, _, next) = worker-jobs e in
      rw (n, enqueue_remote_file_list)
        (no_directory v fs (start_remote_file_worker e)
            (ap (λ b. dir.mkpath (dir.batch_root b)) next ∙ h)
          ∙ js)

  module _ (safe : (t : Text) → dir.safe_path t ≡ safe_remote_relative_path api t) where
    pub enqueue-Placed :
        (v c : Bool) (fs : List FileInfo) (e : Entry)
        → AllPlaced e.jobs
        → AllPlaced (enqueue_remote_file_list dir v c fs e).jobs
    enqueue-Placed v false fs e h = subst AllPlaced (sym (no_list v false fs e refl)) h
    enqueue-Placed v true fs e h = elim (Bool-cases (no_files fs)) [
      | inl n ↦ subst AllPlaced (sym (no_list v true fs e n)) h
      | inr n ↦ elim (Bool-cases (dir.mkpath (dir.batch_root e.next_batch_id))) [
        | inr m ↦ subst AllPlaced (sym (enqueued_none v fs e n m)) h
        | inl m ↦
            subst AllPlaced (sym (enqueue_remote_file_list-planned dir v fs e n m))
              (append-Placed e.jobs _ h (planned-IsPlaced safe e.next_batch_id e.made 0 fs))
      ]
    ]
