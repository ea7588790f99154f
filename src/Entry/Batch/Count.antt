-- ===== src/Entry/Batch/Count.antt =====
-- How adding files to a batch moves the numbers that the batches are kept by.
use qfreerdp.Base.{
  ℕ, suc, ◌+◌, ◌%◌, ◌^◌, ◌≡◌, refl, ◌∙◌, ◌⊎◌, inl, inr, false, Bool-cases, ◌||◌, not, List, [], ◌∷◌,
  ◌++◌, arith, ◌==◌, if◌then◌else◌,
}
use qfreerdp.Entry.Types.{Text, FileInfo}
use qfreerdp.Entry.Path.{is_empty}
use qfreerdp.Entry.Batch.{
  Job, DirApi, Entry, nothing_to_show, add_top, note_top, push_job, add_placed, add_file, add_files,
}

abbrev pub jobs_of : ℕ → List Job → ℕ
jobs_of k [] = 0
jobs_of k (j ∷ js) = (if j.batch == k then 1 else 0) + jobs_of k js

pub jobs_of-append : (k : ℕ) (xs ys : List Job) → jobs_of k (xs ++ ys) ≡ jobs_of k xs + jobs_of k ys
jobs_of-append k [] ys = omega arith
jobs_of-append k (x ∷ xs) ys = omega (arith, jobs_of-append k xs ys)

-- A batch with a job has a path to show.
abbrev pub Shows : ℕ → Entry → Type 0
Shows k e = (e.remaining k ≡ 0) ⊎ (nothing_to_show (e.top_paths k) ≡ false)

-- From `e` to `f` only batch `k` grew, and as its count of remaining jobs did so did the queue.
pub record Filled (k : ℕ) (e f : Entry) : Type 0 where
  pub same_made : f.made ≡ e.made
  pub same_context : f.has_context ≡ e.has_context
  pub same_published : f.published ≡ e.published
  pub balance : (j : ℕ) → f.remaining j + jobs_of j e.jobs ≡ e.remaining j + jobs_of j f.jobs
  pub other_count : (j : ℕ) → (k == j) ≡ false → f.remaining j ≡ e.remaining j
  pub other_tops : (j : ℕ) → (k == j) ≡ false → f.top_paths j ≡ e.top_paths j
  pub shows : Shows k e → Shows k f

pub Filled-refl : (k : ℕ) (e : Entry) → Filled k e e
Filled-refl k e = record {
  same_made = refl;
  same_context = refl;
  same_published = refl;
  balance = λ j. refl;
  other_count = λ j h. refl;
  other_tops = λ j h. refl;
  shows = λ h. h;
}

pub Filled-trans : {k : ℕ} {e f g : Entry} → Filled k e f → Filled k f g → Filled k e g
Filled-trans a b = record {
  same_made = b.same_made ∙ a.same_made;
  same_context = b.same_context ∙ a.same_context;
  same_published = b.same_published ∙ a.same_published;
  balance = λ j. omega (arith, a.balance j, b.balance j);
  other_count = λ j h. b.other_count j h ∙ a.other_count j h;
  other_tops = λ j h. b.other_tops j h ∙ a.other_tops j h;
  shows = λ h. b.shows (a.shows h);
}

module _ (dir : DirApi) (root : Text) (k : ℕ) where
  tops_there : (p : Text) (tops : List Text) → nothing_to_show (add_top dir root k p tops) ≡ false
  tops_there p [] = refl
  tops_there p (q ∷ qs) = ground arith

  note_top-Filled : (top : Text) (e : Entry) → Filled k e (note_top dir root k top e)
  unfolding note_top
  note_top-Filled top e = record {
    same_made = refl;
    same_context = refl;
    same_published = refl;
    balance = λ j. refl;
    other_count = λ j h. refl;
    other_tops = λ j h. ground arith;
    shows = λ h. inr (ground (arith, tops_there top (e.top_paths k)));
  }

  push_job-Filled :
      (i : ℕ) (name local : Text) (e : Entry)
      → nothing_to_show (e.top_paths k) ≡ false
      → Filled k e (push_job dir root k i name local e)
  unfolding push_job
  push_job-Filled i name local e t = record {
    same_made = refl;
    same_context = refl;
    same_published = refl;
    balance = λ j.
        let more = jobs_of-append j e.jobs (
          record { list_index = i % 2 ^ 32; display_name = name; local_path = local; batch = k }
          ∷ []) in
        ground (arith, more);
    other_count = λ j h. ground arith;
    other_tops = λ j h. refl;
    shows = λ h. inr t;
  }

  noted_shows :
      (top : Text) (e : Entry) → nothing_to_show ((note_top dir root k top e).top_paths k) ≡ false
  unfolding note_top
  noted_shows top e = ground (arith, tops_there top (e.top_paths k))

  add_placed-Filled :
      (i : ℕ) (file : FileInfo) (path : Text) (e : Entry)
      → Filled k e (add_placed dir root k i file path e)
  unfolding add_placed
  add_placed-Filled i file path e =
      let local = dir.file_path root path in
      let top = dir.file_path root (dir.first_section path) in
      let noted = note_top-Filled top e in
      elim (Bool-cases (file.is_directory || not (dir.mkpath (dir.parent_path local)))) [
        | inl h ↦ rw (h, add_placed) noted
        | inr h ↦
            rw (h, add_placed)
              (Filled-trans noted (
                push_job-Filled i file.display_name local (note_top dir root k top e)
                  (noted_shows top e)))
      ]

  add_file-Filled :
      (i : ℕ) (file : FileInfo) (e : Entry) → Filled k e (add_file dir root k i file e)
  unfolding add_file
  add_file-Filled i file e = elim (Bool-cases (is_empty (dir.safe_path file.display_name))) [
    | inl h ↦ rw (h, add_file) (Filled-refl k e)
    | inr h ↦ rw (h, add_file) (add_placed-Filled i file (dir.safe_path file.display_name) e)
  ]

  pub add_files-Filled :
      (i : ℕ) (fs : List FileInfo) (e : Entry) → Filled k e (add_files dir root k i fs e)
  unfolding add_files
  add_files-Filled i [] e = Filled-refl k e
  add_files-Filled i (f ∷ fs) e =
      Filled-trans (add_file-Filled i f e) (add_files-Filled (suc i) fs (add_file dir root k i f e))
