-- ===== src/Entry/Batch/Invariant.antt =====
-- What holds of the batches at all times, and that enqueueing a list keeps it.
use qfreerdp.Base.{
  ℕ, suc, ◌+◌, ◌≤◌, ◌<◌, ◌≡◌, refl, subst, ap, ◌∙◌, inl, inr, Bool, true, false, Bool-cases, ◌&&◌,
  ◌||◌, not, List, [], ◌∷◌, Option, none, some, arith, ◌==◌, if◌then◌else◌,
}
use qfreerdp.Base.Word.{u64}
use qfreerdp.Entry.Types.{Text, FileInfo}
use qfreerdp.Entry.Batch.{
  Job, DirApi, Entry, update, nothing_to_show, add_files, publish_remote_batch,
  start_remote_file_worker, no_files, make_batch, enqueue_remote_file_list,
}
use qfreerdp.Entry.Batch.Count.{jobs_of, Shows, Filled, add_files-Filled}

-- How often batch `k` was published.
abbrev pub times : ℕ → List (ℕ × List Text) → ℕ
times k [] = 0
times k ((j, ps) ∷ rest) = (if j == k then 1 else 0) + times k rest

abbrev pub in_flight : ℕ → Option Job → ℕ
in_flight k none = 0
in_flight k (some j) = if j.batch == k then 1 else 0

abbrev pub no_jobs : List Job → Bool
no_jobs [] = true
no_jobs (_ ∷ _) = false

abbrev pub has_tops : List Text → Bool
has_tops ps = not (nothing_to_show ps)

pub record Inv (v : Bool) (cur : Option Job) (e : Entry) : Type 0 where
  pub counted : (k : ℕ) → e.remaining k ≡ jobs_of k e.jobs + in_flight k cur
  pub beyond : (k : ℕ) → e.made ≤ k → (e.remaining k ≡ 0) × (times k e.published ≡ 0)
  pub shows : (k : ℕ) → Shows k e
  pub once :
      (k : ℕ)
      → k < e.made
      → times k e.published
        ≡ (if e.remaining k == 0 && (v && has_tops (e.top_paths k)) then 1 else 0)
  pub fed : no_jobs e.jobs || e.has_context ≡ true

-- Publishing is all that `publish_remote_batch` does, and it does it if there is something to show.
publish_lem :
    (v : Bool) (k : ℕ) (e : Entry)
    → publish_remote_batch v k e ≡ record e {
      published =
          if v && has_tops (e.top_paths k) then (k, e.top_paths k) ∷ e.published else e.published;
    }
unfolding publish_remote_batch
publish_lem v k e = ground arith

start_worker_lem :
    (e : Entry)
    → start_remote_file_worker e
      ≡ record e { stopped = if e.has_worker then e.stopped else false; has_worker = true }
unfolding start_remote_file_worker
start_worker_lem e = ground arith

pub publish_if :
    (v : Bool) (k n : ℕ) (e : Entry)
    → (if n == 0 then publish_remote_batch v k e else e) ≡ record e {
      published =
          if n == 0 && (v && has_tops (e.top_paths k))
          then (k, e.top_paths k) ∷ e.published
          else e.published;
    }
publish_if v k n e = elim (Bool-cases (n == 0)) [
  | inl z ↦ rw (z, if◌then◌else◌) (publish_lem v k e ∙ ground arith)
  | inr z ↦ ground arith
]

module _ (v : Bool) (cur : Option Job) where
  start_worker-Inv : (e : Entry) → Inv v cur e → Inv v cur (start_remote_file_worker e)
  start_worker-Inv e h = rw (start_worker_lem e) (record {
    counted = h.counted;
    beyond = h.beyond;
    shows = h.shows;
    once = h.once;
    fed = h.fed;
  })

  -- The new batch `k`, filled from an entry that has the old batches and `k` with no job.
  new_batch-Inv :
      (e fresh filled : Entry)
      → Inv v cur e
      → Filled e.made fresh filled
      → fresh.jobs ≡ e.jobs
      → fresh.made ≡ suc e.made
      → fresh.remaining ≡ update e.remaining e.made 0
      → fresh.top_paths ≡ update e.top_paths e.made []
      → fresh.published ≡ e.published
      → fresh.has_context ≡ true
      → Inv v cur
          (if filled.remaining e.made == 0 then publish_remote_batch v e.made filled else filled)
  new_batch-Inv e fresh filled h f jobs made rem tops shown ctx =
      rw (publish_if v e.made (filled.remaining e.made) filled) (record {
        counted = λ j.
            ground
              (arith, f.balance j, ap (λ r. r j) rem, ap (jobs_of j) jobs, h.counted j, h.beyond j);
        beyond = λ j b.
            let ne : (e.made == j) ≡ false = ground (arith, f.same_made, made) in
            (
              old_count j ne ∙ (h.beyond j (omega (arith, f.same_made, made))).0,
              ground (arith, old_times j, h.beyond j, f.same_made, made),
            );
        shows = λ j. elim (Bool-cases (e.made == j)) [
          | inl same ↦
              let at : e.made ≡ j = ground arith in
              subst (λ i. Shows i filled) at (f.shows (inl (ap (λ r. r e.made) rem ∙ ground arith)))
          | inr ne ↦ elim (h.shows j) [
            | inl z ↦ inl (old_count j ne ∙ z)
            | inr z ↦ inr (ap nothing_to_show (old_tops j ne) ∙ z)
          ]
        ];
        once = λ j b. elim (Bool-cases (e.made == j)) [
          | inl same ↦
              let at : e.made ≡ j = ground arith in
              subst Once at (ground (arith, old_times e.made, h.beyond e.made))
          | inr ne ↦
              ground
                (arith, old_times j, old_count j ne, old_tops j ne, h.once j, f.same_made, made)
        ];
        fed = ground (arith, f.same_context, ctx);
      })
    where
      old_count : (j : ℕ) → (e.made == j) ≡ false → filled.remaining j ≡ e.remaining j
      old_count j ne = f.other_count j ne ∙ ap (λ r. r j) rem ∙ ground arith

      old_tops : (j : ℕ) → (e.made == j) ≡ false → filled.top_paths j ≡ e.top_paths j
      old_tops j ne = f.other_tops j ne ∙ ap (λ r. r j) tops ∙ ground arith

      old_times : (j : ℕ) → times j filled.published ≡ times j e.published
      old_times j = ap (times j) (f.same_published ∙ shown)

      now : List (ℕ × List Text)
      now =
          if filled.remaining e.made == 0 && (v && has_tops (filled.top_paths e.made))
          then (e.made, filled.top_paths e.made) ∷ filled.published
          else filled.published

      Once : ℕ → Type 0
      Once j =
          times j now
          ≡ (if filled.remaining j == 0 && (v && has_tops (filled.top_paths j)) then 1 else 0)

  make_batch-Inv :
      (dir : DirApi) (files : List FileInfo) (e : Entry)
      → Inv v cur e
      → Inv v cur (make_batch dir v files e)
  unfolding make_batch
  make_batch-Inv dir files e h =
      let k : ℕ = e.made in
      let root = dir.batch_root e.next_batch_id in
      let named : Entry = record e {
        has_context = true;
        next_batch_id = u64 (e.next_batch_id + 1);
      } in
      let fresh : Entry = record named {
        made = suc k;
        remaining = update named.remaining k 0;
        top_paths = update named.top_paths k [];
      } in
      elim (Bool-cases (dir.mkpath root)) [
        | inr m ↦
            rw (m, make_batch)
              (record {
                counted = h.counted;
                beyond = h.beyond;
                shows = h.shows;
                once = h.once;
                fed = ground arith;
              })
        | inl m ↦
            rw (m, make_batch)
              (new_batch-Inv e fresh (add_files dir root k 0 files fresh) h
                (add_files-Filled dir root k 0 files fresh) refl refl refl refl refl refl)
      ]

  pub enqueue-Inv :
      (dir : DirApi) (has_context : Bool) (files : List FileInfo) (e : Entry)
      → Inv v cur e
      → Inv v cur (enqueue_remote_file_list dir v has_context files e)
  unfolding enqueue_remote_file_list
  enqueue-Inv dir c files e h = elim (Bool-cases (not c || no_files files)) [
    | inl z ↦ rw (z, enqueue_remote_file_list) h
    | inr z ↦
        rw (z, enqueue_remote_file_list)
          (make_batch-Inv dir files (start_remote_file_worker e) (start_worker-Inv e h))
  ]
