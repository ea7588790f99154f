-- ===== src/Entry/Fetch/World/Confined.antt =====
-- The worker writes nowhere but below the directories of the batches.
use qfreerdp.Base.{
  ℕ, ◌≡◌, refl, sym, ap, ◌∙◌, subst, Bool, true, false, Bool-cases, Option-cases, inl, inr, ◌⊎◌,
  List, [], ◌∷◌, Option, none, some, arith, if◌then◌else◌,
}
use qfreerdp.Entry.Types.{Text, Request, FileInfo}
use qfreerdp.Entry.Path.{PathApi, safe_remote_relative_path}
use qfreerdp.Entry.Batch.{
  Job, DirApi, Entry, same_text, Sys, finish_job, take_job, start_job, work, publish_remote_batch,
  enqueue_remote_file_list,
}
use qfreerdp.Entry.Batch.Texts.{same_text-eq}
use qfreerdp.Entry.Fetch.{Traffic, Files, Site, Fetched, saved, given_up, waits, out_of_fuel, fetch}
use qfreerdp.Entry.Fetch.Elsewhere.{fetch-Keeps}
use qfreerdp.Entry.Fetch.World.{World, with_flag, finish_fetched, work_world}
use qfreerdp.Entry.Batch.Placed.{IsPlaced, AllPlaced, both, enqueue-Placed}

-- A list of files that comes in, and a round of the worker.
pub data Deed : Type 0 where
  receives : Bool → List FileInfo → Deed
  works : Deed

same_world : {a b : World} → some a ≡ some b → a ≡ b
same_world z = cc

module _ (api : PathApi) (dir : DirApi) where
  finish_job-jobs : (v : Bool) (j : Job) (e : Entry) → (finish_job v j e).jobs ≡ e.jobs
  unfolding finish_job publish_remote_batch
  finish_job-jobs v j e = ground arith

  -- The jobs that wait, and the one that is being done.
  pub record SysPlaced (s : Sys) : Type 0 where
    pub waiting_jobs : (AllPlaced api dir) s.entry.jobs
    pub own_job : (j : Job) → s.current ≡ some j → (IsPlaced api dir) j.local_path

  -- The files, but for what is placed, are what they were.
  abbrev pub Untouched : Files → Files → Type 0
  Untouched old new = (q : Text) → (new q ≡ old q) ⊎ (IsPlaced api dir) q

  taken_none : (e : Entry) → e.jobs ≡ [] → take_job e ≡ (none, e)
  unfolding take_job
  taken_none e q =
      ap (λ js. elim js [ [] ↦ (none, e) | j ∷ js ↦ (some j, record e { jobs = js }) ]) q

  taken_some :
      (e : Entry) (j : Job) (js : List Job)
      → e.jobs ≡ j ∷ js
      → take_job e ≡ (some j, record e { jobs = js })
  unfolding take_job
  taken_some e j js q = rw (q, take_job) refl

  own_of : (b : Bool) (j k : Job) → (if b then some j else none) ≡ some k → j ≡ k
  own_of true j k z = ground arith
  own_of false j k z = absurd (ground arith)

  take-SysPlaced :
      (e : Entry) (js : List Job)
      → e.jobs ≡ js
      → (AllPlaced api dir) js
      → SysPlaced (start_job (take_job e))
  unfolding start_job
  take-SysPlaced e [] q h =
      subst (λ p. SysPlaced (start_job p)) (sym (taken_none e q))
        (record {
          waiting_jobs = subst (AllPlaced api dir) (sym q) h;
          own_job = λ k z. absurd (ground arith);
        })
  take-SysPlaced e (j ∷ js) q h =
      subst (λ p. SysPlaced (start_job p)) (sym (taken_some e j js q))
        (record {
          waiting_jobs = h.1;
          own_job =
              λ k z. subst (λ x. (IsPlaced api dir) x.local_path) (own_of e.has_context j k z) h.0;
        })

  -- A worker with no job of its own.
  idle-SysPlaced : (v : Bool) (s : Sys) → s.current ≡ none → SysPlaced s → SysPlaced (work v s)
  unfolding work
  idle-SysPlaced v s c h =
      rw (c, work)
        (both SysPlaced s.entry.stopped s _ h
          (take-SysPlaced s.entry s.entry.jobs refl h.waiting_jobs))

  fetch-Untouched :
      (env : Request → Traffic) (creates : Text → Bool) (writes : Text → ℕ → Bool) (j : Job)
      (s : Site)
      → (IsPlaced api dir) j.local_path
      → Untouched s.files (fetch env creates writes j.local_path j.list_index s).1.files
  fetch-Untouched env creates writes j s h q = elim (Bool-cases (same_text j.local_path q)) [
    | inl e ↦ inr (subst (IsPlaced api dir) (same_text-eq j.local_path q e) h)
    | inr e ↦ inl (fetch-Keeps j.local_path q e env creates writes j.list_index s)
  ]

  Untouched-trans : (a b c : Files) → Untouched a b → Untouched b c → Untouched a c
  Untouched-trans a b c f g q = elim (g q) [
    | inr p ↦ inr p
    | inl e ↦ elim (f q) [ inr p ↦ inr p | inl d ↦ inl (e ∙ d) ]
  ]

  -- The state of a worker that is not waiting in a download.
  pub record WorldPlaced (old : Files) (w : World) : Type 0 where
    pub sys_placed : SysPlaced w.sys
    pub untouched : Untouched old w.site.files

  done-WorldPlaced :
      (v : Bool) (j : Job) (e : Entry) (old : Files) (t : Site)
      → (AllPlaced api dir) e.jobs
      → Untouched old t.files
      → WorldPlaced old (record {
        sys = record { entry = finish_job v j (with_flag t.link.stopped e); current = none };
        site = t;
      })
  done-WorldPlaced v j e old t h u = record {
    sys_placed = record {
      waiting_jobs =
          subst (AllPlaced api dir) (sym (finish_job-jobs v j (with_flag t.link.stopped e))) h;
      own_job = λ k z. absurd (ground arith);
    };
    untouched = u;
  }

  finished-WorldPlaced :
      (v : Bool) (j : Job) (e : Entry) (old : Files) (r : Fetched × Site) (w : World)
      → (AllPlaced api dir) e.jobs
      → Untouched old r.1.files
      → finish_fetched v j e r ≡ some w
      → WorldPlaced old w
  finished-WorldPlaced v j e old (saved, t) w h u z =
      subst (WorldPlaced old) (same_world z) (done-WorldPlaced v j e old t h u)
  finished-WorldPlaced v j e old (given_up, t) w h u z =
      subst (WorldPlaced old) (same_world z) (done-WorldPlaced v j e old t h u)
  finished-WorldPlaced v j e old (waits, t) w h u z = absurd (ground arith)
  finished-WorldPlaced v j e old (out_of_fuel, t) w h u z = absurd (ground arith)

  module _ (env : Request → Traffic) (creates : Text → Bool) (writes : Text → ℕ → Bool)
      (v : Bool) where
    -- A round, by the job that the worker has.
    abbrev round_of : World → Option Job → Option World
    round_of w x = elim x [
      | none ↦ some (record w { sys = work v w.sys })
      | some j ↦
          finish_fetched v j w.sys.entry (fetch env creates writes j.local_path j.list_index w.site)
    ]

    work_idle :
        (w t : World)
        → w.sys.current ≡ none
        → work_world env creates writes v w ≡ some t
        → record w { sys = work v w.sys } ≡ t
    unfolding work_world
    work_idle w t c z = same_world (sym (ap (round_of w) c) ∙ z)

    work_own :
        (j : Job) (w t : World)
        → w.sys.current ≡ some j
        → work_world env creates writes v w ≡ some t
        → finish_fetched v j w.sys.entry (fetch env creates writes j.local_path j.list_index w.site)
          ≡ some t
    unfolding work_world
    work_own j w t c z = sym (ap (round_of w) c) ∙ z

    -- `enqueue_remote_file_list`, which may start a worker and so clear the one flag for a stop.
    abbrev pub receive : Bool → List FileInfo → World → World
    receive c fs w =
        let e = enqueue_remote_file_list dir v c fs w.sys.entry in
        record w {
          sys = record w.sys { entry = e };
          site = record w.site { link = record w.site.link { stopped = e.stopped } };
        }

    abbrev pub proceed : Option World → (World → Option World) → Option World
    proceed none f = none
    proceed (some t) f = f t

    -- `none` is a worker that waits in a download.
    abbrev pub deeds : List Deed → World → Option World
    deeds [] w = some w
    deeds (receives c fs ∷ ds) w = deeds ds (receive c fs w)
    deeds (works ∷ ds) w = proceed (work_world env creates writes v w) (deeds ds)

    -- The files when the worker has gone on as far as it gets with a job that it has, even if it waits.
    abbrev pub reached : World → Files
    reached w = elim w.sys.current [
      | none ↦ w.site.files
      | some j ↦ (fetch env creates writes j.local_path j.list_index w.site).1.files
    ]

    proceeded :
        (x : Option World) (f : World → Option World) (t : World)
        → proceed x f ≡ some t
        → (y : World) × (x ≡ some y) × (f y ≡ some t)
    proceeded none f t z = absurd (ground arith)
    proceeded (some y) f t z = (y, refl, z)

    module _ (old : Files) where
      work_world-WorldPlaced :
          (w t : World)
          → WorldPlaced old w
          → work_world env creates writes v w ≡ some t
          → WorldPlaced old t
      work_world-WorldPlaced w t p z = elim (Option-cases w.sys.current) [
        | inl c ↦
            subst (WorldPlaced old) (work_idle w t c z) (record {
              sys_placed = idle-SysPlaced v w.sys c p.sys_placed;
              untouched = p.untouched;
            })
        | inr (j, c) ↦
            let own = p.sys_placed.own_job j c in
            finished-WorldPlaced v j w.sys.entry old _ t p.sys_placed.waiting_jobs
              (Untouched-trans old w.site.files _ p.untouched
                (fetch-Untouched env creates writes j w.site own))
              (work_own j w t c z)
      ]

      reached-Untouched : (w : World) → WorldPlaced old w → Untouched old (reached w)
      reached-Untouched w p = elim (Option-cases w.sys.current) [
        | inl c ↦ rw c p.untouched
        | inr (j, c) ↦ rw c (
            Untouched-trans old w.site.files _ p.untouched
              (fetch-Untouched env creates writes j w.site (p.sys_placed.own_job j c)))
      ]

      module _ (safe : (t : Text) → dir.safe_path t ≡ safe_remote_relative_path api t) where
        deeds-WorldPlaced :
            (ds : List Deed) (w t : World)
            → WorldPlaced old w
            → deeds ds w ≡ some t
            → WorldPlaced old t
        deeds-WorldPlaced [] w t p z = subst (WorldPlaced old) (same_world z) p
        deeds-WorldPlaced (receives c fs ∷ ds) w t p z =
            deeds-WorldPlaced ds (receive c fs w) t
              (record {
                sys_placed = record {
                  waiting_jobs =
                      enqueue-Placed api dir safe v c fs w.sys.entry p.sys_placed.waiting_jobs;
                  own_job = p.sys_placed.own_job;
                };
                untouched = p.untouched;
              })
              z
        deeds-WorldPlaced (works ∷ ds) w t p z =
            let (x, e, rest) = proceeded (work_world env creates writes v w) (deeds ds) t z in
            deeds-WorldPlaced ds x t (work_world-WorldPlaced w x p e) rest

  -- Whatever lists of files come in, however the worker's rounds fall between them, whatever the remote
  -- side answers and whatever the disk does: from a worker with no jobs on, a file is what it was, or
  -- its path is filed in the directory of a batch under a relative path that never leaves that
  -- directory. This holds behind each round, and in the download that the worker is in, also when that
  -- waits, fails or is cut off.
  pub worker_confined :
      (env : Request → Traffic) (creates : Text → Bool) (writes : Text → ℕ → Bool) (v : Bool)
      → ((t : Text) → dir.safe_path t ≡ safe_remote_relative_path api t)
      → (ds : List Deed) (w t : World) → w.sys.entry.jobs ≡ []
      → w.sys.current ≡ none
      → deeds env creates writes v ds w ≡ some t
      → (q : Text)
      → ((t.site.files q ≡ w.site.files q) ⊎ (IsPlaced api dir) q)
        × ((reached env creates writes v t q ≡ w.site.files q) ⊎ (IsPlaced api dir) q)
  worker_confined env creates writes v safe ds w t q c z path =
      let p =
        deeds-WorldPlaced env creates writes v w.site.files safe ds w t
          (record {
            sys_placed = record {
              waiting_jobs = subst (AllPlaced api dir) (sym q) tt;
              own_job = λ j y. absurd (ground (arith, c));
            };
            untouched = λ f. inl refl;
          })
          z in
      (p.untouched path, reached-Untouched env creates writes v w.site.files t p path)
