-- ===== src/Entry/Fetch/World/Drained.antt =====
-- The worker empties its queue into the files.
use qfreerdp.Base.{
  ℕ, suc, ◌≡◌, refl, sym, ap, ◌∙◌, subst, Bool, true, false, List, [], ◌∷◌, map, All, Option, none,
  some, arith, if◌then◌else◌, else_branch, then_branch,
}
use qfreerdp.Entry.Types.{Text, Bytes, Request}
use qfreerdp.Entry.Batch.{
  Job, Entry, same_text, Sys, publish_remote_batch, finish_job, take_job, start_job, work, step,
  run,
}
use qfreerdp.Entry.Batch.Stop.{rounds, finish_job-keeps}
use qfreerdp.Entry.Download.{finished, download_remote_file}
use qfreerdp.Entry.Fetch.{Traffic, Files, put, Site, fetch}
use qfreerdp.Entry.Fetch.Answered.{Answers}
use qfreerdp.Entry.Fetch.Refines.{Ends, fetch_refines}
use qfreerdp.Entry.Fetch.World.{World, with_flag, finish_fetched, work_world, rounds_world}

-- The files when each of the jobs has put its content at its path, one after the other.
abbrev pub overlay : List (Job × Bytes) → Files → Files
overlay [] files = files
overlay ((j, c) ∷ ds) files = overlay ds (put j.local_path (some c) files)

-- Two rounds for each job, and one that finds no more.
abbrev pub rounds_for : List (Job × Bytes) → ℕ
rounds_for [] = 1
rounds_for (d ∷ ds) = suc (suc (rounds_for ds))

work_takes :
    (v : Bool) (j : Job) (js : List Job) (e : Entry)
    → e.jobs ≡ j ∷ js
    → e.stopped ≡ false
    → e.has_context ≡ true
    → work v (record { entry = e; current = none })
      ≡ record { entry = record e { jobs = js }; current = some j }
unfolding work take_job start_job
work_takes v j js e q s c =
    else_branch e.stopped _ (start_job (take_job e)) s
    ∙ rw (q, take_job)
        (ap (λ x. record { entry = record e { jobs = js }; current = x })
          (then_branch e.has_context (some j) none c))

work_finishes :
    (v : Bool) (j : Job) (e : Entry)
    → work v (record { entry = e; current = some j })
      ≡ record { entry = finish_job v j e; current = none }
unfolding work
work_finishes v j e = refl

finish_job-context :
    (v : Bool) (j : Job) (e : Entry) → (finish_job v j e).has_context ≡ e.has_context
unfolding finish_job publish_remote_batch
finish_job-context v j e = ground arith

run_twice :
    (v : Bool) (s : Sys) (n : ℕ)
    → run v s (rounds (suc (suc n))) ≡ run v (work v (work v s)) (rounds n)
unfolding run step
run_twice v s n = refl

overlay-same :
    (ds : List (Job × Bytes)) (f g : Files)
    → ((q : Text) → f q ≡ g q)
    → (q : Text) → overlay ds f q ≡ overlay ds g q
overlay-same [] f g h q = h q
overlay-same ((j, c) ∷ ds) f g h q =
    overlay-same ds (put j.local_path (some c) f) (put j.local_path (some c) g)
      (λ p. ap (λ x. if same_text j.local_path p then some c else x) (h p)) q

module _ (remote : Request → Option Bytes) (env : Request → Traffic) (creates : Text → Bool)
    (writes : Text → ℕ → Bool) (v : Bool)
    (answers : (r : Request) → Answers (env r) r.stream_id (remote r)) where
  -- The answers to a job's requests bring a content that can be written.
  abbrev pub Brings : Job × Bytes → Type 0
  Brings (j, c) =
      (next : ℕ)
      → (download_remote_file remote (writes j.local_path) (creates j.local_path) j.list_index
          next).0
        ≡ finished c

  step_world :
      (n : ℕ) (w t : World)
      → work_world env creates writes v w ≡ some t
      → rounds_world env creates writes v (suc n) w ≡ rounds_world env creates writes v n t
  unfolding rounds_world
  step_world n w t e = rw (e, rounds_world)

  takes_world :
      (e : Entry) (t : Sys) (site : Site)
      → work v (record { entry = e; current = none }) ≡ t
      → work_world env creates writes v
          (record { sys = record { entry = e; current = none }; site = site })
        ≡ some (record { sys = t; site = site })
  unfolding work_world
  takes_world e t site h = ap (λ x. some (record { sys = x; site = site })) h

  fetched_world :
      (j : Job) (c : Bytes) (e : Entry) (site : Site)
      → site.link.stopped ≡ false
      → e.stopped ≡ false
      → Brings (j, c)
      → (t : Site) × (work_world env creates writes v
            (record { sys = record { entry = e; current = some j }; site = site })
          ≡ some (record { sys = record { entry = finish_job v j e; current = none }; site = t }))
        × (t.link.stopped ≡ false)
        × ((q : Text) → t.files q ≡ put j.local_path (some c) site.files q)
  unfolding work_world
  fetched_world j c e site h s b =
      let r = fetch env creates writes j.local_path j.list_index site in
      let (ends, _, go) =
        fetch_refines remote env creates writes answers j.local_path j.list_index site h in
      let (done, files) = subst (λ x. Ends j.local_path site.files x r) (b site.next) ends in
      (
        r.1,
        ap (λ x. finish_fetched v j e (x, r.1)) done
            ∙ ap
                (λ b. some (record {
                  sys = record { entry = finish_job v j (with_flag b e); current = none };
                  site = r.1;
                }))
                (go ∙ sym s),
        go,
        files,
      )

  -- What a queue of such jobs comes to.
  pub rounds_world-overlay :
      (ds : List (Job × Bytes)) (e : Entry) (site : Site)
      → e.jobs ≡ map (λ d. d.0) ds
      → e.stopped ≡ false
      → e.has_context ≡ true
      → site.link.stopped ≡ false
      → All Brings ds
      → let s : Sys = record { entry = e; current = none } in
        (t : World) × (rounds_world env creates writes v
            (rounds_for ds)
            (record { sys = s; site = site })
          ≡ some t)
        × (t.sys ≡ run v s (rounds (rounds_for ds)))
        × ((q : Text) → t.site.files q ≡ overlay ds site.files q)
  unfolding rounds_world run step
  rounds_world-overlay [] e site q h c l b = (
    record { sys = work v (record { entry = e; current = none }); site = site },
    step_world 0 (record { sys = record { entry = e; current = none }; site = site }) _
        (takes_world e _ site refl),
    refl,
    λ q. refl,
  )
  rounds_world-overlay ((j, c) ∷ ds) e site q h k l b =
      let js : List Job = map (λ d. d.0) ds in
      let taken : Entry = record e { jobs = js } in
      let takes = work_takes v j js e q h k in
      let (t, fetched, go, files) = fetched_world j c taken site l h b.0 in
      let kept = finish_job-keeps v j taken in
      let after : Entry = finish_job v j taken in
      let (u, all, same, put_all) =
        rounds_world-overlay ds after t kept.0 (kept.1 ∙ h) (finish_job-context v j taken ∙ k) go
          b.1 in
      (
        u,
        step_world (suc (rounds_for ds))
              (record { sys = record { entry = e; current = none }; site = site }) _
              (takes_world e _ site takes)
            ∙ step_world (rounds_for ds)
                (record { sys = record { entry = taken; current = some j }; site = site })
                (record { sys = record { entry = after; current = none }; site = t }) fetched
            ∙ all,
        same
            ∙ ap (λ x. run v x (rounds (rounds_for ds)))
                (sym (ap (work v) takes ∙ work_finishes v j taken))
            ∙ sym (run_twice v (record { entry = e; current = none }) (rounds_for ds)),
        λ p. put_all p ∙ overlay-same ds t.files (put j.local_path (some c) site.files) files p,
      )
