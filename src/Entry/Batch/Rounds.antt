-- ===== src/Entry/Batch/Rounds.antt =====
-- The worker's rounds keep what holds of the batches, so every run does.
use qfreerdp.Base.{
  ℕ, ◌≡◌, refl, ap, inl, Bool, true, false, List, [], ◌∷◌, Option, none, some, arith, if◌then◌else◌,
}
use qfreerdp.Entry.Batch.{
  Job, Entry, update, pred_size, finish_job, take_job, start_job, work, Sys, Move, enqueues, works,
  stops, step, run, start,
}
use qfreerdp.Entry.Batch.Count.{jobs_of}
use qfreerdp.Entry.Batch.Invariant.{Inv, publish_if, enqueue-Inv}

module _ (v : Bool) where
  finish_job-Inv : (j : Job) (e : Entry) → Inv v (some j) e → Inv v none (finish_job v j e)
  unfolding finish_job
  finish_job-Inv j e h =
      let k : ℕ = j.batch in
      let left : ℕ = pred_size (e.remaining k) in
      let counted : Entry = record e { remaining = update e.remaining k left } in
      rw (publish_if v k left counted) (record {
        counted = λ i. ground (arith, h.counted i, h.counted k);
        beyond = λ i b.
            (ground (arith, h.beyond i b, h.counted i), ground (arith, h.beyond i b, h.counted i));
        shows = λ i. ground (arith, h.shows i, h.counted i);
        once = λ i b.
            ground (arith, h.counted i, h.counted k, h.once i, h.once k, h.shows i, h.shows k);
        fed = h.fed;
      })

  take_job-Inv :
      (js : List Job) (e : Entry)
      → e.jobs ≡ js
      → Inv v none e
      → let s = start_job (take_job e) in Inv v s.current s.entry
  unfolding take_job start_job
  take_job-Inv [] e q h = rw (q, take_job) h
  take_job-Inv (j ∷ js) e q h =
      let c : e.has_context ≡ true = ground (arith, h.fed) in
      rw (q, take_job)
        (rw c (record {
          counted = λ i. ground (arith, h.counted i, ap (jobs_of i) q);
          beyond = h.beyond;
          shows = h.shows;
          once = h.once;
          fed = ground arith;
        }))

  idle-Inv :
      (b : Bool) (s t : Sys)
      → Inv v s.current s.entry
      → Inv v t.current t.entry
      → let u = if b then s else t in Inv v u.current u.entry
  idle-Inv true s t h k = h
  idle-Inv false s t h k = k

  work-Inv :
      (cur : Option Job) (e : Entry)
      → Inv v cur e
      → let s = work v (record { entry = e; current = cur }) in Inv v s.current s.entry
  unfolding work
  work-Inv none e h =
      let s : Sys = record { entry = e; current = none } in
      idle-Inv e.stopped s (start_job (take_job e)) h (take_job-Inv e.jobs e refl h)
  work-Inv (some j) e h = finish_job-Inv j e h

  step-Inv :
      (s : Sys) (m : Move) → Inv v s.current s.entry → Inv v (step v s m).current (step v s m).entry
  unfolding step
  step-Inv s (enqueues dir c files) h = enqueue-Inv v s.current dir c files s.entry h
  step-Inv s works h = work-Inv s.current s.entry h
  step-Inv s stops h = record {
    counted = h.counted;
    beyond = h.beyond;
    shows = h.shows;
    once = h.once;
    fed = h.fed;
  }

  pub run-Inv :
      (s : Sys) (ms : List Move)
      → Inv v s.current s.entry
      → Inv v (run v s ms).current (run v s ms).entry
  unfolding run
  run-Inv s [] h = h
  run-Inv s (m ∷ ms) h = run-Inv (step v s m) ms (step-Inv s m h)

  pub start-Inv : Inv v none start.entry
  start-Inv = record {
    counted = λ k. refl;
    beyond = λ k h. (refl, refl);
    shows = λ k. inl refl;
    once = λ k h. absurd (omega arith);
    fed = refl;
  }
