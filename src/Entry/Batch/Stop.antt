-- ===== src/Entry/Batch/Stop.antt =====
-- How the worker ends when the entry is destroyed.
use qfreerdp.Base.{
  ℕ, zero, suc, ◌≡◌, refl, ap, ◌∙◌, Bool, true, List, [], ◌∷◌, Option, some, none, arith,
}
use qfreerdp.Entry.Batch.{
  Job, Entry, publish_remote_batch, finish_job, work, Sys, Move, works, stops, set_stopped, step,
  run,
}

-- So many rounds of the worker.
abbrev pub rounds : ℕ → List Move
rounds zero = []
rounds (suc n) = works ∷ rounds n

pub finish_job-keeps :
    (v : Bool) (j : Job) (e : Entry)
    → ((finish_job v j e).jobs ≡ e.jobs) × ((finish_job v j e).stopped ≡ e.stopped)
unfolding finish_job publish_remote_batch
finish_job-keeps v j e = ground arith

-- One more round behind a stop.
work_last :
    (v : Bool) (cur : Option Job) (e : Entry)
    → e.stopped ≡ true
    → let t = work v (record { entry = e; current = cur }) in
      (t.current ≡ none) × (t.entry.jobs ≡ e.jobs) × (t.entry.stopped ≡ true)
unfolding work
work_last v none e h = ground arith
work_last v (some j) e h = let k = finish_job-keeps v j e in (refl, k.0, k.1 ∙ h)

work_idle : (v : Bool) (s : Sys) → s.current ≡ none → s.entry.stopped ≡ true → work v s ≡ s
unfolding work
work_idle v s c h = ground arith

run_idle :
    (v : Bool) (n : ℕ) (s : Sys)
    → s.current ≡ none
    → s.entry.stopped ≡ true
    → run v s (rounds n) ≡ s
unfolding run step
run_idle v zero s c h = refl
run_idle v (suc n) s c h = ap (λ t. run v t (rounds n)) (work_idle v s c h) ∙ run_idle v n s c h

-- Once the entry is stopped, whatever is queued, the worker finishes the job it has and nothing more:
-- behind one round it has no job, no queued job was taken, and any further rounds change nothing.
pub stop_ends :
    (v : Bool) (s : Sys) (n : ℕ)
    → let last = run v (step v s stops) (rounds 1) in
      (last.current ≡ none)
      × (last.entry.jobs ≡ s.entry.jobs)
      × (run v (step v s stops) (rounds (suc n)) ≡ last)
unfolding run step
stop_ends v s n =
    let (c, j, t) = work_last v s.current (set_stopped s.entry) refl in
    (c, j, run_idle v n (work v (step v s stops)) c t)
