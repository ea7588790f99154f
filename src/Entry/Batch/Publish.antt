-- ===== src/Entry/Batch/Publish.antt =====
-- Each batch is shown to the user once, when its last job is finished.
use qfreerdp.Base.{
  ℕ, ◌+◌, ◌<◌, ◌≡◌, ap, ◌∙◌, ◌⊎◌, Bool, true, ◌&&◌, List, [], arith, ◌==◌, if◌then◌else◌,
}
use qfreerdp.Entry.Batch.{Move, run, start}
use qfreerdp.Entry.Batch.Count.{jobs_of}
use qfreerdp.Entry.Batch.Invariant.{times, in_flight, has_tops}
use qfreerdp.Entry.Batch.Rounds.{run-Inv, start-Inv}

-- However the channel's enqueueing and the worker's rounds interleave, a batch that was made is shown
-- to the user exactly once if no job of it is queued or being downloaded, there is a view, and it has
-- a path to show; otherwise it has not been shown. So a batch is shown neither early nor twice.
pub run-published :
    (v : Bool) (ms : List Move) (k : ℕ)
    → k < (run v start ms).entry.made
    → let s = run v start ms in
      times k s.entry.published ≡ (
        if jobs_of k s.entry.jobs + in_flight k s.current == 0
          && (v && has_tops (s.entry.top_paths k))
        then 1
        else 0)
run-published v ms k h =
    let i = run-Inv v start ms (start-Inv v) in
    i.once k h
    ∙ ap (λ n. if n == 0 && (v && has_tops ((run v start ms).entry.top_paths k)) then 1 else 0)
        (i.counted k)

-- The counter of a batch is always the number of its jobs that are queued or being downloaded, so it
-- never falls below zero; and a job that is taken always finds the context that its request needs.
pub run-counted :
    (v : Bool) (ms : List Move) (k : ℕ)
    → let s = run v start ms in
      (s.entry.remaining k ≡ jobs_of k s.entry.jobs + in_flight k s.current)
      × ((s.entry.jobs ≡ []) ⊎ (s.entry.has_context ≡ true))
run-counted v ms k =
    let i = run-Inv v start ms (start-Inv v) in (i.counted k, ground (arith, i.fed))
