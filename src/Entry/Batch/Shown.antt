-- ===== src/Entry/Batch/Shown.antt =====
-- A worker that is not stopped shows every batch.
use qfreerdp.Base.{
  else_branch, ℕ, zero, suc, ◌+◌, ◌*◌, ◌-◌, ◌≤◌, ◌<◌, ◌≡◌, refl, sym, subst, ap, ◌∙◌, Bool, true,
  false, ◌&&◌, List, [], ◌∷◌, Option, some, none, arith, length, ◌==◌, if◌then◌else◌,
}
use qfreerdp.Entry.Batch.{
  Job, Entry, publish_remote_batch, finish_job, take_job, start_job, work, Sys, Move, step, run,
  start,
}
use qfreerdp.Entry.Batch.Count.{jobs_of}
use qfreerdp.Entry.Batch.Invariant.{Inv, times, in_flight, has_tops}
use qfreerdp.Entry.Batch.Rounds.{run-Inv, start-Inv}
use qfreerdp.Entry.Batch.Stop.{rounds, finish_job-keeps}

abbrev busy : Option Job → ℕ
busy none = 0
busy (some j) = 1

-- How many rounds the worker needs for its job and for those that wait.
abbrev pub to_do : Sys → ℕ
to_do s = 2 * length s.entry.jobs + busy s.current

-- What a round leaves of the state: the batches with their paths, and that the entry runs on.
abbrev Continues : Entry → Entry → Type 0
Continues e t = (t.stopped ≡ false) × (t.made ≡ e.made) × (t.top_paths ≡ e.top_paths)

finish_job-Continues :
    (v : Bool) (j : Job) (e : Entry) → e.stopped ≡ false → Continues e (finish_job v j e)
unfolding finish_job publish_remote_batch
finish_job-Continues v j e h = ground arith

take_job-Continues :
    (js : List Job) (e : Entry)
    → e.jobs ≡ js
    → e.stopped ≡ false
    → let t = start_job (take_job e) in Continues e t.entry × (to_do t ≤ 2 * length js - 1)
unfolding take_job start_job
take_job-Continues [] e q h = rw (q, take_job) ((h, refl, refl), omega (arith, ap length q))
take_job-Continues (j ∷ js) e q h = rw (q, take_job) ((h, refl, refl), started e.has_context)
  where
    started :
        (c : Bool) → 2 * length js + busy (if c then some j else none) ≤ 2 * length (j ∷ js) - 1
    started true = omega arith
    started false = omega arith

-- A round has less to do, if there is anything.
work-Continues :
    (v : Bool) (cur : Option Job) (e : Entry)
    → e.stopped ≡ false
    → let s : Sys = record { entry = e; current = cur } in
      let t = work v s in Continues e t.entry × (to_do t ≤ to_do s - 1)
unfolding work
work-Continues v (some j) e h =
    (finish_job-Continues v j e h, omega (arith, ap length (finish_job-keeps v j e).0))
work-Continues v none e h =
    let s : Sys = record { entry = e; current = none } in
    let (c, l) = take_job-Continues e.jobs e refl h in
    subst (λ t. Continues e t.entry × (to_do t ≤ to_do s - 1))
      (sym (else_branch e.stopped s (start_job (take_job e)) h)) (c, omega (arith, l))

rounds-Continues :
    (v : Bool) (n : ℕ) (s : Sys)
    → s.entry.stopped ≡ false
    → let t = run v s (rounds n) in Continues s.entry t.entry × (to_do t ≤ to_do s - n)
unfolding run step
rounds-Continues v zero s h = ((h, refl, refl), omega arith)
rounds-Continues v (suc n) s h =
    let (c, l) = work-Continues v s.current s.entry h in
    let (d, m) = rounds-Continues v n (work v s) c.0 in
    ((d.0, d.1 ∙ c.1, d.2 ∙ c.2), omega (arith, l, m))

nothing_left :
    (k : ℕ) (js : List Job) (cur : Option Job)
    → 2 * length js + busy cur ≡ 0
    → jobs_of k js + in_flight k cur ≡ 0
nothing_left k [] none h = refl
nothing_left k [] (some j) h = absurd (omega arith)
nothing_left k (j ∷ js) cur h = absurd (omega arith)

busy_once : (cur : Option Job) → busy cur ≤ 1
busy_once none = omega arith
busy_once (some j) = omega arith

pub Inv-rounds :
    (v : Bool) (s : Sys) (k n : ℕ)
    → Inv v s.current s.entry
    → s.entry.stopped ≡ false
    → k < s.entry.made
    → 2 * length s.entry.jobs + 1 ≤ n
    → times k (run v s (rounds n)).entry.published
      ≡ (if v && has_tops (s.entry.top_paths k) then 1 else 0)
Inv-rounds v s k n inv h made many =
    let t = run v s (rounds n) in
    let (c, l) = rounds-Continues v n s h in
    let i = run-Inv v s (rounds n) inv in
    let done : to_do t ≡ 0 = omega (arith, l, busy_once s.current) in
    let none_left : t.entry.remaining k ≡ 0 =
      i.counted k ∙ nothing_left k t.entry.jobs t.current done in
    i.once k (omega (arith, c.1))
    ∙ ap (λ n. if n == 0 && (v && has_tops (t.entry.top_paths k)) then 1 else 0) none_left
    ∙ ap (λ f. if v && has_tops (f k) then 1 else 0) c.2

-- A batch is shown in the end: if the entry is not stopped, then behind two rounds of the worker for
-- each job that is queued, and one for the job it may have, every batch that was made has been shown
-- exactly once, if there is a view and it has a path to show. What came before may be any interleaving
-- of the channel's enqueueing and the worker's rounds.
pub rounds_show_all :
    (v : Bool) (ms : List Move) (k n : ℕ)
    → (run v start ms).entry.stopped ≡ false
    → k < (run v start ms).entry.made
    → 2 * length (run v start ms).entry.jobs + 1 ≤ n
    → times k (run v (run v start ms) (rounds n)).entry.published
      ≡ (if v && has_tops ((run v start ms).entry.top_paths k) then 1 else 0)
rounds_show_all v ms k n h made many =
    Inv-rounds v (run v start ms) k n (run-Inv v start ms (start-Inv v)) h made many
