-- ===== src/Entry/Fetch/World.antt =====
-- clipboard-entry.h: `remote_file_worker_loop` with its downloads, on the shared state and the files.
pub mod Drained
pub mod Confined
use qfreerdp.Base.{ℕ, zero, suc, Bool, true, false, Option, none, some}
use qfreerdp.Entry.Types.{Text, Request}
use qfreerdp.Entry.Batch.{Job, Entry, Sys, finish_job, work}
use qfreerdp.Entry.Fetch.{Traffic, Site, Fetched, saved, given_up, fetch}

-- The queue with its batches, and what the downloads work on.
pub record World : Type 0 where
  pub sys : Sys
  pub site : Site

-- `m_remote_stopped` is one flag.
abbrev pub with_flag : Bool → Entry → Entry
with_flag b e = record e { stopped = b }

-- A download that ends is counted, saved or not; `none` is a worker that still waits.
abbrev pub finish_fetched : Bool → Job → Entry → Fetched × Site → Option World
finish_fetched v j e (saved, t) = some (record {
  sys = record { entry = finish_job v j (with_flag t.link.stopped e); current = none };
  site = t;
})
finish_fetched v j e (given_up, t) = some (record {
  sys = record { entry = finish_job v j (with_flag t.link.stopped e); current = none };
  site = t;
})
finish_fetched v j e (_, t) = none

module _ (env : Request → Traffic) (creates : Text → Bool) (writes : Text → ℕ → Bool)
    (v : Bool) where
  -- A round of the worker: it takes a job, or downloads and finishes the one it has.
  unfoldable pub work_world : World → Option World
  unfolding fetch work
  work_world w = elim w.sys.current [
    | none ↦ some (record w { sys = work v w.sys })
    | some j ↦
        finish_fetched v j w.sys.entry (fetch env creates writes j.local_path j.list_index w.site)
  ]

  unfoldable pub rounds_world : ℕ → World → Option World
  unfolding work_world
  rounds_world zero w = some w
  rounds_world (suc n) w = elim (work_world w) [ none ↦ none | some t ↦ rounds_world n t ]
