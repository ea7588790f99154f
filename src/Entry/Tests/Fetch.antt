-- ===== src/Entry/Tests/Fetch.antt =====
-- The theorems on the download over the shared state at concrete inputs.
use qfreerdp.Base.{
  ◌≡◌, ◌⊎◌, ℕ, zero, List, refl, Bool, All, suc, true, false, ◌||◌, [], ◌∷◌, ◌++◌, Option, none,
  some, arith, if◌then◌else◌,
}
use qfreerdp.Base.Bytes.{to_le}
use qfreerdp.Status.{channel_rc_ok, is_error}
use qfreerdp.Entry.Path.{slash, safe_remote_relative_path}
use qfreerdp.Entry.Path.Api.{path_api, cut, join_by}
use qfreerdp.Entry.Batch.{
  DirApi, start, enqueue_remote_file_list, add_files, add_file, add_placed, push_job, note_top,
  work, take_job, start_job, finish_job, publish_remote_batch, start_remote_file_worker, make_batch,
}
use qfreerdp.Entry.Batch.Placed.{IsPlaced}
use qfreerdp.Entry.Fetch.World.{World, work_world}
use qfreerdp.Entry.Fetch.World.Confined.{Deed, receives, works, deeds, reached, worker_confined}
use qfreerdp.Entry.Types.{Text, FileInfo, Bytes, Request, Response}
use qfreerdp.Entry.Pending.{
  open_request, close_request, accept_response, may_return, take_response, size, cleared,
}
use qfreerdp.Entry.Download.{next_remote_stream_id, size_request, download_remote_file}
use qfreerdp.Entry.Fetch.{
  send_remote_file_request, wait_remote_response, fetch_chunks, hears, stops, Traffic, ask, Site,
  fetch,
}
use qfreerdp.Entry.Fetch.Answered.{Answers, responds}
use qfreerdp.Entry.Fetch.Refines.{Ends, fetch_refines}
use qfreerdp.Entry.Fetch.Ending.{returned, any_settles, ask_ends}
use qfreerdp.Entry.Fetch.Limits.{IsSent, IsWire}
use qfreerdp.Entry.Fetch.Over.{is_over, fetch_ends}

-- A remote side with a file of three bytes.
abbrev answer : Request → Bytes
answer r = if r.wants_size then to_le 8 3 else 10 ∷ 20 ∷ 30 ∷ []

abbrev remote : Request → Option Bytes
remote r = some (answer r)

abbrev own : Request → Response
own r = record { stream_id = r.stream_id; is_ok = true; requested_data = remote r }

abbrev late : Request → Response
late r = record (own r) { stream_id = suc r.stream_id }

-- Each request meets its own response before its sending returns, then one to another request.
abbrev busy : Request → Traffic
busy r = record { rc = channel_rc_ok; early = hears (own r) ∷ []; later = hears (late r) ∷ [] }

busy-Answers : (r : Request) → Answers (busy r) r.stream_id (remote r)
busy-Answers r =
    responds [] (hears (late r) ∷ []) (own r) refl refl tt ((λ e. absurd (omega arith)), tt) refl
      refl

abbrev site : Site
site = record { link = record { pending = cleared; stopped = false }; next = 5; files = λ p. none }

fetch_refines_example :
    let (e, next) = download_remote_file remote (λ i. true) true 0 5 in
    let r = fetch busy (λ p. true) (λ p i. true) (97 ∷ []) 0 site in
    Ends (97 ∷ []) site.files e r × (r.1.next ≡ next) × (r.1.link.stopped ≡ false)
fetch_refines_example =
    fetch_refines remote busy (λ p. true) (λ p i. true) busy-Answers (97 ∷ []) 0 site refl

-- Only responses to another request come in.
abbrev deaf : Traffic
deaf = record { rc = channel_rc_ok; early = []; later = hears (late (size_request 5 0)) ∷ [] }

ask_ends_example : returned (ask deaf (size_request 5 0) size site.link).0 ≡ false
ask_ends_example = ask_ends deaf (size_request 5 0) size site.link

-- The size is answered; then the entry is stopped while the first chunk is awaited.
abbrev stopping : Request → Traffic
stopping r = record {
  rc = channel_rc_ok;
  early = [];
  later = if r.wants_size then hears (own r) ∷ [] else stops ∷ [];
}

stopping_settled :
    (r : Request)
    → (is_error (stopping r).rc
        || any_settles r.stream_id ((stopping r).early ++ (stopping r).later))
      ≡ true
stopping_settled r = ground arith

answer-IsWire : (b : Bool) → IsWire (if b then to_le 8 3 else 10 ∷ 20 ∷ 30 ∷ [])
answer-IsWire true = omega arith
answer-IsWire false = omega arith

later-IsSent :
    (b : Bool) (r : Response)
    → IsSent (hears r)
    → All IsSent (if b then hears r ∷ [] else stops ∷ [])
later-IsSent true r s = (s, tt)
later-IsSent false r s = (tt, tt)

stopping-IsSent : (r : Request) → All IsSent (stopping r).early × All IsSent (stopping r).later
stopping-IsSent r = (tt, later-IsSent r.wants_size (own r) (answer-IsWire r.wants_size))

fetch_ends_example : is_over (fetch stopping (λ p. true) (λ p i. true) (97 ∷ []) 0 site).0 ≡ true
fetch_ends_example =
    fetch_ends stopping (λ p. true) (λ p i. true) stopping_settled stopping-IsSent (97 ∷ []) 0 site

-- Directories are texts joined by a slash; the n-th batch has the directory of n letters.
abbrev letters : ℕ → Text
letters zero = []
letters (suc n) = 98 ∷ letters n

abbrev dirs : DirApi
dirs = record {
  safe_path = safe_remote_relative_path path_api;
  file_path = λ r p. r ++ slash ∷ p;
  first_section = λ p. p;
  parent_path = λ p. p;
  batch_root = letters;
  mkpath = λ p. true;
}

-- a/b, and a name that tries to leave the directory.
abbrev listed : List FileInfo
listed =
    record { display_name = 97 ∷ slash ∷ 98 ∷ []; local_path = []; total = 3; is_directory = false }
    ∷ record {
      display_name = 46 ∷ 46 ∷ slash ∷ 99 ∷ [];
      local_path = [];
      total = 3;
      is_directory = false;
    }
    ∷ []

abbrev world : World
world = record { sys = start; site = site }

abbrev some_deeds : List Deed
some_deeds = receives true listed ∷ works ∷ works ∷ receives true listed ∷ works ∷ []

abbrev or_world : Option World → World
or_world none = world
or_world (some t) = t

abbrev ended : World
ended = or_world (deeds path_api dirs busy (λ p. true) (λ p i. true) true some_deeds world)

run_ends : deeds path_api dirs busy (λ p. true) (λ p i. true) true some_deeds world ≡ some ended
unfolding work_world fetch fetch_chunks ask enqueue_remote_file_list add_files add_file add_placed
    push_job note_top work take_job start_job finish_job publish_remote_batch
    start_remote_file_worker safe_remote_relative_path cut join_by next_remote_stream_id
    open_request close_request accept_response may_return take_response send_remote_file_request
    wait_remote_response make_batch
run_ends = refl

worker_confined_example :
    ((ended.site.files (98 ∷ slash ∷ 97 ∷ slash ∷ 98 ∷ []) ≡ none)
      ⊎ IsPlaced path_api dirs (98 ∷ slash ∷ 97 ∷ slash ∷ 98 ∷ []))
    × ((reached path_api dirs busy
            (λ p. true)
            (λ p i. true)
            true
            ended
            (98 ∷ slash ∷ 97 ∷ slash ∷ 98 ∷ [])
          ≡ none)
        ⊎ IsPlaced path_api dirs (98 ∷ slash ∷ 97 ∷ slash ∷ 98 ∷ []))
worker_confined_example =
    worker_confined path_api dirs busy (λ p. true) (λ p i. true) true (λ t. refl) some_deeds world
      ended refl refl run_ends (98 ∷ slash ∷ 97 ∷ slash ∷ 98 ∷ [])
