-- ===== src/Entry/Tests/Worker.antt =====
-- The theorems on the pending response and the batches at concrete inputs.
use qfreerdp.Base.{
  length, ◌≤◌, ◌*◌, inl, ◌≡◌, refl, true, false, List, [], ◌∷◌, ◌++◌, none, some, arith, ◌+◌, ◌<◌,
}
use qfreerdp.Status.{channel_rc_ok}
use qfreerdp.Entry.Types.{FileInfo, Response}
use qfreerdp.Entry.Path.{slash}
use qfreerdp.Entry.Pending.{
  size, open_request, close_request, accept_response, take_response, may_return,
}
use qfreerdp.Entry.Pending.Run as Waiting
use qfreerdp.Entry.Pending.Mailbox
use qfreerdp.Entry.Batch.Stop.{rounds, stop_ends}
use qfreerdp.Entry.Download.{next_remote_stream_id}
use qfreerdp.Entry.Pending.Exchange as Exchange
use qfreerdp.Entry.Batch.Shown.{rounds_show_all}
use qfreerdp.Entry.Batch.{
  DirApi, Move, enqueues, works, stops, run, start, step, enqueue_remote_file_list, make_batch,
  add_files, add_file, add_placed, push_job, start_remote_file_worker, note_top,
  publish_remote_batch, work, finish_job, take_job, start_job,
}
use qfreerdp.Entry.Batch.Invariant.{times}
use qfreerdp.Entry.Batch.Publish.{run-published}

abbrev info : FileInfo
info = record { display_name = 97 ∷ []; local_path = 47 ∷ 97 ∷ []; total = 3; is_directory = false }

abbrev accepted : Response
accepted = record { stream_id = 7; is_ok = true; requested_data = some (1 ∷ 2 ∷ []) }

abbrev opened : Waiting.Run
opened = record {
  link = open_request 7 size Waiting.start.link;
  phase = Waiting.sending 7;
  heard = [];
}

abbrev sent : Waiting.Run
sent = record opened { link = close_request channel_rc_ok opened.link; phase = Waiting.awaiting 7 }

abbrev heard : Waiting.Run
heard = record sent { link = accept_response accepted sent.link; heard = accepted ∷ [] }

heard-Reach : Waiting.Reach Waiting.start heard
heard-Reach =
    Waiting.next
      (Waiting.next (Waiting.next Waiting.here (Waiting.opens 7 size opened refl refl))
        (Waiting.sends 7 channel_rc_ok sent refl refl refl))
      (Waiting.hears accepted heard refl)

taken : (take_response heard.link).0 ≡ some (1 ∷ 2 ∷ [])
unfolding take_response accept_response close_request open_request
taken = refl

take_response-Answered_example : Waiting.Answered 7 (1 ∷ 2 ∷ []) (accepted ∷ [])
take_response-Answered_example =
    Waiting.take_response-Answered 7 (1 ∷ 2 ∷ []) heard-Reach refl taken

-- Paths joined by a slash, every directory can be made.
abbrev dirs : DirApi
dirs = record {
  safe_path = λ t. t;
  file_path = λ r p. r ++ slash ∷ p;
  first_section = λ t. t;
  parent_path = λ t. [];
  batch_root = λ n. n ∷ [];
  mkpath = λ t. true;
}

abbrev moves : List Move
moves = enqueues dirs true (info ∷ []) ∷ works ∷ works ∷ []

one_made : 0 < (run true start moves).entry.made
unfolding run step enqueue_remote_file_list make_batch add_files add_file add_placed push_job
    start_remote_file_worker note_top publish_remote_batch work finish_job take_job start_job
one_made = omega arith

run-published_example : times 0 (run true start moves).entry.published ≡ 1
unfolding run step enqueue_remote_file_list make_batch add_files add_file add_placed push_job
    start_remote_file_worker note_top publish_remote_batch work finish_job take_job start_job
run-published_example = run-published true moves 0 one_made

-- A request that is sent, a response to another one, its own response, and the wait.
abbrev protocol : List Mailbox.Op
protocol =
    Mailbox.opens 7 size
    ∷ Mailbox.sends channel_rc_ok
    ∷ Mailbox.hears (record accepted { stream_id = 6 })
    ∷ Mailbox.waits 7
    ∷ Mailbox.hears accepted
    ∷ Mailbox.waits 7
    ∷ []

calls_refines_example :
    Mailbox.calls protocol Waiting.start.link
    ≡ Mailbox.done
      ∷ Mailbox.done
      ∷ Mailbox.done
      ∷ Mailbox.blocked
      ∷ Mailbox.done
      ∷ Mailbox.gives (some (1 ∷ 2 ∷ []))
      ∷ []
calls_refines_example =
    Mailbox.calls_refines protocol Waiting.start.link (false, Mailbox.closed)
      (refl, (refl, refl, inl refl))

-- The worker has taken the job when the entry is stopped.
stop_ends_example :
    let s = run true start (enqueues dirs true (info ∷ info ∷ []) ∷ works ∷ []) in
    let last = run true (step true s stops) (rounds 1) in
    (last.current ≡ none)
    × (last.entry.jobs ≡ s.entry.jobs)
    × (run true (step true s stops) (rounds 4) ≡ last)
stop_ends_example =
    stop_ends true (run true start (enqueues dirs true (info ∷ info ∷ []) ∷ works ∷ [])) 3

-- Two jobs wait.
two_waiting : (run true start (enqueues dirs true (info ∷ info ∷ []) ∷ [])).entry.stopped ≡ false
unfolding run step enqueue_remote_file_list make_batch add_files add_file add_placed push_job
    start_remote_file_worker note_top publish_remote_batch
two_waiting = refl

two_made : 0 < (run true start (enqueues dirs true (info ∷ info ∷ []) ∷ [])).entry.made
unfolding run step enqueue_remote_file_list make_batch add_files add_file add_placed push_job
    start_remote_file_worker note_top publish_remote_batch
two_made = omega arith

two_enough :
    2 * length (run true start (enqueues dirs true (info ∷ info ∷ []) ∷ [])).entry.jobs + 1 ≤ 5
unfolding run step enqueue_remote_file_list make_batch add_files add_file add_placed push_job
    start_remote_file_worker note_top publish_remote_batch
two_enough = omega arith

rounds_show_all_example :
    let s = run true start (enqueues dirs true (info ∷ info ∷ []) ∷ []) in
    times 0 (run true s (rounds 5)).entry.published ≡ 1
unfolding run step enqueue_remote_file_list make_batch add_files add_file add_placed push_job
    start_remote_file_worker note_top publish_remote_batch work finish_job take_job start_job
rounds_show_all_example =
    rounds_show_all true (enqueues dirs true (info ∷ info ∷ []) ∷ []) 0 5 two_waiting two_made
      two_enough

-- The third request of a client, whose stream id is 3, and a response to the first one.
abbrev first_response : Response
first_response = record { stream_id = 1; is_ok = true; requested_data = some (9 ∷ []) }

abbrev third_response : Response
third_response = record { stream_id = 3; is_ok = true; requested_data = some (1 ∷ 2 ∷ []) }

first-Late : Exchange.Late 1 2 first_response
unfolding next_remote_stream_id
first-Late = record { number = 0; before = omega arith; near = omega arith; its = refl }

third-own : third_response.stream_id ≡ Exchange.id_at 1 2
unfolding next_remote_stream_id
third-own = refl

own_answer_taken_example :
    let before =
      Exchange.hear_all
        (first_response ∷ [])
        (Exchange.asked (Exchange.id_at 1 2) size Waiting.start.link) in
    let after = Exchange.hear_all (first_response ∷ []) (accept_response third_response before) in
    (may_return (Exchange.id_at 1 2) before ≡ false)
    × (may_return (Exchange.id_at 1 2) after ≡ true)
    × ((take_response after).0 ≡ some (1 ∷ 2 ∷ []))
own_answer_taken_example =
    Exchange.own_answer_taken 1 2 size Waiting.start.link (first_response ∷ [])
      (first_response ∷ []) third_response (omega arith) refl (first-Late, tt) (first-Late, tt)
      third-own
