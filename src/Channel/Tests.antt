-- ===== src/Channel/Tests.antt =====
-- The theorems on the channel handler at concrete inputs.
use qfreerdp.Base.{
  ℕ, ◌≡◌, refl, ◌⊎◌, Bool, true, false, List, [], ◌∷◌, ◌++◌, map, none, some, arith,
}
use qfreerdp.Status.{Rc, channel_rc_ok, error_internal_error}
use qfreerdp.Channel.Stream.{Buffer, buffer_api}
use qfreerdp.Channel.Defs.{
  Internals, Pdu, message, waiting, hand_over, post_message, post_all, channel_client_thread_proc,
}
use qfreerdp.Channel.Chunks.{chunk}
use qfreerdp.Channel.Delivery.{post_message_stale}
use qfreerdp.Channel.Modes.{all_posted, modes_agree}
use qfreerdp.Channel.Interleaved.{Move, posts, quits, serves, System, run, calls, start}
use qfreerdp.Channel.Interleaved.Drained.{rounds, begun, interleaved_agree}
use qfreerdp.Channel.Pipe.{
  Chunked, traffic, Pipe, accept_all, drain, Holds, Allocates, pipe_refines,
}
use qfreerdp.Channel.Lifecycle.{
  queue, block, Startup, Shutdown, Handle, handler_free, IsBalanced, released, joins_first,
  channel_client_create_handler, channel_client_quit_handler, create_handler-IsBalanced,
  quit_handler_joins_first,
}

-- A plugin that keeps the messages.
abbrev log : List (List ℕ) → List ℕ → Rc × List (List ℕ)
log u b = (channel_rc_ok, u ++ b ∷ [])

abbrev half : Buffer
half = record { room = 4; bytes = 7 ∷ [] }

abbrev busy : Internals Buffer (List (List ℕ))
busy = record { data_in = some half; userdata = []; queue = []; threads_disabled = false }

post_message_stale_example :
    post_message buffer_api log true (chunk 2 true true (8 ∷ 9 ∷ [])) busy ≡ (
      error_internal_error,
      record busy { data_in = some (record { room = 4; bytes = 7 ∷ 8 ∷ 9 ∷ [] }) },
    )
post_message_stale_example =
    post_message_stale buffer_api log true busy half (8 ∷ 9 ∷ []) refl (omega arith)

abbrev two_pdus : List Pdu
two_pdus = chunk 3 true false (1 ∷ []) ∷ chunk 3 false true (2 ∷ 3 ∷ []) ∷ []

abbrev started : Bool → Internals Buffer (List (List ℕ))
started disabled = record { data_in = none; userdata = []; queue = []; threads_disabled = disabled }

modes_agree_example :
    let (rcs, a) = post_all buffer_api log (all_posted buffer_api log two_pdus) (started true) in
    let (rcs', q) = post_all buffer_api log (all_posted buffer_api log two_pdus) (started false) in
    (rcs' ≡ rcs)
    × (q.data_in ≡ a.data_in)
    × (channel_client_thread_proc log [] (map message q.queue)
        ≡ record { userdata = a.userdata; status = waiting; channel_error = none })
modes_agree_example = modes_agree buffer_api log two_pdus none [] (λ v b. refl)

-- A message in two chunks, which the thread takes between two further messages; the last stays.
abbrev moves : List Move
moves =
    posts true (chunk 3 true false (1 ∷ 2 ∷ []))
    ∷ serves
    ∷ posts true (chunk 3 false true (3 ∷ []))
    ∷ serves
    ∷ posts true (chunk 1 true true (4 ∷ []))
    ∷ quits
    ∷ serves
    ∷ serves
    ∷ posts true (chunk 1 true true (5 ∷ []))
    ∷ serves
    ∷ []

interleaved_agree_example :
    let s : System buffer_api log =
      rounds buffer_api log 4 (run buffer_api log (begun buffer_api log none []) moves) in
    let (rcs, a) = calls buffer_api log moves (start buffer_api log none []) in
    (s.codes ≡ rcs)
    × (s.handler.data_in ≡ a.data_in)
    × (s.thread ≡ channel_client_thread_proc log [] (map message a.queue))
unfolding post_message hand_over
interleaved_agree_example = interleaved_agree buffer_api log moves none [] 4 (omega arith)

abbrev no_thread : Startup
no_thread = record {
  block_ok = true;
  name_given = true;
  name_ok = true;
  threads_disabled = false;
  queue_ok = true;
  thread_ok = false;
}

abbrev running : Handle
running = record { has_name = true; has_queue = true; has_thread = true; has_data_in = false }

abbrev post_fails : Shutdown
post_fails = record { threads_disabled = false; post_ok = false; wait_error = none }

create_handler-IsBalanced_example : IsBalanced queue (channel_client_create_handler no_thread)
create_handler-IsBalanced_example = create_handler-IsBalanced no_thread queue

quit_handler_joins_first_example :
    let (rc, done) = channel_client_quit_handler post_fails (some running) in
    (joins_first done ≡ false)
    × ((false ≡ true)
        ⊎ ((rc ≡ channel_rc_ok) × (released block done ≡ 1) × (released queue done ≡ 1)))
    × (((rc ≡ channel_rc_ok) × (released queue done ≡ released queue (handler_free running)))
        ⊎ ((none ≡ some rc) × (released queue done ≡ 0)))
quit_handler_joins_first_example = quit_handler_joins_first post_fails running queue refl refl refl

-- Two messages, the first in two chunks.
abbrev two_messages : List Chunked
two_messages = (1 ∷ [], (2 ∷ []) ∷ []) ∷ (3 ∷ [], []) ∷ []

abbrev new_pipe : Pipe (List (List ℕ))
new_pipe = record { state = []; backlog = [] }

started-Holds : Holds buffer_api log false (started false) new_pipe
started-Holds = record { mode = refl; between = refl; state = refl; queued = refl }

two_messages-Allocates : Allocates buffer_api log two_messages
two_messages-Allocates =
    ((record { room = 2; bytes = [] }, refl), ((record { room = 1; bytes = [] }, refl), tt))

pipe_refines_example :
    let (rcs, j) = post_all buffer_api log (traffic two_messages) (started false) in
    let (rcs', q) = accept_all log false two_messages new_pipe in
    (rcs ≡ rcs')
    × Holds buffer_api log false j q
    × (channel_client_thread_proc log j.userdata (map message j.queue)
        ≡ drain log [] ((1 ∷ 2 ∷ []) ∷ (3 ∷ []) ∷ []))
pipe_refines_example =
    pipe_refines buffer_api log false two_messages (started false) new_pipe started-Holds
      two_messages-Allocates
