-- ===== src/Channel/Interleaved.antt =====
-- qf_channel_client_handler.c: the thread of the channel, which posts, and the thread of the handler,
-- which serves, in any order.
pub mod Agree
pub mod Drained
use qfreerdp.Base.{ℕ, Bool, false, List, [], ◌∷◌, ◌++◌, Option, arith}
use qfreerdp.Channel.Stream.{StreamApi}
use qfreerdp.Channel.Defs.{
  Internals, Pdu, Message, quit, post_message, message, Wake, WorkerStatus, waiting, exited, Worker,
  channel_client_thread_proc,
}
use qfreerdp.Status.{Rc}

-- A call of `channel_client_post_message`, the posting of WMQ_QUIT, and a round of the thread.
pub data Move : Type 0 where
  posts : Bool → Pdu → Move
  quits : Move
  serves : Move

-- What the thread makes of the next wakes, if it has not left its loop.
abbrev pub goes_on : {U : Type 0} → (U → List ℕ → Rc × U) → Worker U → List Wake → Worker U
goes_on h w ws = elim w.status [
  | waiting ↦ channel_client_thread_proc h w.userdata ws
  | exited rc ↦ w
]

module _ (api : StreamApi) {U : Type 0} (h : U → List ℕ → Rc × U) where
  open api use {Stream}

  -- The handler and its thread, and the codes that the calls have returned.
  pub record System : Type 0 where
    pub handler : Internals Stream U
    pub thread : Worker U
    pub codes : List Rc

  -- A round of the thread takes the first message of the queue, and waits if there is none.
  abbrev pub take_first : System → WorkerStatus → List Message → System
  take_first s (exited rc) q = s
  take_first s waiting [] = s
  take_first s waiting (m ∷ ms) = record s {
    handler = record s.handler { queue = ms };
    thread = channel_client_thread_proc h s.thread.userdata (message m ∷ []);
  }

  abbrev pub serve : System → System
  serve s = take_first s s.thread.status s.handler.queue

  abbrev pub put_quit : Internals Stream U → Internals Stream U
  put_quit i = record i { queue = i.queue ++ quit ∷ [] }

  abbrev pub step : System → Move → System
  step s (posts ok p) =
      let (rc, i) = post_message api h ok p s.handler in
      record s { handler = i; codes = s.codes ++ rc ∷ [] }
  step s quits = record s { handler = put_quit s.handler }
  step s serves = serve s

  abbrev pub run : System → List Move → System
  run s [] = s
  run s (m ∷ ms) = run (step s m) ms

  -- The calls alone, with nobody to serve the queue.
  abbrev pub calls : List Move → Internals Stream U → List Rc × Internals Stream U
  calls [] i = ([], i)
  calls (posts ok p ∷ ms) i =
      let (rc, j) = post_message api h ok p i in let (rcs, k) = calls ms j in (rc ∷ rcs, k)
  calls (quits ∷ ms) i = calls ms (put_quit i)
  calls (serves ∷ ms) i = calls ms i

  abbrev pub start : Option Stream → U → Internals Stream U
  start d u = record { data_in = d; userdata = u; queue = []; threads_disabled = false }
