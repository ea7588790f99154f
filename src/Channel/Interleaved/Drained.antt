-- ===== src/Channel/Interleaved/Drained.antt =====
-- The schedule of the two threads does not matter.
use qfreerdp.Base.{
  ℕ, zero, suc, ◌≤◌, ◌+◌, ◌≡◌, refl, sym, ap, ◌∙◌, subst, List, [], ◌∷◌, ◌++◌, Option, none, ◌⊎◌,
  inl, inr, arith, map, length, length-append, append-nil,
}
use qfreerdp.Channel.Stream.{StreamApi}
use qfreerdp.Channel.Defs.{
  Internals, Message, message, Wake, WorkerStatus, waiting, exited, Worker,
  channel_client_thread_proc,
}
use qfreerdp.Channel.Interleaved.{Move, goes_on, System, take_first, serve, run, calls, start}
use qfreerdp.Channel.Interleaved.Agree.{
  thread_proc-append, Agree, serve_codes, serves-Agree, run-Agree,
}
use qfreerdp.Status.{Rc}

module _ (api : StreamApi) {U : Type 0} (h : U → List ℕ → Rc × U) where
  open api use {Stream}

  -- Rounds of the thread, with no further call.
  abbrev pub rounds : ℕ → System api h → System api h
  rounds zero s = s
  rounds (suc n) s = rounds n (serve api h s)

  rounds-Agree :
      (u : U) (n : ℕ) (a : Internals Stream U) (s : System api h)
      → Agree api h u a s
      → Agree api h u a (rounds n s)
  rounds-Agree u zero a s g = g
  rounds-Agree u (suc n) a s g = rounds-Agree u n a (serve api h s) (serves-Agree api h u a s g)

  rounds-codes : (n : ℕ) (s : System api h) → (rounds n s).codes ≡ s.codes
  rounds-codes zero s = refl
  rounds-codes (suc n) s = rounds-codes n (serve api h s) ∙ serve_codes api h s

  -- The thread has left its loop, or there is nothing more to serve.
  abbrev IsDone : System api h → Type 0
  IsDone s = ((rc : Rc) × (s.thread.status ≡ exited rc)) ⊎ (s.handler.queue ≡ [])

  rounds_left : (n : ℕ) (rc : Rc) (s : System api h) → s.thread.status ≡ exited rc → rounds n s ≡ s
  rounds_left zero rc s e = refl
  rounds_left (suc n) rc s e =
      ap (rounds n) (ap (λ st. take_first api h s st s.handler.queue) e) ∙ rounds_left n rc s e

  rounds_by :
      (n : ℕ) (s : System api h) (st : WorkerStatus) (q : List Message)
      → s.thread.status ≡ st
      → s.handler.queue ≡ q
      → length q ≤ n
      → IsDone (rounds n s)
  rounds_by n s (exited rc) q e f l = subst IsDone (sym (rounds_left n rc s e)) (inl (rc, e))
  rounds_by zero s waiting [] e f l = inr f
  rounds_by zero s waiting (m ∷ q) e f l = absurd (omega arith)
  rounds_by (suc n) s waiting [] e f l =
      subst (λ t. IsDone (rounds n t)) (sym (λ k. take_first api h s (e k) (f k)))
        (rounds_by n s waiting [] e f (omega arith))
  rounds_by (suc n) s waiting (m ∷ q) e f l =
      let t : System api h = record s {
        handler = record s.handler { queue = q };
        thread = channel_client_thread_proc h s.thread.userdata (message m ∷ []);
      } in
      subst (λ t. IsDone (rounds n t)) (sym (λ k. take_first api h s (e k) (f k)))
        (rounds_by n t t.thread.status q refl refl (omega arith))

  left_goes_on :
      (w : Worker U) (ws : List Wake) (rc : Rc) → w.status ≡ exited rc → goes_on h w ws ≡ w
  left_goes_on w ws rc e =
      ap (λ st. elim st [ waiting ↦ channel_client_thread_proc h w.userdata ws | exited x ↦ w ]) e

  -- A thread that has got all that it will take.
  done_thread :
      (u : U) (a : Internals Stream U) (s : System api h)
      → Agree api h u a s
      → IsDone s
      → s.thread ≡ channel_client_thread_proc h u (map message a.queue)
  done_thread u a s g (inl (rc, e)) =
      let ws = map message s.handler.queue in
      sym (
        ap (λ q. channel_client_thread_proc h u (map message q)) g.in_queue
        ∙ thread_proc-append h u g.served s.handler.queue
        ∙ ap (λ w. goes_on h w ws) (sym g.worked)
        ∙ left_goes_on s.thread ws rc e)
  done_thread u a s g (inr e) =
      g.worked
      ∙ ap (λ q. channel_client_thread_proc h u (map message q))
          (sym (g.in_queue ∙ ap (λ q. g.served ++ q) e ∙ append-nil g.served))

  abbrev pub begun : Option Stream → U → System api h
  begun d u = record {
    handler = start api h d u;
    thread = record { userdata = u; status = waiting; channel_error = none };
    codes = [];
  }

  begun-Agree : (d : Option Stream) (u : U) → Agree api h u (start api h d u) (begun d u)
  unfolding channel_client_thread_proc
  begun-Agree d u = record {
    served = [];
    stream = refl;
    alone = refl;
    queued = refl;
    in_queue = refl;
    worked = refl;
  }

  -- Take a handler with a thread, and let calls of `channel_client_post_message`, the posting of
  -- WMQ_QUIT and rounds of the thread come in any order, and then as many rounds as the calls put
  -- messages into the queue. The calls return what they return when the thread runs only after all of
  -- them, and leave the same unfinished message; and the thread comes to where it would be had it been
  -- given all that the calls put into the queue at once: its plugin in the same state, waiting, or out
  -- of its loop with the same error reported. So the schedule of the two threads does not matter.
  pub interleaved_agree :
      (ms : List Move) (d : Option Stream) (u : U) (n : ℕ)
      → length (calls api h ms (start api h d u)).1.queue ≤ n
      → let s : System api h = rounds n (run api h (begun d u) ms) in
        let (rcs, a) = calls api h ms (start api h d u) in
        (s.codes ≡ rcs)
        × (s.handler.data_in ≡ a.data_in)
        × (s.thread ≡ channel_client_thread_proc h u (map message a.queue))
  interleaved_agree ms d u n l =
      let (codes, g) = run-Agree api h u ms (start api h d u) (begun d u) (begun-Agree d u) in
      let s : System api h = run api h (begun d u) ms in
      let a : Internals Stream U = (calls api h ms (start api h d u)).1 in
      let z : length a.queue ≡ length g.served + length s.handler.queue =
        ap length g.in_queue ∙ length-append g.served s.handler.queue in
      let g' = rounds-Agree u n a s g in
      (
        rounds-codes n s ∙ codes,
        g'.stream,
        done_thread u a (rounds n s) g'
            (rounds_by n s s.thread.status s.handler.queue refl refl (omega (arith, z))),
      )
