-- ===== src/Channel/Worker.antt =====
-- `channel_client_thread_proc`: the thread serves the queue in order and leaves at the first failure.
use qfreerdp.Base.{◌≡◌, refl, true, List, [], ◌∷◌, ◌++◌, map, ℕ, none, some, ap, ◌∙◌, if◌then◌else◌}
use qfreerdp.Channel.Defs.{
  payload, quit, Wake, wait_failed, peek_failed, message, waiting, exited, Worker,
  channel_client_thread_proc,
}
use qfreerdp.Status.{Rc, channel_rc_ok, error_internal_error, is_error}

module _ {U : Type 0} (h : U → List ℕ → Rc × U) where
  -- The plugin takes the messages one after the other with no error, from state `u` to state `v`.
  abbrev pub Served : U → List (List ℕ) → U → Type 0
  Served u [] v = u ≡ v
  Served u (b ∷ bs) v = ((h u b).0 ≡ channel_rc_ok) × Served (h u b).1 bs v

  abbrev pub takes : List (List ℕ) → List Wake
  takes = map (λ b. message (payload b))

  -- Messages that the plugin takes are served in order, and the thread goes on behind them.
  pub thread_proc-takes :
      (u v : U) (bs : List (List ℕ)) (ws : List Wake)
      → Served u bs v
      → channel_client_thread_proc h u (takes bs ++ ws) ≡ channel_client_thread_proc h v ws
  unfolding channel_client_thread_proc
  thread_proc-takes u v [] ws s = ap (λ t. channel_client_thread_proc h t ws) s
  thread_proc-takes u v (b ∷ bs) ws s = rw s.0 (thread_proc-takes (h u b).1 v bs ws s.1)

  -- How the thread ends: at WMQ_QUIT, at a message that the plugin refuses, or at a failure of the
  -- queue.
  pub data Stop (u : U) : Wake → Rc → U → Type 0 where
    by_quit : Stop u (message quit) channel_rc_ok u
    by_plugin :
        (b : List ℕ) → is_error (h u b).0 ≡ true → Stop u (message (payload b)) (h u b).0 (h u b).1
    by_wait : Stop u wait_failed error_internal_error u
    by_peek : Stop u peek_failed error_internal_error u

  abbrev pub stopped : U → Rc → Worker U
  stopped u rc = record {
    userdata = u;
    status = exited rc;
    channel_error = if is_error rc then some rc else none;
  }

  stop_lem :
      (u : U) {w : Wake} {rc : Rc} {v : U} (ws : List Wake)
      → Stop u w rc v
      → channel_client_thread_proc h u (w ∷ ws) ≡ stopped v rc
  unfolding channel_client_thread_proc
  stop_lem u ws by_quit = refl
  stop_lem u ws (by_plugin b e) = rw e
  stop_lem u ws by_wait = refl
  stop_lem u ws by_peek = refl

  -- The thread serves the messages that come before the first stop in the order of the queue, and
  -- nothing behind it. It exits with the stop's code: CHANNEL_RC_OK at WMQ_QUIT, which is not
  -- reported, the plugin's error, or ERROR_INTERNAL_ERROR if waiting or peeking fails, which are
  -- reported to the context.
  pub thread_proc_stops :
      (u v v' : U) (bs : List (List ℕ)) (w : Wake) (rc : Rc) (ws : List Wake)
      → Served u bs v
      → Stop v w rc v'
      → channel_client_thread_proc h u (takes bs ++ w ∷ ws) ≡ stopped v' rc
  thread_proc_stops u v v' bs w rc ws s e = thread_proc-takes u v bs (w ∷ ws) s ∙ stop_lem v ws e

  -- A queue of messages that the plugin takes is served to its end, and the thread waits for more.
  pub thread_proc-waits :
      (u v : U) (bs : List (List ℕ))
      → Served u bs v
      → channel_client_thread_proc h u (map message (map payload bs))
        ≡ record { userdata = v; status = waiting; channel_error = none }
  unfolding channel_client_thread_proc
  thread_proc-waits u v [] s = rw s
  thread_proc-waits u v (b ∷ bs) s = rw s.0 (thread_proc-waits (h u b).1 v bs s.1)
