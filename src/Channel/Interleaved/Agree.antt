-- ===== src/Channel/Interleaved/Agree.antt =====
-- Whatever the order of posting and serving, the queue between them loses, doubles and swaps nothing.
use qfreerdp.Base.{
  ℕ, ◌≡◌, refl, sym, ap, ◌∙◌, Bool, true, false, Bool-cases, List, [], ◌∷◌, ◌++◌, inl, inr, none,
  map, append_assoc, append-nil, else_branch, if◌then◌else◌,
}
use qfreerdp.Channel.Stream.{StreamApi}
use qfreerdp.Channel.Defs.{
  Internals, Pdu, Message, payload, quit, foreign, hand_over, post_message, message, Wake,
  WorkerStatus, waiting, exited, Worker, channel_client_thread_proc,
}
use qfreerdp.Channel.Modes.{verdict, keeps, gives, at_stream}
use qfreerdp.Status.{Rc, is_error, channel_rc_ok, error_internal_error}
use qfreerdp.Channel.Interleaved.{
  Move, posts, quits, serves, goes_on, System, take_first, serve, put_quit, step, run, calls,
}

resumes :
    {U : Type 0}
    → (h : U → List ℕ → Rc × U) (w : Worker U) (ws : List Wake) → w.status ≡ waiting
    → goes_on h w ws ≡ channel_client_thread_proc h w.userdata ws
resumes h w ws e = rw e refl

pub thread_proc-append :
    {U : Type 0}
    → (h : U → List ℕ → Rc × U) (u : U) (xs ys : List Message)
    → channel_client_thread_proc h u (map message (xs ++ ys))
      ≡ goes_on h (channel_client_thread_proc h u (map message xs)) (map message ys)
unfolding channel_client_thread_proc
thread_proc-append h u [] ys = refl
thread_proc-append h u (quit ∷ xs) ys = refl
thread_proc-append h u (foreign id ∷ xs) ys = thread_proc-append h u xs ys
thread_proc-append h u (payload b ∷ xs) ys = elim (Bool-cases (is_error (h u b).0)) [
  | inl e ↦ rw e refl
  | inr e ↦ rw e (thread_proc-append h (h u b).1 xs ys)
]

module _ (api : StreamApi) {U : Type 0} (h : U → List ℕ → Rc × U) where
  open api use {Stream}

  -- The system `s` after some moves, and the handler `a` after the same calls with nobody to serve:
  -- they differ in what the thread has taken from the queue.
  pub record Agree (u : U) (a : Internals Stream U) (s : System api h) : Type 0 where
    pub served : List Message
    pub stream : s.handler.data_in ≡ a.data_in
    pub alone : a.threads_disabled ≡ false
    pub queued : s.handler.threads_disabled ≡ false
    pub in_queue : a.queue ≡ served ++ s.handler.queue
    pub worked : s.thread ≡ channel_client_thread_proc h u (map message served)

  hand_over_queued :
      (ok : Bool) (b : List ℕ) (i : Internals Stream U)
      → i.threads_disabled ≡ false
      → hand_over api h ok b i ≡ (
          if ok
          then (channel_rc_ok, record i { queue = i.queue ++ payload b ∷ [] })
          else (error_internal_error, i))
  unfolding hand_over
  hand_over_queued ok b i e = else_branch i.threads_disabled _ _ e

  abbrev Same :
      (u : U) (ra : Rc × Internals Stream U) (s : System api h) (rs : Rc × Internals Stream U)
      → Type 0
  Same u ra s rs =
      (rs.0 ≡ ra.0) × Agree u ra.1 (record s { handler = rs.1; codes = s.codes ++ rs.0 ∷ [] })

  hand_over-Agree :
      (u : U) (ok : Bool) (b : List ℕ) (a : Internals Stream U) (s : System api h)
      → Agree u a s
      → Same u
          (hand_over api h ok b (record a { data_in = none }))
          s
          (hand_over api h ok b (record s.handler { data_in = none }))
  hand_over-Agree u true b a s g =
      rw
        (
          hand_over_queued true b (record a { data_in = none }) g.alone,
          hand_over_queued true b (record s.handler { data_in = none }) g.queued,
        )
        (
          refl,
          record {
            served = g.served;
            stream = refl;
            alone = g.alone;
            queued = g.queued;
            in_queue =
                ap (λ m. m ++ payload b ∷ []) g.in_queue
                ∙ append_assoc g.served s.handler.queue (payload b ∷ []);
            worked = g.worked;
          },
        )
  hand_over-Agree u false b a s g =
      rw
        (
          hand_over_queued false b (record a { data_in = none }) g.alone,
          hand_over_queued false b (record s.handler { data_in = none }) g.queued,
        )
        (
          refl,
          record {
            served = g.served;
            stream = refl;
            alone = g.alone;
            queued = g.queued;
            in_queue = g.in_queue;
            worked = g.worked;
          },
        )

  posts-Agree :
      (u : U) (ok : Bool) (p : Pdu) (a : Internals Stream U) (s : System api h)
      → Agree u a s
      → Same u (post_message api h ok p a) s (post_message api h ok p s.handler)
  posts-Agree u ok p a s g =
      let moved = ap (post_message api h ok p) (at_stream api h a.data_in s.handler g.stream) in
      elim (verdict api h ok p a.data_in) [
        | keeps rc d e ↦
            rw (e a, moved ∙ e s.handler)
              (
                refl,
                record {
                  served = g.served;
                  stream = refl;
                  alone = g.alone;
                  queued = g.queued;
                  in_queue = g.in_queue;
                  worked = g.worked;
                },
              )
        | gives b e ↦ rw (e a, moved ∙ e s.handler) (hand_over-Agree u ok b a s g)
      ]

  quits-Agree :
      (u : U) (a : Internals Stream U) (s : System api h)
      → Agree u a s
      → Agree u (put_quit api h a) (step api h s quits)
  quits-Agree u a s g = record {
    served = g.served;
    stream = g.stream;
    alone = g.alone;
    queued = g.queued;
    in_queue =
        ap (λ m. m ++ quit ∷ []) g.in_queue ∙ append_assoc g.served s.handler.queue (quit ∷ []);
    worked = g.worked;
  }

  -- What a round does: nothing, or it serves the first message of the queue.
  pub data Round (s : System api h) : Type 0 where
    idle : serve api h s ≡ s → Round s
    takes :
        (m : Message) (ms : List Message)
        → s.handler.queue ≡ m ∷ ms
        → s.thread.status ≡ waiting
        → serve api h s ≡ record s {
          handler = record s.handler { queue = ms };
          thread = channel_client_thread_proc h s.thread.userdata (message m ∷ []);
        }
        → Round s

  round_by :
      (s : System api h) (st : WorkerStatus) (q : List Message)
      → s.thread.status ≡ st
      → s.handler.queue ≡ q
      → Round s
  round_by s (exited rc) q e f = idle (λ k. take_first api h s (e k) (f k))
  round_by s waiting [] e f = idle (λ k. take_first api h s (e k) (f k))
  round_by s waiting (m ∷ ms) e f = takes m ms f e (λ k. take_first api h s (e k) (f k))

  pub round : (s : System api h) → Round s
  round s = round_by s s.thread.status s.handler.queue refl refl

  pub serve_codes : (s : System api h) → (serve api h s).codes ≡ s.codes
  serve_codes s = elim (round s) [
    | idle e ↦ ap (λ t. t.codes) e
    | takes m ms q w e ↦ ap (λ t. t.codes) e
  ]

  pub serves-Agree :
      (u : U) (a : Internals Stream U) (s : System api h) → Agree u a s → Agree u a (serve api h s)
  serves-Agree u a s g = elim (round s) [
    | idle e ↦ rw e g
    | takes m ms q w e ↦ rw e (record {
      served = g.served ++ m ∷ [];
      stream = g.stream;
      alone = g.alone;
      queued = g.queued;
      in_queue = g.in_queue ∙ ap (λ z. g.served ++ z) q ∙ sym (append_assoc g.served (m ∷ []) ms);
      worked = sym (
          thread_proc-append h u g.served (m ∷ [])
          ∙ ap (λ t. goes_on h t (message m ∷ [])) (sym g.worked)
          ∙ resumes h s.thread (message m ∷ []) w);
    })
  ]

  -- What the moves leave, compared with the calls alone.
  abbrev pub Agreed : (u : U) (ms : List Move) (a : Internals Stream U) (s : System api h) → Type 0
  Agreed u ms a s =
      let (rcs, a') = calls api h ms a in
      ((run api h s ms).codes ≡ s.codes ++ rcs) × Agree u a' (run api h s ms)

  pub run-Agree :
      (u : U) (ms : List Move) (a : Internals Stream U) (s : System api h)
      → Agree u a s
      → Agreed u ms a s
  run-Agree u [] a s g = (sym (append-nil s.codes), g)
  run-Agree u (quits ∷ ms) a s g =
      run-Agree u ms (put_quit api h a) (step api h s quits) (quits-Agree u a s g)
  run-Agree u (serves ∷ ms) a s g =
      let (codes, rest) = run-Agree u ms a (serve api h s) (serves-Agree u a s g) in
      (codes ∙ ap (λ c. c ++ (calls api h ms a).0) (serve_codes s), rest)
  run-Agree u (posts ok p ∷ ms) a s g =
      let (same, g') = posts-Agree u ok p a s g in
      let (codes, rest) =
        run-Agree u ms (post_message api h ok p a).1 (step api h s (posts ok p)) g' in
      (
        codes
            ∙ append_assoc s.codes ((post_message api h ok p s.handler).0 ∷ [])
                (calls api h ms (post_message api h ok p a).1).0
            ∙ ap (λ r. s.codes ++ r ∷ (calls api h ms (post_message api h ok p a).1).0) same,
        rest,
      )
