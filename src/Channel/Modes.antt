-- ===== src/Channel/Modes.antt =====
-- The two ways of handing a message over, at once and through the queue, come to the same.
use qfreerdp.Base.{
  ℕ, ◌≡◌, refl, sym, ap, ◌∙◌, Bool, true, false, Bool-cases, Option-cases, List, [], ◌∷◌, ◌++◌, inl,
  inr, Option, none, some, arith, length, ◌==◌, ◌||◌, map,
}
use mathlib.Core.List.{map-append}
use qfreerdp.Channel.Stream.{StreamApi}
use qfreerdp.Channel.Defs.{
  Internals, Pdu, payload, begin_message, hand_over, end_message, append_chunk, post_message,
  post_all, message, waiting, channel_client_thread_proc,
}
use qfreerdp.Channel.Worker.{Served, thread_proc-waits}
use qfreerdp.Status.{Rc, channel_rc_ok, channel_rc_no_memory, error_internal_error}

module _ (api : StreamApi) {U : Type 0} (h : U → List ℕ → Rc × U) where
  open api use {Stream, create, ensure_capacity, ensure_remaining, write, capacity, written}

  -- What a call does, as far as the stream and the chunk decide: it leaves stream `d`, or it hands
  -- `b` over.
  pub data Verdict (ok : Bool) (p : Pdu) (old : Option Stream) : Type 0 where
    keeps :
        (rc : Rc) (d : Option Stream)
        → ((i : Internals Stream U)
            → post_message api h ok p (record i { data_in = old }) ≡ (rc, record i { data_in = d }))
        → Verdict ok p old
    gives :
        (b : List ℕ)
        → ((i : Internals Stream U)
            → post_message api h ok p (record i { data_in = old })
              ≡ hand_over api h ok b (record i { data_in = none }))
        → Verdict ok p old

  abbrev Appends : (ok : Bool) (p : Pdu) (old : Option Stream) (start : Option Stream) → Type 0
  Appends ok p old start =
      (i : Internals Stream U)
      → post_message api h ok p (record i { data_in = old })
        ≡ append_chunk api h ok p (record i { data_in = start })

  full :
      (ok : Bool) (p : Pdu) (old : Option Stream) (t : Stream)
      → ((i : Internals Stream U)
          → post_message api h ok p (record i { data_in = old }) ≡ end_message api h ok p t i)
      → Verdict ok p old
  unfolding end_message
  full ok p old t e = elim (Bool-cases p.last) [
    | inr l ↦ keeps channel_rc_ok (some t) (λ i. e i ∙ ground arith)
    | inl l ↦ elim (Bool-cases (capacity t == length (written t))) [
      | inl f ↦ gives (written t) (λ i. e i ∙ ground arith)
      | inr f ↦ keeps error_internal_error (some t) (λ i. e i ∙ ground arith)
    ]
  ]

  append-Verdict :
      (ok : Bool) (p : Pdu) (old start : Option Stream) → Appends ok p old start → Verdict ok p old
  unfolding append_chunk
  append-Verdict ok p old none e = keeps channel_rc_no_memory none e
  append-Verdict ok p old (some s) e = elim (Option-cases (ensure_remaining s (length p.bytes))) [
    | inl f ↦ keeps channel_rc_no_memory none (λ i. e i ∙ ground arith)
    | inr (t, f) ↦ full ok p old (write t p.bytes) (λ i. e i ∙ ground arith)
  ]

  pub verdict : (ok : Bool) (p : Pdu) (old : Option Stream) → Verdict ok p old
  unfolding post_message begin_message
  verdict ok p old = elim (Bool-cases (p.suspend || p.resume)) [
    | inl e ↦ keeps channel_rc_ok old (λ i. ground arith)
    | inr e ↦ elim (Bool-cases p.first) [
      | inr f ↦ append-Verdict ok p old old (λ i. ground arith)
      | inl f ↦ elim (Option-cases old) [
        | inl g ↦ append-Verdict ok p old (create p.total_length) (λ i. ground arith)
        | inr (s, g) ↦ elim (Option-cases (ensure_capacity s p.total_length)) [
          | inl c ↦ keeps channel_rc_no_memory old (λ i. ground arith)
          | inr (t, c) ↦ append-Verdict ok p old (some t) (λ i. ground arith)
        ]
      ]
    ]
  ]

  -- A handler `a` without threads and a handler `q` with one, which got the same chunks: the same
  -- message is under way, and serving the queue of `q` from `u` takes the plugin to the state of `a`.
  pub record InStep (u : U) (a q : Internals Stream U) : Type 0 where
    pub stream : q.data_in ≡ a.data_in
    pub direct : a.threads_disabled ≡ true
    pub queued : q.threads_disabled ≡ false
    pub posted : List (List ℕ)
    pub in_queue : q.queue ≡ map payload posted
    pub served : Served h u posted a.userdata

  Served-snoc :
      (u v : U) (bs : List (List ℕ)) (b : List ℕ)
      → Served h u bs v
      → (h v b).0 ≡ channel_rc_ok
      → Served h u (bs ++ b ∷ []) (h v b).1
  Served-snoc u v [] b s e = rw s (e, refl)
  Served-snoc u v (x ∷ bs) b s e = (s.0, Served-snoc (h u x).1 v bs b s.1 e)

  hand_direct :
      (b : List ℕ) (i : Internals Stream U)
      → i.threads_disabled ≡ true
      → (h i.userdata b).0 ≡ channel_rc_ok
      → hand_over api h true b i ≡ (channel_rc_ok, record i { userdata = (h i.userdata b).1 })
  unfolding hand_over
  hand_direct b i e f = ground arith

  hand_queued :
      (b : List ℕ) (i : Internals Stream U)
      → i.threads_disabled ≡ false
      → hand_over api h true b i ≡ (channel_rc_ok, record i { queue = i.queue ++ payload b ∷ [] })
  unfolding hand_over
  hand_queued b i e = ground arith

  pub at_stream :
      (d : Option Stream) (q : Internals Stream U) → q.data_in ≡ d → q ≡ record q { data_in = d }
  at_stream d q e = λ k. record q { data_in = e k }

  post_message-InStep :
      (u : U) (p : Pdu) (a q : Internals Stream U)
      → ((v : U) (b : List ℕ) → (h v b).0 ≡ channel_rc_ok)
      → InStep u a q
      → ((post_message api h true p q).0 ≡ (post_message api h true p a).0)
        × InStep u (post_message api h true p a).1 (post_message api h true p q).1
  post_message-InStep u p a q fine s =
      let moved = ap (post_message api h true p) (at_stream a.data_in q s.stream) in
      elim (verdict true p a.data_in) [
        | keeps rc d e ↦
            rw (e a, moved ∙ e q)
              (
                refl,
                record {
                  stream = refl;
                  direct = s.direct;
                  queued = s.queued;
                  posted = s.posted;
                  in_queue = s.in_queue;
                  served = s.served;
                },
              )
        | gives b e ↦
            rw
              (
                e a ∙ hand_direct b (record a { data_in = none }) s.direct (fine a.userdata b),
                moved ∙ e q ∙ hand_queued b (record q { data_in = none }) s.queued,
              )
              (
                refl,
                record {
                  stream = refl;
                  direct = s.direct;
                  queued = s.queued;
                  posted = s.posted ++ b ∷ [];
                  in_queue =
                      ap (λ m. m ++ payload b ∷ []) s.in_queue
                      ∙ sym (map-append payload s.posted (b ∷ []));
                  served = Served-snoc u a.userdata s.posted b s.served (fine a.userdata b);
                },
              )
      ]

  abbrev pub all_posted : List Pdu → List (Bool × Pdu)
  all_posted = map (λ p. (true, p))

  post_all-InStep :
      (u : U) (ps : List Pdu) (a q : Internals Stream U)
      → ((v : U) (b : List ℕ) → (h v b).0 ≡ channel_rc_ok)
      → InStep u a q
      → ((post_all api h (all_posted ps) q).0 ≡ (post_all api h (all_posted ps) a).0)
        × InStep u (post_all api h (all_posted ps) a).1 (post_all api h (all_posted ps) q).1
  unfolding post_all
  post_all-InStep u [] a q fine s = (refl, s)
  post_all-InStep u (p ∷ ps) a q fine s =
      let (same, s') = post_message-InStep u p a q fine s in
      let (rest, t) =
        post_all-InStep u ps (post_message api h true p a).1 (post_message api h true p q).1 fine
          s' in
      (λ k. same k ∷ rest k, t)

  -- With a plugin that refuses no message, and as long as every MessageQueue_Post succeeds, a handler
  -- without threads and one with a thread, started alike and given the same PDUs, return the same codes
  -- and hold the same unfinished message; and when the thread has emptied the queue, its plugin is in the
  -- state that the other's is in.
  pub modes_agree :
      (ps : List Pdu) (d : Option Stream) (u : U)
      → ((v : U) (b : List ℕ) → (h v b).0 ≡ channel_rc_ok)
      → let start : Bool → Internals Stream U = λ disabled. record {
        data_in = d;
        userdata = u;
        queue = [];
        threads_disabled = disabled;
      } in
        let (rcs, a) = post_all api h (all_posted ps) (start true) in
        let (rcs', q) = post_all api h (all_posted ps) (start false) in
        (rcs' ≡ rcs)
        × (q.data_in ≡ a.data_in)
        × (channel_client_thread_proc h u (map message q.queue)
            ≡ record { userdata = a.userdata; status = waiting; channel_error = none })
  modes_agree ps d u fine =
      let start : Bool → Internals Stream U =
        λ disabled. record { data_in = d; userdata = u; queue = []; threads_disabled = disabled } in
      let same : InStep u (start true) (start false) = record {
        stream = refl;
        direct = refl;
        queued = refl;
        posted = [];
        in_queue = refl;
        served = refl;
      } in
      let (codes, s) = post_all-InStep u ps (start true) (start false) fine same in
      (
        codes,
        s.stream,
        rw s.in_queue (
            thread_proc-waits h u (post_all api h (all_posted ps) (start true)).1.userdata s.posted
              s.served),
      )
