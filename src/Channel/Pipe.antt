-- ===== src/Channel/Pipe.antt =====
-- What the handler promises to a plugin, whatever the chunks: a pipe of whole messages.
use mathlib.Core.List.{map-append}
use qfreerdp.Base.{
  ℕ, ◌≡◌, refl, Bool, true, false, Bool-cases, List, [], ◌∷◌, ◌++◌, inl, inr, none, some, arith,
  length, replicate, map, All, if◌then◌else◌,
}
use qfreerdp.Channel.Stream.{StreamApi}
use qfreerdp.Channel.Defs.{
  Internals, Pdu, payload, hand_over, post_message, post_all, message, Worker, waiting, exited,
  channel_client_thread_proc,
}
use qfreerdp.Channel.Chunks.{fragment, joined}
use qfreerdp.Channel.Reassembly.{post_all-fragment}
use qfreerdp.Status.{Rc, channel_rc_ok, error_internal_error, is_error}

-- A message by the chunks that it arrives in, of which there is at least one.
abbrev pub Chunked : Type 0
Chunked = List ℕ × List (List ℕ)

abbrev pub whole : Chunked → List ℕ
whole (b, cs) = joined b cs

-- The calls for one message after the other.
abbrev pub traffic : List Chunked → List (Bool × Pdu)
traffic [] = []
traffic ((b, cs) ∷ ms) = fragment (length (joined b cs)) true b cs ++ traffic ms

-- The pipe: the plugin's state, and the messages that wait for it.
pub record Pipe (U : Type 0) : Type 0 where
  pub state : U
  pub backlog : List (List ℕ)

module _ {U : Type 0} (h : U → List ℕ → Rc × U) where
  -- A message goes to the plugin at once, whose errors are told as one code, or behind the others.
  abbrev pub accept : Bool → List ℕ → Pipe U → Rc × Pipe U
  accept true m p = (
    if is_error (h p.state m).0 then error_internal_error else channel_rc_ok,
    record p { state = (h p.state m).1 },
  )
  accept false m p = (channel_rc_ok, record p { backlog = p.backlog ++ m ∷ [] })

  -- The code that a message gives stands at its last chunk.
  abbrev pub accept_all : Bool → List Chunked → Pipe U → List Rc × Pipe U
  accept_all direct [] p = ([], p)
  accept_all direct ((b, cs) ∷ ms) p =
      let (rc, q) = accept direct (joined b cs) p in
      let (rcs, r) = accept_all direct ms q in
      ((replicate (length cs) channel_rc_ok ++ rc ∷ []) ++ rcs, r)

  -- The plugin serves the backlog up to the first message that it refuses.
  abbrev pub drain : U → List (List ℕ) → Worker U
  drain u [] = record { userdata = u; status = waiting; channel_error = none }
  drain u (m ∷ ms) =
      if is_error (h u m).0
      then record {
        userdata = (h u m).1;
        status = exited (h u m).0;
        channel_error = some (h u m).0;
      }
      else drain (h u m).1 ms

  thread_proc-drain :
      (u : U) (ms : List (List ℕ))
      → channel_client_thread_proc h u (map message (map payload ms)) ≡ drain u ms
  unfolding channel_client_thread_proc
  thread_proc-drain u [] = refl
  thread_proc-drain u (m ∷ ms) = elim (Bool-cases (is_error (h u m).0)) [
    | inl e ↦ ground arith
    | inr e ↦ rw e (thread_proc-drain (h u m).1 ms)
  ]

module _ (api : StreamApi) {U : Type 0} (h : U → List ℕ → Rc × U) where
  open api use {Stream, create}

  -- A handler between two messages, which works in the pipe's way and holds what the pipe holds.
  pub record Holds (direct : Bool) (i : Internals Stream U) (p : Pipe U) : Type 0 where
    pub mode : i.threads_disabled ≡ direct
    pub between : i.data_in ≡ none
    pub state : i.userdata ≡ p.state
    pub queued : i.queue ≡ map payload p.backlog

  -- The stream for each message can be allocated.
  abbrev pub Allocates : List Chunked → Type 0
  Allocates = All (λ m. (s : Stream) × (create (length (whole m)) ≡ some s))

  post_all-append :
      (xs ys : List (Bool × Pdu)) (i : Internals Stream U)
      → post_all api h (xs ++ ys) i
        ≡ (let (rs, j) = post_all api h xs i in let (ts, k) = post_all api h ys j in (rs ++ ts, k))
  unfolding post_all
  post_all-append [] ys i = refl
  post_all-append ((ok, p) ∷ xs) ys i = rw (post_all-append xs ys (post_message api h ok p i).1)

  hand_over-accept :
      (direct : Bool) (m : List ℕ) (i : Internals Stream U) (p : Pipe U)
      → Holds direct i p
      → let (rc, j) = hand_over api h true m (record i { data_in = none }) in
        let (rc', q) = accept h direct m p in (rc ≡ rc') × Holds direct j q
  unfolding hand_over
  hand_over-accept true m i p s = (ground arith, ground arith)
  hand_over-accept false m i p s =
      let more = map-append payload p.backlog (m ∷ []) in (ground arith, ground (arith, more))

  -- The handler refines the pipe: for messages one behind the other, each cut into chunks in any way,
  -- the calls return the pipe's codes, no message is left under way, the plugin's state and the queue
  -- are the pipe's, and the thread serves what waits up to the first message that the plugin refuses,
  -- whose code it reports. The stream for each message must be allocated, and MessageQueue_Post succeed.
  pub pipe_refines :
      (direct : Bool) (ms : List Chunked) (i : Internals Stream U) (p : Pipe U)
      → Holds direct i p
      → Allocates ms
      → let (rcs, j) = post_all api h (traffic ms) i in
        let (rcs', q) = accept_all h direct ms p in
        (rcs ≡ rcs')
        × Holds direct j q
        × (channel_client_thread_proc h j.userdata (map message j.queue)
            ≡ drain h q.state q.backlog)
  unfolding post_all
  pipe_refines direct [] i p s a =
      (refl, s, rw (s.state, s.queued) (thread_proc-drain h p.state p.backlog))
  pipe_refines direct ((b, cs) ∷ ms) i p s ((t, c), a) =
      let one = post_all-fragment api h b cs i t s.between c in
      let (rc, k) = hand_over api h true (joined b cs) (record i { data_in = none }) in
      let (same, held) = hand_over-accept direct (joined b cs) i p s in
      let (codes, rest, served) =
        pipe_refines direct ms k (accept h direct (joined b cs) p).1 held a in
      rw (post_all-append (fragment (length (joined b cs)) true b cs) (traffic ms) i)
        (rw one (rw (same, codes), rest, served))
