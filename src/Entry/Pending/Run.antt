-- ===== src/Entry/Pending/Run.antt =====
-- The worker thread, the channel's thread and the destructor in any order. Each step is one section
-- under the mutex.
use mathlib.Core.List.{Memᴰ}
use qfreerdp.Base.{
  ℕ, ◌≡◌, refl, subst, ap, ◌∙◌, true, false, Bool-cases, not, ◌||◌, ◌⊎◌, inl, inr, List, [], ◌∷◌,
  some, arith, ◌==◌,
}
use qfreerdp.Status.{Rc, is_error}
use qfreerdp.Entry.Types.{Bytes, Response}
use qfreerdp.Entry.Pending.{
  RequestKind, Pending, Link, cleared, bytes_of, open_request, close_request, accept_response,
  may_return, take_response, stop_remote_file_worker,
}

-- Where the worker is: between two requests, sending one, waiting for its answer.
pub data Phase : Type 0 where
  idle : Phase
  sending : ℕ → Phase
  awaiting : ℕ → Phase

-- `heard` are the responses that came in since the last request was opened, the newest first.
pub record Run : Type 0 where
  pub link : Link
  pub phase : Phase
  pub heard : List Response

abbrev pub start : Run
start = record { link = record { pending = cleared; stopped = false }; phase = idle; heard = [] }

pub data Step (s : Run) : Run → Type 0 where
  opens :
      (id : ℕ) (kind : RequestKind) (t : Run)
      → s.phase ≡ idle
      → t ≡ record { link = open_request id kind s.link; phase = sending id; heard = [] }
      → Step s t
  sends :
      (id : ℕ) (rc : Rc) (t : Run)
      → s.phase ≡ sending id
      → is_error rc ≡ false
      → t ≡ record s { link = close_request rc s.link; phase = awaiting id }
      → Step s t
  fails :
      (id : ℕ) (rc : Rc) (t : Run)
      → s.phase ≡ sending id
      → is_error rc ≡ true
      → t ≡ record s { link = close_request rc s.link; phase = idle }
      → Step s t
  hears :
      (r : Response) (t : Run)
      → t ≡ record s { link = accept_response r s.link; heard = r ∷ s.heard }
      → Step s t
  wakes :
      (id : ℕ) (t : Run)
      → s.phase ≡ awaiting id
      → may_return id s.link ≡ true
      → t ≡ record s { link = (take_response s.link).1; phase = idle }
      → Step s t
  stops : (t : Run) → t ≡ record s { link = stop_remote_file_worker s.link } → Step s t

pub data Reach (s : Run) : Run → Type 0 where
  here : Reach s s
  next : {t u : Run} → Reach s t → Step t u → Reach s u

-- A response to the request `id`, accepted, with data `b`, is among `rs`.
abbrev pub Answered : ℕ → Bytes → List Response → Type 0
Answered id b rs =
    (r : Response) × Memᴰ r rs
    × (r.stream_id ≡ id)
    × (r.is_ok ≡ true)
    × (bytes_of r.requested_data ≡ b)

-- The pending response of the request `id`: refused or not there yet, or the data of an accepted one.
abbrev Open : ℕ → Pending → List Response → Type 0
Open id p rs = (p.stream_id ≡ id) × ((p.is_ok ≡ false) ⊎ Answered id p.received rs)

abbrev Good : Phase → Pending → List Response → Type 0
Good idle p rs = (p.is_ok ≡ false) × (p.active ≡ false)
Good (sending id) p rs = Open id p rs
Good (awaiting id) p rs = Open id p rs

Answered-later :
    (id : ℕ) (b : Bytes) (r : Response) (rs : List Response)
    → Answered id b rs
    → Answered id b (r ∷ rs)
Answered-later id b r rs (q, m, i, o, d) = (q, Memᴰ.tail m, i, o, d)

Open-later :
    (id : ℕ) (p : Pending) (r : Response) (rs : List Response) → Open id p rs → Open id p (r ∷ rs)
Open-later id p r rs (i, inl e) = (i, inl e)
Open-later id p r rs (i, inr a) = (i, inr (Answered-later id p.received r rs a))

accept_response-Open :
    (id : ℕ) (r : Response) (l : Link) (rs : List Response)
    → Open id l.pending rs
    → Open id (accept_response r l).pending (r ∷ rs)
unfolding accept_response
accept_response-Open id r l rs h =
    elim (Bool-cases (not l.pending.active || not (r.stream_id == l.pending.stream_id))) [
      | inl e ↦ rw e (Open-later id l.pending r rs h)
      | inr e ↦ elim (Bool-cases r.is_ok) [
        | inr f ↦ rw e (h.0, inl f)
        | inl f ↦ rw e (h.0, inr (r, Memᴰ.head refl, ground arith, f, ground arith))
      ]
    ]

accept_response-Good :
    (ph : Phase) (r : Response) (l : Link) (rs : List Response)
    → Good ph l.pending rs
    → Good ph (accept_response r l).pending (r ∷ rs)
accept_response-Good idle r l rs h = unfold accept_response in (ground arith)
accept_response-Good (sending id) r l rs h = accept_response-Open id r l rs h
accept_response-Good (awaiting id) r l rs h = accept_response-Open id r l rs h

stop-Good :
    (ph : Phase) (l : Link) (rs : List Response)
    → Good ph l.pending rs
    → Good ph (stop_remote_file_worker l).pending rs
unfolding stop_remote_file_worker
stop-Good idle l rs h = h
stop-Good (sending id) l rs h = h
stop-Good (awaiting id) l rs h = h

close_ok : (rc : Rc) (l : Link) → is_error rc ≡ false → close_request rc l ≡ l
unfolding close_request
close_ok rc l e = rw e

close_bad :
    (rc : Rc) (l : Link) → is_error rc ≡ true → close_request rc l ≡ record l { pending = cleared }
unfolding close_request
close_bad rc l e = rw e

take_clears : (l : Link) → (take_response l).1 ≡ record l { pending = cleared }
unfolding take_response
take_clears l = ground arith

Step-Good :
    {s t : Run}
    → Good s.phase s.link.pending s.heard
    → Step s t
    → Good t.phase t.link.pending t.heard
Step-Good h (opens id kind t p e) = rw e (unfold open_request in (refl, inl refl))
Step-Good {s} h (sends id rc t p ok e) =
    rw
      (e
        ∙ ap (λ l. record { link = l; phase = awaiting id; heard = s.heard })
            (close_ok rc s.link ok))
      (subst (λ ph. Good ph s.link.pending s.heard) p h)
Step-Good {s} h (fails id rc t p bad e) =
    rw (e ∙ ap (λ l. record { link = l; phase = idle; heard = s.heard }) (close_bad rc s.link bad))
      (refl, refl)
Step-Good {s} h (hears r t e) = rw e (accept_response-Good s.phase r s.link s.heard h)
Step-Good {s} h (wakes id t p m e) =
    rw (e ∙ ap (λ l. record { link = l; phase = idle; heard = s.heard }) (take_clears s.link))
      (refl, refl)
Step-Good {s} h (stops t e) = rw e (stop-Good s.phase s.link s.heard h)

Reach-Good :
    {s t : Run}
    → Good s.phase s.link.pending s.heard
    → Reach s t
    → Good t.phase t.link.pending t.heard
Reach-Good h here = h
Reach-Good h (next r st) = Step-Good (Reach-Good h r) st

-- What `wait_remote_response` returns as data, in any interleaving of the worker, the channel's thread
-- and the destructor, is the data of a response that was accepted by the remote side, carries the
-- stream id of the request, and came in after the request was opened.
pub take_response-Answered :
    {s : Run} (id : ℕ) (b : Bytes)
    → Reach start s
    → s.phase ≡ awaiting id
    → (take_response s.link).0 ≡ some b
    → Answered id b s.heard
unfolding take_response
take_response-Answered {s} id b r p e =
    let o : Open id s.link.pending s.heard =
      subst (λ ph. Good ph s.link.pending s.heard) p (Reach-Good (refl, refl) r) in
    elim o.1 [
      | inl f ↦ absurd (ground arith)
      | inr a ↦
          let same : s.link.pending.received ≡ b = ground arith in
          subst (λ c. Answered id c s.heard) same a
    ]

-- Nothing that others do takes an answer away: once the wait for `id` may return, it still may after
-- a response of any kind and after a stop.
pub may_return_stays :
    (id : ℕ) (r : Response) (l : Link)
    → may_return id l ≡ true
    → (may_return id (accept_response r l) ≡ true)
      × (may_return id (stop_remote_file_worker l) ≡ true)
unfolding may_return accept_response stop_remote_file_worker
may_return_stays id r l e = ground arith

-- No answer is missed: from the moment the request is opened, before it is sent, a response with its
-- stream id lets the wait return, whether the remote side accepts or refuses; one with another id
-- changes nothing.
pub accept_response_heard :
    (id : ℕ) (kind : RequestKind) (r : Response) (l : Link)
    → let opened = open_request id kind l in
      (may_return id (accept_response r opened) ≡ (l.stopped || r.stream_id == id))
      × ((r.stream_id ≡ id) ⊎ (accept_response r opened ≡ opened))
unfolding may_return accept_response open_request
accept_response_heard id kind r l = ground arith
