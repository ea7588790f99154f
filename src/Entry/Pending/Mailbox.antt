-- ===== src/Entry/Pending/Mailbox.antt =====
-- What the shared response promises to the threads that use it: a box for one answer.
use qfreerdp.Base.{
  ℕ, ◌≡◌, refl, ap, ◌∙◌, Bool, true, false, Bool-cases, not, ◌||◌, ◌⊎◌, inl, inr, List, [], ◌∷◌,
  Option, none, some, arith, ◌==◌, if◌then◌else◌,
}
use qfreerdp.Status.{Rc, is_error}
use qfreerdp.Entry.Types.{Bytes, Response}
use qfreerdp.Entry.Pending.{
  RequestKind, Pending, Link, bytes_of, open_request, close_request, accept_response,
  server_file_contents_response, may_return, take_response, stop_remote_file_worker,
}

-- What the threads call, one section under the mutex each: a request is opened, its sending gave a
-- code, a response came in, the worker looks whether its wait is over and takes the answer if so, and
-- the entry is stopped.
pub data Op : Type 0 where
  opens : ℕ → RequestKind → Op
  sends : Rc → Op
  hears : Response → Op
  waits : ℕ → Op
  stops : Op

-- What a call tells: nothing, that the wait goes on, or what the wait gives, `none` for a failure.
pub data Reply : Type 0 where
  done : Reply
  blocked : Reply
  gives : Option Bytes → Reply

-- The calls on the code's state.
abbrev pub call : Op → Link → Reply × Link
call (opens id kind) l = (done, open_request id kind l)
call (sends rc) l = (done, close_request rc l)
call (hears r) l = (done, (server_file_contents_response true (some r) l).1)
call (waits id) l =
    if may_return id l then (gives (take_response l).0, (take_response l).1) else (blocked, l)
call stops l = (done, stop_remote_file_worker l)

-- The box: closed, open for the answer to a request, or with its latest answer, `none` for a refusal.
pub data Box : Type 0 where
  closed : Box
  open_for : ℕ → Box
  holds : ℕ → Option Bytes → Box

abbrev pub answer_of : Response → Option Bytes
answer_of r = if r.is_ok then some (bytes_of r.requested_data) else none

abbrev pub put : Response → Box → Box
put r closed = closed
put r (open_for id) = if r.stream_id == id then holds id (answer_of r) else open_for id
put r (holds id a) = if r.stream_id == id then holds id (answer_of r) else holds id a

abbrev pub answer_for : ℕ → Box → Option (Option Bytes)
answer_for id closed = none
answer_for id (open_for j) = none
answer_for id (holds j a) = if j == id then some a else none

abbrev pub take_out : ℕ → Box → Reply × Box
take_out id b = elim (answer_for id b) [ none ↦ (blocked, b) | some a ↦ (gives a, closed) ]

-- The same calls on a box and whether the entry is stopped, behind which every wait ends at once and
-- fails.
abbrev pub call_box : Op → Bool × Box → Reply × (Bool × Box)
call_box (opens id kind) (s, b) = (done, (s, open_for id))
call_box (sends rc) (s, b) = (done, (s, if is_error rc then closed else b))
call_box (hears r) (s, b) = (done, (s, put r b))
call_box (waits id) (true, b) = (gives none, (true, closed))
call_box (waits id) (false, b) = let (y, c) = take_out id b in (y, (false, c))
call_box stops (s, b) = (done, (true, b))

abbrev pub calls : List Op → Link → List Reply
calls [] l = []
calls (o ∷ os) l = let (y, m) = call o l in y ∷ calls os m

abbrev pub calls_box : List Op → Bool × Box → List Reply
calls_box [] x = []
calls_box (o ∷ os) x = let (y, z) = call_box o x in y ∷ calls_box os z

-- Which boxes a pending response stands for; behind a stop `ready` says nothing.
abbrev Shape : Bool → Pending → Box → Type 0
Shape s p closed = (p.active ≡ false) × (p.is_ok ≡ false) × ((p.ready ≡ false) ⊎ (s ≡ true))
Shape s p (open_for id) =
    (p.active ≡ true) × (p.stream_id ≡ id) × (p.is_ok ≡ false) × ((p.ready ≡ false) ⊎ (s ≡ true))
Shape s p (holds id none) =
    (p.active ≡ true) × (p.stream_id ≡ id) × (p.is_ok ≡ false) × (p.ready ≡ true)
Shape s p (holds id (some a)) =
    (p.active ≡ true) × (p.stream_id ≡ id) × (p.is_ok ≡ true) × (p.ready ≡ true) × (p.received ≡ a)

abbrev pub Stands : Link → Bool × Box → Type 0
Stands l (s, b) = (l.stopped ≡ s) × Shape s l.pending b

-- What an open box, or one with an answer, says of the pending response.
abbrev IsFor : ℕ → Box → Type 0
IsFor id closed = ⊥
IsFor id (open_for j) = j ≡ id
IsFor id (holds j a) = j ≡ id

held :
    (id : ℕ) (s : Bool) (p : Pending) (b : Box)
    → Shape s p b
    → IsFor id b
    → (p.active ≡ true) × (p.stream_id ≡ id)
held id s p closed h i = elim i [ ]
held id s p (open_for j) h i = (h.0, h.1 ∙ i)
held id s p (holds j none) h i = (h.0, h.1 ∙ i)
held id s p (holds j (some a)) h i = (h.0, h.1 ∙ i)

fresh_answer :
    (s : Bool) (p : Pending) (id : ℕ) (ok : Bool) (d : Bytes)
    → (p.active ≡ true) × (p.stream_id ≡ id)
    → Shape s
        (record p { is_ok = ok; received = if ok then d else []; ready = true })
        (holds id (if ok then some d else none))
fresh_answer s p id true d h = (h.0, h.1, refl, refl, refl)
fresh_answer s p id false d h = (h.0, h.1, refl, refl)

-- An answer with the right id is taken in by an open response, and replaces an earlier one.
answered :
    (r : Response) (l : Link) (s : Bool) (id : ℕ)
    → l.stopped ≡ s
    → (l.pending.active ≡ true) × (l.pending.stream_id ≡ id)
    → (r.stream_id == id) ≡ true
    → Stands (accept_response r l) (s, holds id (answer_of r))
unfolding accept_response
answered r l s id st h e =
    let same : (not l.pending.active || not (r.stream_id == l.pending.stream_id)) ≡ false =
      ground arith in
    rw (same, accept_response)
      (st, fresh_answer s l.pending id r.is_ok (bytes_of r.requested_data) h)

call-Stands :
    (o : Op) (l : Link) (s : Bool) (b : Box)
    → Stands l (s, b)
    → let (y, m) = call o l in let (z, x) = call_box o (s, b) in (y ≡ z) × Stands m x
unfolding open_request close_request server_file_contents_response may_return take_response
    stop_remote_file_worker
call-Stands (opens id kind) l s b h = (refl, (h.0, (refl, refl, refl, inl refl)))
call-Stands (sends rc) l s b h = elim (Bool-cases (is_error rc)) [
  | inl e ↦ rw (e, close_request) (refl, (h.0, (refl, refl, inl refl)))
  | inr e ↦ rw (e, close_request) (refl, h)
]
call-Stands (hears r) l s closed h = ground arith
call-Stands (hears r) l s (open_for id) h = elim (Bool-cases (r.stream_id == id)) [
  | inr e ↦ rw (e, put) (ground arith)
  | inl e ↦ rw (e, put) (refl, answered r l s id h.0 (held id s l.pending (open_for id) h.1 refl) e)
]
call-Stands (hears r) l s (holds id a) h = elim (Bool-cases (r.stream_id == id)) [
  | inr e ↦ rw (e, put) (ground arith)
  | inl e ↦ rw (e, put) (refl, answered r l s id h.0 (held id s l.pending (holds id a) h.1 refl) e)
]
call-Stands (waits id) l true b h = ground arith
call-Stands (waits id) l false closed h = ground arith
call-Stands (waits id) l false (open_for j) h = ground arith
call-Stands (waits id) l false (holds j none) h = ground arith
call-Stands (waits id) l false (holds j (some a)) h = ground arith
call-Stands stops l s closed h = ground arith
call-Stands stops l s (open_for id) h = ground arith
call-Stands stops l s (holds id none) h = ground arith
call-Stands stops l s (holds id (some a)) h = ground arith

-- The threads cannot tell the shared response from the box: whatever calls they make, in any order and
-- also against the protocol, from a state that stands for a box, as the first one does for a closed
-- box, each call tells what the box tells.
pub calls_refines :
    (os : List Op) (l : Link) (x : Bool × Box) → Stands l x → calls os l ≡ calls_box os x
calls_refines [] l x h = refl
calls_refines (o ∷ os) l (s, b) h =
    let (y, k) = call-Stands o l s b h in
    rw y (
      ap (λ ys. (call_box o (s, b)).0 ∷ ys) (calls_refines os (call o l).1 (call_box o (s, b)).1 k))
