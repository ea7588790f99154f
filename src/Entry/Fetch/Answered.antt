-- ===== src/Entry/Fetch/Answered.antt =====
-- A request that is answered.
use qfreerdp.Base.{
  ℕ, ◌≡◌, ◌≢◌, refl, sym, ap, ◌∙◌, true, false, List, [], ◌∷◌, ◌++◌, All, Option, none, some, arith,
  if◌then◌else◌, else_branch,
}
use qfreerdp.Status.{Rc, is_error}
use qfreerdp.Entry.Types.{Bytes, Request, Response}
use qfreerdp.Entry.Pending.{
  RequestKind, Link, cleared, open_request, close_request, accept_response, may_return,
  take_response,
}
use qfreerdp.Entry.Pending.Mailbox.{answer_of}
use qfreerdp.Entry.Pending.Exchange.{accept_own, waiting, answered}
use qfreerdp.Entry.Fetch.{
  Event, hears, stops, happen, happen_all, Traffic, send_remote_file_request, wait_remote_response,
  ask,
}

-- An event that is nothing to a request: a response with another stream id.
abbrev pub IsOther : ℕ → Event → Type 0
IsOther id (hears r) = r.stream_id ≢ id
IsOther id stops = ⊥

abbrev pub IsHeard : Event → Type 0
IsHeard (hears r) = Unit {0}
IsHeard stops = ⊥

-- What becomes of a request: the call fails, or one response to it comes in, among others.
pub data Answers (t : Traffic) (id : ℕ) (a : Option Bytes) : Type 0 where
  refused : is_error t.rc ≡ true → All IsHeard t.early → a ≡ none → Answers t id a
  responds :
      (before after : List Event) (own : Response)
      → is_error t.rc ≡ false
      → t.early ++ t.later ≡ before ++ hears own ∷ after
      → All (IsOther id) before
      → All (IsOther id) after
      → own.stream_id ≡ id
      → answer_of own ≡ a
      → Answers t id a

pub happen_all-append :
    (xs ys : List Event) (l : Link) → happen_all (xs ++ ys) l ≡ happen_all ys (happen_all xs l)
happen_all-append [] ys l = refl
happen_all-append (x ∷ xs) ys l = happen_all-append xs ys (happen x l)

happen-IsOther :
    (id : ℕ) (e : Event) (l : Link) → l.pending.stream_id ≡ id → IsOther id e → happen e l ≡ l
unfolding accept_response
happen-IsOther id (hears r) l h o = ground arith
happen-IsOther id stops l h o = absurd o

happen_all-IsOther :
    (id : ℕ) (es : List Event) (l : Link)
    → l.pending.stream_id ≡ id
    → All (IsOther id) es
    → happen_all es l ≡ l
happen_all-IsOther id [] l h o = refl
happen_all-IsOther id (e ∷ es) l h o =
    ap (happen_all es) (happen-IsOther id e l h o.0) ∙ happen_all-IsOther id es l h o.1

close_sent : (rc : Rc) (l : Link) → is_error rc ≡ false → close_request rc l ≡ l
unfolding close_request
close_sent rc l e = else_branch (is_error rc) _ l e

accept-stopped : (r : Response) (l : Link) → (accept_response r l).stopped ≡ l.stopped
unfolding accept_response
accept-stopped r l = ground arith

happen_all-IsHeard :
    (es : List Event) (l : Link) → All IsHeard es → (happen_all es l).stopped ≡ l.stopped
happen_all-IsHeard [] l h = refl
happen_all-IsHeard (hears r ∷ es) l h =
    happen_all-IsHeard es (accept_response r l) h.1 ∙ accept-stopped r l
happen_all-IsHeard (stops ∷ es) l h = absurd h.0

-- The request's own response, among others.
own_response :
    (id : ℕ) (kind : RequestKind) (before after : List Event) (own : Response)
    → All (IsOther id) before
    → All (IsOther id) after
    → own.stream_id ≡ id
    → happen_all (before ++ hears own ∷ after) (waiting id kind false) ≡ answered id kind false own
own_response id kind before after own b a its =
    happen_all-append before (hears own ∷ after) (waiting id kind false)
    ∙ ap (happen_all (hears own ∷ after))
        (happen_all-IsOther id before (waiting id kind false) refl b)
    ∙ ap (happen_all after) (accept_own own id kind false its)
    ∙ happen_all-IsOther id after (answered id kind false own) refl a

opened :
    (id : ℕ) (kind : RequestKind) (l : Link)
    → l.stopped ≡ false
    → open_request id kind l ≡ waiting id kind false
unfolding open_request
opened id kind l h = ap (waiting id kind) h

pub ask_refused :
    (t : Traffic) (r : Request) (kind : RequestKind) (l : Link)
    → is_error t.rc ≡ true
    → ask t r kind l ≡ (
      some none,
      record {
        pending = cleared;
        stopped = (happen_all t.early (open_request r.stream_id kind l)).stopped;
      },
    )
unfolding ask send_remote_file_request close_request
ask_refused t r kind l e = rw e

pub ask_sent :
    (t : Traffic) (r : Request) (kind : RequestKind) (l : Link)
    → is_error t.rc ≡ false
    → ask t r kind l
      ≡ wait_remote_response t.later r.stream_id
          (happen_all t.early (open_request r.stream_id kind l))
unfolding ask send_remote_file_request close_request
ask_sent t r kind l e = rw e

-- Looking at the shared state, at the end of a wait.
abbrev pub look : ℕ → Link → Option (Option Bytes) × Link
look id m = if may_return id m then (some (take_response m).0, (take_response m).1) else (none, m)

pub wait-look :
    (later : List Event) (id : ℕ) (l : Link)
    → wait_remote_response later id l ≡ look id (happen_all later l)
unfolding wait_remote_response
wait-look later id l = refl

look-answered :
    (id : ℕ) (kind : RequestKind) (r : Response)
    → look id (answered id kind false r)
      ≡ (some (answer_of r), record { pending = cleared; stopped = false })
unfolding may_return take_response
look-answered id kind r = ground arith

open-stopped :
    (id : ℕ) (kind : RequestKind) (l : Link) → (open_request id kind l).stopped ≡ l.stopped
unfolding open_request
open-stopped id kind l = refl

-- A request that is answered gives the answer, and leaves nothing behind.
pub ask-Answers :
    (t : Traffic) (r : Request) (kind : RequestKind) (l : Link) (a : Option Bytes)
    → l.stopped ≡ false
    → Answers t r.stream_id a
    → ask t r kind l ≡ (some a, record { pending = cleared; stopped = false })
ask-Answers t r kind l a h (refused e early n) =
    let still : (happen_all t.early (open_request r.stream_id kind l)).stopped ≡ false =
      happen_all-IsHeard t.early (open_request r.stream_id kind l) early
      ∙ open-stopped r.stream_id kind l
      ∙ h in
    ask_refused t r kind l e
    ∙ (λ i. (some (sym n i), record { pending = cleared; stopped = still i }))
ask-Answers t r kind l a h (responds before after own e split b af its ans) =
    let id : ℕ = r.stream_id in
    let end : happen_all t.later (happen_all t.early (open_request id kind l))
        ≡ answered id kind false own =
      sym (happen_all-append t.early t.later (open_request id kind l))
      ∙ ap (λ es. happen_all es (open_request id kind l)) split
      ∙ ap (happen_all (before ++ hears own ∷ after)) (opened id kind l h)
      ∙ own_response id kind before after own b af its in
    ask_sent t r kind l e
    ∙ wait-look t.later id (happen_all t.early (open_request id kind l))
    ∙ ap (look id) end
    ∙ look-answered id kind own
    ∙ ap (λ x. (some x, record { pending = cleared; stopped = false })) ans
