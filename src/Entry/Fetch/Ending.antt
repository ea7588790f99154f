-- ===== src/Entry/Fetch/Ending.antt =====
-- When the worker's wait for an answer ends.
use qfreerdp.Base.{
  ℕ, ◌≡◌, refl, sym, ap, ◌∙◌, Bool, true, false, Bool-cases, ◌||◌, inl, inr, List, [], ◌∷◌, ◌++◌,
  Option, none, some, arith, ◌==◌,
}
use qfreerdp.Status.{is_error}
use qfreerdp.Entry.Types.{Request}
use qfreerdp.Entry.Pending.{
  RequestKind, Link, open_request, accept_response, may_return, stop_remote_file_worker,
}
use qfreerdp.Entry.Fetch.{
  Event, hears, stops, happen, happen_all, Traffic, wait_remote_response, ask,
}
use qfreerdp.Entry.Fetch.Answered.{happen_all-append, ask_refused, ask_sent}

-- An event that ends the wait for a stream id.
abbrev pub settles : ℕ → Event → Bool
settles id (hears r) = r.stream_id == id
settles id stops = true

abbrev pub any_settles : ℕ → List Event → Bool
any_settles id [] = false
any_settles id (e ∷ es) = settles id e || any_settles id es

-- The shared state holds a request for this stream id.
abbrev IsOpen : ℕ → Link → Type 0
IsOpen id l = (l.pending.active ≡ true) × (l.pending.stream_id ≡ id)

happen-IsOpen : (id : ℕ) (e : Event) (l : Link) → IsOpen id l → IsOpen id (happen e l)
unfolding accept_response stop_remote_file_worker
happen-IsOpen id (hears r) l h = ground arith
happen-IsOpen id stops l h = h

happen-may_return :
    (id : ℕ) (e : Event) (l : Link)
    → IsOpen id l
    → may_return id (happen e l) ≡ (may_return id l || settles id e)
unfolding may_return accept_response stop_remote_file_worker
happen-may_return id (hears r) l h = ground arith
happen-may_return id stops l h = ground arith

happen_all-may_return :
    (id : ℕ) (es : List Event) (l : Link)
    → IsOpen id l
    → may_return id (happen_all es l) ≡ (may_return id l || any_settles id es)
happen_all-may_return id [] l h = ground arith
happen_all-may_return id (e ∷ es) l h =
    happen_all-may_return id es (happen e l) (happen-IsOpen id e l h)
    ∙ ap (λ b. b || any_settles id es) (happen-may_return id e l h)
    ∙ ground arith

open_may_return :
    (id : ℕ) (kind : RequestKind) (l : Link) → may_return id (open_request id kind l) ≡ l.stopped
unfolding may_return open_request
open_may_return id kind l = ground arith

open_request-IsOpen : (id : ℕ) (kind : RequestKind) (l : Link) → IsOpen id (open_request id kind l)
unfolding open_request
open_request-IsOpen id kind l = (refl, refl)

abbrev pub returned {ℓ} : {A : Type ℓ} → Option A → Bool
returned none = false
returned (some a) = true

wait-returned :
    (later : List Event) (id : ℕ) (l : Link)
    → returned (wait_remote_response later id l).0 ≡ may_return id (happen_all later l)
unfolding wait_remote_response
wait-returned later id l = ground arith

-- A request comes to an end exactly if its sending fails, or the entry is stopped before or while it
-- waits, or a response with its stream id comes in from the moment it was opened on, even before its
-- sending has returned. Nothing else ends the wait: there is no limit in time.
pub ask_ends :
    (t : Traffic) (r : Request) (kind : RequestKind) (l : Link)
    → returned (ask t r kind l).0
      ≡ (is_error t.rc || (l.stopped || any_settles r.stream_id (t.early ++ t.later)))
ask_ends t r kind l = elim (Bool-cases (is_error t.rc)) [
  | inl e ↦ rw (ask_refused t r kind l e, e)
  | inr e ↦
      let id : ℕ = r.stream_id in
      let o : Link = open_request id kind l in
      rw (e) (
        ap (λ x. returned x.0) (ask_sent t r kind l e)
        ∙ wait-returned t.later id (happen_all t.early o)
        ∙ ap (may_return id) (sym (happen_all-append t.early t.later o))
        ∙ happen_all-may_return id (t.early ++ t.later) o (open_request-IsOpen id kind l)
        ∙ ap (λ b. b || any_settles id (t.early ++ t.later)) (open_may_return id kind l))
]
