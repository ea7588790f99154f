-- ===== src/Entry/Pending/Exchange.antt =====
-- One request with its own response, among late responses to earlier requests.
use qfreerdp.Base.{
  ℕ, ◌+◌, ◌-◌, ◌^◌, ◌<◌, ◌≡◌, ◌≢◌, refl, sym, ap, ◌∙◌, Bool, true, false, List, [], ◌∷◌, All, none,
  some, arith, if◌then◌else◌,
}
use qfreerdp.Status.{channel_rc_ok}
use qfreerdp.Entry.Types.{Response}
use qfreerdp.Entry.Download.{next_remote_stream_id}
use qfreerdp.Entry.Download.Streams.{counter_after, stream_ids_differ}
use qfreerdp.Entry.Pending.{
  RequestKind, Link, cleared, bytes_of, open_request, close_request, accept_response, may_return,
  take_response,
}

abbrev pub hear_all : List Response → Link → Link
hear_all [] l = l
hear_all (r ∷ rs) l = hear_all rs (accept_response r l)

-- The shared state while the request `id` waits, after it was sent.
abbrev pub asked : ℕ → RequestKind → Link → Link
asked id kind l = close_request channel_rc_ok (open_request id kind l)

-- The stream id of the request with a number, by the counter at the first one.
abbrev pub id_at : ℕ → ℕ → ℕ
id_at c i = (next_remote_stream_id (counter_after i c)).0

-- A response to request `i`, which came `j - i` requests before request `j`, all within one turn of the
-- counter.
pub record Late (c j : ℕ) (r : Response) : Type 0 where
  pub number : ℕ
  pub before : number < j
  pub near : j < number + (2 ^ 32 - 1)
  pub its : r.stream_id ≡ id_at c number

Late-apart : (c j : ℕ) (r : Response) → c < 2 ^ 32 → Late c j r → r.stream_id ≢ id_at c j
Late-apart c j r h l e = (stream_ids_differ c l.number j h l.before l.near).1 (sym l.its ∙ e)

-- A response to another request changes nothing.
accept_other :
    (r : Response) (l : Link) → r.stream_id ≢ l.pending.stream_id → accept_response r l ≡ l
unfolding accept_response
accept_other r l h = ground arith

hear_all-Late :
    (c j : ℕ) (rs : List Response) (l : Link)
    → c < 2 ^ 32
    → l.pending.stream_id ≡ id_at c j
    → All (Late c j) rs
    → hear_all rs l ≡ l
hear_all-Late c j [] l h e late = refl
hear_all-Late c j (r ∷ rs) l h e late =
    let same : accept_response r l ≡ l =
      accept_other r l (λ q. Late-apart c j r h late.0 (q ∙ e)) in
    ap (hear_all rs) same ∙ hear_all-Late c j rs l h e late.1

pub asked_state :
    (id : ℕ) (kind : RequestKind) (l : Link)
    → asked id kind l
      ≡ record l { pending = record cleared { active = true; stream_id = id; kind = kind } }
unfolding open_request close_request
asked_state id kind l = refl

pub accept_own :
    (r : Response) (id : ℕ) (kind : RequestKind) (stopped : Bool)
    → r.stream_id ≡ id
    → accept_response r (record {
      pending = record cleared { active = true; stream_id = id; kind = kind };
      stopped = stopped;
    })
      ≡ record {
        pending = record cleared {
          active = true;
          ready = true;
          is_ok = r.is_ok;
          stream_id = id;
          kind = kind;
          received = if r.is_ok then bytes_of r.requested_data else [];
        };
        stopped = stopped;
      }
unfolding accept_response
accept_own r id kind stopped e = ground arith

abbrev pub waiting : ℕ → RequestKind → Bool → Link
waiting id kind stopped = record {
  pending = record cleared { active = true; stream_id = id; kind = kind };
  stopped = stopped;
}

abbrev pub answered : ℕ → RequestKind → Bool → Response → Link
answered id kind stopped r = record {
  pending = record cleared {
    active = true;
    ready = true;
    is_ok = r.is_ok;
    stream_id = id;
    kind = kind;
    received = if r.is_ok then bytes_of r.requested_data else [];
  };
  stopped = stopped;
}

pub waiting_blocks : (id : ℕ) (kind : RequestKind) → may_return id (waiting id kind false) ≡ false
unfolding may_return
waiting_blocks id kind = refl

pub answered_returns :
    (id : ℕ) (kind : RequestKind) (r : Response) → may_return id (answered id kind false r) ≡ true
unfolding may_return
answered_returns id kind r = ground arith

pub answered_gives :
    (id : ℕ) (kind : RequestKind) (r : Response)
    → (take_response (answered id kind false r)).0
      ≡ (if r.is_ok then some (bytes_of r.requested_data) else none)
unfolding take_response
answered_gives id kind r = ground arith

-- Each request gets its own answer, however late the answers to others are: while request `j` is
-- pending and the entry is not stopped, responses to any of the 2^32 - 2 requests before it neither end
-- the wait nor change what it gives, whether they come before its own response or behind it; with its
-- own response the wait ends, and gives this response's data, or a failure if it is one. The wait
-- looks at the state when all of these have come in.
pub own_answer_taken :
    (c j : ℕ) (kind : RequestKind) (l : Link) (early more : List Response) (own : Response)
    → c < 2 ^ 32
    → l.stopped ≡ false
    → All (Late c j) early
    → All (Late c j) more
    → own.stream_id ≡ id_at c j
    → let before = hear_all early (asked (id_at c j) kind l) in
      let after = hear_all more (accept_response own before) in
      (may_return (id_at c j) before ≡ false)
      × (may_return (id_at c j) after ≡ true)
      × ((take_response after).0 ≡ (if own.is_ok then some (bytes_of own.requested_data) else none))
own_answer_taken c j kind l early more own h go early_late more_late its =
    let id = id_at c j in
    let start : asked id kind l ≡ waiting id kind false =
      asked_state id kind l ∙ ap (waiting id kind) go in
    let quiet : hear_all early (asked id kind l) ≡ waiting id kind false =
      ap (hear_all early) start
      ∙ hear_all-Late c j early (waiting id kind false) h refl early_late in
    let end : hear_all more (accept_response own (hear_all early (asked id kind l)))
        ≡ answered id kind false own =
      ap (λ x. hear_all more (accept_response own x)) quiet
      ∙ ap (hear_all more) (accept_own own id kind false its)
      ∙ hear_all-Late c j more (answered id kind false own) h refl more_late in
    (
      ap (may_return id) quiet ∙ waiting_blocks id kind,
      ap (may_return id) end ∙ answered_returns id kind own,
      ap (λ x. (take_response x).0) end ∙ answered_gives id kind own,
    )
