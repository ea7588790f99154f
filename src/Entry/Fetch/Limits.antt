-- ===== src/Entry/Fetch/Limits.antt =====
-- What the lengths of the protocol bound: the announced size, and the length of a chunk.
use qfreerdp.Base.{
  ℕ, zero, suc, ◌^◌, ◌≤◌, ◌<◌, ◌≡◌, ◌≢◌, refl, sym, ap, ◌∙◌, subst, not, ◌||◌, Bool, true, false,
  Bool-cases, inl, inr, List, [], ◌∷◌, All, Option, none, some, arith, length, length-take, take,
  ◌==◌, if◌then◌else◌,
}
use native.Mathlib.Nat.{pow-succ'}
use qfreerdp.Base.Bytes.{of_le}
use qfreerdp.Status.{is_error}
use qfreerdp.Entry.Types.{Bytes, Request}
use qfreerdp.Entry.Pending.{
  RequestKind, Link, bytes_of, open_request, accept_response, take_response,
  stop_remote_file_worker,
}
use qfreerdp.Entry.Fetch.{
  Event, hears, stops, happen, happen_all, Traffic, wait_remote_response, ask, size_of, chunk_of,
}
use qfreerdp.Entry.Fetch.Answered.{ask_refused, ask_sent, look, wait-look}

abbrev pub IsByte : ℕ → Type 0
IsByte n = n < 256

-- Data whose length is a UINT32.
abbrev pub IsWire : Bytes → Type 0
IsWire b = (length b < 2 ^ 32) × All IsByte b

abbrev pub IsSent : Event → Type 0
IsSent (hears r) = IsWire (bytes_of r.requested_data)
IsSent stops = Unit {0}

abbrev Holds : Link → Type 0
Holds l = IsWire l.pending.received

open-Holds : (id : ℕ) (kind : RequestKind) (l : Link) → Holds (open_request id kind l)
unfolding open_request
open-Holds id kind l = (omega arith, tt)

-- What both branches of a conditional have.
both {ℓ κ} :
    {A : Type ℓ} → (P : A → Type κ) (b : Bool) (x y : A) → P x → P y → P (if b then x else y)
both P true x y h k = h
both P false x y h k = k

happen-Holds : (e : Event) (l : Link) → IsSent e → Holds l → Holds (happen e l)
unfolding accept_response stop_remote_file_worker
happen-Holds (hears r) l s h =
    both Holds (not l.pending.active || not (r.stream_id == l.pending.stream_id)) l _ h
      (both IsWire r.is_ok (bytes_of r.requested_data) [] s (omega arith, tt))
happen-Holds stops l s h = h

happen_all-Holds : (es : List Event) (l : Link) → All IsSent es → Holds l → Holds (happen_all es l)
happen_all-Holds [] l s h = h
happen_all-Holds (e ∷ es) l s h = happen_all-Holds es (happen e l) s.1 (happen-Holds e l s.0 h)

look_taken :
    (id : ℕ) (m : Link) (b : Bytes) → (look id m).0 ≡ some (some b) → m.pending.received ≡ b
unfolding take_response
look_taken id m b e = ground arith

wait-IsWire :
    (later : List Event) (id : ℕ) (l : Link) (b : Bytes)
    → All IsSent later
    → Holds l
    → (wait_remote_response later id l).0 ≡ some (some b)
    → IsWire b
wait-IsWire later id l b s h e =
    subst IsWire
      (look_taken id (happen_all later l) b (ap (λ x. x.0) (sym (wait-look later id l)) ∙ e))
      (happen_all-Holds later l s h)

no_answer : (a : Option Bytes) (b : Bytes) → a ≡ none → some a ≢ some (some b)
no_answer a b h e = ground arith

pub ask-IsWire :
    (t : Traffic) (r : Request) (kind : RequestKind) (l : Link) (b : Bytes)
    → All IsSent t.early
    → All IsSent t.later
    → (ask t r kind l).0 ≡ some (some b)
    → IsWire b
ask-IsWire t r kind l b early later e = elim (Bool-cases (is_error t.rc)) [
  | inl f ↦ absurd (no_answer none b refl (ap (λ x. x.0) (sym (ask_refused t r kind l f)) ∙ e))
  | inr f ↦
      wait-IsWire t.later r.stream_id _ b later
        (happen_all-Holds t.early _ early (open-Holds r.stream_id kind l))
        (ap (λ x. x.0) (sym (ask_sent t r kind l f)) ∙ e)
]

pow_positive : (n : ℕ) → 0 < 256 ^ n
pow_positive zero = omega arith
pow_positive (suc n) = omega (arith, pow_positive n, pow-succ' 256 n)

of_le-bound : (n : ℕ) (b : Bytes) → length b ≤ n → All IsByte b → of_le b < 256 ^ n
of_le-bound zero [] h a = omega arith
of_le-bound zero (x ∷ b) h a = absurd (omega arith)
of_le-bound (suc n) [] h a = pow_positive (suc n)
of_le-bound (suc n) (x ∷ b) h a =
    omega (arith, of_le-bound n b (omega arith) a.1, a.0, pow-succ' 256 n)

All-take : (n : ℕ) (b : Bytes) → All IsByte b → All IsByte (take n b)
All-take zero b a = tt
All-take (suc n) [] a = tt
All-take (suc n) (x ∷ b) a = (a.0, All-take n b a.1)

pub size_of-bound :
    (b : Bytes) (total : ℕ) → All IsByte b → size_of (some b) ≡ some total → total < 2 ^ 64
size_of-bound b total a e =
    let it : total ≡ of_le (take 8 b) = ground arith in
    omega (arith, it, of_le-bound 8 (take 8 b) (omega (arith, length-take 8 b)) (All-take 8 b a))

pub chunk_of-length : (n : ℕ) (b c : Bytes) → IsWire b → chunk_of n (some b) ≡ some c → length c ≡ n
chunk_of-length n b c w e = ground (arith, w.0)
