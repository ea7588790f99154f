-- ===== src/Entry/Fetch/Over.antt =====
-- A download that is answered, or stopped, is over after finitely many rounds.
use qfreerdp.Base.{
  ℕ, zero, suc, ◌+◌, ◌-◌, min, ◌≡◌, ◌<◌, ◌≤◌, ◌^◌, All, ltb→lt, refl, ap, ◌∙◌, Bool, true, false,
  Bool-cases, Option-cases, length, ltb, ◌||◌, inl, inr, [], ◌++◌, Option, none, some, arith,
  if◌then◌else◌,
}
use qfreerdp.Status.{is_error}
use qfreerdp.Entry.Types.{Text, Bytes, Request}
use qfreerdp.Entry.Pending.{RequestKind, size, range, Link}
use qfreerdp.Entry.Fetch.{
  Traffic, ask, put, Site, Fetched, saved, given_up, chunk_of, size_of, fetch_chunks, fetch,
}
use qfreerdp.Base.Word.{u64}
use qfreerdp.Entry.Download.{next_remote_stream_id, size_request, range_request, chunk_size}
use qfreerdp.Entry.Fetch.Refines.{fetch_done, fetch_refused, fetch_got}
use qfreerdp.Entry.Fetch.Ending.{any_settles, returned, ask_ends}
use qfreerdp.Entry.Fetch.Limits.{IsSent, ask-IsWire, size_of-bound, chunk_of-length}

-- The download has returned: the file is saved, or given up.
abbrev pub is_over : Fetched → Bool
is_over saved = true
is_over given_up = true
is_over _ = false

some-returned : {A : Type 0} (a : Option A) → returned a ≡ true → (x : A) × (a ≡ some x)
some-returned none h = absurd (ground arith)
some-returned (some x) h = (x, refl)

either_over :
    (b : Bool) (x y : Fetched × Site)
    → is_over x.0 ≡ true
    → is_over y.0 ≡ true
    → is_over (if b then x else y).0 ≡ true
either_over true x y p q = p
either_over false x y p q = q

module _ (env : Request → Traffic) (creates : Text → Bool) (writes : Text → ℕ → Bool)
    (settled : (r : Request)
      → (is_error (env r).rc || any_settles r.stream_id ((env r).early ++ (env r).later)) ≡ true)
    (sent : (r : Request) → All IsSent (env r).early × All IsSent (env r).later) where
  ask_settled :
      (r : Request) (kind : RequestKind) (l : Link)
      → (x : Option Bytes) × (ask (env r) r kind l ≡ (some x, (ask (env r) r kind l).1))
  ask_settled r kind l =
      let (x, e) =
        some-returned (ask (env r) r kind l).0
          (ask_ends (env r) r kind l ∙ ground (arith, settled r)) in
      (x, λ i. (e i, (ask (env r) r kind l).1))

  size_settled :
      (r : Request) (kind : RequestKind) (l : Link) (x : Option Bytes) (total : ℕ)
      → ask (env r) r kind l ≡ (some x, (ask (env r) r kind l).1)
      → size_of x ≡ some total
      → total < 2 ^ 64
  size_settled r kind l none total a e = absurd (ground arith)
  size_settled r kind l (some d) total a e =
      size_of-bound d total
        (ask-IsWire (env r) r kind l d (sent r).0 (sent r).1 (ap (λ y. y.0) a)).1 e

  chunk_settled :
      (r : Request) (kind : RequestKind) (l : Link) (n : ℕ) (x : Option Bytes) (b : Bytes)
      → ask (env r) r kind l ≡ (some x, (ask (env r) r kind l).1)
      → chunk_of n x ≡ some b
      → length b ≡ n
  chunk_settled r kind l n none b a e = absurd (ground arith)
  chunk_settled r kind l n (some d) b a e =
      chunk_of-length n d b (ask-IsWire (env r) r kind l d (sent r).0 (sent r).1 (ap (λ y. y.0) a))
        e

  chunks_end :
      (fuel : ℕ) (path : Text) (index total offset : ℕ) (done : Bytes) (s : Site)
      → total < 2 ^ 64
      → offset ≤ total
      → total - offset < fuel
      → is_over (fetch_chunks env creates writes fuel path index total offset done s).0 ≡ true
  unfolding fetch_chunks
  chunks_end zero path index total offset done s t o f = absurd (omega arith)
  chunks_end (suc fuel) path index total offset done s t o f =
      let n : ℕ = min chunk_size (total - offset) in
      let req = range_request (next_remote_stream_id s.next).0 index offset n in
      let (x, a) = ask_settled req range s.link in
      let l : Link = (ask (env req) req range s.link).1 in
      elim (Bool-cases (ltb offset total)) [
        | inr e ↦ rw (fetch_done env creates writes fuel path index total offset done s e) refl
        | inl e ↦ elim (Option-cases (chunk_of n x)) [
          | inl c ↦
              rw (fetch_refused env creates writes fuel path index total offset done s x l e a c)
                refl
          | inr (b, c) ↦
              let long : length b ≡ n = chunk_settled req range s.link n x b a c in
              let lt : offset < total = ltb→lt offset total e in
              let rest =
                chunks_end fuel path index total (u64 (offset + length b)) (done ++ b)
                  (record {
                    link = l;
                    next = (next_remote_stream_id s.next).1;
                    files = put path (some (done ++ b)) s.files;
                  })
                  t (omega arith) (omega arith) in
              ap (λ r. is_over r.0)
                (fetch_got env creates writes fuel path index total offset done s x l b e a c)
              ∙ either_over (writes path offset) _ _ rest refl
        ]
      ]

  -- If each request of a download fails at its sending, or a response with its stream id comes in, or
  -- the entry is stopped, and no response is longer than its 32-bit length can say, then the download
  -- returns, with the file saved or given up, whatever the responses hold and whatever the disk does:
  -- it neither waits for ever nor runs out of fuel.
  pub fetch_ends :
      (path : Text) (index : ℕ) (s : Site)
      → is_over (fetch env creates writes path index s).0 ≡ true
  unfolding fetch
  fetch_ends path index s =
      let req = size_request (next_remote_stream_id s.next).0 index in
      let (x, a) = ask_settled req size s.link in
      elim (Option-cases (size_of x)) [
        | inl c ↦ rw (a, fetch) (rw (c, fetch))
        | inr (total, c) ↦
            rw (a, fetch)
              (rw (c, fetch)
                (either_over (creates path) _ _
                  (chunks_end (suc total) path index total 0 []
                    (record {
                      link = (ask (env req) req size s.link).1;
                      next = (next_remote_stream_id s.next).1;
                      files = put path (some []) s.files;
                    })
                    (size_settled req size s.link x total a c) (omega arith) (omega arith))
                  refl))
      ]
