-- ===== src/Entry/Fetch/Elsewhere.antt =====
-- A download touches no other file than the one at its path.
use qfreerdp.Base.{
  ℕ, zero, suc, ◌+◌, ◌-◌, min, ◌≡◌, refl, ◌∙◌, Bool, true, false, Bool-cases, Option-cases, inl,
  inr, [], ◌++◌, Option, none, some, length, ltb, if◌then◌else◌, else_branch,
}
use qfreerdp.Base.Word.{u64}
use qfreerdp.Entry.Types.{Text, Bytes, Request}
use qfreerdp.Entry.Batch.{same_text}
use qfreerdp.Entry.Download.{next_remote_stream_id, size_request, range_request, chunk_size}
use qfreerdp.Entry.Pending.{size, range, Link}
use qfreerdp.Entry.Fetch.{
  Traffic, ask, Files, put, Site, Fetched, size_of, chunk_of, fetch_chunks, fetch,
}
use qfreerdp.Entry.Fetch.Refines.{fetch_done, fetch_refused, fetch_got}

module _ (path q : Text) (other : same_text path q ≡ false) where
  put_elsewhere : (b : Option Bytes) (files : Files) → put path b files q ≡ files q
  put_elsewhere b files = else_branch (same_text path q) b (files q) other

  -- What a step leaves at `q`.
  abbrev Keeps : Files → Fetched × Site → Type 0
  Keeps files r = r.1.files q ≡ files q

  either-Keeps :
      (b : Bool) (files : Files) (x y : Fetched × Site)
      → Keeps files x
      → Keeps files y
      → Keeps files (if b then x else y)
  either-Keeps true files x y h k = h
  either-Keeps false files x y h k = k

  module _ (env : Request → Traffic) (creates : Text → Bool) (writes : Text → ℕ → Bool) where
    fetch_waits :
        (fuel index total offset : ℕ) (done : Bytes) (s : Site)
        → ltb offset total ≡ true
        → let req =
            range_request
              (next_remote_stream_id s.next).0
              index
              offset
              (min chunk_size (total - offset)) in
          (ask (env req) req range s.link).0 ≡ none
          → Keeps s.files
              (fetch_chunks env creates writes (suc fuel) path index total offset done s)
    unfolding fetch_chunks
    fetch_waits fuel index total offset done s e f =
        rw (e, fetch_chunks) (rw (f, fetch_chunks) refl)

    fetch_chunks-Keeps :
        (fuel index total offset : ℕ) (done : Bytes) (s : Site)
        → Keeps s.files (fetch_chunks env creates writes fuel path index total offset done s)
    unfolding fetch_chunks
    fetch_chunks-Keeps zero index total offset done s = refl
    fetch_chunks-Keeps (suc fuel) index total offset done s =
        let n : ℕ = min chunk_size (total - offset) in
        let req = range_request (next_remote_stream_id s.next).0 index offset n in
        let l : Link = (ask (env req) req range s.link).1 in
        elim (Bool-cases (ltb offset total)) [
          | inr e ↦ rw (fetch_done env creates writes fuel path index total offset done s e) refl
          | inl e ↦ elim (Option-cases (ask (env req) req range s.link).0) [
            | inl f ↦ fetch_waits fuel index total offset done s e f
            | inr (x, f) ↦
                let a : ask (env req) req range s.link ≡ (some x, l) = λ i. (f i, l) in
                elim (Option-cases (chunk_of n x)) [
                  | inl c ↦
                      rw
                        (fetch_refused env creates writes fuel path index total offset done s x l e
                          a c)
                        (put_elsewhere none s.files)
                  | inr (b, c) ↦
                      rw
                        (fetch_got env creates writes fuel path index total offset done s x l b e a
                          c)
                        (either-Keeps (writes path offset) s.files _ _
                          (fetch_chunks-Keeps fuel index total (u64 (offset + length b)) (done ++ b)
                              (record {
                                link = l;
                                next = (next_remote_stream_id s.next).1;
                                files = put path (some (done ++ b)) s.files;
                              })
                            ∙ put_elsewhere (some (done ++ b)) s.files)
                          (put_elsewhere none s.files))
                ]
          ]
        ]

    pub fetch-Keeps :
        (index : ℕ) (s : Site) → (fetch env creates writes path index s).1.files q ≡ s.files q
    unfolding fetch
    fetch-Keeps index s =
        let req = size_request (next_remote_stream_id s.next).0 index in
        let l : Link = (ask (env req) req size s.link).1 in
        elim (Option-cases (ask (env req) req size s.link).0) [
          | inl f ↦ rw (f, fetch) refl
          | inr (x, f) ↦ elim (Option-cases (size_of x)) [
            | inl c ↦ rw (f, fetch) (rw (c, fetch) refl)
            | inr (total, c) ↦
                rw (f, fetch)
                  (rw (c, fetch)
                    (either-Keeps (creates path) s.files _ _
                      (fetch_chunks-Keeps (suc total) index total 0 [] (record {
                        link = l;
                        next = (next_remote_stream_id s.next).1;
                        files = put path (some []) s.files;
                      })
                        ∙ put_elsewhere (some []) s.files)
                      refl))
          ]
        ]
