-- ===== src/Entry/Fetch/Refines.antt =====
-- The download on the shared state is the download whose requests are simply answered.
use qfreerdp.Base.{
  ℕ, zero, suc, ◌+◌, ◌-◌, min, ◌≡◌, refl, ap, ◌∙◌, Bool, true, false, Bool-cases, Option-cases, inl,
  inr, [], ◌++◌, Option, none, some, arith, length, ltb, if◌then◌else◌, ◌⊎◌,
}
use qfreerdp.Base.Word.{u64}
use qfreerdp.Entry.Types.{Text, Bytes, Request}
use qfreerdp.Entry.Download.{
  LoopEnd, finished, failed, out_of_fuel as short_of_fuel, next_remote_stream_id, size_request,
  range_request, request_remote_size, request_remote_range, chunk_size, download_chunks,
  download_remote_file,
}
use qfreerdp.Entry.Download.Safety.{chunks_done, chunks_refused, chunks_got}
use qfreerdp.Entry.Pending.{size, range, Link, cleared}
use qfreerdp.Entry.Fetch.{
  Traffic, ask, Files, put, Site, Fetched, saved, given_up, out_of_fuel, size_of, chunk_of,
  fetch_chunks, fetch,
}
use qfreerdp.Entry.Fetch.Answered.{Answers, ask-Answers}

abbrev pub quiet : Link
quiet = record { pending = cleared; stopped = false }

-- What a download leaves of the files that were there: its content at its path, or nothing there.
abbrev pub Leaves : Text → Files → LoopEnd → Fetched × Site → Type 0
Leaves path files (finished b) (x, t) =
    (x ≡ saved) × ((q : Text) → t.files q ≡ put path (some b) files q)
Leaves path files failed (x, t) = (x ≡ given_up) × ((q : Text) → t.files q ≡ put path none files q)
Leaves path files short_of_fuel (x, t) = x ≡ out_of_fuel

put_again :
    (path : Text) (x y : Option Bytes) (s files : Files) (q : Text)
    → s q ≡ put path x files q
    → put path y s q ≡ put path y files q
put_again path x y s files q h = ground arith

module _ (env : Request → Traffic) (creates : Text → Bool) (writes : Text → ℕ → Bool) where
  pub fetch_done :
      (fuel : ℕ) (path : Text) (index total offset : ℕ) (done : Bytes) (s : Site)
      → ltb offset total ≡ false
      → fetch_chunks env creates writes (suc fuel) path index total offset done s ≡ (saved, s)
  unfolding fetch_chunks
  fetch_done fuel path index total offset done s e = rw (e, fetch_chunks)

  module _ (fuel : ℕ) (path : Text) (index total offset : ℕ) (done : Bytes) (s : Site)
      (x : Option Bytes) (l : Link) where
    abbrev pub req : Request
    req =
        range_request (next_remote_stream_id s.next).0 index offset
          (min chunk_size (total - offset))

    -- The site behind a request that was answered.
    abbrev pub asked : Files → Site
    asked files = record { link = l; next = (next_remote_stream_id s.next).1; files = files }

    pub fetch_refused :
        ltb offset total ≡ true
        → ask (env req) req range s.link ≡ (some x, l)
        → chunk_of (min chunk_size (total - offset)) x ≡ none
        → fetch_chunks env creates writes (suc fuel) path index total offset done s
          ≡ (given_up, asked (put path none s.files))
    unfolding fetch_chunks
    fetch_refused e a c = rw (e, fetch_chunks) (rw (a, fetch_chunks) (rw (c, fetch_chunks) (rw a)))

    pub fetch_got :
        (b : Bytes)
        → ltb offset total ≡ true
        → ask (env req) req range s.link ≡ (some x, l)
        → chunk_of (min chunk_size (total - offset)) x ≡ some b
        → fetch_chunks env creates writes (suc fuel) path index total offset done s ≡ (
            if writes path offset
            then fetch_chunks env creates writes fuel path index total
                (u64 (offset + length b))
                (done ++ b)
                (asked (put path (some (done ++ b)) s.files))
            else (given_up, asked (put path none s.files)))
    unfolding fetch_chunks
    fetch_got b e a c =
        rw (e, fetch_chunks)
          (rw (a, fetch_chunks)
            (rw (c, fetch_chunks)
              (elim (Bool-cases (writes path offset)) [
                | inl w ↦ rw (w, fetch_chunks) (rw a)
                | inr w ↦ rw (w, fetch_chunks) (rw a)
              ])))

-- The two ways of reading an answer.
range-chunk_of :
    (remote : Request → Option Bytes) (write_ok : ℕ → Bool) (id index offset n : ℕ)
    → request_remote_range remote write_ok id index offset n
      ≡ chunk_of n (remote (range_request id index offset n))
unfolding request_remote_range
range-chunk_of remote write_ok id index offset n = ground arith

size-size_of :
    (remote : Request → Option Bytes) (write_ok : ℕ → Bool) (id index : ℕ)
    → request_remote_size remote write_ok id index ≡ size_of (remote (size_request id index))
unfolding request_remote_size
size-size_of remote write_ok id index = ground arith

module _ (remote : Request → Option Bytes) (env : Request → Traffic) (creates : Text → Bool)
    (writes : Text → ℕ → Bool)
    (answers : (r : Request) → Answers (env r) r.stream_id (remote r)) where
  chunks-Leaves :
      (fuel : ℕ) (path : Text) (index total offset : ℕ) (done : Bytes) (s : Site) (files : Files)
      → s.link.stopped ≡ false
      → ((q : Text) → s.files q ≡ put path (some done) files q)
      → let (e, next) = download_chunks remote (writes path) fuel index total offset done s.next in
        let r = fetch_chunks env creates writes fuel path index total offset done s in
        Leaves path files e r × (r.1.next ≡ next) × (r.1.link.stopped ≡ false)
  unfolding fetch_chunks download_chunks
  chunks-Leaves zero path index total offset done s files h f = (refl, refl, h)
  chunks-Leaves (suc fuel) path index total offset done s files h f =
      let n : ℕ = min chunk_size (total - offset) in
      let (id, next') = next_remote_stream_id s.next in
      let req = range_request id index offset n in
      let a = ask-Answers (env req) req range s.link (remote req) h (answers req) in
      let got = range-chunk_of remote (writes path) id index offset n in
      elim (Bool-cases (ltb offset total)) [
        | inr e ↦
            rw
              (
                chunks_done remote (writes path) fuel index total offset done s.next e,
                fetch_done env creates writes fuel path index total offset done s e,
              )
              ((refl, f), refl, h)
        | inl e ↦ elim (Option-cases (chunk_of n (remote req))) [
          | inl c ↦
              rw
                (
                  chunks_refused remote (writes path) fuel index total offset done s.next e
                      (got ∙ c),
                  fetch_refused env creates writes fuel path index total offset done s (remote req)
                      quiet e a c,
                )
                ((refl, λ q. put_again path (some done) none s.files files q (f q)), refl, refl)
          | inr (b, c) ↦
              let site : Site = record {
                link = quiet;
                next = next';
                files = put path (some (done ++ b)) s.files;
              } in
              let rest =
                chunks-Leaves fuel path index total (u64 (offset + length b)) (done ++ b) site files
                  refl (λ q. put_again path (some done) (some (done ++ b)) s.files files q (f q)) in
              rw
                (
                  chunks_got remote (writes path) fuel index total offset done s.next b e (got ∙ c),
                  fetch_got env creates writes fuel path index total offset done s (remote req)
                      quiet b e a c,
                )
                (elim (Bool-cases (writes path offset)) [
                  | inl w ↦ rw w rest
                  | inr w ↦ rw w (
                    (refl, λ q. put_again path (some done) none s.files files q (f q)),
                    refl,
                    refl,
                  )
                ])
        ]
      ]

-- What a whole download leaves: given up before the file is created, it leaves all files as they were.
abbrev pub Ends : Text → Files → LoopEnd → Fetched × Site → Type 0
Ends path files (finished b) r = Leaves path files (finished b) r
Ends path files failed (x, t) =
    (x ≡ given_up)
    × (((q : Text) → t.files q ≡ files q) ⊎ ((q : Text) → t.files q ≡ put path none files q))
Ends path files short_of_fuel r = Leaves path files short_of_fuel r

Ends-Leaves :
    (path : Text) (files : Files) (e : LoopEnd) (r : Fetched × Site)
    → Leaves path files e r
    → Ends path files e r
Ends-Leaves path files (finished b) r h = h
Ends-Leaves path files failed r (x, f) = (x, inr f)
Ends-Leaves path files short_of_fuel r h = h

module _ (remote : Request → Option Bytes) (env : Request → Traffic) (creates : Text → Bool)
    (writes : Text → ℕ → Bool)
    (answers : (r : Request) → Answers (env r) r.stream_id (remote r)) where
  -- The download on the shared state, with whatever else comes in while it waits, is the download whose
  -- requests are simply answered: if each request is refused at its sending or gets one response with
  -- its stream id, among responses to others, and the entry is not stopped, then it ends as that one
  -- ends, with the same content at its path, or, if it is given up, with no file there, or all files as
  -- they were, and with all other files untouched; the counter is the same, and the entry is not stopped.
  -- The removal of a file that is given up succeeds.
  pub fetch_refines :
      (path : Text) (index : ℕ) (s : Site)
      → s.link.stopped ≡ false
      → let (e, next) = download_remote_file remote (writes path) (creates path) index s.next in
        let r = fetch env creates writes path index s in
        Ends path s.files e r × (r.1.next ≡ next) × (r.1.link.stopped ≡ false)
  unfolding fetch download_remote_file
  fetch_refines path index s h =
      let (id, next') = next_remote_stream_id s.next in
      let req = size_request id index in
      let a = ask-Answers (env req) req size s.link (remote req) h (answers req) in
      let got = size-size_of remote (writes path) id index in
      elim (Option-cases (size_of (remote req))) [
        | inl c ↦
            rw (a, fetch)
              (rw (c, fetch)
                (rw (got ∙ c, download_remote_file)
                  ((refl, inl (λ q. refl)), refl, ap (λ x. x.1.stopped) a)))
        | inr (total, c) ↦
            let site : Site = record {
              link = quiet;
              next = next';
              files = put path (some []) s.files;
            } in
            let (l, m, n) =
              chunks-Leaves remote env creates writes answers (suc total) path index total 0 [] site
                s.files refl (λ q. refl) in
            rw (a, fetch)
              (rw (c, fetch)
                (rw (got ∙ c, download_remote_file)
                  (elim (Bool-cases (creates path)) [
                    | inr k ↦ rw k ((refl, inl (λ q. refl)), refl, ap (λ x. x.1.stopped) a)
                    | inl k ↦ rw k (rw a (Ends-Leaves path s.files _ _ l, m, n))
                  ])))
      ]
