-- ===== src/Client/Session/Ends.antt =====
-- The session's thread ends, and frees what it made.
use qfreerdp.Base.{
  ◌≡◌, refl, inl, inr, Bool, true, false, Bool-cases, ◌||◌, ◌&&◌, not, List, [], ◌∷◌, ◌++◌,
  if◌then◌else◌, ◌==◌, arith, ap, ◌∙◌,
}
use qfreerdp.Client.Session.{
  Round, Call, new_instance, new_context, connect, get_handles, wait, check, disconnect,
  free_context, free_instance, Ended, running, left, Opening, event_loop, end_session,
  connected_session, rdp_loop_thread,
}

-- A round that ends the loop: the session shall be left, or a call of the round fails.
abbrev pub stops : Round → Bool
stops r = r.leave || (r.handles == 0 || not (r.wait_ok && r.check_ok))

abbrev pub any_stops : List Round → Bool
any_stops [] = false
any_stops (r ∷ rs) = stops r || any_stops rs

abbrev pub status : Bool → Ended
status true = left
status false = running

-- The order in which the calls are allowed. The states are: nothing is made, no instance could be made,
-- an instance alone, with a context, with no session (no context, or no connection), connected,
-- connected with the handles of a round, with their signals, disconnected, with the context freed, and
-- all freed. A session that is connected can only be disconnected, and one that is not cannot.
pub data Stage : Type 0 where
  nothing_made no_instance instance_only context no_session connected polled signalled : Stage
  disconnected context_freed freed misused : Stage

abbrev pub follow : Stage → Call → Stage
follow nothing_made (new_instance true) = instance_only
follow nothing_made (new_instance false) = no_instance
follow instance_only (new_context true) = context
follow instance_only (new_context false) = no_session
follow context (connect true) = connected
follow context (connect false) = no_session
follow connected get_handles = polled
follow polled wait = signalled
follow signalled check = connected
follow connected disconnect = disconnected
follow polled disconnect = disconnected
follow signalled disconnect = disconnected
follow no_session free_context = context_freed
follow disconnected free_context = context_freed
follow context_freed free_instance = freed
follow _ _ = misused

abbrev pub walked : Stage → List Call → Stage
walked s [] = s
walked s (c ∷ cs) = walked (follow s c) cs

walked-append : (s : Stage) (cs ds : List Call) → walked s (cs ++ ds) ≡ walked (walked s cs) ds
walked-append s [] ds = refl
walked-append s (c ∷ cs) ds = walked-append (follow s c) cs ds

-- Behind the loop the session can be disconnected, and one that is still in the loop is between rounds.
abbrev Loops : List Call × Ended → Type 0
Loops (cs, left) = follow (walked connected cs) disconnect ≡ disconnected
Loops (cs, running) = walked connected cs ≡ connected

event_loop-status : (rs : List Round) → (event_loop rs).1 ≡ status (any_stops rs)
unfolding event_loop
event_loop-status [] = refl
event_loop-status (r ∷ rs) = let e = event_loop-status rs in ground arith

Loops-round : (p : List Call × Ended) → Loops p → Loops (get_handles ∷ wait ∷ check ∷ p.0, p.1)
Loops-round (cs, left) h = h
Loops-round (cs, running) h = h

event_loop-Loops : (rs : List Round) → Loops (event_loop rs)
unfolding event_loop
event_loop-Loops [] = refl
event_loop-Loops (r ∷ rs) =
    let ih = Loops-round (event_loop rs) (event_loop-Loops rs) in
    elim (Bool-cases r.leave) [
      | inl a ↦ rw a refl
      | inr a ↦ elim (Bool-cases (r.handles == 0)) [
        | inl b ↦ rw (a, b) refl
        | inr b ↦ elim (Bool-cases r.wait_ok) [
          | inr c ↦ rw (a, b, c) refl
          | inl c ↦ elim (Bool-cases r.check_ok) [
            | inr d ↦ rw (a, b, c, d) refl
            | inl d ↦ rw (a, b, c, d) ih
          ]
        ]
      ]
    ]

-- What the thread leaves behind: no instance was made, or everything is freed when it has ended.
abbrev pub remains : Bool → Ended → Stage
remains false e = no_instance
remains true left = freed
remains true running = connected

end_session-walked :
    (p : List Call × Ended) → Loops p → walked connected (end_session p).0 ≡ remains true p.1
unfolding end_session
end_session-walked (cs, running) h = h
end_session-walked (cs, left) h =
    walked-append connected cs (disconnect ∷ free_context ∷ free_instance ∷ [])
    ∙ ap (λ s. walked s (free_context ∷ free_instance ∷ [])) h

end_session-status : (p : List Call × Ended) → (end_session p).1 ≡ p.1
unfolding end_session
end_session-status (cs, running) = refl
end_session-status (cs, left) = refl

pub rdp_loop_thread-remains :
    (o : Opening) (rs : List Round)
    → let (calls, e) = rdp_loop_thread o rs in
      (e
        ≡ (if o.instance_ok && (o.context_ok && o.connect_ok) then status (any_stops rs) else left))
      × (walked nothing_made calls ≡ remains o.instance_ok e)
unfolding rdp_loop_thread connected_session
rdp_loop_thread-remains o rs =
    let e = event_loop-status rs in
    let s = end_session-status (event_loop rs) in
    let t = end_session-walked (event_loop rs) (event_loop-Loops rs) in
    elim (Bool-cases o.instance_ok) [
      | inr a ↦ (ground arith, ground arith)
      | inl a ↦ elim (Bool-cases o.context_ok) [
        | inr b ↦ (ground arith, ground arith)
        | inl b ↦ elim (Bool-cases o.connect_ok) [
          | inr c ↦ (ground arith, ground arith)
          | inl c ↦ (ground arith, ground arith)
        ]
      ]
    ]
