-- ===== src/Client/Session.antt =====
-- mini-qf-client.cc: `rdp_loop_thread`, the thread of the session, and `qf_CliprdrMonitorReadyCallback`.
pub mod Ends
use qfreerdp.Base.{ℕ, Bool, true, false, List, [], ◌∷◌, ◌++◌, if◌then◌else◌, ◌==◌, ◌||◌}
use qfreerdp.Status.{Rc, is_error}

-- One round of the event loop, by what its calls give: whether the session shall be left
-- (freerdp_shall_disconnect_context, or `g_stopped`), the number of handles, whether the wait failed,
-- and whether the events could be handled.
pub record Round : Type 0 where
  pub leave : Bool
  pub handles : ℕ
  pub wait_ok : Bool
  pub check_ok : Bool

-- The calls that the thread makes, in their order; those that may fail before the loop carry whether
-- they succeeded.
pub data Call : Type 0 where
  new_instance new_context connect : Bool → Call
  get_handles wait check disconnect free_context free_instance : Call

-- The loop is still running behind the rounds given, or it was left.
pub data Ended : Type 0 where
  running left : Ended

unfoldable pub event_loop : List Round → List Call × Ended
event_loop [] = ([], running)
event_loop (r ∷ rs) =
    let (calls, e) = event_loop rs in
    if r.leave
    then ([], left)
    else (if r.handles == 0
        then (get_handles ∷ [], left)
        else (if r.wait_ok
            then (if r.check_ok
                then (get_handles ∷ wait ∷ check ∷ calls, e)
                else (get_handles ∷ wait ∷ check ∷ [], left))
            else (get_handles ∷ wait ∷ [], left)))

-- The label `fail`, reached from every path that has an instance.
abbrev pub cleanup : List Call
cleanup = free_context ∷ free_instance ∷ []

-- Behind the loop the session is disconnected and freed; a loop that is running makes no such call.
unfoldable pub end_session : List Call × Ended → List Call × Ended
end_session (calls, running) = (calls, running)
end_session (calls, left) = (calls ++ disconnect ∷ cleanup, left)

-- What freerdp_new, freerdp_context_new and freerdp_connect give.
pub record Opening : Type 0 where
  pub instance_ok : Bool
  pub context_ok : Bool
  pub connect_ok : Bool

unfoldable pub connected_session : Opening → List Round → List Call × Ended
unfolding event_loop end_session
connected_session o rs = if o.connect_ok then end_session (event_loop rs) else (cleanup, left)

unfoldable pub rdp_loop_thread : Opening → List Round → List Call × Ended
unfolding connected_session
rdp_loop_thread o rs =
    if o.instance_ok
    then (if o.context_ok
        then (
          new_instance true ∷ new_context true ∷ connect o.connect_ok ∷ (connected_session o rs).0,
          (connected_session o rs).1,
        )
        else (new_instance true ∷ new_context false ∷ cleanup, left))
    else (new_instance false ∷ [], left)
