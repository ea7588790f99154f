-- ===== src/Client/Program/Joins.antt =====
-- The main thread and the session's thread together.
use qfreerdp.Base.{◌≡◌, ◌∙◌, Bool, true, ◌&&◌, List, [], ◌∷◌, ◌++◌, arith, if◌then◌else◌}
use qfreerdp.Client.Program.{
  Act, init_log, load_qml, make_client, give_client, start_thread, run_events, set_stopped, join,
  minus_one, event_loop, Ui, main,
}
use qfreerdp.Client.Session.{Round, Opening, left, rdp_loop_thread}
use qfreerdp.Client.Session.Ends.{stops, any_stops, rdp_loop_thread-remains}

-- How far the program is, by its thread: not started, with a client that the item has or has not yet,
-- running, running with the events handled, told to stop, joined. A stop with no thread ends it at once.
pub data Stage : Type 0 where
  fresh client_made client_given running served stopping joined never_started misused : Stage

abbrev pub follow : Stage → Act → Stage
follow s init_log = s
follow s load_qml = s
follow fresh make_client = client_made
follow client_made give_client = client_given
follow client_given start_thread = running
follow running run_events = served
follow served set_stopped = stopping
follow stopping join = joined
follow fresh set_stopped = never_started
follow _ _ = misused

abbrev pub reaches : Stage → List Act → Stage
reaches s [] = s
reaches s (a ∷ acts) = reaches (follow s a) acts

any_stops-append :
    (rs : List Round) (r : Round) (rest : List Round)
    → stops r ≡ true
    → any_stops (rs ++ r ∷ rest) ≡ true
any_stops-append [] r rest h = ground arith
any_stops-append (x ∷ rs) r rest h = ground (arith, any_stops-append rs r rest h)

-- The program starts its thread only behind a complete user interface, with a client that the item has;
-- a thread that was started is told to stop and then joined, behind the events, and the exit code is
-- theirs; otherwise there is no thread and the exit code is -1. And the thread is not in the way of the
-- join once it comes to a new round behind the flag: whatever rounds came before, it ends there.
pub main_joins :
    (ui : Ui) (o : Opening) (rs : List Round) (r : Round) (rest : List Round)
    → r.leave ≡ true
    → let (acts, x) = main ui in
      let complete : Bool = ui.has_root && ui.has_item in
      (reaches fresh acts ≡ (if complete then joined else never_started))
      × (x ≡ (if complete then event_loop ui.exit_code else minus_one))
      × ((rdp_loop_thread o (rs ++ r ∷ rest)).1 ≡ left)
unfolding main
main_joins ui o rs r rest h =
    let (e, _) = rdp_loop_thread-remains o (rs ++ r ∷ rest) in
    let any = any_stops-append rs r rest (ground arith) in
    (ground arith, ground arith, e ∙ ground (arith, any))
