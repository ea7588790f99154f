-- ===== src/Client/Program.antt =====
-- mini-qf-client.cc: `main` and `stop`.
pub mod Joins
use qfreerdp.Base.{ℕ, Bool, true, false, List, [], ◌∷◌, ◌++◌, if◌then◌else◌}

-- What the main thread does with the session's thread and the item, in its order. `run_events` is
-- `app.exec()`.
pub data Act : Type 0 where
  init_log load_qml make_client give_client start_thread run_events set_stopped join : Act

-- What main returns: -1, or what the event loop gives.
pub data Exit : Type 0 where
  minus_one : Exit
  event_loop : ℕ → Exit

-- `has_thread` is `g_freerdp_thread`.
unfoldable pub stop : Bool → List Act
stop has_thread = if has_thread then set_stopped ∷ join ∷ [] else set_stopped ∷ []

-- Whether the QML file gives a root object, whether the item is found in it, and what the event loop
-- returns.
pub record Ui : Type 0 where
  pub has_root : Bool
  pub has_item : Bool
  pub exit_code : ℕ

unfoldable pub main : Ui → List Act × Exit
unfolding stop
main ui =
    if ui.has_root
    then (if ui.has_item
        then (
          init_log ∷ load_qml ∷ make_client ∷ give_client ∷ start_thread ∷ run_events ∷ stop true,
          event_loop ui.exit_code,
        )
        else (init_log ∷ load_qml ∷ stop false, minus_one))
    else (init_log ∷ load_qml ∷ stop false, minus_one)
