-- ===== src/Log.antt =====
-- qf_log.h: the log of the client. A message is a text already; spdlog's logger is what it was set to
-- and the lines it has written.
pub mod Lines
use qfreerdp.Base.{
  ℕ, ◌-◌, Bool, true, false, List, [], ◌∷◌, ◌++◌, replicate, length, leb, if◌then◌else◌,
}
use qfreerdp.Entry.Types.{Text}

-- spdlog's levels that are used.
pub data Level : Type 0 where
  level_debug level_info level_warn level_err : Level

abbrev pub rank : Level → ℕ
rank level_debug = 1
rank level_info = 2
rank level_warn = 3
rank level_err = 4

-- `init_done` is the flag of `std::call_once`.
pub record Logger : Type 0 where
  pub init_done : Bool
  pub level : Level
  pub flush_on : Level
  pub lines : List Text

unfoldable pub init : Logger → Logger
init s =
    if s.init_done
    then s
    else record s { init_done = true; level = level_debug; flush_on = level_debug }

unfoldable pub to_level : Level → Logger → Level × Logger
unfolding init
to_level l s = (l, init s)

-- `{:<22}`: blanks behind the text.
abbrev pub pad : Text → Text
pad t = t ++ replicate (22 - length t) b' '

abbrev pub line : Text → Text → Text
line action message = pad (b'[' ∷ action ++ b']' ∷ []) ++ b' ' ∷ message

-- spdlog writes what is at least at its level.
unfoldable pub write : Level → Text → Text → Logger → Logger
write l action message s =
    if leb (rank s.level) (rank l)
    then record s { lines = s.lines ++ line action message ∷ [] }
    else s

unfoldable pub debug : Text → Text → Logger → Logger
unfolding write
debug action message s = write level_debug action message s

unfoldable pub info : Text → Text → Logger → Logger
unfolding write
info action message s = write level_info action message s

unfoldable pub warn : Text → Text → Logger → Logger
unfolding write
warn action message s = write level_warn action message s

unfoldable pub error : Text → Text → Logger → Logger
unfolding write
error action message s = write level_err action message s
