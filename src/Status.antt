-- ===== src/Status.antt =====
-- The `UINT` results that the channel code hands on, by the names that the sources use. `CHANNEL_RC_OK`
-- is the one that `if (error)` takes for success.
use qfreerdp.Base.{ℕ, Bool, true, false}

pub data Rc : Type 0 where
  channel_rc_ok : Rc
  channel_rc_no_memory : Rc
  error_internal_error : Rc
  error_invalid_parameter : Rc
  cb_response_fail : Rc
  other_error : ℕ → Rc

abbrev pub is_error : Rc → Bool
is_error channel_rc_ok = false
is_error channel_rc_no_memory = true
is_error error_internal_error = true
is_error error_invalid_parameter = true
is_error cb_response_fail = true
is_error (other_error _) = true
