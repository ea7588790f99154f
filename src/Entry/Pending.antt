-- ===== src/Entry/Pending.antt =====
-- clipboard-entry.h: the pending response that the worker thread and the channel's thread share under
-- `m_remote_mutex`: `send_remote_file_request`, `server_file_contents_response`,
-- `wait_remote_response` and `stop_remote_file_worker`.
pub mod Run
pub mod Mailbox
pub mod Exchange
use qfreerdp.Base.{
  ℕ, Bool, true, false, ◌&&◌, ◌||◌, not, List, [], ◌∷◌, Option, none, some, ◌==◌, if◌then◌else◌,
}
use qfreerdp.Entry.Types.{Bytes, Response}
use qfreerdp.Status.{Rc, channel_rc_ok, error_invalid_parameter, is_error}

-- `remote_request_kind`.
pub data RequestKind : Type 0 where
  nothing size range : RequestKind

-- `remote_pending_response`.
pub record Pending : Type 0 where
  pub active : Bool
  pub ready : Bool
  pub is_ok : Bool
  pub stream_id : ℕ
  pub kind : RequestKind
  pub received : Bytes

abbrev pub cleared : Pending
cleared = record {
  active = false;
  ready = false;
  is_ok = false;
  stream_id = 0;
  kind = nothing;
  received = [];
}

-- `m_pending` and `m_remote_stopped`.
pub record Link : Type 0 where
  pub pending : Pending
  pub stopped : Bool

-- The data of an accepted response, empty where there are none.
abbrev pub bytes_of : Option Bytes → Bytes
bytes_of none = []
bytes_of (some b) = b

-- The first half of `send_remote_file_request`, and what it does when the request cannot be sent.
unfoldable pub open_request : ℕ → RequestKind → Link → Link
open_request id kind l = record l {
  pending = record cleared { active = true; stream_id = id; kind = kind };
}

unfoldable pub close_request : Rc → Link → Link
close_request rc l = if is_error rc then record l { pending = cleared } else l

-- A response for which nobody waits is dropped.
unfoldable pub accept_response : Response → Link → Link
accept_response r l =
    if not l.pending.active || not (r.stream_id == l.pending.stream_id) then l else record l {
      pending = record p {
        is_ok = r.is_ok;
        received = if r.is_ok then bytes_of r.requested_data else [];
        ready = true;
      };
    }
  where
    p : Pending
    p = l.pending

-- `context` and `response` may be null.
unfoldable pub server_file_contents_response : Bool → Option Response → Link → Rc × Link
unfolding accept_response
server_file_contents_response false r l = (error_invalid_parameter, l)
server_file_contents_response true none l = (error_invalid_parameter, l)
server_file_contents_response true (some r) l = (channel_rc_ok, accept_response r l)

-- The condition that `wait_remote_response` waits for, and what it does then.
unfoldable pub may_return : ℕ → Link → Bool
may_return id l = l.stopped || (l.pending.ready && l.pending.stream_id == id)

unfoldable pub take_response : Link → Option Bytes × Link
take_response l =
    if l.stopped || not l.pending.is_ok
    then (none, record l { pending = cleared })
    else (some l.pending.received, record l { pending = cleared })

unfoldable pub stop_remote_file_worker : Link → Link
stop_remote_file_worker l = record l { stopped = true; pending = record p { ready = true } }
  where
    p : Pending
    p = l.pending
