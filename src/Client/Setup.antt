-- ===== src/Client/Setup.antt =====
-- mini-qf-client.cc: `qt_clipboard_channel_init`, `qf_CliprdrMonitorReadyCallback`, and the callbacks
-- `qf_ServerFileContentsRequest` and `qf_ServerFileContentsResponse`.
pub mod Ready
use qfreerdp.Base.{
  ℕ, Bool, true, false, not, ◌&&◌, ◌||◌, List, [], ◌∷◌, Option, none, some, if◌then◌else◌,
}
use qfreerdp.Status.{Rc, channel_rc_ok, error_invalid_parameter, is_error}
use qfreerdp.Entry.Types.{Request, Response, FileInfo}
use qfreerdp.Entry.Serve.{Disk, Reply, server_file_contents_request}
use qfreerdp.Entry.Pending.{Link, server_file_contents_response}

-- What is there of the client: the clipboard system, the file context and the entry, and which
-- callbacks the channel has: those of the monitor and the formats, and those of file contents; and
-- whether the client has the channel (`cliprdr_client_context_`), to announce the local clipboard on.
pub record Setup : Type 0 where
  pub has_system : Bool
  pub has_file_context : Bool
  pub has_entry : Bool
  pub hears_formats : Bool
  pub hears_files : Bool
  pub has_channel : Bool

-- What ClipboardCreate, cliprdr_file_context_new and cliprdr_file_context_init give.
pub record Outcome : Type 0 where
  pub system_ok : Bool
  pub file_context_ok : Bool
  pub file_init_ok : Bool

-- Behind the checks: the callbacks, those for files only when the file context takes the channel.
unfoldable pub hook_channel : Outcome → Setup → Setup
hook_channel o s =
    if o.file_init_ok
    then record s { hears_formats = true; has_entry = true; hears_files = true }
    else record s { hears_formats = true }

-- `known` says that the channel is not null.
unfoldable pub qt_clipboard_channel_init : Bool → Outcome → Setup → Setup
unfolding hook_channel
qt_clipboard_channel_init known o s =
    if not known
    then s
    else (if not o.system_ok
        then record s { has_system = false }
        else (if s.has_file_context || o.file_context_ok
            then hook_channel o (record s { has_system = true; has_file_context = true })
            else record s { has_system = true }))

-- The flags of the general capability set.
pub data Feature : Type 0 where
  long_format_names stream_fileclip no_file_paths : Feature

-- What the client sends when the monitor is ready.
pub data Sent : Type 0 where
  capabilities : List Feature → Sent
  empty_format_list : Sent

abbrev pub features : List Feature
features = long_format_names ∷ stream_fileclip ∷ no_file_paths ∷ []

-- `caps_rc` and `list_rc` are the results of ClientCapabilities and ClientFormatList.
unfoldable pub monitor_ready : Rc → Rc → Setup → Rc × List Sent × Setup
monitor_ready caps_rc list_rc s =
    let t : Setup = record s { has_channel = true } in
    if is_error caps_rc
    then (caps_rc, capabilities features ∷ [], t)
    else (list_rc, capabilities features ∷ empty_format_list ∷ [], t)

-- With no entry the request is refused.
unfoldable pub qf_server_file_contents_request :
    Bool → Option (Response → Rc) → Disk → Option (List FileInfo) → Option Request → Reply
qf_server_file_contents_request true send disk client req =
    server_file_contents_request send disk client req
qf_server_file_contents_request false send disk client req = record {
  rc = error_invalid_parameter;
  sent = none;
}

unfoldable pub qf_server_file_contents_response : Bool → Bool → Option Response → Link → Rc × Link
qf_server_file_contents_response true context r l = server_file_contents_response context r l
qf_server_file_contents_response false context r l = (error_invalid_parameter, l)
