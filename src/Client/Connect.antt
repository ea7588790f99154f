-- ===== src/Client/Connect.antt =====
-- mini-qf-client.cc: `my_pre_connect`, `my_load_channels` with `qf_load_cliprdr_addin`,
-- `my_post_connect` and `qf_channel_connected_callback`, which freerdp_connect calls.
pub mod Ready
use Prim.Native.String.{String}
use qfreerdp.Base.{
  ℕ, Bool, true, false, not, ◌&&◌, ◌||◌, List, [], ◌∷◌, Option, none, some, ◌==◌, if◌then◌else◌,
}
use qfreerdp.Status.{Rc, is_error}
use qfreerdp.Entry.Types.{Text}
use qfreerdp.Entry.Batch.{has_path, same_text}
use qfreerdp.Client.Setup.{Setup, Outcome, qt_clipboard_channel_init}

-- `FreeRDP_…`, the settings that are made.
pub data Setting : Type 0 where
  server_hostname server_port username password desktop_width desktop_height : Setting
  color_depth ignore_certificate deactivate_client_decoding proxy_type : Setting
  network_auto_detect support_heartbeat_pdu support_multitransport device_redirection : Setting
  redirect_clipboard clipboard_feature_mask : Setting

-- A constant of FreeRDP is a number.
pub data Value : Type 0 where
  text : String → Value
  number : ℕ → Value
  flag : Bool → Value

abbrev pub code : Setting → ℕ
code server_hostname = 0
code server_port = 1
code username = 2
code password = 3
code desktop_width = 4
code desktop_height = 5
code color_depth = 6
code ignore_certificate = 7
code deactivate_client_decoding = 8
code proxy_type = 9
code network_auto_detect = 10
code support_heartbeat_pdu = 11
code support_multitransport = 12
code device_redirection = 13
code redirect_clipboard = 14
code clipboard_feature_mask = 15

-- The latest value of a setting counts.
abbrev pub get : Setting → List (Setting × Value) → Option Value
get k [] = none
get k ((j, v) ∷ rest) = if code j == code k then some v else get k rest

-- The callbacks of the client for what the server draws and signals.
pub data Handler : Type 0 where
  noop_begin_paint noop_end_paint noop_desktop_resize noop_palette_update : Handler
  noop_play_sound noop_keyboard_set_indicators noop_keyboard_set_ime_status : Handler
  noop_bitmap_update : Handler
  -- One that is not the client's.
  other : ℕ → Handler

-- `rdpUpdate`, `none` where a callback is not set.
pub record Callbacks : Type 0 where
  pub begin_paint : Option Handler
  pub end_paint : Option Handler
  pub desktop_resize : Option Handler
  pub bitmap_update : Option Handler
  pub palette : Option Handler
  pub play_sound : Option Handler
  pub set_keyboard_indicators : Option Handler
  pub set_keyboard_ime_status : Option Handler

-- The instance, as far as the callbacks change it: its settings, the collection of static channels by
-- their names, whether the add-in is loaded, whether it tells of channels, the callbacks of its
-- `update`, and whether the item has the context.
pub record Instance : Type 0 where
  pub settings : List (Setting × Value)
  pub channels : List Text
  pub add_in_loaded : Bool
  pub tells_channels : Bool
  pub update : Callbacks
  pub item_has_context : Bool

-- CLIPRDR_SVC_CHANNEL_NAME.
abbrev pub cliprdr : Text
cliprdr = b'c' ∷ b'l' ∷ b'i' ∷ b'p' ∷ b'r' ∷ b'd' ∷ b'r' ∷ []

-- `ignore` is PROXY_TYPE_IGNORE and `mask` CLIPRDR_FLAG_DEFAULT_MASK.
unfoldable pub my_pre_connect : ℕ → ℕ → ℕ → ℕ → Instance → Bool × Instance
my_pre_connect ignore mask view_width view_height i = (
  true,
  record i {
    settings =
        (clipboard_feature_mask, number mask)
        ∷ (redirect_clipboard, flag true)
        ∷ (device_redirection, flag false)
        ∷ (support_multitransport, flag false)
        ∷ (support_heartbeat_pdu, flag false)
        ∷ (network_auto_detect, flag false)
        ∷ (proxy_type, number ignore)
        ∷ (deactivate_client_decoding, flag false)
        ∷ (ignore_certificate, flag true)
        ∷ (color_depth, number 32)
        ∷ (desktop_height, number view_height)
        ∷ (desktop_width, number view_width)
        ∷ (password, text "rootroot1.")
        ∷ (username, text "demo")
        ∷ (server_port, number 3389)
        ∷ (server_hostname, text "192.168.137.11")
        ∷ i.settings;
    tells_channels = true;
  },
)

-- Behind the channel's entry in the collection: `load_rc` is freerdp_channels_client_load_ex.
unfoldable pub load_add_in : Rc → Instance → Bool × Instance
load_add_in load_rc i =
    if not (has_path cliprdr i.channels) || is_error load_rc
    then (false, i)
    else (true, record i { add_in_loaded = true })

-- `add` is freerdp_client_add_static_channel, `none` its failure; `known` says that nothing is null.
unfoldable pub qf_load_cliprdr_addin :
    (List Text → Option (List Text)) → Rc → Bool → Instance → Bool × Instance
unfolding load_add_in
qf_load_cliprdr_addin add load_rc known i =
    if not known
    then (false, i)
    else (if has_path cliprdr i.channels then load_add_in load_rc i else elim (add i.channels) [
      | none ↦ (false, i)
      | some cs ↦ load_add_in load_rc (record i { channels = cs })
    ])

unfoldable pub my_load_channels :
    (List Text → Option (List Text)) → Rc → Bool → Instance → Bool × Instance
unfolding qf_load_cliprdr_addin
my_load_channels add load_rc known i = qf_load_cliprdr_addin add load_rc known i

unfoldable pub set_callbacks : Callbacks → Callbacks
set_callbacks u = record u {
  begin_paint = some noop_begin_paint;
  end_paint = some noop_end_paint;
  desktop_resize = some noop_desktop_resize;
  palette = some noop_palette_update;
  play_sound = some noop_play_sound;
  set_keyboard_indicators = some noop_keyboard_set_indicators;
  set_keyboard_ime_status = some noop_keyboard_set_ime_status;
}

-- `gdi_init` is FreeRDP's: whether it succeeds, and what it makes of the callbacks.
unfoldable pub my_post_connect : (Callbacks → Bool × Callbacks) → Instance → Bool × Instance
unfolding set_callbacks
my_post_connect gdi_init i =
    let (ok, u) = gdi_init (set_callbacks i.update) in
    if ok
    then (true, record i { update = u; item_has_context = true })
    else (false, record i { update = u })

unfoldable pub qf_channel_connected_callback : Text → Bool → Outcome → Setup → Setup
unfolding qt_clipboard_channel_init
qf_channel_connected_callback name known o s =
    if same_text name cliprdr then qt_clipboard_channel_init known o s else s
