-- ===== src/Client/Setup/Ready.antt =====
-- What is set up before the channel can call back.
use qfreerdp.Base.{
  ◌≡◌, refl, sym, subst, ◌∙◌, then_branch, else_branch, Bool, Bool-cases, inl, inr, true, false,
  List, [], ◌∷◌, arith, ◌&&◌, ◌||◌, not, if◌then◌else◌,
}
use qfreerdp.Status.{Rc}
use qfreerdp.Entry.Types.{Text}
use qfreerdp.Entry.Batch.{same_text}
use qfreerdp.Client.Setup.{Setup, Outcome, qt_clipboard_channel_init, monitor_ready}
use qfreerdp.Client.Connect.{cliprdr, qf_channel_connected_callback}

-- Callbacks for files only with an entry and the format callbacks, those only with a file context, and
-- announcements only on a channel with the format callbacks.
pub record IsReady (s : Setup) : Type 0 where
  pub entry : not s.hears_files || (s.has_entry && s.hears_formats) ≡ true
  pub context : not s.hears_formats || s.has_file_context ≡ true
  pub heard : not s.has_channel || s.hears_formats ≡ true

channel_init-IsReady :
    (known : Bool) (o : Outcome) (s : Setup)
    → IsReady s
    → IsReady (qt_clipboard_channel_init known o s)
unfolding qt_clipboard_channel_init
channel_init-IsReady known o s h =
    let e = h.entry in
    let c = h.context in
    let f = h.heard in record { entry = ground arith; context = ground arith; heard = ground arith }

channel_init_hears :
    (known : Bool) (o : Outcome) (s : Setup)
    → (qt_clipboard_channel_init known o s).hears_files ≡ (
        s.hears_files
        || (known
            && (o.system_ok && ((s.has_file_context || o.file_context_ok) && o.file_init_ok))))
unfolding qt_clipboard_channel_init
channel_init_hears known o s = ground arith

-- What happens to the set-up: some channel is connected, or the monitor is ready, which the plugin tells
-- if its callback is set.
pub data Event : Type 0 where
  connects : Text → Bool → Outcome → Event
  readies : Rc → Rc → Event

abbrev pub happens : Setup → Event → Setup
happens s (connects name known o) = qf_channel_connected_callback name known o s
happens s (readies caps_rc list_rc) =
    if s.hears_formats then (monitor_ready caps_rc list_rc s).2 else s

abbrev pub after_all : Setup → List Event → Setup
after_all s [] = s
after_all s (e ∷ es) = after_all (happens s e) es

either-IsReady : (b : Bool) (s t : Setup) → IsReady s → IsReady t → IsReady (if b then s else t)
either-IsReady true s t h k = h
either-IsReady false s t h k = k

monitor_ready_state :
    (caps_rc list_rc : Rc) (s : Setup)
    → (monitor_ready caps_rc list_rc s).2 ≡ record s { has_channel = true }
unfolding monitor_ready
monitor_ready_state caps_rc list_rc s = ground arith

-- With the format callbacks, the client may have the channel.
channel-IsReady :
    (s : Setup) → s.hears_formats ≡ true → IsReady s → IsReady (record s { has_channel = true })
channel-IsReady s f h = record { entry = h.entry; context = h.context; heard = f }

happens-IsReady : (s : Setup) (e : Event) → IsReady s → IsReady (happens s e)
unfolding qf_channel_connected_callback
happens-IsReady s (connects name known o) h =
    either-IsReady (same_text name cliprdr) _ s (channel_init-IsReady known o s h) h
happens-IsReady s (readies caps_rc list_rc) h = elim (Bool-cases s.hears_formats) [
  | inl f ↦
      subst IsReady
        (sym (then_branch s.hears_formats _ s f ∙ monitor_ready_state caps_rc list_rc s))
        (channel-IsReady s f h)
  | inr f ↦ subst IsReady (sym (else_branch s.hears_formats _ s f)) h
]

all_happen : (s : Setup) (es : List Event) → IsReady s → IsReady (after_all s es)
all_happen s [] h = h
all_happen s (e ∷ es) h = all_happen (happens s e) es (happens-IsReady s e h)

-- As `client_t` and the channel begin.
abbrev pub nothing_set : Setup
nothing_set = record {
  has_system = false;
  has_file_context = false;
  has_entry = false;
  hears_formats = false;
  hears_files = false;
  has_channel = false;
}

-- Let there be one channel object throughout. In whatever order channels are connected and the
-- monitor is ready, and however the calls end, this holds from the start on: the callbacks for file
-- contents are set only with an entry to serve them and the format callbacks, the format callbacks
-- only with a file context, and the client has a channel to announce the local clipboard on only if
-- the callbacks that answer for it are set. Where the clipboard's channel is connected next, the
-- callbacks for file contents are set behind it exactly if they were before, or the channel is
-- there and every call that is made succeeds.
pub after_all-IsReady :
    (es : List Event) (known : Bool) (o : Outcome)
    → let s = after_all nothing_set es in
      IsReady s
      × ((happens s (connects cliprdr known o)).hears_files ≡ (
          s.hears_files
          || (known
              && (o.system_ok && ((s.has_file_context || o.file_context_ok) && o.file_init_ok)))))
unfolding qf_channel_connected_callback
after_all-IsReady es known o = (
  all_happen nothing_set es (record { entry = refl; context = refl; heard = refl }),
  channel_init_hears known o (after_all nothing_set es),
)
