-- ===== src/Client/Tests/Session.antt =====
-- The theorems on the connection, the session and the frame at concrete inputs.
use qfreerdp.Base.{
  ◌++◌, ℕ, ◌≡◌, refl, Bool, true, false, List, [], ◌∷◌, Option, none, some, arith, if◌then◌else◌,
  ltb, not, ◌&&◌,
}
use qfreerdp.Status.{channel_rc_ok}
use qfreerdp.Entry.Types.{Text}
use qfreerdp.Client.Session.{Round, Opening, left, rdp_loop_thread}
use qfreerdp.Client.Frame.{Rectangle, Extent, scale_frame}
use qfreerdp.Client.Frame.Inside.{Within, scale_frame-Within}
use qfreerdp.Client.Setup.{hook_channel, monitor_ready, Outcome, qt_clipboard_channel_init}
use qfreerdp.Client.Setup.Ready.{
  IsReady, Event, connects, readies, happens, after_all, nothing_set, after_all-IsReady,
}
use qfreerdp.Client.Paint.{
  is_proper, RegionApi, Gdi, Update, updates, end_paint, update_frame, paint,
}
use qfreerdp.Client.Paint.Drawn.{end_paint-drawn}
use qfreerdp.Client.Connect.{qf_channel_connected_callback, Instance, cliprdr, Callbacks, other}
use qfreerdp.Client.Program.{Ui, main, event_loop}
use qfreerdp.Client.Program.Joins.{reaches, fresh as fresh_start, joined, main_joins}

abbrev two_rounds : List Round
two_rounds =
    record { leave = false; handles = 3; wait_ok = true; check_ok = true }
    ∷ record { leave = true; handles = 3; wait_ok = true; check_ok = true }
    ∷ []

abbrev all_ok : Opening
all_ok = record { instance_ok = true; context_ok = true; connect_ok = true }

abbrev extent : Extent
extent = record { hw = 1920; hh = 1080; view_width = 1024; view_height = 0 }

abbrev corner : Rectangle
corner = record { left = 960; top = 540; right = 1920; bottom = 1080 }

corner-Within : Within 1920 1080 corner
corner-Within = record {
  across = omega arith;
  down = omega arith;
  right_edge = omega arith;
  bottom_edge = omega arith;
}

scale_frame-Within_example :
    (t : Rectangle) × (scale_frame extent corner ≡ some t) × Within 1024 1080 t
scale_frame-Within_example =
    scale_frame-Within extent corner corner-Within (omega arith) (omega arith) (omega arith)
      (omega arith) (omega arith) (omega arith)

abbrev no_file_init : Outcome
no_file_init = record { system_ok = true; file_context_ok = true; file_init_ok = false }

-- The channel is connected, and the monitor is ready.
abbrev events : List Event
events = connects cliprdr true no_file_init ∷ readies channel_rc_ok channel_rc_ok ∷ []

after_all-IsReady_example :
    let s = after_all nothing_set events in
    IsReady s × ((happens s (connects cliprdr true no_file_init)).hears_files ≡ false)
unfolding qf_channel_connected_callback qt_clipboard_channel_init hook_channel monitor_ready
after_all-IsReady_example = after_all-IsReady events true no_file_init

-- Regions as lists of rectangles.
abbrev no_points : List Rectangle → Bool
no_points [] = true
no_points (r ∷ g) = no_points g && not (is_proper r)

abbrev low : ℕ → ℕ → ℕ
low a b = if ltb a b then a else b

abbrev high : ℕ → ℕ → ℕ
high a b = if ltb a b then b else a

abbrev hull : List Rectangle → Rectangle
hull [] = record { left = 0; top = 0; right = 0; bottom = 0 }
hull (r ∷ []) = r
hull (r ∷ s ∷ g) =
    let t = hull (s ∷ g) in
    record {
      left = low r.left t.left;
      top = low r.top t.top;
      right = high r.right t.right;
      bottom = high r.bottom t.bottom;
    }

points_added : (r : Rectangle) (g : List Rectangle) → is_proper r ≡ true → no_points (r ∷ g) ≡ false
points_added r g p = ground arith

points_kept : (r : Rectangle) (g : List Rectangle) → no_points g ≡ false → no_points (r ∷ g) ≡ false
points_kept r g e = ground arith

abbrev lists_api : RegionApi
lists_api = record {
  Region = List Rectangle;
  init = [];
  union_rect = λ r g. r ∷ g;
  is_empty = no_points;
  extents = hull;
  union_point = points_added;
  union_grows = points_kept;
}

abbrev gdi : Gdi ℕ
gdi = record {
  has_window = true;
  nothing_invalid = false;
  areas = record { x = 5; y = 6; w = 0; h = 3 } ∷ record { x = 5; y = 6; w = 2; h = 3 } ∷ [];
  picture = 99;
  width = 1920;
  height = 1080;
}

abbrev never_null : ℕ → Bool
never_null p = false

end_paint-drawn_example :
    (u : Update ℕ) × (end_paint lists_api extent gdi ≡ updates u)
    × (u.left ≡ 0)
    × (u.top ≡ 0)
    × (u.width ≡ 1920)
    × (u.height ≡ 1080)
    × (paint never_null (update_frame never_null u none) ≡ some 99)
end_paint-drawn_example =
    end_paint-drawn lists_api never_null extent gdi none refl refl refl (omega arith) (omega arith)

abbrev unset : Callbacks
unset = record {
  begin_paint = none;
  end_paint = none;
  desktop_resize = none;
  bitmap_update = none;
  palette = none;
  play_sound = none;
  set_keyboard_indicators = none;
  set_keyboard_ime_status = none;
}

-- FreeRDP's drawing takes the palette for itself.
abbrev takes_palette : Callbacks → Bool × Callbacks
takes_palette u = (true, record u { palette = some (other 1) })

abbrev blank : Instance
blank = record {
  settings = [];
  channels = [];
  add_in_loaded = false;
  tells_channels = false;
  update = unset;
  item_has_context = false;
}

abbrev add_cliprdr : List Text → Option (List Text)
add_cliprdr cs = some (cliprdr ∷ cs)

abbrev whole_ui : Ui
whole_ui = record { has_root = true; has_item = true; exit_code = 0 }

abbrev leaving : Round
leaving = record { leave = true; handles = 3; wait_ok = true; check_ok = true }

main_joins_example :
    let (acts, x) = main whole_ui in
    (reaches fresh_start acts ≡ joined)
    × (x ≡ event_loop 0)
    × ((rdp_loop_thread all_ok (two_rounds ++ leaving ∷ [])).1 ≡ left)
main_joins_example = main_joins whole_ui all_ok two_rounds leaving [] refl
