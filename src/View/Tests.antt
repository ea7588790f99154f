-- ===== src/View/Tests.antt =====
-- The theorems on the item at concrete inputs.
use qfreerdp.Base.{
  ℕ, ◌/◌, ◌%◌, ◌≡◌, ◌≢◌, refl, take, drop, length, ◌++◌, ◌⊎◌, Bool, true, false, List, [], ◌∷◌,
  Option, none, some, arith, ◌<◌,
}
use qfreerdp.Entry.Types.{Text, Bytes}
use qfreerdp.Entry.Types.Utf16.{from_utf16, from_utf16-keeps}
use qfreerdp.Client.Files.{Mime, responds, server_format_data_request, Descriptor, file_list_flags}
use qfreerdp.Wire.{cf_unicodetext}
use qfreerdp.View.Mouse.{Sizes, sends, inside, away, towards, mouse_event_scale_send, wheel_flags}
use qfreerdp.View.Mouse.Scale.{IsUsual, mouse_event-inside}
use qfreerdp.View.Mouse.Wheel.{rotation, wheel_rotation}
use qfreerdp.View.Dib.{image_from_dib, read_le}
use qfreerdp.View.Dib.Header.{IsBitmap, image_from_dib-header}
use qfreerdp.View.Show.{
  text, Board, update_clipboard_data_from_remote, update_clipboard_files_from_remote,
}
use qfreerdp.View.Show.RoundTrip.{text_transfer}
use qfreerdp.View.Local.{
  Info, node, nil, cons, Url, Local, LocalMime, data_changed_callback, local,
  clipboard_display_name,
}
use qfreerdp.View.Local.Distinct.{Distinct}
use qfreerdp.View.Local.Served.{SameMime, Served, announced-Served}
use qfreerdp.View.Local.Names.{sent_name-safe_path}
use qfreerdp.Entry.Path.{safe_remote_relative_path}
use qfreerdp.Entry.Path.Api.{path_api, join_by}
use qfreerdp.Client.Files.{max_chars}
use qfreerdp.View.Local.Echo.{SetsMarked, remote_not_announced}

abbrev sizes : Sizes
sizes = record { host_w = 1920; host_h = 1080; width = 960; height = 1080 }

sizes-IsUsual : IsUsual sizes
sizes-IsUsual = record {
  small_w = omega arith;
  small_h = omega arith;
  host_small_w = omega arith;
  host_small_h = omega arith;
  host_some_w = omega arith;
  host_some_h = omega arith;
}

mouse_event-inside_example :
    (x' : ℕ) × (y' : ℕ) × (mouse_event_scale_send (some sizes) (inside 959) (inside 1079) 2048
      ≡ sends 2048 x' y')
    × (x' < 1920)
    × (y' < 1080)
    × ((sizes.width ≢ sizes.host_w) ⊎ (x' ≡ 959))
    × ((sizes.height ≢ sizes.host_h) ⊎ (y' ≡ 1079))
mouse_event-inside_example =
    mouse_event-inside sizes 959 1079 2048 sizes-IsUsual (omega arith) (omega arith)

-- A BITMAPINFOHEADER of two pixels of 1 bit, the table of two colours, and the pixels.
abbrev head : Bytes
head =
    40 ∷ 0 ∷ 0 ∷ 0 ∷ 2 ∷ 0 ∷ 0 ∷ 0 ∷ 1 ∷ 0 ∷ 0 ∷ 0 ∷ 1 ∷ 0 ∷ 1 ∷ 0 ∷ 0 ∷ 0 ∷ 0 ∷ 0 ∷ 4 ∷ 0 ∷ 0 ∷ 0
    ∷ 0 ∷ 0 ∷ 0 ∷ 0 ∷ 0 ∷ 0 ∷ 0 ∷ 0 ∷ 0 ∷ 0 ∷ 0 ∷ 0 ∷ 0 ∷ 0 ∷ 0 ∷ 0 ∷ []

abbrev black_white : Bytes
black_white = 0 ∷ 0 ∷ 0 ∷ 0 ∷ 255 ∷ 255 ∷ 255 ∷ 0 ∷ []

abbrev pixels : Bytes
pixels = 64 ∷ 0 ∷ 0 ∷ 0 ∷ []

head-IsBitmap : IsBitmap head [] black_white
head-IsBitmap = record { has_info = omega arith; sized = refl; masked = refl; colored = refl }

image_from_dib-header_example :
    let dib : Bytes = head ++ (black_white ++ pixels) in
    (file : Bytes) × (image_from_dib dib ≡ some file)
    × (take 2 file ≡ b'B' ∷ b'M' ∷ [])
    × (read_le 2 4 file ≡ length file)
    × (drop (read_le 10 4 file) file ≡ pixels)
    × (drop 14 file ≡ dib)
image_from_dib-header_example =
    image_from_dib-header head [] black_white pixels head-IsBitmap (omega arith)

abbrev hi : Text
hi = 104 ∷ 105 ∷ []

abbrev mime : Mime
mime = record {
  text = some hi;
  text_memory = 104 ∷ 105 ∷ 0 ∷ 7 ∷ [];
  picture = none;
  has_urls = false;
}

abbrev empty_board : Board
empty_board = record { connected = true; from_remote = false; set_contents = [] }

abbrev no_serializer : ℕ → List Descriptor → Option Bytes
no_serializer flags ds = none

abbrev decodes : Bytes → Bool
decodes b = true

text_transfer_example :
    let d : Bytes = 104 ∷ 0 ∷ 105 ∷ 0 ∷ 0 ∷ 0 ∷ [] in
    ((server_format_data_request no_serializer true none [] (some mime) (some cf_unicodetext)).1
      ≡ responds d)
    × (update_clipboard_data_from_remote from_utf16 decodes decodes d cf_unicodetext [] empty_board
        ≡ record empty_board { set_contents = (text hi, true) ∷ [] })
text_transfer_example =
    text_transfer from_utf16 no_serializer none [] mime hi hi (7 ∷ []) decodes decodes empty_board
      from_utf16-keeps refl refl ((ground arith, omega arith), ((ground arith, omega arith), tt))
      (ground arith, ground arith) refl

-- A directory d with a file f.
abbrev entry_f : Info
entry_f = record {
  path = 47 ∷ 100 ∷ 47 ∷ 102 ∷ [];
  name = 102 ∷ [];
  size = 3;
  is_dir = false;
  is_file = true;
}

abbrev entry_d : Info
entry_d = record { path = 47 ∷ 100 ∷ []; name = 100 ∷ []; size = 0; is_dir = true; is_file = false }

abbrev copied : List Url
copied =
    local (node entry_d (cons (node entry_f nil) nil)) (47 ∷ 100 ∷ [])
    ∷ local (node entry_f nil) (47 ∷ 102 ∷ [])
    ∷ []

abbrev last_unit : Text → Text → Text
last_unit from path = 102 ∷ []

abbrev text_copied : LocalMime
text_copied = record { urls = none; has_text = true; has_image = false }

abbrev flagged : Local
flagged = record {
  has_client = true;
  has_channel = true;
  from_remote = true;
  files = [];
  has_file_context = true;
  locally_available = false;
  client_data = [];
  announced = [];
}

remote_not_announced_example :
    let shown =
      update_clipboard_data_from_remote from_utf16 decodes decodes
        (104 ∷ 0 ∷ [])
        cf_unicodetext
        []
        empty_board in
    let files = update_clipboard_files_from_remote (λ p. true) (hi ∷ []) empty_board in
    SetsMarked empty_board shown
    × (shown.from_remote ≡ false)
    × SetsMarked empty_board files
    × (files.from_remote ≡ false)
    × (data_changed_callback last_unit text_copied flagged ≡ flagged)
remote_not_announced_example =
    remote_not_announced from_utf16 decodes decodes (104 ∷ 0 ∷ []) cf_unicodetext [] (λ p. true)
      (hi ∷ []) empty_board last_unit text_copied flagged refl refl

wheel_rotation_example :
    (rotation (wheel_flags (away 360)) ≡ towards 152)
    × (rotation (wheel_flags (towards 360)) ≡ towards 152)
wheel_rotation_example = wheel_rotation 360 (omega arith) (omega arith)

abbrev one_byte : ℕ → List Descriptor → Option Bytes
one_byte flags ds = some (7 ∷ [])

abbrev copied_mime : LocalMime
copied_mime = record { urls = some copied; has_text = true; has_image = false }

abbrev answering : Mime
answering = record { text = some hi; text_memory = hi; picture = none; has_urls = true }

answering-SameMime : SameMime copied_mime answering
answering-SameMime = record { text = refl; picture = refl; urls = refl }

abbrev at_rest : Local
at_rest = record flagged { from_remote = false }

announced-Served_example :
    let t = data_changed_callback last_unit copied_mime at_rest in
    ((t.announced ≡ [])
      ⊎ ((f : List (ℕ × Option Text)) × (t.announced ≡ f ∷ [])
          × Served one_byte (some 5) t.files answering f))
    × (file_list_flags (some 5) / 4 % 2 ≡ 1)
announced-Served_example =
    announced-Served one_byte (some 5) last_unit copied_mime answering at_rest answering-SameMime

-- The directory /d with the file /d/f.
abbrev folder : Info
folder = record { path = 47 ∷ 100 ∷ []; name = 100 ∷ []; size = 0; is_dir = true; is_file = false }

abbrev member : Info
member = record {
  path = 47 ∷ 100 ∷ 47 ∷ 102 ∷ [];
  name = 102 ∷ [];
  size = 3;
  is_dir = false;
  is_file = true;
}

sent_name-safe_path_example :
    safe_remote_relative_path path_api
      (take max_chars (clipboard_display_name last_unit folder member))
    ≡ 100 ∷ 47 ∷ 102 ∷ []
unfolding join_by
sent_name-safe_path_example =
    sent_name-safe_path path_api last_unit folder member ((100 ∷ []) ∷ (102 ∷ []) ∷ []) refl
      (λ e. absurd (ground (arith, e)))
      (
        record { named = refl; not_dot = refl; not_dot_dot = refl; one_level = (ground arith, tt) },
        (
          record {
            named = refl;
            not_dot = refl;
            not_dot_dot = refl;
            one_level = (ground arith, tt);
          },
          tt,
        ),
      )
      (ground arith, (ground arith, (ground arith, tt))) refl (omega arith)
