-- ===== src/View/Mouse/Words.antt =====
-- rdp-view-item.h: `get_mouse_flags_string`, the words for the flags of a mouse event.
use Prim.Native.Nat.{bit_and}
use Prim.Native.String.{String, ◌++◌}
use qfreerdp.Base.{ℕ, Bool, ◌==◌, ◌≡◌, refl, true, false, if◌then◌else◌}
use qfreerdp.Wire.{ptr_flags_wheel}
use qfreerdp.View.Keyboard.{
  ptr_flags_move, ptr_flags_down, ptr_flags_button1, ptr_flags_button2, press_flags, release_flags,
}

abbrev pub ptr_flags_button3 : ℕ
ptr_flags_button3 = 0x4000

abbrev pub ptr_flags_hwheel : ℕ
ptr_flags_hwheel = 0x0400

-- `if (flags & f) buffer += word`.
abbrev pub word : ℕ → ℕ → String → String
word flags f w = if bit_and flags f == 0 then "" else w

unfoldable pub get_mouse_flags_string : ℕ → String
get_mouse_flags_string flags =
    word flags ptr_flags_move "MOVE, "
    ++ word flags ptr_flags_down "DOWN, "
    ++ word flags ptr_flags_button1 "BUTTON1 (Left), "
    ++ word flags ptr_flags_button2 "BUTTON2 (Right), "
    ++ word flags ptr_flags_button3 "BUTTON3 (Middle), "
    ++ word flags ptr_flags_wheel "WHEEL, "
    ++ word flags ptr_flags_hwheel "HWHEEL, "

-- A press is worded as the release of the same button, with DOWN before it.
pub words_of_press :
    (left : Bool)
    → get_mouse_flags_string (press_flags left)
      ≡ "DOWN, " ++ get_mouse_flags_string (release_flags left)
unfolding get_mouse_flags_string press_flags release_flags
words_of_press true = refl
words_of_press false = refl
