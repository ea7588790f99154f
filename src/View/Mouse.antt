-- ===== src/View/Mouse.antt =====
-- rdp-view-item.h: `mouseEventScaleSend` and the mouse and wheel handlers.
pub mod Scale
pub mod Wheel
pub mod Words
use Prim.Native.Nat.{bit_and, bit_or}
use qfreerdp.Base.{
  ℕ, ◌*◌, ◌/◌, ◌^◌, Bool, true, false, ◌||◌, Option, none, some, ltb, ◌==◌, if◌then◌else◌,
}
use qfreerdp.Base.Word.{u16, u32}
use qfreerdp.Wire.{ptr_flags_wheel, ptr_flags_wheel_negative, wheel_rotation_mask}

-- A coordinate of an event, cut to a whole number, as far as it fits the `uint32_t` parameter: any
-- other value has no defined conversion.
pub data Coordinate : Type 0 where
  inside : ℕ → Coordinate
  outside : Coordinate

-- The desktop's size from the settings, and the item's size in whole pixels.
pub record Sizes : Type 0 where
  pub host_w : ℕ
  pub host_h : ℕ
  pub width : ℕ
  pub height : ℕ

-- What goes to freerdp_input_send_mouse_event; `undefined` is a conversion without a defined result.
pub data Sent : Type 0 where
  nothing : Sent
  undefined : Sent
  sends : ℕ → ℕ → ℕ → Sent

-- `mouse * host / size`: the product is a uint32_t, the quotient a double that is cut off.
unfoldable pub scaled : ℕ → ℕ → ℕ → ℕ
scaled mouse host size = u32 (mouse * host) / size

unfoldable pub scale_send : Option Sizes → ℕ → ℕ → ℕ → Sent
unfolding scaled
scale_send none x y flags = nothing
scale_send (some s) x y flags =
    if s.width == 0 || s.height == 0
    then undefined
    else sends flags (scaled x s.host_w s.width) (scaled y s.host_h s.height)

-- The handlers pass the position on as it is.
unfoldable pub mouse_event_scale_send : Option Sizes → Coordinate → Coordinate → ℕ → Sent
unfolding scale_send
mouse_event_scale_send s (inside x) (inside y) flags = scale_send s x y flags
mouse_event_scale_send s (inside x) outside flags = undefined
mouse_event_scale_send s outside y flags = undefined

-- `angleDelta().y()`: away from the user, or towards them.
pub data Turn : Type 0 where
  away : ℕ → Turn
  towards : ℕ → Turn

-- The flags of `wheelEvent`.
unfoldable pub wheel_flags : Turn → ℕ
wheel_flags (away d) = bit_or ptr_flags_wheel (bit_and (u16 d) wheel_rotation_mask)
wheel_flags (towards d) =
    bit_or (bit_or ptr_flags_wheel ptr_flags_wheel_negative) (bit_and (u16 d) wheel_rotation_mask)

unfoldable pub wheel_event : Option Sizes → Coordinate → Coordinate → Turn → Sent
unfolding mouse_event_scale_send wheel_flags
wheel_event s x y t = mouse_event_scale_send s x y (wheel_flags t)
