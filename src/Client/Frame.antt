-- ===== src/Client/Frame.antt =====
-- mini-qf-client.cc: `scale_frame`, which takes a rectangle of the desktop to the view.
pub mod Inside
use qfreerdp.Base.{ℕ, ◌*◌, ◌/◌, Bool, ◌&&◌, ◌||◌, Option, none, some, ◌==◌, if◌then◌else◌}
use qfreerdp.Base.Word.{u16, u32}

-- RECTANGLE_16.
pub record Rectangle : Type 0 where
  pub left : ℕ
  pub top : ℕ
  pub right : ℕ
  pub bottom : ℕ

-- The desktop's size from the settings, and the view's.
pub record Extent : Type 0 where
  pub hw : ℕ
  pub hh : ℕ
  pub view_width : ℕ
  pub view_height : ℕ

-- A view of size 0 counts as one as large as the desktop.
abbrev pub or_host : ℕ → ℕ → ℕ
or_host view host = if view == 0 then host else view

-- `coordinate * view / host` on uint32_t, cut to a UINT16.
unfoldable pub scale_coordinate : ℕ → ℕ → ℕ → ℕ
scale_coordinate x view host = u16 (u32 (x * view) / host)

-- `none` is a division by zero.
unfoldable pub scale_frame : Extent → Rectangle → Option Rectangle
scale_frame e r =
    if or_host e.view_width e.hw == e.hw && e.hh == or_host e.view_height e.hh
    then some r
    else (if e.hw == 0 || e.hh == 0
        then none
        else some (record {
          left = scale_coordinate r.left (or_host e.view_width e.hw) e.hw;
          right = scale_coordinate r.right (or_host e.view_width e.hw) e.hw;
          top = scale_coordinate r.top (or_host e.view_height e.hh) e.hh;
          bottom = scale_coordinate r.bottom (or_host e.view_height e.hh) e.hh;
        }))
