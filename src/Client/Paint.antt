-- ===== src/Client/Paint.antt =====
-- mini-qf-client.cc: `noop_end_paint`; rdp-view-item.h: `updateFrame` and `paint`. The invalid areas of
-- the desktop lead to a new frame of the item.
pub mod Drawn
use qfreerdp.Base.{
  ℕ, ◌+◌, ◌<◌, ◌≤◌, ◌≡◌, Bool, true, false, ◌||◌, ◌&&◌, not, ltb, leb, List, [], ◌∷◌, Option, none,
  some, if◌then◌else◌,
}
use qfreerdp.Base.Word.{u16}
use qfreerdp.Client.Frame.{Rectangle, Extent, scale_frame}

-- GDI_RGN, as far as it is read.
pub record Area : Type 0 where
  pub x : ℕ
  pub y : ℕ
  pub w : ℕ
  pub h : ℕ

-- A RECTANGLE_16 that holds a point at least.
abbrev pub is_proper : Rectangle → Bool
is_proper r = ltb r.left r.right && ltb r.top r.bottom

-- FreeRDP's REGION16: region16_init, region16_union_rect, region16_is_empty and region16_extents.
pub record RegionApi : Type 1 where
  pub Region : Type 0
  pub init : Region
  pub union_rect : Rectangle → Region → Region
  pub is_empty : Region → Bool
  pub extents : Region → Rectangle
  -- A region has the points of a rectangle that is added, and keeps those it has.
  pub union_point :
      (r : Rectangle) (g : Region) → is_proper r ≡ true → is_empty (union_rect r g) ≡ false
  pub union_grows :
      (r : Rectangle) (g : Region) → is_empty g ≡ false → is_empty (union_rect r g) ≡ false

-- The fields of the rectangle are UINT16.
abbrev pub rectangle_of : Area → Rectangle
rectangle_of a = record {
  left = u16 a.x;
  top = u16 a.y;
  right = u16 (a.x + a.w);
  bottom = u16 (a.y + a.h);
}

-- `gdi` as the callback finds it: the window with its invalid areas, if there is one and anything is
-- invalid, and the picture of the desktop with its size.
pub record Gdi (P : Type 0) : Type 0 where
  pub has_window : Bool
  pub nothing_invalid : Bool
  pub areas : List Area
  pub picture : P
  pub width : ℕ
  pub height : ℕ

-- The call of `updateFrame` that is queued: a copy of the picture, and the region to repaint.
pub record Update (P : Type 0) : Type 0 where
  pub frame : P
  pub left : ℕ
  pub top : ℕ
  pub width : ℕ
  pub height : ℕ

-- What the callback does: nothing, a division by zero in `scale_frame`, or an update. Its result is TRUE
-- wherever it returns.
pub data Painted (P : Type 0) : Type 0 where
  nothing : Painted P
  undefined : Painted P
  updates : Update P → Painted P

module _ (api : RegionApi) where
  open api use {Region, init, union_rect, is_empty, extents}

  unfoldable pub union_all : List Area → Region → Region
  union_all [] g = g
  union_all (a ∷ areas) g = union_all areas (union_rect (rectangle_of a) g)

  unfoldable pub paint_region : {P : Type 0} → Extent → Gdi P → Region → Painted P
  paint_region e g region =
      if is_empty region then nothing else elim (scale_frame e (extents region)) [
        | none ↦ undefined
        | some unused ↦
            updates
              (record { frame = g.picture; left = 0; top = 0; width = g.width; height = g.height })
      ]

  unfoldable pub end_paint : {P : Type 0} → Extent → Gdi P → Painted P
  unfolding union_all paint_region
  end_paint e g =
      if not g.has_window || g.nothing_invalid
      then nothing
      else paint_region e g (union_all g.areas init)

-- The item's frame; `is_null` is QImage::isNull.
module _ {P : Type 0} (is_null : P → Bool) where
  unfoldable pub update_frame : Update P → Option P → Option P
  update_frame u old = some u.frame

  -- What `paint` draws.
  unfoldable pub paint : Option P → Option P
  paint none = none
  paint (some f) = if is_null f then none else some f
