-- ===== src/Client/Paint/Drawn.antt =====
-- What becomes invalid is drawn.
use qfreerdp.Base.{
  ◌+◌, ◌<◌, ◌^◌, ◌≡◌, refl, Bool, true, false, Bool-cases, ◌||◌, ◌&&◌, not, ltb, inl, inr, List, [],
  ◌∷◌, Option, Option-cases, none, some, arith, if◌then◌else◌,
}
use qfreerdp.Client.Frame.{Rectangle, Extent, scale_frame}
use qfreerdp.Client.Paint.{
  Area, is_proper, RegionApi, rectangle_of, Gdi, Update, updates, union_all, paint_region,
  end_paint, update_frame, paint,
}

-- Some area has a point, and its corners fit UINT16.
abbrev pub has_point : Area → Bool
has_point a = ltb 0 a.w && ltb 0 a.h && (ltb (a.x + a.w) (2 ^ 16) && ltb (a.y + a.h) (2 ^ 16))

abbrev pub any_point : List Area → Bool
any_point [] = false
any_point (a ∷ areas) = has_point a || any_point areas

has_point-is_proper : (a : Area) → has_point a ≡ true → is_proper (rectangle_of a) ≡ true
has_point-is_proper a h = ground arith

module _ (api : RegionApi) where
  open api use {Region, init, union_rect, is_empty, union_point, union_grows}

  union_all-grows :
      (areas : List Area) (g : Region)
      → is_empty g ≡ false
      → is_empty (union_all api areas g) ≡ false
  unfolding union_all
  union_all-grows [] g h = h
  union_all-grows (a ∷ areas) g h =
      union_all-grows areas (union_rect (rectangle_of a) g) (union_grows (rectangle_of a) g h)

  union_all-any :
      (areas : List Area) (g : Region)
      → any_point areas ≡ true
      → is_empty (union_all api areas g) ≡ false
  unfolding union_all
  union_all-any [] g h = absurd (ground arith)
  union_all-any (a ∷ areas) g h = elim (Bool-cases (has_point a)) [
    | inl y ↦
        let p = has_point-is_proper a y in
        union_all-grows areas (union_rect (rectangle_of a) g) (union_point (rectangle_of a) g p)
    | inr n ↦ union_all-any areas (union_rect (rectangle_of a) g) (ground arith)
  ]

scale_frame-some :
    (e : Extent) (r : Rectangle)
    → 0 < e.hw
    → 0 < e.hh
    → (t : Rectangle) × (scale_frame e r ≡ some t)
unfolding scale_frame
scale_frame-some e r w h = elim (Option-cases (scale_frame e r)) [
  | inl n ↦ absurd (ground arith)
  | inr s ↦ s
]

module _ (api : RegionApi) {P : Type 0} (is_null : P → Bool) where
  open api use {Region, init, union_rect, is_empty, extents}

  paint_region-updates :
      (e : Extent) (g : Gdi P) (region : Region)
      → is_empty region ≡ false
      → 0 < e.hw
      → 0 < e.hh
      → paint_region api e g region
        ≡ updates
            (record { frame = g.picture; left = 0; top = 0; width = g.width; height = g.height })
  unfolding paint_region
  paint_region-updates e g region n w h =
      let (t, s) = scale_frame-some e (extents region) w h in
      rw (n, paint_region) (rw (s, paint_region))

  -- When the window has an invalid area with a point in it, whose corners fit 16 bits, the item is given
  -- the picture of the desktop and told to repaint all of it; whatever it showed before, it then draws
  -- this picture, or nothing if the picture is null. The desktop is not empty.
  pub end_paint-drawn :
      (e : Extent) (g : Gdi P) (old : Option P)
      → g.has_window ≡ true
      → g.nothing_invalid ≡ false
      → any_point g.areas ≡ true
      → 0 < e.hw
      → 0 < e.hh
      → (u : Update P) × (end_paint api e g ≡ updates u)
        × (u.left ≡ 0)
        × (u.top ≡ 0)
        × (u.width ≡ g.width)
        × (u.height ≡ g.height)
        × (paint is_null (update_frame is_null u old)
            ≡ (if is_null g.picture then none else some g.picture))
  unfolding end_paint update_frame paint
  end_paint-drawn e g old has some_invalid point w h =
      let region = union_all api g.areas init in
      let u : Update P = record {
        frame = g.picture;
        left = 0;
        top = 0;
        width = g.width;
        height = g.height;
      } in
      let goes : (not g.has_window || g.nothing_invalid) ≡ false = ground arith in
      (
        u,
        rw (goes, end_paint)
            (paint_region-updates e g region (union_all-any api g.areas init point) w h),
        refl,
        refl,
        refl,
        refl,
        refl,
      )
