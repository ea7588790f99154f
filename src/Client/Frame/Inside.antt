-- ===== src/Client/Frame/Inside.antt =====
-- A rectangle of the desktop is taken to a rectangle of the view.
use native.Mathlib.Nat.{
  le-div_iff_mul-le, div-mul-le_self, div-le_of_le-mul, mul-le-mul_right, mul-le-mul,
}
use qfreerdp.Base.{
  ℕ, ◌*◌, ◌/◌, ◌^◌, ◌≤◌, ◌<◌, ◌≡◌, refl, Bool-cases, inl, inr, some, arith, ◌==◌, ◌&&◌,
}
use qfreerdp.Base.Word.{u16, u32}
use qfreerdp.Client.Frame.{Rectangle, Extent, or_host, scale_coordinate, scale_frame}

-- On a desktop and a view of less than 65536 pixels a side nothing wraps.
scale_coordinate_lem :
    (x view host : ℕ)
    → x ≤ host
    → 0 < host
    → host < 2 ^ 16
    → view < 2 ^ 16
    → (scale_coordinate x view host ≡ x * view / host) × (x * view / host ≤ view)
unfolding scale_coordinate
scale_coordinate_lem x view host a p h v =
    let grow : x * view ≤ host * view = mul-le-mul_right view a in
    let h' : host ≤ 65535 = omega arith in
    let v' : view ≤ 65535 = omega arith in
    let most : host * view ≤ 65535 * 65535 = mul-le-mul h' v' in
    let whole : u32 (x * view) ≡ x * view = omega arith in
    let below : x * view / host ≤ view = div-le_of_le-mul host grow in
    let fits : u16 (x * view / host) ≡ x * view / host = omega arith in
    (rw (whole, fits) refl, below)

-- A rectangle within a desktop or view of the given size.
pub record Within (width height : ℕ) (r : Rectangle) : Type 0 where
  pub across : r.left ≤ r.right
  pub down : r.top ≤ r.bottom
  pub right_edge : r.right ≤ width
  pub bottom_edge : r.bottom ≤ height

scale_coordinate_mono :
    (x y view host : ℕ)
    → x ≤ y
    → y ≤ host
    → 0 < host
    → host < 2 ^ 16
    → view < 2 ^ 16
    → scale_coordinate x view host ≤ scale_coordinate y view host
scale_coordinate_mono x y view host a b p h v =
    let (ex, _) = scale_coordinate_lem x view host (omega arith) p h v in
    let (ey, _) = scale_coordinate_lem y view host b p h v in
    let le : x * view ≤ y * view = mul-le-mul_right view a in
    rw (ex, ey) ((le-div_iff_mul-le p).1 (omega (arith, div-mul-le_self (x * view) host)))

-- On a desktop and a view of at most 65535 pixels a side, the desktop not empty, a rectangle within
-- the desktop is taken to a rectangle within the view, where a view of size 0 counts as one as large as
-- the desktop.
pub scale_frame-Within :
    (e : Extent) (r : Rectangle)
    → Within e.hw e.hh r
    → 0 < e.hw
    → 0 < e.hh
    → e.hw < 2 ^ 16
    → e.hh < 2 ^ 16
    → e.view_width < 2 ^ 16
    → e.view_height < 2 ^ 16
    → let w : ℕ = or_host e.view_width e.hw in
      let h : ℕ = or_host e.view_height e.hh in
      (t : Rectangle) × (scale_frame e r ≡ some t) × Within w h t
unfolding scale_frame
scale_frame-Within e r i pw ph hw hh vw vh =
    let w : ℕ = or_host e.view_width e.hw in
    let h : ℕ = or_host e.view_height e.hh in
    let sw : w < 2 ^ 16 = ground arith in
    let sh : h < 2 ^ 16 = ground arith in
    elim (Bool-cases (w == e.hw && e.hh == h)) [
      | inl same ↦ (
        r,
        ground arith,
        record {
          across = i.across;
          down = i.down;
          right_edge = ground (arith, i.right_edge);
          bottom_edge = ground (arith, i.bottom_edge);
        },
      )
      | inr other ↦
          let (er, br) = scale_coordinate_lem r.right w e.hw i.right_edge pw hw sw in
          let (eb, bb) = scale_coordinate_lem r.bottom h e.hh i.bottom_edge ph hh sh in
          (
            record {
              left = scale_coordinate r.left w e.hw;
              right = scale_coordinate r.right w e.hw;
              top = scale_coordinate r.top h e.hh;
              bottom = scale_coordinate r.bottom h e.hh;
            },
            ground arith,
            record {
              across = scale_coordinate_mono r.left r.right w e.hw i.across i.right_edge pw hw sw;
              down = scale_coordinate_mono r.top r.bottom h e.hh i.down i.bottom_edge ph hh sh;
              right_edge = omega (arith, er, br);
              bottom_edge = omega (arith, eb, bb);
            },
          )
    ]
