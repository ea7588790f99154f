-- ===== src/View/Mouse/Scale.antt =====
-- Where a point of the item lands on the remote desktop.
use native.Mathlib.Decide.{ℕ_discrete}
use native.Mathlib.Nat.{
  div-lt_iff_lt-mul, mul-div_cancel, mul-le-mul_left, le-div_iff_mul-le, div-mul-le_self,
}
use qfreerdp.Base.{ℕ, ◌*◌, ◌^◌, ◌≤◌, ◌<◌, ◌≡◌, ap, sym, ◌∙◌, ◌≢◌, ◌⊎◌, inl, inr, arith, some}
use qfreerdp.Base.Word.{u32}
use qfreerdp.View.Mouse.{Sizes, sends, scaled, mouse_event_scale_send, inside}

-- On an item and a desktop of at most 65536 pixels a side the product does not wrap.
product_small : (x host size : ℕ) → x < size → size ≤ 2 ^ 16 → host ≤ 2 ^ 16 → x * host < 2 ^ 32
product_small x host size a b c = omega (arith, mul-le-mul_left x c)

pub scaled-lt :
    (x host size : ℕ)
    → x < size
    → size ≤ 2 ^ 16
    → 0 < host
    → host ≤ 2 ^ 16
    → scaled x host size < host
unfolding scaled
scaled-lt x host size a b p c =
    let small = product_small x host size a b c in
    let whole : u32 (x * host) ≡ x * host = omega arith in
    let less : x * host < host * size = grind arith in
    rw whole ((div-lt_iff_lt-mul (omega arith)).1 less)

-- Scaling keeps the order of points.
pub scaled_mono :
    (x y host size : ℕ)
    → x ≤ y
    → y < size
    → size ≤ 2 ^ 16
    → host ≤ 2 ^ 16
    → scaled x host size ≤ scaled y host size
unfolding scaled
scaled_mono x y host size a b c d =
    let sx = product_small x host size (omega arith) c d in
    let sy = product_small y host size b c d in
    let wx : u32 (x * host) ≡ x * host = omega arith in
    let wy : u32 (y * host) ≡ y * host = omega arith in
    let le : x * host ≤ y * host = grind arith in
    rw (wx, wy)
      ((le-div_iff_mul-le (omega arith)).1 (omega (arith, div-mul-le_self (x * host) size)))

scaled_same : (x size : ℕ) → x < size → size ≤ 2 ^ 16 → scaled x size size ≡ x
unfolding scaled
scaled_same x size a b =
    let small = product_small x size size a b b in
    let whole : u32 (x * size) ≡ x * size = omega arith in rw whole (mul-div_cancel x (omega arith))

-- A size that the item and the desktop have in practice.
pub record IsUsual (s : Sizes) : Type 0 where
  pub small_w : s.width ≤ 2 ^ 16
  pub small_h : s.height ≤ 2 ^ 16
  pub host_small_w : s.host_w ≤ 2 ^ 16
  pub host_small_h : s.host_h ≤ 2 ^ 16
  pub host_some_w : 0 < s.host_w
  pub host_some_h : 0 < s.host_h

-- A point of the item is sent as a point of the desktop, when neither is larger than 65536 pixels a
-- side and the item has a size in whole pixels; where the item is as large as the desktop it is the
-- same point.
pub mouse_event-inside :
    (s : Sizes) (x y flags : ℕ)
    → IsUsual s
    → x < s.width
    → y < s.height
    → (x' : ℕ) × (y' : ℕ) × (mouse_event_scale_send (some s) (inside x) (inside y) flags
        ≡ sends flags x' y')
      × (x' < s.host_w)
      × (y' < s.host_h)
      × ((s.width ≢ s.host_w) ⊎ (x' ≡ x))
      × ((s.height ≢ s.host_h) ⊎ (y' ≡ y))
unfolding mouse_event_scale_send
mouse_event-inside s x y flags u hx hy = (
  scaled x s.host_w s.width,
  scaled y s.host_h s.height,
  ground arith,
  scaled-lt x s.host_w s.width hx u.small_w u.host_some_w u.host_small_w,
  scaled-lt y s.host_h s.height hy u.small_h u.host_some_h u.host_small_h,
  same x s.width s.host_w hx u.small_w,
  same y s.height s.host_h hy u.small_h,
)
  where
    same : (z size host : ℕ) → z < size → size ≤ 2 ^ 16 → (size ≢ host) ⊎ (scaled z host size ≡ z)
    same z size host a b = elim (ℕ_discrete size host) [
      | yes e ↦ inr (ap (λ h. scaled z h size) (sym e) ∙ scaled_same z size a b)
      | no e ↦ inl e
    ]
