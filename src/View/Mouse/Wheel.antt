-- ===== src/View/Mouse/Wheel.antt =====
-- The flags of a wheel event, and what the protocol takes them for.
use qfreerdp.Base.{
  ℕ, zero, suc, ◌+◌, ◌-◌, ◌/◌, ◌%◌, ◌≤◌, ◌<◌, ◌≡◌, refl, Bool, true, inl, inr, Bool-cases, ◌&&◌,
  arith, ◌==◌, ltb, ltb→lt, if◌then◌else◌,
}
use qfreerdp.View.Mouse.{Turn, away, towards, wheel_flags}

-- The rotation that the low nine bits stand for: a number in two's complement, as MS-RDPBCGR
-- 2.2.8.1.1.3.1.1.3 has it.
abbrev pub rotation : ℕ → Turn
rotation flags = if flags / 256 % 2 == 1 then towards (512 - flags % 512) else away (flags % 512)

-- Two functions agree below a bound.
same_below : (ℕ → ℕ) → (ℕ → ℕ) → ℕ → Bool
same_below f g zero = true
same_below f g (suc k) = (f k == g k) && same_below f g k

agree : (f g : ℕ → ℕ) (bound d : ℕ) → same_below f g bound ≡ true → d < bound → f d ≡ g d
unfolding same_below
agree f g zero d table small = absurd (omega arith)
agree f g (suc k) d table small = elim (Bool-cases (d == k)) [
  | inl here ↦ ground arith
  | inr other ↦ agree f g k d (ground arith) (ground arith)
]

away_table : same_below (λ d. wheel_flags (away d)) (λ d. 512 + d) 256 ≡ true
unfolding same_below wheel_flags
away_table = refl

towards_table : same_below (λ d. wheel_flags (towards d)) (λ d. 768 + d) 256 ≡ true
unfolding same_below wheel_flags
towards_table = refl

far_table : same_below (λ d. wheel_flags (away (256 + d))) (λ d. 768 + d) 256 ≡ true
unfolding same_below wheel_flags
far_table = refl

-- A turn of up to 255 away from the user is sent as that rotation.
pub away_sent : (d : ℕ) → d < 256 → rotation (wheel_flags (away d)) ≡ away d
away_sent d h =
    let e = agree (λ d. wheel_flags (away d)) (λ d. 512 + d) 256 d away_table h in
    rw e (ground arith)

-- A turn towards the user is sent by its amount where the protocol wants the two's complement: a turn
-- of d, from 1 to 255, is read as one of 256 - d, which is right at 128 alone.
pub towards_sent :
    (d : ℕ) → 0 < d → d < 256 → rotation (wheel_flags (towards d)) ≡ towards (256 - d)
towards_sent d p h =
    let e = agree (λ d. wheel_flags (towards d)) (λ d. 768 + d) 256 d towards_table h in
    rw e (ground arith)

-- A turn away from the user of 256 to 511 has the bit that means towards: it is read as a turn of
-- 512 minus its amount the other way.
pub away_reversed :
    (d : ℕ) → 256 ≤ d → d < 512 → rotation (wheel_flags (away d)) ≡ towards (512 - d)
away_reversed d p h =
    let e =
      agree (λ d. wheel_flags (away (256 + d))) (λ d. 768 + d) 256 (d - 256) far_table
        (omega arith) in
    let back : 256 + (d - 256) ≡ d = omega arith in
    let at : wheel_flags (away d) ≡ 768 + (d - 256) = rw back at e in rw at (ground arith)

far_towards_table : same_below (λ d. wheel_flags (towards (256 + d))) (λ d. 768 + d) 256 ≡ true
unfolding same_below wheel_flags
far_towards_table = refl

far_towards : (d : ℕ) → 256 ≤ d → d < 512 → rotation (wheel_flags (towards d)) ≡ towards (512 - d)
far_towards d p h =
    let e =
      agree (λ d. wheel_flags (towards (256 + d))) (λ d. 768 + d) 256 (d - 256) far_towards_table
        (omega arith) in
    let back : 256 + (d - 256) ≡ d = omega arith in
    let at : wheel_flags (towards d) ≡ 768 + (d - 256) = rw back at e in rw at (ground arith)

-- What the protocol reads of a turn of up to 511: away from the user it is right below 256, and from
-- there on it is a turn the other way; towards the user a turn of d, not 0, is read as one of 256 less
-- the rest of d by 256 where the protocol wants the two's complement, so that among those below 256 it is
-- right at 128 alone.
pub wheel_rotation :
    (d : ℕ)
    → 0 < d
    → d < 512
    → (rotation (wheel_flags (away d)) ≡ (if ltb d 256 then away d else towards (512 - d)))
      × (rotation (wheel_flags (towards d)) ≡ towards (256 - d % 256))
wheel_rotation d p h = elim (Bool-cases (ltb d 256)) [
  | inl e ↦
      let small : d < 256 = ltb→lt d 256 e in
      let same : d % 256 ≡ d = omega arith in
      (rw e (away_sent d small), rw same (towards_sent d p small))
  | inr e ↦
      let big : 256 ≤ d = ground arith in
      let rest : 256 - d % 256 ≡ 512 - d = omega arith in
      (rw e (away_reversed d big h), rw rest (far_towards d big h))
]
