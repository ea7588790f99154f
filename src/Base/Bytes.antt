-- ===== src/Base/Bytes.antt =====
-- Slices of a byte sequence, and little-endian numbers.
use native.Mathlib.Nat.{zero-add, suc-add}
use qfreerdp.Base.{
  ℕ, zero, suc, ◌+◌, ◌*◌, ◌/◌, ◌%◌, ◌^◌, ◌≤◌, ◌<◌, ◌-◌, min, ◌≡◌, refl, ap, List, [], ◌∷◌, ◌++◌,
  arith, length, take, drop, length-take, length-drop,
}

module _ {ℓ} {A : Type ℓ} where
  -- `n` items from position `i` on.
  abbrev pub slice : ℕ → ℕ → List A → List A
  slice i n xs = take n (drop i xs)

  pub take-add : (i n : ℕ) (xs : List A) → take (i + n) xs ≡ take i xs ++ slice i n xs
  take-add zero n xs = rw zero-add
  take-add (suc i) zero [] = rw suc-add
  take-add (suc i) (suc n) [] = rw suc-add
  take-add (suc i) n (x ∷ xs) = rw suc-add (ap (◌∷◌ x) (take-add i n xs))

  pub take_all : (n : ℕ) (xs : List A) → length xs ≤ n → take n xs ≡ xs
  take_all zero [] h = refl
  take_all zero (x ∷ xs) h = absurd (omega arith)
  take_all (suc n) [] h = refl
  take_all (suc n) (x ∷ xs) h = ap (◌∷◌ x) (take_all n xs (omega arith))

  pub length-slice : (i n : ℕ) (xs : List A) → length (slice i n xs) ≡ min n (length xs - i)
  length-slice i n xs = omega (arith, length-take n (drop i xs), length-drop i xs)

-- The `n` low bytes of `v`, the lowest first.
abbrev pub to_le : ℕ → ℕ → List ℕ
to_le zero v = []
to_le (suc n) v = v % 256 ∷ to_le n (v / 256)

abbrev pub of_le : List ℕ → ℕ
of_le [] = 0
of_le (b ∷ bs) = b + 256 * of_le bs

-- `v` has at most `n` bytes.
abbrev pub Fits : ℕ → ℕ → Type 0
Fits zero v = v ≡ 0
Fits (suc n) v = Fits n (v / 256)

pub of_le-to_le : (n v : ℕ) → Fits n v → of_le (to_le n v) ≡ v
of_le-to_le zero v h = omega arith
of_le-to_le (suc n) v h = omega (arith, of_le-to_le n (v / 256) h)

pub length-to_le : (n v : ℕ) → length (to_le n v) ≡ n
length-to_le zero v = refl
length-to_le (suc n) v = ap suc (length-to_le n (v / 256))

pub Fits-u64 : (v : ℕ) → v < 2 ^ 64 → Fits 8 v
Fits-u64 v h = omega arith
