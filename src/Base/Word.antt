-- ===== src/Base/Word.antt =====
-- Machine words as native numbers: a w-bit value is a number below 2 ^ w, cut off by `%`.
use qfreerdp.Base.{ℕ, ◌+◌, ◌*◌, ◌/◌, ◌%◌, ◌^◌, ◌<◌, ◌≡◌, arith}

abbrev pub u16 : ℕ → ℕ
u16 n = n % 2 ^ 16

abbrev pub u32 : ℕ → ℕ
u32 n = n % 2 ^ 32

abbrev pub u64 : ℕ → ℕ
u64 n = n % 2 ^ 64

-- `(uint64_t(hi) << 32) | lo` at two 32-bit halves.
abbrev pub join64 : ℕ → ℕ → ℕ
join64 hi lo = hi * 2 ^ 32 + lo

-- The low half `v & 0xFFFFFFFF` and the high half `(v >> 32) & 0xFFFFFFFF`.
abbrev pub low32 : ℕ → ℕ
low32 v = v % 2 ^ 32

abbrev pub high32 : ℕ → ℕ
high32 v = v / 2 ^ 32 % 2 ^ 32

pub join64_halves : (v : ℕ) → v < 2 ^ 64 → join64 (high32 v) (low32 v) ≡ v
join64_halves v h = omega arith
