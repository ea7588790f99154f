-- ===== src/Channel/Stream.antt =====
-- What qf_channel_client_handler.c uses of WinPR's `wStream`. The library is not part of the
-- repository: its calls are an interface, with the documented behaviour that the handler relies on.
use qfreerdp.Base.{
  ℕ, ◌+◌, ◌≤◌, ◌≡◌, refl, List, [], ◌++◌, Option, some, arith, length, leb, if◌then◌else◌,
}

pub record StreamApi : Type 1 where
  pub Stream : Type 0
  -- Stream_New(NULL, size); `none` is a null pointer.
  pub create : ℕ → Option Stream
  -- Stream_EnsureCapacity and Stream_EnsureRemainingCapacity; `none` is FALSE.
  pub ensure_capacity : Stream → ℕ → Option Stream
  pub ensure_remaining : Stream → ℕ → Option Stream
  -- Stream_Write, Stream_Capacity, and the bytes before the position.
  pub write : Stream → List ℕ → Stream
  pub capacity : Stream → ℕ
  pub written : Stream → List ℕ
  pub create_lem : (n : ℕ) (s : Stream) → create n ≡ some s → (capacity s ≡ n) × (written s ≡ [])
  -- Asking for room that is there changes nothing; otherwise the bytes are kept.
  pub ensure_capacity_fits : (s : Stream) (n : ℕ) → n ≤ capacity s → ensure_capacity s n ≡ some s
  pub ensure_capacity_keeps :
      (s t : Stream) (n : ℕ) → ensure_capacity s n ≡ some t → written t ≡ written s
  pub ensure_remaining_fits :
      (s : Stream) (n : ℕ) → length (written s) + n ≤ capacity s → ensure_remaining s n ≡ some s
  pub ensure_remaining_keeps :
      (s t : Stream) (n : ℕ) → ensure_remaining s n ≡ some t → written t ≡ written s
  pub written-write : (s : Stream) (b : List ℕ) → written (write s b) ≡ written s ++ b
  pub capacity-write : (s : Stream) (b : List ℕ) → capacity (write s b) ≡ capacity s

-- A stream that meets the interface: it grows to the size asked for, and never fails.
pub record Buffer : Type 0 where
  pub room : ℕ
  pub bytes : List ℕ

abbrev pub grow : Buffer → ℕ → Option Buffer
grow s n = if leb n s.room then some s else some (record s { room = n })

pub grow_fits : (s : Buffer) (n : ℕ) → n ≤ s.room → grow s n ≡ some s
grow_fits s n h = ground arith

pub grow_keeps : (s t : Buffer) (n : ℕ) → grow s n ≡ some t → t.bytes ≡ s.bytes
grow_keeps s t n e = ground arith

pub fresh_lem :
    (n : ℕ) (s : Buffer)
    → some (record { room = n; bytes = [] }) ≡ some s
    → (s.room ≡ n) × (s.bytes ≡ [])
fresh_lem n s e = ground arith

abbrev pub buffer_api : StreamApi
buffer_api = record {
  Stream = Buffer;
  create = λ n. some (record { room = n; bytes = [] });
  ensure_capacity = grow;
  ensure_remaining = λ s n. grow s (length s.bytes + n);
  write = λ s b. record s { bytes = s.bytes ++ b };
  capacity = λ s. s.room;
  written = λ s. s.bytes;
  create_lem = fresh_lem;
  ensure_capacity_fits = grow_fits;
  ensure_capacity_keeps = grow_keeps;
  ensure_remaining_fits = λ s n. grow_fits s (length s.bytes + n);
  ensure_remaining_keeps = λ s t n. grow_keeps s t (length s.bytes + n);
  written-write = λ s b. refl;
  capacity-write = λ s b. refl;
}
