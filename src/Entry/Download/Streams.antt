-- ===== src/Entry/Download/Streams.antt =====
-- The stream ids of the requests that one client makes.
use qfreerdp.Base.{ℕ, zero, suc, ◌+◌, ◌-◌, ◌%◌, ◌^◌, ◌<◌, ◌≡◌, ◌≢◌, arith}
use qfreerdp.Entry.Download.{next_remote_stream_id}
use qfreerdp.Entry.Download.Safety.{next_remote_stream_id_lem}

-- The counter behind `n` requests.
abbrev pub counter_after : ℕ → ℕ → ℕ
counter_after zero c = c
counter_after (suc n) c = counter_after n (next_remote_stream_id c).1

-- The ids, 0 left out, stand in a circle of 2^32 - 1.
next_on_circle :
    (c : ℕ)
    → c < 2 ^ 32
    → (next_remote_stream_id (next_remote_stream_id c).1).0
      ≡ (next_remote_stream_id c).0 % (2 ^ 32 - 1) + 1
unfolding next_remote_stream_id
next_on_circle c h = ground arith

id_on_circle :
    (n c : ℕ)
    → c < 2 ^ 32
    → (next_remote_stream_id (counter_after n c)).0
      ≡ ((next_remote_stream_id c).0 - 1 + n) % (2 ^ 32 - 1) + 1
id_on_circle zero c h = let (l, u, _) = next_remote_stream_id_lem c h in omega arith
id_on_circle (suc n) c h =
    let (l, u, v) = next_remote_stream_id_lem c h in
    let rest = id_on_circle n (next_remote_stream_id c).1 v in
    let here = next_on_circle c h in omega arith

-- No request has the stream id 0, and no two of 2^32 - 1 requests in a row have the same, wherever
-- the counter stands: an answer that is late by fewer requests is not taken for another's.
pub stream_ids_differ :
    (c i j : ℕ)
    → c < 2 ^ 32
    → i < j
    → j < i + (2 ^ 32 - 1)
    → (0 < (next_remote_stream_id (counter_after i c)).0)
      × ((next_remote_stream_id (counter_after i c)).0
          ≢ (next_remote_stream_id (counter_after j c)).0)
stream_ids_differ c i j h l u =
    let at_i = id_on_circle i c h in
    let at_j = id_on_circle j c h in (omega arith, λ e. omega arith)
