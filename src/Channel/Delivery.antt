-- ===== src/Channel/Delivery.antt =====
-- `channel_client_post_message` in any state: when a message is handed over, and what a chunk that
-- was never completed does to the message behind it.
use qfreerdp.Base.{
  ℕ, ◌+◌, ◌<◌, ◌≡◌, refl, Bool, true, List, [], ◌++◌, ◌⊎◌, Option, none, some, arith, length,
  length-append,
}
use qfreerdp.Channel.Stream.{StreamApi}
use qfreerdp.Channel.Defs.{Internals, Pdu, begin_message, hand_over, end_message, post_message}
use qfreerdp.Channel.Chunks.{chunk, append_chunk_fits}
use qfreerdp.Status.{Rc, error_internal_error}

module _ (api : StreamApi) {U : Type 0} (h : U → List ℕ → Rc × U) where
  open api use {
    Stream, create, create_lem, ensure_capacity, ensure_capacity_fits, ensure_capacity_keeps,
    ensure_remaining, ensure_remaining_keeps, write, capacity, written, written-write,
    capacity-write,
  }

  -- The bytes of the message under way.
  abbrev pub pending : Option Stream → List ℕ
  pending none = []
  pending (some s) = written s

  -- Nothing reaches the plugin or the queue.
  abbrev pub IsQuiet : Internals Stream U → Internals Stream U → Type 0
  IsQuiet i j = (j.queue ≡ i.queue) × (j.userdata ≡ i.userdata)

  -- The call hands over exactly `b`, and the handler is ready for the next message.
  abbrev pub HandsOver : Bool → List ℕ → Internals Stream U → Rc × Internals Stream U → Type 0
  HandsOver ok b i r = r ≡ hand_over api h ok b (record i { data_in = none })

  abbrev IsWhole : Bool → Pdu → List ℕ → Internals Stream U → Rc × Internals Stream U → Type 0
  IsWhole ok p old i r =
      IsQuiet i r.1
      ⊎ ((t : Stream) × (p.last ≡ true)
          × (capacity t ≡ length (old ++ p.bytes))
          × HandsOver ok (old ++ p.bytes) i r)

  -- A chunk that was left unfinished spoils the message behind it: if the bytes under way and a
  -- complete message in one chunk together fall short of the stream, the message is refused with
  -- ERROR_INTERNAL_ERROR, nothing is handed over, and the stream keeps both.
  pub post_message_stale :
      (ok : Bool) (i : Internals Stream U) (s : Stream) (b : List ℕ)
      → i.data_in ≡ some s
      → length (written s) + length b < capacity s
      → post_message api h ok (chunk (length b) true true b) i
        ≡ (error_internal_error, record i { data_in = some (write s b) })
  unfolding post_message begin_message end_message
  post_message_stale ok i s b e f =
      let room = ensure_capacity_fits s (length b) (omega arith) in
      let p = chunk (length b) true true b in
      let len = length-append (written s) b in
      rw (e, begin_message)
        (rw (room, begin_message)
          (rw (append_chunk_fits api h ok p (record i { data_in = some s }) s refl (omega arith))
            (rw (capacity-write s b, written-write s b) (ground (arith, len)))))
