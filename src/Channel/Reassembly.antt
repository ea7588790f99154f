-- ===== src/Channel/Reassembly.antt =====
-- `channel_client_post_message`: what reaches the plugin, and what does not.
use qfreerdp.Base.{
  ℕ, ◌+◌, ◌≤◌, ◌≡◌, refl, ap, Bool, true, false, List, [], ◌∷◌, ◌++◌, none, some, arith, length,
  length-append, append_assoc, replicate,
}
use qfreerdp.Channel.Stream.{StreamApi}
use qfreerdp.Channel.Defs.{
  Internals, begin_message, hand_over, end_message, append_chunk, post_message, post_all,
}
use qfreerdp.Channel.Chunks.{chunk, fragment, joined, append_chunk_fits, post_next}
use qfreerdp.Status.{Rc, channel_rc_ok}

module _ (api : StreamApi) {U : Type 0} (h : U → List ℕ → Rc × U) where
  open api use {
    Stream, create, create_lem, ensure_capacity_fits, write, capacity, written, written-write,
    capacity-write,
  }

  -- A chunk that is not the last leaves the longer stream behind.
  end_middle :
      (total : ℕ) (first : Bool) (b : List ℕ) (t : Stream) (i : Internals Stream U)
      → end_message api h true (chunk total first false b) t i
        ≡ (channel_rc_ok, record i { data_in = some t })
  unfolding end_message
  end_middle total first b t i = refl

  -- The last chunk hands a full stream over.
  end_full :
      (total : ℕ) (first : Bool) (b : List ℕ) (t : Stream) (i : Internals Stream U)
      → capacity t ≡ length (written t)
      → end_message api h true (chunk total first true b) t i
        ≡ hand_over api h true (written t) (record i { data_in = none })
  unfolding end_message
  end_full total first b t i e = ground arith

  room_for :
      (s : Stream) (b : List ℕ)
      → (capacity (write s b) ≡ capacity s)
        × (length (written (write s b)) ≡ length (written s) + length b)
  room_for s b = (capacity-write s b, rw (written-write s b) (length-append (written s) b))

  -- All chunks but the first, behind the stream that holds what came before.
  post_rest :
      (total : ℕ) (b : List ℕ) (cs : List (List ℕ)) (i : Internals Stream U) (s : Stream)
      → i.data_in ≡ some s
      → length (written s) + length (joined b cs) ≡ capacity s
      → let (rc, k) =
          hand_over api h true (written s ++ joined b cs) (record i { data_in = none }) in
        post_all api h (fragment total false b cs) i
        ≡ (replicate (length cs) channel_rc_ok ++ rc ∷ [], k)
  unfolding post_all
  post_rest total b [] i s e f =
      rw (post_next api h total true b i s e (omega arith))
        (rw (end_full total false b (write s b) i (omega (arith, room_for s b)), written-write s b))
  post_rest total b (c ∷ cs) i s e f =
      let fits : length (written s) + length b ≤ capacity s =
        omega (arith, length-append b (joined c cs)) in
      let full : length (written (write s b)) + length (joined c cs) ≡ capacity (write s b) =
        omega (arith, room_for s b, length-append b (joined c cs)) in
      let rest =
        post_rest total c cs (record i { data_in = some (write s b) }) (write s b) refl full in
      rw (post_next api h total false b i s e fits, end_middle total false b (write s b) i)
        (rw (rest, written-write s b, append_assoc (written s) b (joined c cs)))

  begin_first :
      (total : ℕ) (last : Bool) (b : List ℕ) (i : Internals Stream U) (s : Stream)
      → i.data_in ≡ none
      → create total ≡ some s
      → post_message api h true (chunk total true last b) i
        ≡ append_chunk api h true (chunk total true last b) (record i { data_in = some s })
  unfolding post_message begin_message
  begin_first total last b i s e c = rw (e, begin_message) (rw c)

  -- A message that arrives in chunks, the first flagged FIRST and the last LAST, each with the
  -- message's length as `totalLength`, is handed over once and whole when no other message is under
  -- way and the stream for it can be allocated: every call but the last returns CHANNEL_RC_OK and
  -- hands nothing over, and the last one hands over the chunks joined in order and returns what that
  -- gives.
  pub post_all-fragment :
      (b : List ℕ) (cs : List (List ℕ)) (i : Internals Stream U) (s : Stream)
      → i.data_in ≡ none
      → create (length (joined b cs)) ≡ some s
      → let (rc, k) = hand_over api h true (joined b cs) (record i { data_in = none }) in
        post_all api h (fragment (length (joined b cs)) true b cs) i
        ≡ (replicate (length cs) channel_rc_ok ++ rc ∷ [], k)
  unfolding post_all
  post_all-fragment b [] i s e c =
      let n : ℕ = length b in
      let j : Internals Stream U = record i { data_in = some s } in
      let (room, fresh) = create_lem n s c in
      let len : length (written s) ≡ 0 = ap length fresh in
      rw (begin_first n true b i s e c) (
        rw (append_chunk_fits api h true (chunk n true true b) j s refl (omega arith)) (
          rw (
            end_full n true b (write s b) j (omega (arith, room_for s b)),
            written-write s b,
            fresh,
          )))
  post_all-fragment b (x ∷ cs) i s e c =
      let n : ℕ = length (b ++ joined x cs) in
      let j : Internals Stream U = record i { data_in = some s } in
      let (room, fresh) = create_lem n s c in
      let len : length (written s) ≡ 0 = ap length fresh in
      let total = length-append b (joined x cs) in
      let rest =
        post_rest n x cs (record i { data_in = some (write s b) }) (write s b) refl
          (omega (arith, room_for s b)) in
      rw (begin_first n false b i s e c) (
        rw
          (
            append_chunk_fits api h true (chunk n true false b) j s refl (omega arith),
            end_middle n true b (write s b) j,
          )
          (rw (rest, written-write s b, fresh)))
