-- ===== src/Channel/Chunks.antt =====
-- One message cut into chunks, as a virtual channel delivers it to `channel_client_post_message`,
-- and what one call does with a chunk.
use qfreerdp.Base.{
  ℕ, ◌+◌, ◌≤◌, ◌≡◌, Bool, true, false, List, [], ◌∷◌, ◌++◌, some, arith, length, length-append,
}
use qfreerdp.Channel.Stream.{StreamApi}
use qfreerdp.Channel.Defs.{Internals, Pdu, end_message, append_chunk, post_message, begin_message}
use qfreerdp.Status.{Rc}

abbrev pub chunk : ℕ → Bool → Bool → List ℕ → Pdu
chunk total first last b = record {
  bytes = b;
  total_length = total;
  first = first;
  last = last;
  suspend = false;
  resume = false;
}

-- The chunk `b` and the chunks behind it; every MessageQueue_Post succeeds.
abbrev pub fragment : ℕ → Bool → List ℕ → List (List ℕ) → List (Bool × Pdu)
fragment total first b [] = (true, chunk total first true b) ∷ []
fragment total first b (c ∷ cs) = (true, chunk total first false b) ∷ fragment total false c cs

abbrev pub joined : List ℕ → List (List ℕ) → List ℕ
joined b [] = b
joined b (c ∷ cs) = b ++ joined c cs

pub length-joined-le : (b : List ℕ) (cs : List (List ℕ)) → length b ≤ length (joined b cs)
length-joined-le b [] = omega arith
length-joined-le b (c ∷ cs) = omega (arith, length-append b (joined c cs))

module _ (api : StreamApi) {U : Type 0} (h : U → List ℕ → Rc × U) where
  open api use {Stream, create, ensure_remaining_fits, create_lem, write, capacity, written}

  -- A chunk that fits is written behind what is there.
  pub append_chunk_fits :
      (ok : Bool) (p : Pdu) (i : Internals Stream U) (s : Stream)
      → i.data_in ≡ some s
      → length (written s) + length p.bytes ≤ capacity s
      → append_chunk api h ok p i ≡ end_message api h ok p (write s p.bytes) i
  unfolding append_chunk
  append_chunk_fits ok p i s e f =
      rw (e, append_chunk) (rw (ensure_remaining_fits s (length p.bytes) f, append_chunk))

  pub post_next :
      (total : ℕ) (last : Bool) (b : List ℕ) (i : Internals Stream U) (s : Stream)
      → i.data_in ≡ some s
      → length (written s) + length b ≤ capacity s
      → post_message api h true (chunk total false last b) i
        ≡ end_message api h true (chunk total false last b) (write s b) i
  unfolding post_message begin_message
  post_next total last b i s e f = append_chunk_fits true (chunk total false last b) i s e f
