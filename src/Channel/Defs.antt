-- ===== src/Channel/Defs.antt =====
-- qf_channel_client_handler.c: the handler's state, `channel_client_post_message` and
-- `channel_client_thread_proc`.
use qfreerdp.Base.{
  ℕ, Bool, ◌||◌, List, [], ◌∷◌, ◌++◌, Option, none, some, length, ◌==◌, if◌then◌else◌,
}
use qfreerdp.Status.{Rc, channel_rc_ok, channel_rc_no_memory, error_internal_error, is_error}
use qfreerdp.Channel.Stream.{StreamApi}

-- What lies in the queue: id 0 with a message's bytes, WMQ_QUIT, or any other id.
pub data Message : Type 0 where
  payload : List ℕ → Message
  quit : Message
  foreign : ℕ → Message

-- `msg_proc_internals`, with the plugin's state behind `userdata`. `threads_disabled` is the setting
-- THREADING_FLAGS_DISABLE_THREADS; `queue` holds what has been posted and not taken yet.
pub record Internals (S U : Type 0) : Type 0 where
  pub data_in : Option S
  pub userdata : U
  pub queue : List Message
  pub threads_disabled : Bool

-- The arguments of `channel_client_post_message`, `dataFlags` by its four bits.
pub record Pdu : Type 0 where
  pub bytes : List ℕ
  pub total_length : ℕ
  pub first : Bool
  pub last : Bool
  pub suspend : Bool
  pub resume : Bool

module _ (api : StreamApi) {U : Type 0} (msg_handler : U → List ℕ → Rc × U) where
  open api use {Stream, create, ensure_capacity, ensure_remaining, write, capacity, written}

  -- The CHANNEL_FLAG_FIRST block: `none` is its early return.
  unfoldable pub begin_message : Pdu → Internals Stream U → Option (Internals Stream U)
  begin_message p i =
      if p.first
      then elim i.data_in [
        | some s ↦ elim (ensure_capacity s p.total_length) [
          | some t ↦ some (record i { data_in = some t })
          | none ↦ none
        ]
        | none ↦ some (record i { data_in = create p.total_length })
      ]
      else some i

  -- The complete message goes to the plugin or into the queue; `post_ok` is the result of
  -- MessageQueue_Post.
  unfoldable pub hand_over : Bool → List ℕ → Internals Stream U → Rc × Internals Stream U
  hand_over post_ok b i =
      if i.threads_disabled
      then (let (error, u) = msg_handler i.userdata b in
          (
            if is_error error then error_internal_error else channel_rc_ok,
            record i { userdata = u },
          ))
      else (if post_ok
          then (channel_rc_ok, record i { queue = i.queue ++ payload b ∷ [] })
          else (error_internal_error, i))

  -- The CHANNEL_FLAG_LAST block, with the stream `t` that holds all chunks.
  unfoldable pub end_message : Bool → Pdu → Stream → Internals Stream U → Rc × Internals Stream U
  end_message post_ok p t i =
      if p.last
      then (if capacity t == length (written t)
          then hand_over post_ok (written t) (record i { data_in = none })
          else (error_internal_error, record i { data_in = some t }))
      else (channel_rc_ok, record i { data_in = some t })

  unfoldable pub append_chunk : Bool → Pdu → Internals Stream U → Rc × Internals Stream U
  unfolding end_message
  append_chunk post_ok p i = elim i.data_in [
    | none ↦ (channel_rc_no_memory, i)
    | some s ↦ elim (ensure_remaining s (length p.bytes)) [
      | none ↦ (channel_rc_no_memory, record i { data_in = none })
      | some t ↦ end_message post_ok p (write t p.bytes) i
    ]
  ]

  unfoldable pub post_message : Bool → Pdu → Internals Stream U → Rc × Internals Stream U
  unfolding begin_message append_chunk
  post_message post_ok p i =
      if p.suspend || p.resume then (channel_rc_ok, i) else elim (begin_message p i) [
        | none ↦ (channel_rc_no_memory, i)
        | some j ↦ append_chunk post_ok p j
      ]

  -- `MsgsHandle` may be null.
  unfoldable pub channel_client_post_message :
      Bool → Pdu → Option (Internals Stream U) → Rc × Option (Internals Stream U)
  unfolding post_message
  channel_client_post_message post_ok p none = (channel_rc_ok, none)
  channel_client_post_message post_ok p (some i) =
      let (rc, j) = post_message post_ok p i in (rc, some j)

  -- The calls for a list of PDUs, each with the outcome of its MessageQueue_Post.
  unfoldable pub post_all : List (Bool × Pdu) → Internals Stream U → List Rc × Internals Stream U
  post_all [] i = ([], i)
  post_all ((ok, p) ∷ ps) i =
      let (rc, j) = post_message ok p i in let (rcs, k) = post_all ps j in (rc ∷ rcs, k)

-- One round of the thread's loop: what MessageQueue_Wait and MessageQueue_Peek give.
pub data Wake : Type 0 where
  wait_failed : Wake
  peek_failed : Wake
  message : Message → Wake

-- The thread waits for more, or has left its loop with `error`.
pub data WorkerStatus : Type 0 where
  waiting : WorkerStatus
  exited : Rc → WorkerStatus

pub record Worker (U : Type 0) : Type 0 where
  pub userdata : U
  pub status : WorkerStatus
  -- What `setChannelError` was called with.
  pub channel_error : Option Rc

module _ {U : Type 0} (msg_handler : U → List ℕ → Rc × U) where
  -- Behind the loop: a failure is reported to the context, which is never null here.
  abbrev pub leave : U → Rc → Worker U
  leave u error = record {
    userdata = u;
    status = exited error;
    channel_error = if is_error error then some error else none;
  }

  -- The loop. It gives up at the first failure, and at WMQ_QUIT.
  unfoldable pub channel_client_thread_proc : U → List Wake → Worker U
  channel_client_thread_proc u [] = record { userdata = u; status = waiting; channel_error = none }
  channel_client_thread_proc u (wait_failed ∷ ws) = leave u error_internal_error
  channel_client_thread_proc u (peek_failed ∷ ws) = leave u error_internal_error
  channel_client_thread_proc u (message quit ∷ ws) = leave u channel_rc_ok
  channel_client_thread_proc u (message (foreign id) ∷ ws) = channel_client_thread_proc u ws
  channel_client_thread_proc u (message (payload b) ∷ ws) =
      let rest = channel_client_thread_proc (msg_handler u b).1 ws in
      if is_error (msg_handler u b).0 then leave (msg_handler u b).1 (msg_handler u b).0 else rest
