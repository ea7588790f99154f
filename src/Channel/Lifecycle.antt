-- ===== src/Channel/Lifecycle.antt =====
-- `channel_client_create_handler`, `channel_client_quit_handler` and `channel_client_handler_free`:
-- what they allocate and release, as the list of what they do.
use qfreerdp.Base.{
  ℕ, ◌+◌, ◌≡◌, Bool, true, false, not, ◌&&◌, List, [], ◌∷◌, ◌++◌, ◌⊎◌, Option, none, some, arith,
  if◌then◌else◌,
}
use qfreerdp.Status.{Rc, channel_rc_ok}

pub data Resource : Type 0 where
  block name queue thread stream : Resource

pub data Action : Type 0 where
  acquires : Resource → Action
  releases : Resource → Action
  -- WMQ_QUIT is posted; the thread's end has been waited for.
  posts_quit : Action
  joins : Action

-- Which pointers of `msg_proc_internals` are set.
pub record Handle : Type 0 where
  pub has_name : Bool
  pub has_queue : Bool
  pub has_thread : Bool
  pub has_data_in : Bool

abbrev pub release_if : Bool → Resource → List Action
release_if true r = releases r ∷ []
release_if false r = []

-- MessageQueue_Free, Stream_Free and free take null pointers.
unfoldable pub handler_free : Handle → List Action
handler_free h =
    release_if h.has_thread thread
    ++ (release_if h.has_queue queue
        ++ (release_if h.has_data_in stream ++ (release_if h.has_name name ++ releases block ∷ [])))

-- What the calls of `channel_client_create_handler` give.
pub record Startup : Type 0 where
  pub block_ok : Bool
  pub name_given : Bool
  pub name_ok : Bool
  pub threads_disabled : Bool
  pub queue_ok : Bool
  pub thread_ok : Bool

abbrev fail : List Action → Handle → Option Handle × List Action
fail done h = (none, done ++ handler_free h)

-- The block for a handler with a thread.
unfoldable pub start_thread : Startup → List Action → Handle → Option Handle × List Action
start_thread o done h =
    if o.queue_ok
    then (if o.thread_ok
        then (
          some (record h { has_queue = true; has_thread = true }),
          done ++ acquires queue ∷ acquires thread ∷ [],
        )
        else (none, (done ++ acquires queue ∷ []) ++ handler_free (record h { has_queue = true })))
    else (none, done ++ handler_free h)

unfoldable pub finish_create : Startup → List Action → Handle → Option Handle × List Action
unfolding start_thread
finish_create o done h = if o.threads_disabled then (some h, done) else start_thread o done h

unfoldable pub channel_client_create_handler : Startup → Option Handle × List Action
unfolding finish_create
channel_client_create_handler o =
    if o.block_ok
    then (if o.name_given
        then (if o.name_ok
            then finish_create o (acquires block ∷ acquires name ∷ [])
                (record empty { has_name = true })
            else (none, acquires block ∷ handler_free empty))
        else finish_create o (acquires block ∷ []) empty)
    else (none, [])
  where
    empty : Handle
    empty = record { has_name = false; has_queue = false; has_thread = false; has_data_in = false }

-- What MessageQueue_PostQuit and WaitForSingleObject give: `wait_error` is GetLastError behind
-- WAIT_FAILED.
pub record Shutdown : Type 0 where
  pub threads_disabled : Bool
  pub post_ok : Bool
  pub wait_error : Option Rc

-- The early return keeps the handler; every other path frees it.
unfoldable pub quit_handler : Shutdown → Handle → Rc × List Action
quit_handler o h =
    if not o.threads_disabled && (h.has_queue && h.has_thread)
    then (if o.post_ok
        then elim o.wait_error [
          | some e ↦ (e, posts_quit ∷ [])
          | none ↦ (channel_rc_ok, posts_quit ∷ joins ∷ handler_free h)
        ]
        else (channel_rc_ok, handler_free h))
    else (channel_rc_ok, handler_free h)

-- A null handle is quit at once.
unfoldable pub channel_client_quit_handler : Shutdown → Option Handle → Rc × List Action
unfolding quit_handler
channel_client_quit_handler o none = (channel_rc_ok, [])
channel_client_quit_handler o (some h) = quit_handler o h

abbrev pub same_resource : Resource → Resource → Bool
same_resource block block = true
same_resource name name = true
same_resource queue queue = true
same_resource thread thread = true
same_resource stream stream = true
same_resource _ _ = false

abbrev pub acquired : Resource → List Action → ℕ
acquired r [] = 0
acquired r (acquires s ∷ rest) = (if same_resource r s then 1 else 0) + acquired r rest
acquired r (_ ∷ rest) = acquired r rest

abbrev pub released : Resource → List Action → ℕ
released r [] = 0
released r (releases s ∷ rest) = (if same_resource r s then 1 else 0) + released r rest
released r (_ ∷ rest) = released r rest

-- A failed start has released what it acquired; a handle stands for what `handler_free` will release.
abbrev pub IsBalanced : Resource → Option Handle × List Action → Type 0
IsBalanced r (none, done) = released r done ≡ acquired r done
IsBalanced r (some h, done) =
    (released r done ≡ 0) × (acquired r done ≡ released r (handler_free h))

-- A start that fails has released each resource as often as it acquired it. One that gives a handle
-- has released none, and has acquired each exactly as often as freeing the handle releases it.
pub create_handler-IsBalanced :
    (o : Startup) (r : Resource) → IsBalanced r (channel_client_create_handler o)
unfolding channel_client_create_handler handler_free
create_handler-IsBalanced o r = ground arith

-- No release stands before the wait for the thread's end.
abbrev pub joins_first : List Action → Bool
joins_first [] = true
joins_first (joins ∷ rest) = true
joins_first (releases r ∷ rest) = false
joins_first (acquires r ∷ rest) = joins_first rest
joins_first (posts_quit ∷ rest) = joins_first rest

-- Quitting releases each resource of the handle once, the error of a failed wait apart: then it
-- returns that error and releases nothing.
quit_handler_releases :
    (o : Shutdown) (h : Handle) (r : Resource)
    → let (rc, done) = channel_client_quit_handler o (some h) in
      ((rc ≡ channel_rc_ok) × (released r done ≡ released r (handler_free h)))
      ⊎ ((o.wait_error ≡ some rc) × (released r done ≡ 0))
unfolding channel_client_quit_handler
quit_handler_releases o h r = ground arith

-- When a handler that runs a thread is quit, nothing is released before the thread has ended exactly
-- if WMQ_QUIT can be posted. If it cannot, the handler and the queue are released under the thread
-- that uses them, and CHANNEL_RC_OK is returned. Each resource of the handle is released once, the
-- error of a failed wait apart: then this error is returned and nothing is released.
pub quit_handler_joins_first :
    (o : Shutdown) (h : Handle) (r : Resource)
    → o.threads_disabled ≡ false
    → h.has_queue ≡ true
    → h.has_thread ≡ true
    → let (rc, done) = channel_client_quit_handler o (some h) in
      (joins_first done ≡ o.post_ok)
      × ((o.post_ok ≡ true)
          ⊎ ((rc ≡ channel_rc_ok) × (released block done ≡ 1) × (released queue done ≡ 1)))
      × (((rc ≡ channel_rc_ok) × (released r done ≡ released r (handler_free h)))
          ⊎ ((o.wait_error ≡ some rc) × (released r done ≡ 0)))
unfolding channel_client_quit_handler handler_free
quit_handler_joins_first o h r d q t = (ground arith, ground arith, quit_handler_releases o h r)
