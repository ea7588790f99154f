-- ===== src/Entry/Serve/Laws.antt =====
-- What a FileContentsRequest can bring out, and what an unanswered one does to the channel.
use qfreerdp.Base.{
  ℕ, ◌≤◌, ◌<◌, ◌≡◌, refl, ap, ◌∙◌, inl, inr, true, false, Option-cases, List, [], ◌∷◌, Option, none,
  some, arith, get_elem?,
}
use qfreerdp.Base.Word.{join64}
use qfreerdp.Base.Bytes.{slice}
use qfreerdp.Status.{Rc, is_error}
use qfreerdp.Channel.Defs.{Wake, message, payload, channel_client_thread_proc}
use qfreerdp.Channel.Worker.{stopped, thread_proc_stops, by_plugin}
use qfreerdp.Entry.Types.{Bytes, Request, Response, FileInfo}
use qfreerdp.Entry.Serve.{Disk, read_range, answer, server_file_contents_request}

abbrev pub offset_of : Request → ℕ
offset_of req = join64 req.position_high req.position_low

-- The response `r` to `req` holds bytes of the file `info`: `count` of them at the offset asked for,
-- at most as many as asked for, from a regular file and an offset inside its recorded size.
pub record IsSlice (disk : Disk) (req : Request) (info : FileInfo) (r : Response) : Type 0 where
  pub file : Bytes
  pub count : ℕ
  pub regular : info.is_directory ≡ false
  pub opens : disk.content info.local_path ≡ some file
  pub inside : offset_of req < info.total
  pub capped : count ≤ req.requested
  pub same_stream : r.stream_id ≡ req.stream_id
  pub accepted : r.is_ok ≡ true
  pub bytes : r.requested_data ≡ some (slice (offset_of req) count file)

module _ (send : Response → Rc) (disk : Disk) where
  read_range-answered :
      (req : Request) (info : FileInfo) (i : ℕ) (c : Bytes)
      → (read_range send disk req info i c).sent ≡ none
      → is_error (read_range send disk req info i c).rc ≡ true
  unfolding read_range
  read_range-answered req info i c e = ground arith

  -- A request that is given no answer ends in an error code.
  pub answer-unanswered :
      (req : Request) (info : FileInfo)
      → (answer send disk req info).sent ≡ none
      → is_error (answer send disk req info).rc ≡ true
  unfolding answer
  answer-unanswered req info e = ground arith

file_request-unanswered :
    (send : Option (Response → Rc)) (disk : Disk) (client : Option (List FileInfo))
    (req : Option Request)
    → (server_file_contents_request send disk client req).sent ≡ none
    → is_error (server_file_contents_request send disk client req).rc ≡ true
unfolding server_file_contents_request answer
file_request-unanswered none disk client req e = refl
file_request-unanswered (some send) disk none req e = refl
file_request-unanswered (some send) disk (some files) none e = refl
file_request-unanswered (some send) disk (some files) (some req) e =
    elim (Option-cases (get_elem? files req.list_index)) [
      | inl f ↦ ground arith
      | inr (info, f) ↦ ground (arith, answer-unanswered send disk req info)
    ]

-- A file request that is given no answer, such as one for an index out of range, ends in an error
-- code. A plugin that returns this code makes the thread leave its loop and report the error: nothing
-- that arrives afterwards is served.
pub unanswered_request_stops_channel :
    {U : Type 0} (h : U → List ℕ → Rc × U) (u v : U) (b : List ℕ) (ws : List Wake)
    (send : Option (Response → Rc)) (disk : Disk) (client : Option (List FileInfo))
    (req : Option Request)
    → (server_file_contents_request send disk client req).sent ≡ none
    → h u b ≡ ((server_file_contents_request send disk client req).rc, v)
    → channel_client_thread_proc h u (message (payload b) ∷ ws)
      ≡ stopped h v (server_file_contents_request send disk client req).rc
unanswered_request_stops_channel h u v b ws send disk client req n e =
    let wrong : is_error (h u b).0 ≡ true =
      ap (λ r. is_error r.0) e ∙ file_request-unanswered send disk client req n in
    thread_proc_stops h u u (h u b).1 [] (message (payload b)) (h u b).0 ws refl (by_plugin b wrong)
    ∙ ap (λ r. stopped h r.1 r.0) e
