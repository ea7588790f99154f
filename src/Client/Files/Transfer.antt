-- ===== src/Client/Files/Transfer.antt =====
-- A list of files announced by one client and received by another.
use qfreerdp.Base.{
  ℕ, zero, suc, ◌-◌, ◌<◌, ◌≡◌, ◌≢◌, ◌^◌, refl, ap, sym, ◌∙◌, true, false, Bool-cases, inl, inr,
  List, [], ◌∷◌, ◌++◌, map, Option, some, arith, All, length, take, length-take, replicate,
  if◌then◌else◌, ◌==◌,
}
use qfreerdp.Base.Word.{join64_halves}
use qfreerdp.Entry.Types.{Text, Bytes, FileInfo}
use qfreerdp.Entry.Types.Utf16.{IsUnmarked, KeepsUnmarked}
use qfreerdp.Client.Formats.{Formats, name_files}
use qfreerdp.Status.{channel_rc_ok}
use qfreerdp.Client.Files.{
  Descriptor, max_chars, qf_copy_file_descriptor_name, descriptor_of, until_nul, file_of, files_of,
  enqueues_files, file_list_response, server_format_data_response, responds, file_list_answer,
  file_list_flags, Mime, server_format_data_request, data_answer, is_some, format_file,
}

until_nul-append : (t rest : List ℕ) → All (λ u. u ≢ 0) t → until_nul (t ++ 0 ∷ rest) ≡ some t
unfolding until_nul
until_nul-append [] rest h = refl
until_nul-append (u ∷ t) rest h =
    let no : (u == 0) ≡ false = ground arith in
    let ih = until_nul-append t rest h.1 in rw (ih, until_nul) (rw no)

All-take : (n : ℕ) (t : Text) → All (λ u. u ≢ 0) t → All (λ u. u ≢ 0) (take n t)
All-take zero t h = tt
All-take (suc n) [] h = tt
All-take (suc n) (u ∷ t) h = (h.0, All-take n t h.1)

IsUnmarked-take : (t : Text) → IsUnmarked t → IsUnmarked (take max_chars t)
IsUnmarked-take [] h = tt
IsUnmarked-take (u ∷ t) h = h

-- The name arrives as far as it fits.
name_kept :
    (t : Text)
    → All (λ u. u ≢ 0) t
    → until_nul (qf_copy_file_descriptor_name t) ≡ some (take max_chars t)
unfolding qf_copy_file_descriptor_name
name_kept t h =
    let c = take max_chars t in
    let room : 260 - length c ≡ suc (259 - length c) = omega (arith, length-take max_chars t) in
    rw room (until_nul-append c (replicate (259 - length c) 0) (All-take max_chars t h))

-- What a file becomes on the other side: its name, cut to 259 units, is its path too, and a directory
-- has no size.
abbrev pub received : FileInfo → FileInfo
received f = record {
  display_name = take max_chars f.display_name;
  local_path = take max_chars f.display_name;
  total = if f.is_directory then 0 else f.total;
  is_directory = f.is_directory;
}

-- A name with no zero in it and no byte-order mark at its start, and a size that fits 64 bits.
abbrev pub Portable : FileInfo → Type 0
Portable f = All (λ u. u ≢ 0) f.display_name × IsUnmarked f.display_name × (f.total < 2 ^ 64)

module _ (from_utf16 : List ℕ → Text) (keeps : KeepsUnmarked from_utf16) where
  file_of-descriptor_of :
      (f : FileInfo) → Portable f → file_of from_utf16 (descriptor_of f) ≡ some (received f)
  unfolding file_of descriptor_of
  file_of-descriptor_of f (h, unmarked, small) =
      let size : ℕ = if f.is_directory then 0 else f.total in
      let fits : size < 2 ^ 64 = ground arith in
      let name = keeps (take max_chars f.display_name) (IsUnmarked-take f.display_name unmarked) in
      rw (name_kept f.display_name h, file_of) (rw (name, join64_halves size fits))

  files_of-map :
      (fs : List FileInfo)
      → All Portable fs
      → files_of from_utf16 (map descriptor_of fs) ≡ some (map received fs)
  unfolding files_of
  files_of-map [] h = refl
  files_of-map (f ∷ fs) h =
      rw (file_of-descriptor_of f h.0, files_of) (rw (files_of-map fs h.1, files_of))

module _ (from_utf16 : List ℕ → Text) (keeps : KeepsUnmarked from_utf16)
    (serialize : ℕ → List Descriptor → Option Bytes) (parse : Bytes → Option (List Descriptor))
    (wire : (flags : ℕ) (ds : List Descriptor) (b : Bytes)
      → serialize flags ds ≡ some b
      → parse b ≡ some ds) where
  answer_of_files :
      (flags : Option ℕ) (fs : List FileInfo) (b : Bytes)
      → file_list_answer serialize flags fs ≡ responds b
      → serialize (file_list_flags flags) (map descriptor_of fs) ≡ some b
  unfolding file_list_answer
  answer_of_files flags [] b e = absurd (ground arith)
  answer_of_files flags (f ∷ fs) b e = ground arith

  to_file_list :
      (flags : Option ℕ) (fs : List FileInfo) (m : Mime)
      → m.has_urls ≡ true
      → data_answer serialize flags fs m format_file ≡ file_list_answer serialize flags fs
  unfolding data_answer
  to_file_list flags fs m u = elim (Bool-cases (is_some m.text)) [
    | inl t ↦ elim (Bool-cases (is_some m.picture)) [ inl p ↦ rw (t, p, u) | inr p ↦ rw (t, p, u) ]
    | inr t ↦ elim (Bool-cases (is_some m.picture)) [ inl p ↦ rw (t, p, u) | inr p ↦ rw (t, p, u) ]
  ]

  list_received :
      (b : Bytes) (ds : List Descriptor) (gs : List FileInfo)
      → parse b ≡ some ds
      → files_of from_utf16 ds ≡ some gs
      → file_list_response from_utf16 parse true b ≡ some (enqueues_files gs)
  unfolding file_list_response
  list_received b ds gs p f = rw (p, file_list_response) (rw (f, file_list_response))

  -- The list of files that one client sends is the list that another one fetches: if the data that the
  -- sender answers a request for the file format with are read back as they were written, the
  -- receiver that asked for a list of files enqueues the sender's files in the sender's order, so
  -- that their indexes agree, each with its name as far as 259 units go, its size, and whether it is a
  -- directory. The names hold no zero and do not start with a byte-order mark, which
  -- QString::fromUtf16 would take for itself, and the sizes fit 64 bits.
  pub files_transfer :
      (flags : Option ℕ) (fs : List FileInfo) (m : Mime) (b : Bytes) (c : Formats)
      → All Portable fs
      → m.has_urls ≡ true
      → (server_format_data_request serialize true flags fs (some m) (some format_file)).1
        ≡ responds b
      → c.requested_name ≡ name_files
      → server_format_data_response from_utf16 parse true true c
          (some (record { is_ok = true; bytes = b }))
        ≡ (channel_rc_ok, some (enqueues_files (map received fs)))
  unfolding server_format_data_request server_format_data_response
  files_transfer flags fs m b c h u e n =
      let sent = answer_of_files flags fs b (sym (to_file_list flags fs m u) ∙ e) in
      let read = wire (file_list_flags flags) (map descriptor_of fs) b sent in
      let got =
        list_received b (map descriptor_of fs) (map received fs) read
          (files_of-map from_utf16 keeps fs h) in
      rw (n, server_format_data_response) (ap (λ r. (channel_rc_ok, r)) got)
