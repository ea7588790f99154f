-- ===== src/View/Local/Served.antt =====
-- What is announced can be asked for, as far as its list of files can be written.
use qfreerdp.Base.{
  ℕ, ◌/◌, ◌%◌, ◌==◌, ◌≡◌, refl, ap, ◌∙◌, Bool, true, false, not, ◌&&◌, ◌||◌, ◌⊎◌, inl, inr, List,
  [], ◌∷◌, map, drop, Option, none, some, arith, All, if◌then◌else◌,
}
use qfreerdp.Entry.Types.{Text, Bytes, FileInfo}
use qfreerdp.Client.Files.{
  Descriptor, bmp_header, LocalImage, null_image, image, Mime, Answer, descriptor_of,
  file_list_flags, responds, refuses, silent, is_some, format_file, format_png, text_answer,
  dib_answer, png_answer, saved, file_list_answer, data_answer, server_format_data_request,
}
use qfreerdp.Client.Formats.{name_files, name_png}
use qfreerdp.Wire.{cf_dib, cf_unicodetext}
use qfreerdp.View.Local.{
  Url, LocalMime, Local, append_urls, uri_list, no_list, set_available, set_client_data, announce,
  announce_files, announce_other, announce_mime, data_changed_callback,
}

-- The two views of one QMimeData: by the item, which announces, and by the callback, which answers.
pub record SameMime (m : LocalMime) (n : Mime) : Type 0 where
  pub text : is_some n.text ≡ m.has_text
  pub picture : is_some n.picture ≡ m.has_image
  pub urls : n.has_urls ≡ is_some m.urls

abbrev pub is_refusal : Answer → Bool
is_refusal refuses = true
is_refusal silent = false
is_refusal (responds b) = false

and_false : (b : Bool) → (b && false) ≡ false
and_false true = refl
and_false false = refl

saved_lem : (f : Bytes → Bytes) (o : Option Bytes) → is_refusal (saved f o) ≡ false
saved_lem f none = refl
saved_lem f (some b) = refl

module _ (serialize : ℕ → List Descriptor → Option Bytes) (flags : Option ℕ) where
  -- The list of the files cannot be written.
  abbrev pub unwritten : List FileInfo → Bool
  unwritten fs = not (is_some (serialize (file_list_flags flags) (map descriptor_of fs)))

  -- A request for one of the formats is refused exactly if it is for files whose list cannot be written.
  abbrev pub Served : List FileInfo → Mime → List (ℕ × Option Text) → Type 0
  Served fs n = All (λ f.
      is_refusal (server_format_data_request serialize true flags fs (some n) (some f.0)).1
      ≡ (f.0 == format_file && unwritten fs))

  text_served :
      (fs : List FileInfo) (n : Mime) (o : Option Text)
      → n.text ≡ o
      → is_some o ≡ true
      → is_refusal (data_answer serialize flags fs n cf_unicodetext) ≡ false
  unfolding data_answer text_answer
  text_served fs n none e h = absurd (ground arith)
  text_served fs n (some t) e h = rw e refl

  picture_served :
      (fs : List FileInfo) (n : Mime) (o : Option LocalImage)
      → n.picture ≡ o
      → is_some o ≡ true
      → (is_refusal (data_answer serialize flags fs n format_png) ≡ false)
        × (is_refusal (data_answer serialize flags fs n cf_dib) ≡ false)
  unfolding data_answer dib_answer png_answer
  picture_served fs n none e h = absurd (ground arith)
  picture_served fs n (some null_image) e h = rw (and_false (is_some n.text), e) (refl, refl)
  picture_served fs n (some (image bmp png)) e h =
      rw (and_false (is_some n.text), e) (saved_lem (λ b. b) png, saved_lem (drop bmp_header) bmp)

  list_served :
      (f : FileInfo) (fs : List FileInfo) (o : Option Bytes)
      → serialize (file_list_flags flags) (map descriptor_of (f ∷ fs)) ≡ o
      → is_refusal (file_list_answer serialize flags (f ∷ fs)) ≡ unwritten (f ∷ fs)
  unfolding file_list_answer
  list_served f fs none e = rw (e, file_list_answer) refl
  list_served f fs (some b) e = rw (e, file_list_answer) refl

  files_served :
      (fs : List FileInfo) (n : Mime)
      → no_list fs ≡ false
      → n.has_urls ≡ true
      → is_refusal (data_answer serialize flags fs n format_file) ≡ unwritten fs
  unfolding data_answer
  files_served [] n h u = absurd (ground arith)
  files_served (f ∷ fs) n h u =
      rw (and_false (is_some n.text), and_false (is_some n.picture), u)
        (list_served f fs (serialize (file_list_flags flags) (map descriptor_of (f ∷ fs))) refl)

-- The list of files is written with CB_STREAM_FILECLIP_ENABLED.
fileclip_set : (flags : Option ℕ) → file_list_flags flags / 4 % 2 ≡ 1
fileclip_set none = refl
fileclip_set (some k) = ground arith

module _ (serialize : ℕ → List Descriptor → Option Bytes) (flags : Option ℕ) (n : Mime) where
  -- From `l` to `t` nothing was announced, or formats whose requests are not refused.
  abbrev pub Announces : Local → Local → Type 0
  Announces l t =
      (t.announced ≡ l.announced)
      ⊎ ((f : List (ℕ × Option Text)) × (t.announced ≡ f ∷ l.announced)
          × Served serialize flags t.files n f)

  branch-Announces :
      (b : Bool) (l s t : Local)
      → (b ≡ true → Announces l s)
      → (b ≡ false → Announces l t)
      → Announces l (if b then s else t)
  branch-Announces true l s t p q = p refl
  branch-Announces false l s t p q = q refl

  announce-Announces :
      (f : List (ℕ × Option Text)) (l t : Local)
      → t.announced ≡ l.announced
      → Served serialize flags t.files n f
      → Announces l (announce f t)
  announce-Announces f l t e s = inr (f, ap (λ a. f ∷ a) e, s)

  kept :
      (b : Bool) (l : Local)
      → let t = set_available b l in (t.announced ≡ l.announced) × (t.files ≡ l.files)
  kept b l = ground arith

  kept_data :
      (d : Bytes) (l : Local)
      → let t = set_client_data d l in (t.announced ≡ l.announced) × (t.files ≡ l.files)
  kept_data d l = ground arith

  announce_files-Announces :
      (relative : Text → Text → Text) (us : List Url) (l : Local)
      → n.has_urls ≡ true
      → Announces l (announce_files relative us l)
  unfolding announce_files server_format_data_request
  announce_files-Announces relative us l u =
      let fs = append_urls relative us [] in
      let listing : Local = record l { files = fs } in
      let open_files : Local = set_available true listing in
      let t : Local = set_client_data (uri_list us) open_files in
      let (a, f) = kept_data (uri_list us) open_files in
      let (a', f') = kept true listing in
      branch-Announces (no_list fs) l listing (announce ((format_file, some name_files) ∷ []) t)
        (λ y. inl refl)
        (λ no.
          announce-Announces ((format_file, some name_files) ∷ []) l t (a ∙ a')
            (rw (f ∙ f') (files_served serialize flags fs n no u), tt))

  announce_other-Announces :
      (m : LocalMime) (l : Local) → SameMime m n → Announces l (announce_other m l)
  unfolding announce_other server_format_data_request
  announce_other-Announces m l same =
      let t : Local = set_available false l in
      let (a, f) = kept false l in
      branch-Announces m.has_text l _ _
        (λ y.
          announce-Announces ((cf_unicodetext, none) ∷ []) l t a
            (text_served serialize flags t.files n n.text refl (same.text ∙ y), tt))
        (λ no.
          branch-Announces m.has_image l _ _
            (λ y.
              let (p, d) =
                picture_served serialize flags t.files n n.picture refl (same.picture ∙ y) in
              announce-Announces ((format_png, some name_png) ∷ (cf_dib, none) ∷ []) l t a
                (p, (d, tt)))
            (λ no'. inl refl))

  announce_mime-Announces :
      (relative : Text → Text → Text) (m : LocalMime) (l : Local) (o : Option (List Url))
      → m.urls ≡ o
      → SameMime m n
      → Announces l (announce_mime relative m l)
  unfolding announce_mime
  announce_mime-Announces relative m l none e same =
      rw (e, announce_mime) (announce_other-Announces m l same)
  announce_mime-Announces relative m l (some us) e same =
      rw (e, announce_mime) (announce_files-Announces relative us l (same.urls ∙ ap is_some e))

-- A change of the local clipboard is announced at most once. A request for a format of the
-- announcement, while the clipboard stays as it is and with the files that were listed, is refused
-- exactly if it is for files and the serializer cannot write their list; the flags that the serializer is
-- given have CB_STREAM_FILECLIP_ENABLED, whatever the remote side's are. (An image that is null or
-- cannot be encoded gets no answer at all, which is no refusal.)
pub announced-Served :
    (serialize : ℕ → List Descriptor → Option Bytes) (flags : Option ℕ)
    (relative : Text → Text → Text) (m : LocalMime) (n : Mime) (l : Local)
    → SameMime m n
    → let t = data_changed_callback relative m l in
      ((t.announced ≡ l.announced)
        ⊎ ((f : List (ℕ × Option Text)) × (t.announced ≡ f ∷ l.announced)
            × Served serialize flags t.files n f))
      × (file_list_flags flags / 4 % 2 ≡ 1)
unfolding data_changed_callback server_format_data_request
announced-Served serialize flags relative m n l same = (
  branch-Announces serialize flags n (not l.has_client || (not l.has_channel || l.from_remote)) l l
      (announce_mime relative m l) (λ y. inl refl)
      (λ no. announce_mime-Announces serialize flags n relative m l m.urls refl same),
  fileclip_set flags,
)
