-- ===== src/View/Local/Echo.antt =====
-- What comes from the remote side is not announced to it again.
use qfreerdp.Base.{
  ◌≡◌, refl, Bool, true, false, Bool-cases, Option, ◌⊎◌, inl, inr, List, [], ◌∷◌, none, some, arith,
  if◌then◌else◌, ◌||◌, ◌==◌, ℕ,
}
use qfreerdp.Entry.Types.{Text, Bytes}
use qfreerdp.View.Show.{
  Content, Board, picture, text, urls, text_of, show_dib, show_data, show_urls, existing,
  update_clipboard_data_from_remote, update_clipboard_files_from_remote,
}
use qfreerdp.Client.Formats.{name_png}
use qfreerdp.Wire.{cf_dib, cf_dibv5, cf_unicodetext}
use qfreerdp.Entry.Batch.{same_text}
use qfreerdp.View.Dib.{image_from_dib}
use qfreerdp.View.Local.{Local, LocalMime, data_changed_callback}

-- From `b` to `c` the local clipboard was left alone, or set once, with the flag set.
abbrev pub SetsMarked : Board → Board → Type 0
SetsMarked b c =
    (c.set_contents ≡ b.set_contents)
    ⊎ ((x : Content) × (c.set_contents ≡ (x, true) ∷ b.set_contents))

unanswered :
    (relative : Text → Text → Text) (m : LocalMime) (l : Local)
    → l.from_remote ≡ true
    → data_changed_callback relative m l ≡ l
unfolding data_changed_callback
unanswered relative m l e = ground arith

taken : (P : Board → Type 0) (t : Bool) (x y : Board) → t ≡ true → P x → P (if t then x else y)
taken P true x y e p = p
taken P false x y e p = absurd (ground arith)

show_urls-SetsMarked : (us : List Text) (b : Board) → SetsMarked b (show_urls us b)
unfolding show_urls
show_urls-SetsMarked [] b = inl refl
show_urls-SetsMarked (u ∷ us) b = inr (urls (u ∷ us), refl)

show_urls-off :
    (us : List Text) (b : Board) → b.from_remote ≡ false → (show_urls us b).from_remote ≡ false
unfolding show_urls
show_urls-off [] b e = e
show_urls-off (u ∷ us) b e = refl

module _ (from_utf16 : List ℕ → Text) (decodes_png decodes_bmp : Bytes → Bool) where
  show_dib-SetsMarked :
      (o : Option Bytes) (b : Board)
      → b.from_remote ≡ true
      → SetsMarked b (show_dib from_utf16 decodes_png decodes_bmp o b)
  unfolding show_dib
  show_dib-SetsMarked none b e = inl refl
  show_dib-SetsMarked (some file) b e = elim (Bool-cases (decodes_bmp file)) [
    | inl d ↦ inr (picture file, ground arith)
    | inr d ↦ inl (ground arith)
  ]

  show_data-SetsMarked :
      (d : Bytes) (id : ℕ) (name : Text) (b : Board)
      → b.from_remote ≡ true
      → SetsMarked b (show_data from_utf16 decodes_png decodes_bmp d id name b)
  unfolding show_data
  show_data-SetsMarked d id name b e = elim (Bool-cases (same_text name name_png)) [
    | inl p ↦ elim (Bool-cases (decodes_png d)) [
      | inl q ↦ inr (picture d, ground arith)
      | inr q ↦ inl (ground arith)
    ]
    | inr p ↦ elim (Bool-cases (id == cf_dib || id == cf_dibv5)) [
      | inl q ↦ rw (p, q, show_data) (show_dib-SetsMarked (image_from_dib d) b e)
      | inr q ↦ elim (Bool-cases (id == cf_unicodetext)) [
        | inl t ↦ inr (text (text_of from_utf16 d), ground arith)
        | inr t ↦ inl (ground arith)
      ]
    ]
  ]

  -- With a connection and the flag off, showing data or files of the remote side sets the local
  -- clipboard at most once, then with the flag set, and the flag is off afterwards; and while the flag
  -- is set, a signal that the local clipboard has changed makes no announcement and no other change.
  pub remote_not_announced :
      (d : Bytes) (id : ℕ) (name : Text) (exists : Text → Bool) (ps : List Text) (b : Board)
      (relative : Text → Text → Text) (m : LocalMime) (l : Local)
      → b.connected ≡ true
      → b.from_remote ≡ false
      → let flagged : Local = record l { from_remote = true } in
        let shown =
          update_clipboard_data_from_remote from_utf16 decodes_png decodes_bmp d id name b in
        let files = update_clipboard_files_from_remote exists ps b in
        SetsMarked b shown
        × (shown.from_remote ≡ false)
        × SetsMarked b files
        × (files.from_remote ≡ false)
        × (data_changed_callback relative m flagged ≡ flagged)
  unfolding update_clipboard_data_from_remote update_clipboard_files_from_remote
  remote_not_announced d id name exists ps b relative m l c e = (
    taken (SetsMarked b) b.connected _ _ c
        (show_data-SetsMarked d id name (record b { from_remote = true }) refl),
    taken (λ r. r.from_remote ≡ false) b.connected _ _ c refl,
    taken (SetsMarked b) b.connected _ _ c (show_urls-SetsMarked (existing exists ps) b),
    taken (λ r. r.from_remote ≡ false) b.connected _ _ c (show_urls-off (existing exists ps) b e),
    unanswered relative m (record l { from_remote = true }) refl,
  )
