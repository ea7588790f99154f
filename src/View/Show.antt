-- ===== src/View/Show.antt =====
-- rdp-view-item.h: `updateClipboardDataFromRemote` and `updateClipboardFilesFromRemote`.
pub mod RoundTrip
use qfreerdp.Base.{
  ℕ, ◌+◌, ◌*◌, Bool, true, false, ◌||◌, not, List, [], ◌∷◌, Option, none, some, ◌==◌, if◌then◌else◌,
}
use qfreerdp.Entry.Types.{Text, Bytes}
use qfreerdp.Entry.Batch.{same_text}
use qfreerdp.Client.Formats.{name_png}
use qfreerdp.View.Dib.{image_from_dib}
use qfreerdp.Wire.{cf_dib, cf_dibv5, cf_unicodetext}

-- What is put on the local clipboard; an image by the encoded bytes that it was decoded from.
pub data Content : Type 0 where
  text : Text → Content
  picture : Bytes → Content
  urls : List Text → Content

-- The item's part in it: whether there is a channel to the remote side, the flag
-- `m_clipboardDataFromRemote`, and what was put on the clipboard, the newest first, each with the
-- flag as it was at that moment.
pub record Board : Type 0 where
  pub connected : Bool
  pub from_remote : Bool
  pub set_contents : List (Content × Bool)

abbrev pub put : Content → Board → Board
put c b = record b { set_contents = (c, b.from_remote) ∷ b.set_contents }

-- The units of the data, but a zero at their end; an odd byte is left over.
abbrev pub drop_last_nul : Text → Text
drop_last_nul [] = []
drop_last_nul (u ∷ []) = if u == 0 then [] else u ∷ []
drop_last_nul (u ∷ v ∷ us) = u ∷ drop_last_nul (v ∷ us)

abbrev pub utf16_units : Bytes → Text
utf16_units [] = []
utf16_units (_ ∷ []) = []
utf16_units (a ∷ b ∷ rest) = (a + 256 * b) ∷ utf16_units rest

-- `from_utf16` is what QString::fromUtf16 makes of the units, and `decodes` says whether
-- QImage::fromData gives an image.
unfoldable pub text_of : (List ℕ → Text) → Bytes → Text
text_of from_utf16 b = from_utf16 (drop_last_nul (utf16_units b))

module _ (from_utf16 : List ℕ → Text) (decodes_png decodes_bmp : Bytes → Bool) where
  unfoldable pub show_dib : Option Bytes → Board → Board
  show_dib none b = b
  show_dib (some file) b = if decodes_bmp file then put (picture file) b else b

  unfoldable pub show_data : Bytes → ℕ → Text → Board → Board
  unfolding show_dib text_of
  show_data d id name b =
      if same_text name name_png
      then (if decodes_png d then put (picture d) b else b)
      else (if id == cf_dib || id == cf_dibv5
          then show_dib (image_from_dib d) b
          else (if id == cf_unicodetext then put (text (text_of from_utf16 d)) b else b))

  unfoldable pub update_clipboard_data_from_remote : Bytes → ℕ → Text → Board → Board
  unfolding show_data
  update_clipboard_data_from_remote d id name b =
      if b.connected
      then record (show_data d id name (record b { from_remote = true })) { from_remote = false }
      else b

-- `exists` is QFileInfo::exists.
abbrev pub existing : (Text → Bool) → List Text → List Text
existing exists [] = []
existing exists (p ∷ ps) = if exists p then p ∷ existing exists ps else existing exists ps

unfoldable pub show_urls : List Text → Board → Board
show_urls [] b = b
show_urls (u ∷ us) b = record (put (urls (u ∷ us)) (record b { from_remote = true })) {
  from_remote = false;
}

unfoldable pub update_clipboard_files_from_remote : (Text → Bool) → List Text → Board → Board
unfolding show_urls
update_clipboard_files_from_remote exists ps b =
    if b.connected then show_urls (existing exists ps) b else b
