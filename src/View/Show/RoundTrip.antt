-- ===== src/View/Show/RoundTrip.antt =====
-- Text that one client sends arrives on the clipboard of the other; and what the remote side puts there
-- is marked as its own.
use qfreerdp.Base.{
  ℕ, ◌+◌, ◌*◌, ◌/◌, ◌%◌, ◌^◌, ◌<◌, ◌≡◌, ◌≢◌, refl, ap, ◌∙◌, Bool, true, false, List, [], ◌∷◌, ◌++◌,
  Option, some, arith, All,
}
use qfreerdp.Entry.Types.{Text, Bytes, FileInfo}
use qfreerdp.Entry.Types.Utf16.{IsUnmarked, KeepsUnmarked}
use qfreerdp.Client.Files.{
  responds, Mime, c_string, utf16_bytes, server_format_data_request, Descriptor, data_answer,
}
use qfreerdp.Wire.{cf_unicodetext}
use qfreerdp.View.Show.{
  text, Board, drop_last_nul, utf16_units, text_of, update_clipboard_data_from_remote,
}

-- UTF-16 units that hold no zero.
abbrev pub IsText : Text → Type 0
IsText = All (λ u. (u ≢ 0) × (u < 2 ^ 16))

-- What is read of the memory is its text up to the first zero.
c_string_memory : (t junk : List ℕ) → IsText t → c_string (t ++ 0 ∷ junk) ≡ t
unfolding c_string
c_string_memory [] junk h = refl
c_string_memory (u ∷ t) junk h = let ih = c_string_memory t junk h.1 in ground arith

units_back : (t : Text) → All (λ u. u < 2 ^ 16) t → utf16_units (utf16_bytes t) ≡ t
units_back [] h = refl
units_back (u ∷ t) h =
    let one : u % 256 + 256 * (u / 256 % 256) ≡ u = omega arith in
    rw (units_back t h.1) (ap (λ v. v ∷ t) one)

drop_nul : (t : Text) → drop_last_nul (t ++ 0 ∷ []) ≡ t
drop_nul [] = refl
drop_nul (u ∷ []) = refl
drop_nul (u ∷ v ∷ t) = ap (◌∷◌ u) (drop_nul (v ∷ t))

with_nul : (t : Text) → IsText t → All (λ u. u < 2 ^ 16) (t ++ 0 ∷ [])
with_nul [] h = (omega arith, tt)
with_nul (u ∷ t) h = (h.0.1, with_nul t h.1)

text_back :
    (from_utf16 : List ℕ → Text) (t : Text)
    → KeepsUnmarked from_utf16
    → IsText t
    → IsUnmarked t
    → text_of from_utf16 (utf16_bytes (t ++ 0 ∷ [])) ≡ t
unfolding text_of
text_back from_utf16 t keeps h unmarked =
    ap from_utf16 (ap drop_last_nul (units_back (t ++ 0 ∷ []) (with_nul t h)) ∙ drop_nul t)
    ∙ keeps t unmarked

answers_text :
    (serialize : ℕ → List Descriptor → Option Bytes) (flags : Option ℕ) (files : List FileInfo)
    (m : Mime) (t : Text)
    → m.text ≡ some t
    → data_answer serialize flags files m cf_unicodetext
      ≡ responds (utf16_bytes (c_string m.text_memory ++ 0 ∷ []))
unfolding data_answer
answers_text serialize flags files m t e = rw e

shows_text :
    (from_utf16 : List ℕ → Text) (decodes_png decodes_bmp : Bytes → Bool) (d : Bytes) (b : Board)
    → b.connected ≡ true
    → update_clipboard_data_from_remote from_utf16 decodes_png decodes_bmp d cf_unicodetext [] b
      ≡ record b {
        from_remote = false;
        set_contents = (text (text_of from_utf16 d), true) ∷ b.set_contents;
      }
unfolding update_clipboard_data_from_remote
shows_text from_utf16 png bmp d b c = ground arith

-- What arrives for text is what the sender's memory holds when the answer is read from it: with
-- text on the one clipboard, let the memory that the destroyed QString leaves behind the pointer
-- start with the units `t` and a zero. Then the answer to a request for CF_UNICODETEXT is these
-- units with a zero behind them, two bytes each, the low one first, and this answer, shown by a
-- connected client that asked for this format, puts exactly `t` on its clipboard, marked as coming
-- from the remote side, and the mark is off again afterwards. With the copied text itself as `t`,
-- that is with nothing written over it, the text arrives unchanged. The units `t` hold no zero and
-- do not start with a byte-order mark, which QString::fromUtf16 would take for itself.
pub text_transfer :
    (from_utf16 : List ℕ → Text) (serialize : ℕ → List Descriptor → Option Bytes) (flags : Option ℕ)
    (files : List FileInfo) (m : Mime) (copied t junk : Text)
    (decodes_png decodes_bmp : Bytes → Bool) (b : Board)
    → KeepsUnmarked from_utf16
    → m.text ≡ some copied
    → m.text_memory ≡ t ++ 0 ∷ junk
    → IsText t
    → IsUnmarked t
    → b.connected ≡ true
    → let d : Bytes = utf16_bytes (t ++ 0 ∷ []) in
      ((server_format_data_request serialize true flags files (some m) (some cf_unicodetext)).1
        ≡ responds d)
      × (update_clipboard_data_from_remote from_utf16 decodes_png decodes_bmp d cf_unicodetext [] b
          ≡ record b { from_remote = false; set_contents = (text t, true) ∷ b.set_contents })
unfolding server_format_data_request
text_transfer from_utf16 serialize flags files m copied t junk png bmp b keeps e memory h unmarked
      c =
    let d : Bytes = utf16_bytes (t ++ 0 ∷ []) in
    let read : c_string m.text_memory ≡ t = ap c_string memory ∙ c_string_memory t junk h in
    (
      answers_text serialize flags files m copied e
          ∙ ap (λ s. responds (utf16_bytes (s ++ 0 ∷ []))) read,
      shows_text from_utf16 png bmp d b c
          ∙ ap
              (λ s. record b {
                from_remote = false;
                set_contents = (text s, true) ∷ b.set_contents;
              })
              (text_back from_utf16 t keeps h unmarked),
    )
