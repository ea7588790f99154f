-- ===== src/View/Local/Names.antt =====
-- The name that a listed file is announced by, at the client that receives it.
use qfreerdp.Base.{
  ℕ, ◌≤◌, ◌≡◌, ◌≢◌, refl, sym, ap, ◌∙◌, false, List, [], ◌∷◌, ◌++◌, map, arith, All, length,
  length-map, take, zero, suc, if◌then◌else◌,
}
use qfreerdp.Entry.Types.{Text}
use qfreerdp.Entry.Batch.{same_text}
use qfreerdp.Entry.Path.{
  PathApi, IsPlain, slash, backslash, swap_unit, is_empty, any_dots, is_absolute, normalized, parts,
  safe_remote_relative_path,
}
use qfreerdp.Entry.Path.Safe.{safe_path_kept}
use qfreerdp.Client.Files.{max_chars}
use qfreerdp.View.Local.{Info, clipboard_display_name}

-- The path of a file from the directory of the URL it is listed below: the URL's own name, and the
-- way to the file.
abbrev pub path_below : (Text → Text → Text) → Info → Info → Text
path_below relative root info =
    if same_text root.path info.path
    then root.name
    else root.name ++ slash ∷ relative root.path info.path

swapped_back :
    (s : Text)
    → All (λ u. u ≢ backslash) s
    → map (swap_unit backslash slash) (map (swap_unit slash backslash) s) ≡ s
swapped_back [] h = refl
swapped_back (u ∷ s) h = let ih = swapped_back s h.1 in ground arith

no_dots : (ps : List Text) → All IsPlain ps → any_dots ps ≡ false
no_dots [] h = refl
no_dots (p ∷ ps) h = let ih = no_dots ps h.1 in ground arith

plain_named : (ps : List Text) → All IsPlain ps → All (λ p. is_empty p ≡ false) ps
plain_named [] h = tt
plain_named (p ∷ ps) h = (h.0.named, plain_named ps h.1)

plain_apart : (ps : List Text) → All IsPlain ps → All (λ p. All (λ u. u ≢ slash) p) ps
plain_apart [] h = tt
plain_apart (p ∷ ps) h = (h.0.one_level, plain_apart ps h.1)

take_all : (n : ℕ) (s : Text) → length s ≤ n → take n s ≡ s
take_all zero [] h = refl
take_all (suc n) [] h = refl
take_all zero (u ∷ s) h = absurd (omega arith)
take_all (suc n) (u ∷ s) h = ap (◌∷◌ u) (take_all n s (omega arith))

module _ (api : PathApi) (relative : Text → Text → Text) (root info : Info) where
  open api use {split, join, split-join, replace-map}

  display-path_below :
      clipboard_display_name relative root info
      ≡ map (swap_unit slash backslash) (path_below relative root info)
  unfolding clipboard_display_name
  display-path_below = refl

  normalized-display :
      All (λ u. u ≢ backslash) (path_below relative root info)
      → normalized api (clipboard_display_name relative root info) ≡ path_below relative root info
  normalized-display h =
      replace-map backslash slash _
      ∙ ap (map (swap_unit backslash slash)) display-path_below
      ∙ swapped_back _ h

  -- A file is stored by the receiver where the sender has it: if the path of a listed file, from the
  -- name of its URL on, is made of plain components, holds no backslash and no drive letter, and is no
  -- longer than a file descriptor's name, then the name that is sent for it is let through by
  -- `safe_remote_relative_path`, and gives this very path.
  pub sent_name-safe_path :
      (ps : List Text)
      → path_below relative root info ≡ join slash ps
      → ps ≢ []
      → All IsPlain ps
      → All (λ u. u ≢ backslash) (path_below relative root info)
      → is_absolute (path_below relative root info) ≡ false
      → length (path_below relative root info) ≤ max_chars
      → safe_remote_relative_path api (take max_chars (clipboard_display_name relative root info))
        ≡ path_below relative root info
  sent_name-safe_path ps made some_part plain units inside short =
      let name = clipboard_display_name relative root info in
      let same = normalized-display units in
      let split_up : parts api name ≡ ps =
        ap (split slash) (same ∙ made)
        ∙ split-join slash ps (plain_named ps plain) (plain_apart ps plain) in
      let fits : take max_chars name ≡ name = take_all max_chars name (
        omega (
          arith,
          ap length display-path_below
              ∙ length-map (path_below relative root info) (swap_unit slash backslash),
        )) in
      ap (safe_remote_relative_path api) fits
      ∙ safe_path_kept api name (ap is_absolute same ∙ inside) (λ e. some_part (sym split_up ∙ e))
          (ap any_dots split_up ∙ no_dots ps plain)
      ∙ ap (join slash) split_up
      ∙ sym made
