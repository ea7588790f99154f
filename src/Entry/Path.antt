-- ===== src/Entry/Path.antt =====
-- clipboard-entry.h: `safe_remote_relative_path`, which decides where a file with a name from the
-- remote side may be stored. QString and QDir are not part of the repository: their calls are an
-- interface, with the documented behaviour that the code relies on.
pub mod Safe
pub mod Api
use qfreerdp.Base.{
  ℕ, ◌≡◌, ◌≢◌, Bool, true, false, ◌&&◌, ◌||◌, List, [], ◌∷◌, map, All, ◌==◌, if◌then◌else◌,
}
use qfreerdp.Entry.Types.{Text}

abbrev pub slash : ℕ
slash = b'/'

abbrev pub backslash : ℕ
backslash = b'\\'

abbrev pub swap_unit : ℕ → ℕ → ℕ → ℕ
swap_unit a b c = if c == a then b else c

abbrev pub is_empty : Text → Bool
is_empty [] = true
is_empty (_ ∷ _) = false

-- `part == "."` and `part == ".."`.
abbrev pub is_dot : Text → Bool
is_dot [] = false
is_dot (a ∷ []) = a == b'.'
is_dot (a ∷ _ ∷ _) = false

abbrev pub is_dot_dot : Text → Bool
is_dot_dot [] = false
is_dot_dot (a ∷ []) = false
is_dot_dot (a ∷ b ∷ []) = a == b'.' && b == b'.'
is_dot_dot (a ∷ b ∷ _ ∷ _) = false

-- A path component that names an entry of its directory.
pub record IsPlain (p : Text) : Type 0 where
  pub named : is_empty p ≡ false
  pub not_dot : is_dot p ≡ false
  pub not_dot_dot : is_dot_dot p ≡ false
  pub one_level : All (λ c. c ≢ slash) p

pub record PathApi : Type 0 where
  -- QString::replace of one unit by another, split with SkipEmptyParts, QStringList::join.
  pub replace : ℕ → ℕ → Text → Text
  pub split : ℕ → Text → List Text
  pub join : ℕ → List Text → Text
  pub clean_path : Text → Text
  pub replace-map : (a b : ℕ) (s : Text) → replace a b s ≡ map (swap_unit a b) s
  pub split_named : (c : ℕ) (s : Text) → All (λ p. is_empty p ≡ false) (split c s)
  pub split_apart : (c : ℕ) (s : Text) → All (λ p. All (λ u. u ≢ c) p) (split c s)
  -- The units of the parts are units of the text.
  pub split_units :
      (q : ℕ → Bool) (c : ℕ) (s : Text)
      → All (λ u. q u ≡ true) s
      → All (λ p. All (λ u. q u ≡ true) p) (split c s)
  pub split-join :
      (c : ℕ) (ps : List Text)
      → All (λ p. is_empty p ≡ false) ps
      → All (λ p. All (λ u. u ≢ c) p) ps
      → split c (join c ps) ≡ ps
  -- A path of plain components is clean already.
  pub clean_path-join :
      (ps : List Text) → All IsPlain ps → clean_path (join slash ps) ≡ join slash ps

abbrev starts_with_slash : Text → Bool
starts_with_slash [] = false
starts_with_slash (c ∷ _) = c == slash

-- `size() >= 2 && normalized[1] == ':'`.
abbrev has_drive : Text → Bool
has_drive [] = false
has_drive (_ ∷ []) = false
has_drive (_ ∷ c ∷ _) = c == b':'

abbrev pub is_absolute : Text → Bool
is_absolute s = starts_with_slash s || has_drive s

abbrev pub any_dots : List Text → Bool
any_dots [] = false
any_dots (p ∷ ps) = (is_dot p || is_dot_dot p) || any_dots ps

abbrev pub no_parts : List Text → Bool
no_parts [] = true
no_parts (_ ∷ _) = false

module _ (api : PathApi) where
  open api use {replace, split, join, clean_path}

  abbrev pub normalized : Text → Text
  normalized name = replace backslash slash name

  abbrev pub parts : Text → List Text
  parts name = split slash (normalized name)

  -- The empty text is a refusal.
  unfoldable pub safe_remote_relative_path : Text → Text
  safe_remote_relative_path name =
      if is_absolute (normalized name)
      then []
      else (if no_parts (parts name)
          then []
          else (if any_dots (parts name) then [] else clean_path (join slash (parts name))))
