-- ===== src/Client/Formats.antt =====
-- mini-qf-client.cc: `qf_CliprdrServerFormatListCallBack`, which picks what to ask for when the remote
-- side announces its clipboard.
pub mod Choice
use qfreerdp.Base.{
  ℕ, Bool, true, false, ◌||◌, List, [], ◌∷◌, Option, none, some, ◌==◌, if◌then◌else◌,
}
use qfreerdp.Entry.Types.{Text}
use qfreerdp.Entry.Batch.{same_text}
use qfreerdp.Wire.{cf_dib, cf_unicodetext, cf_dibv5}

-- CLIPRDR_FORMAT; a missing name is a null pointer.
pub record Format : Type 0 where
  pub id : ℕ
  pub name : Option Text

-- The fields of `client_t` that the callback works on; the map as pairs with distinct ids.
pub record Formats : Type 0 where
  pub requested_id : ℕ
  pub requested_name : Text
  pub from_remote : List (ℕ × Text)

abbrev pub name_png : Text
name_png = b'P' ∷ b'N' ∷ b'G' ∷ []

-- CLIPBOARD_FORMAT_FILE_NAME, "FileGroupDescriptorW".
abbrev pub name_files : Text
name_files =
    b'F' ∷ b'i' ∷ b'l' ∷ b'e' ∷ b'G' ∷ b'r' ∷ b'o' ∷ b'u' ∷ b'p' ∷ b'D' ∷ b'e' ∷ b's' ∷ b'c' ∷ b'r'
    ∷ b'i' ∷ b'p' ∷ b't' ∷ b'o' ∷ b'r' ∷ b'W' ∷ []

abbrev pub or_empty : Option Text → Text
or_empty none = []
or_empty (some s) = s

-- `map[id] = name` and `map.contains(id)`.
unfoldable pub assign : ℕ → Text → List (ℕ × Text) → List (ℕ × Text)
assign id s [] = (id, s) ∷ []
assign id s ((i, t) ∷ m) = if i == id then (id, s) ∷ m else (i, t) ∷ assign id s m

unfoldable pub contains : ℕ → List (ℕ × Text) → Bool
contains id [] = false
contains id ((i, t) ∷ m) = i == id || contains id m

unfoldable pub assign_all : List Format → List (ℕ × Text) → List (ℕ × Text)
unfolding assign
assign_all [] m = m
assign_all (f ∷ fs) m = assign_all fs (assign f.id (or_empty f.name) m)

-- `requestRemoteFormat`: what is asked for is remembered.
abbrev pub request : ℕ → Text → Formats → Option ℕ × Formats
request id s c = (some id, record c { requested_id = id; requested_name = s })

abbrev pub is_named : Text → Option Text → Bool
is_named s none = false
is_named s (some t) = same_text t s

-- The loop that takes the first image in PNG or list of files.
unfoldable pub named_format : List Format → Option (ℕ × Text)
named_format [] = none
named_format (f ∷ fs) =
    if is_named name_png f.name
    then some (f.id, name_png)
    else (if is_named name_files f.name then some (f.id, name_files) else named_format fs)

-- The two bitmap formats, where nothing better was found.
unfoldable pub request_bitmap : Formats → Option ℕ × Formats
request_bitmap c =
    if contains cf_dibv5 c.from_remote
    then request cf_dibv5 [] c
    else (if contains cf_dib c.from_remote then request cf_dib [] c else (none, c))

unfoldable pub request_named : List Format → Formats → Option ℕ × Formats
unfolding named_format request_bitmap
request_named fs c = elim (named_format fs) [
  | some (id, s) ↦ request id s c
  | none ↦ request_bitmap c
]

-- The format asked for, if any, and the client's new state.
unfoldable pub server_format_list : List Format → Formats → Option ℕ × Formats
unfolding contains assign_all request_named
server_format_list fs c =
    let told : Formats = record c { from_remote = assign_all fs [] } in
    if contains cf_unicodetext told.from_remote
    then request cf_unicodetext [] told
    else request_named fs told
