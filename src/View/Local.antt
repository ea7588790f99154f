-- ===== src/View/Local.antt =====
-- rdp-view-item.h: `dataChangedCallback` with `appendClipboardInfoFile` and `clipboardDisplayName`,
-- which announce the local clipboard to the remote side.
pub mod Listing
pub mod Echo
pub mod Served
pub mod Names
pub mod Paths
pub mod Distinct
use qfreerdp.Base.{
  ℕ, Bool, true, false, ◌||◌, not, List, [], ◌∷◌, ◌++◌, map, Option, none, some, if◌then◌else◌,
}
use qfreerdp.Entry.Types.{Text, Bytes, FileInfo}
use qfreerdp.Entry.Batch.{same_text}
use qfreerdp.Entry.Path.{slash, backslash, swap_unit}
use qfreerdp.Client.Files.{format_file, format_png}
use qfreerdp.Client.Formats.{name_files, name_png}
use qfreerdp.Wire.{cf_dib, cf_unicodetext}

-- QFileInfo: `path` is absoluteFilePath, `name` is fileName.
pub record Info : Type 0 where
  pub path : Text
  pub name : Text
  pub size : ℕ
  pub is_dir : Bool
  pub is_file : Bool

-- A file, and what QDir::entryList gives below it. A tree is finite: a link back to a directory above
-- it is not met.
mutual
  pub data Node : Type 0 where
    node : Info → Nodes → Node

  pub data Nodes : Type 0 where
    nil : Nodes
    cons : Node → Nodes → Nodes

-- `relative` is QDir::relativeFilePath of a path, from a directory.
module _ (relative : Text → Text → Text) where
  unfoldable pub clipboard_display_name : Info → Info → Text
  clipboard_display_name root info = map (swap_unit slash backslash) (
      if same_text root.path info.path
      then root.name
      else root.name ++ slash ∷ relative root.path info.path)

  abbrev pub listed : Info → Info → FileInfo
  listed root info = record {
    display_name = clipboard_display_name root info;
    local_path = info.path;
    total = info.size;
    is_directory = info.is_dir;
  }

-- `find_if` by `local_path_`.
abbrev pub has_local : Text → List FileInfo → Bool
has_local p [] = false
has_local p (f ∷ fs) = same_text f.local_path p || has_local p fs

unfoldable pub push_new : FileInfo → List FileInfo → List FileInfo
push_new f fs = if has_local f.local_path fs then fs else fs ++ f ∷ []

unfoldable mutual
  pub append_info : (Text → Text → Text) → Info → Node → List FileInfo → List FileInfo
  append_info relative root (node info below) fs =
      let more = append_infos relative root below (push_new (listed relative root info) fs) in
      if info.is_dir then more else push_new (listed relative root info) fs

  pub append_infos : (Text → Text → Text) → Info → Nodes → List FileInfo → List FileInfo
  append_infos relative root nil fs = fs
  append_infos relative root (cons n ns) fs =
      append_infos relative root ns (append_info relative root n fs)

-- A URL on the clipboard: of a local file, with its `toEncoded`, or of something else.
pub data Url : Type 0 where
  local : Node → Bytes → Url
  remote : Url

abbrev pub info_of : Node → Info
info_of (node info below) = info

unfoldable pub append_url : (Text → Text → Text) → Url → List FileInfo → List FileInfo
append_url relative remote fs = fs
append_url relative (local n b) fs =
    if (info_of n).is_dir || (info_of n).is_file then append_info relative (info_of n) n fs else fs

unfoldable pub append_urls : (Text → Text → Text) → List Url → List FileInfo → List FileInfo
unfolding append_url
append_urls relative [] fs = fs
append_urls relative (u ∷ us) fs = append_urls relative us (append_url relative u fs)

-- The list that the file context gets: each URL that is accepted, and a line feed.
abbrev pub uri_of : Url → Bytes
uri_of remote = []
uri_of (local n b) = if (info_of n).is_dir || (info_of n).is_file then b ++ b'\n' ∷ [] else []

unfoldable pub uri_list : List Url → Bytes
uri_list [] = []
uri_list (u ∷ us) = uri_of u ++ uri_list us

-- The local clipboard, by what the code asks of QMimeData; `urls` is `none` where hasUrls is false.
pub record LocalMime : Type 0 where
  pub urls : Option (List Url)
  pub has_text : Bool
  pub has_image : Bool

-- The item's side: the client and its channel, the flag, the files listed, the file context's
-- setting and data, and the lists of formats announced, the newest first.
pub record Local : Type 0 where
  pub has_client : Bool
  pub has_channel : Bool
  pub from_remote : Bool
  pub files : List FileInfo
  pub has_file_context : Bool
  pub locally_available : Bool
  pub client_data : Bytes
  pub announced : List (List (ℕ × Option Text))

abbrev pub announce : List (ℕ × Option Text) → Local → Local
announce f l = record l { announced = f ∷ l.announced }

abbrev pub set_available : Bool → Local → Local
set_available b l = if l.has_file_context then record l { locally_available = b } else l

abbrev pub set_client_data : Bytes → Local → Local
set_client_data b l = if l.has_file_context then record l { client_data = b } else l

abbrev pub no_list : List FileInfo → Bool
no_list [] = true
no_list (_ ∷ _) = false

unfoldable pub announce_files : (Text → Text → Text) → List Url → Local → Local
unfolding uri_list
announce_files relative us l =
    let fs = append_urls relative us [] in
    let listing : Local = record l { files = fs } in
    if no_list fs
    then listing
    else announce ((format_file, some name_files) ∷ [])
        (set_client_data (uri_list us) (set_available true listing))

unfoldable pub announce_other : LocalMime → Local → Local
announce_other m l =
    if m.has_text
    then announce ((cf_unicodetext, none) ∷ []) (set_available false l)
    else (if m.has_image
        then announce ((format_png, some name_png) ∷ (cf_dib, none) ∷ []) (set_available false l)
        else l)

unfoldable pub announce_mime : (Text → Text → Text) → LocalMime → Local → Local
unfolding announce_files announce_other
announce_mime relative m l = elim m.urls [
  | some us ↦ announce_files relative us l
  | none ↦ announce_other m l
]

unfoldable pub data_changed_callback : (Text → Text → Text) → LocalMime → Local → Local
unfolding announce_mime
data_changed_callback relative m l =
    if not l.has_client || (not l.has_channel || l.from_remote)
    then l
    else announce_mime relative m l
