-- ===== src/Client/Formats/Choice.antt =====
-- Which format is asked for, and what is known of the remote side's formats, by the list that was
-- announced alone.
use qfreerdp.Base.{
  ℕ, ◌≡◌, refl, ap, sym, subst, ◌∙◌, Bool, true, false, Bool-cases, Option-cases, ◌||◌, inl, inr,
  List, [], ◌∷◌, Option, none, some, arith, ◌==◌, if◌then◌else◌,
}
use qfreerdp.Entry.Types.{Text}
use qfreerdp.Entry.Batch.Texts.{same_text-eq}
use qfreerdp.Wire.{cf_dib, cf_unicodetext, cf_dibv5}
use qfreerdp.Client.Formats.{
  Format, Formats, or_empty, assign, contains, assign_all, named_format, request_bitmap,
  request_named, server_format_list, is_named, name_png, name_files,
}

-- A format of that id is announced.
abbrev pub announced : ℕ → List Format → Bool
announced id [] = false
announced id (f ∷ fs) = f.id == id || announced id fs

contains-assign :
    (id i : ℕ) (s : Text) (m : List (ℕ × Text))
    → contains id (assign i s m) ≡ (i == id || contains id m)
unfolding contains assign
contains-assign id i s [] = refl
contains-assign id i s ((j, t) ∷ m) = ground (arith, contains-assign id i s m)

contains-assign_all :
    (id : ℕ) (fs : List Format) (m : List (ℕ × Text))
    → contains id (assign_all fs m) ≡ (announced id fs || contains id m)
unfolding assign_all
contains-assign_all id [] m = refl
contains-assign_all id (f ∷ fs) m =
    contains-assign_all id fs (assign f.id (or_empty f.name) m)
    ∙ ground (arith, contains-assign id f.id (or_empty f.name) m)

contains_announced : (id : ℕ) (fs : List Format) → contains id (assign_all fs []) ≡ announced id fs
unfolding contains
contains_announced id fs = contains-assign_all id fs [] ∙ ground arith

-- What a map holds for an id, and the name that a list has for it, where the last one counts.
abbrev pub known : ℕ → List (ℕ × Text) → Option Text
known id [] = none
known id ((i, t) ∷ m) = if i == id then some t else known id m

abbrev pub or_else : Option Text → Option Text → Option Text
or_else none o = o
or_else (some t) o = some t

abbrev pub last_name : ℕ → List Format → Option Text
last_name id [] = none
last_name id (f ∷ fs) =
    or_else (last_name id fs) (if f.id == id then some (or_empty f.name) else none)

known-assign :
    (id i : ℕ) (s : Text) (m : List (ℕ × Text))
    → known id (assign i s m) ≡ (if i == id then some s else known id m)
unfolding assign
known-assign id i s [] = refl
known-assign id i s ((j, t) ∷ m) = ground (arith, known-assign id i s m)

known-assign_all :
    (id : ℕ) (fs : List Format) (m : List (ℕ × Text))
    → known id (assign_all fs m) ≡ or_else (last_name id fs) (known id m)
unfolding assign_all
known-assign_all id [] m = refl
known-assign_all id (f ∷ fs) m =
    known-assign_all id fs (assign f.id (or_empty f.name) m)
    ∙ elim (Option-cases (last_name id fs)) [
      | inr (t, e) ↦ rw e refl
      | inl e ↦ rw e (
          known-assign id f.id (or_empty f.name) m
          ∙ if_or_else (f.id == id) (or_empty f.name) (known id m))
    ]
  where
    if_or_else :
        (b : Bool) (t : Text) (o : Option Text)
        → (if b then some t else o) ≡ or_else (if b then some t else none) o
    if_or_else true t o = refl
    if_or_else false t o = refl

or_else-none : (o : Option Text) → or_else o none ≡ o
or_else-none none = refl
or_else-none (some t) = refl

-- The formats that the client takes by their names: an image in PNG, or a list of files.
abbrev pub takes_name : Format → Bool
takes_name f = is_named name_png f.name || is_named name_files f.name

abbrev pub first_taken : List Format → Option Format
first_taken [] = none
first_taken (f ∷ fs) = if takes_name f then some f else first_taken fs

abbrev pub id_name : Option Format → Option (ℕ × Text)
id_name none = none
id_name (some f) = some (f.id, or_empty f.name)

-- A format with a name is asked for under the name that it was announced with.
is_named-or_empty : (s : Text) (o : Option Text) → is_named s o ≡ true → s ≡ or_empty o
is_named-or_empty s none h = absurd (ground arith)
is_named-or_empty s (some t) h = sym (same_text-eq t s h)

named_format-first_taken : (fs : List Format) → named_format fs ≡ id_name (first_taken fs)
unfolding named_format
named_format-first_taken [] = refl
named_format-first_taken (f ∷ fs) =
    let ih = named_format-first_taken fs in
    elim (Bool-cases (is_named name_png f.name)) [
      | inl p ↦ rw p (ap (λ t. some (f.id, t)) (is_named-or_empty name_png f.name p))
      | inr p ↦ elim (Bool-cases (is_named name_files f.name)) [
        | inl q ↦ rw (p, q) (ap (λ t. some (f.id, t)) (is_named-or_empty name_files f.name q))
        | inr q ↦ rw (p, q) ih
      ]
    ]

-- The order of preference: text, then the first image in PNG or list of files, then the two kinds of
-- bitmap, by whether these are there.
abbrev pub best : Bool → Option (ℕ × Text) → Bool → Bool → Option (ℕ × Text)
best true named v5 dib = some (cf_unicodetext, [])
best false (some x) v5 dib = some x
best false none true dib = some (cf_dibv5, [])
best false none false true = some (cf_dib, [])
best false none false false = none

-- The format preferred, by the list alone.
abbrev pub preferred : List Format → Option (ℕ × Text)
preferred fs =
    best (announced cf_unicodetext fs) (id_name (first_taken fs)) (announced cf_dibv5 fs)
      (announced cf_dib fs)

-- From `c` the client asks for a format, and comes to hold its id and its name; or it asks for none, and
-- holds what it held.
abbrev pub Asks : Option (ℕ × Text) → Formats → Option ℕ × Formats → Type 0
Asks none c (asked, t) =
    (asked ≡ none) × (t.requested_id ≡ c.requested_id) × (t.requested_name ≡ c.requested_name)
Asks (some (id, s)) c (asked, t) =
    (asked ≡ some id) × (t.requested_id ≡ id) × (t.requested_name ≡ s)

-- What the callback gives for the client `c` that has taken the list's formats over.
abbrev Chooses : Option (ℕ × Text) → Formats → Option ℕ × Formats → Type 0
Chooses o c r = Asks o c r × (r.1.from_remote ≡ c.from_remote)

request_bitmap-Chooses :
    (c : Formats)
    → Chooses
        (best false none (contains cf_dibv5 c.from_remote) (contains cf_dib c.from_remote))
        c
        (request_bitmap c)
unfolding request_bitmap
request_bitmap-Chooses c = elim (Bool-cases (contains cf_dibv5 c.from_remote)) [
  | inl v ↦ rw v ((refl, refl, refl), refl)
  | inr v ↦ elim (Bool-cases (contains cf_dib c.from_remote)) [
    | inl d ↦ rw (v, d) ((refl, refl, refl), refl)
    | inr d ↦ rw (v, d) ((refl, refl, refl), refl)
  ]
]

request_named-Chooses :
    (fs : List Format) (c : Formats) (o : Option (ℕ × Text))
    → named_format fs ≡ o
    → Chooses
        (best false o (contains cf_dibv5 c.from_remote) (contains cf_dib c.from_remote))
        c
        (request_named fs c)
unfolding request_named
request_named-Chooses fs c none e = rw (e, request_named) (request_bitmap-Chooses c)
request_named-Chooses fs c (some x) e = rw (e, request_named) ((refl, refl, refl), refl)

server_format_list-Chooses :
    (fs : List Format) (c : Formats)
    → let told : Formats = record c { from_remote = assign_all fs [] } in
      Chooses
        (best
          (contains cf_unicodetext told.from_remote)
          (named_format fs)
          (contains cf_dibv5 told.from_remote)
          (contains cf_dib told.from_remote))
        told
        (server_format_list fs c)
unfolding server_format_list
server_format_list-Chooses fs c =
    let told : Formats = record c { from_remote = assign_all fs [] } in
    elim (Bool-cases (contains cf_unicodetext told.from_remote)) [
      | inl e ↦ rw e ((refl, refl, refl), refl)
      | inr e ↦ rw e (request_named-Chooses fs told (named_format fs) refl)
    ]

best-preferred :
    (fs : List Format)
    → let m = assign_all fs [] in
      best (contains cf_unicodetext m) (named_format fs) (contains cf_dibv5 m) (contains cf_dib m)
      ≡ preferred fs
best-preferred fs = λ i.
    best (contains_announced cf_unicodetext fs i) (named_format-first_taken fs i)
      (contains_announced cf_dibv5 fs i) (contains_announced cf_dib fs i)

Asks-told :
    (o : Option (ℕ × Text)) (c : Formats) (m : List (ℕ × Text)) (r : Option ℕ × Formats)
    → Asks o (record c { from_remote = m }) r
    → Asks o c r
Asks-told none c m r h = h
Asks-told (some x) c m r h = h

-- What is asked for is the preferred format of the list that was just announced, whatever the client
-- knew before: text, else the first image in PNG or list of files, else a bitmap of the newer or then of
-- the older kind. Its id and the name it was announced with, none for text and bitmaps, are remembered
-- for the answer; if there is none, nothing is asked for and what was remembered stays. For every id
-- the client then knows the name that the list has for it, the last one, and nothing for an id that is
-- not in the list.
pub server_format_list-preferred :
    (fs : List Format) (c : Formats) (id : ℕ)
    → let r = server_format_list fs c in
      Asks (preferred fs) c r × (known id r.1.from_remote ≡ last_name id fs)
server_format_list-preferred fs c id =
    let (asks, m) = server_format_list-Chooses fs c in
    let r = server_format_list fs c in
    (
      subst (λ p. Asks p c r) (best-preferred fs) (Asks-told _ c (assign_all fs []) r asks),
      ap (known id) m ∙ known-assign_all id fs [] ∙ or_else-none (last_name id fs),
    )
