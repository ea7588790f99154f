-- ===== src/View/Local/Listing.antt =====
-- The list of files that a folder on the clipboard comes to.
use qfreerdp.Base.{
  ◌≡◌, ◌∙◌, Bool, true, false, Bool-cases, inl, inr, ◌||◌, List, [], ◌∷◌, arith, if◌then◌else◌,
}
use qfreerdp.Entry.Types.{Text, FileInfo}
use qfreerdp.Entry.Batch.Texts.{same_text_refl}
use qfreerdp.View.Local.Distinct.{Distinct, either}
use qfreerdp.View.Local.Paths.{has_local-snoc}
use qfreerdp.View.Local.{
  Info, Node, node, Nodes, nil, cons, listed, has_local, push_new, Url, local, remote, info_of,
  append_info, append_infos, append_url, append_urls,
}

-- The path of every file of the tree, as far as directories are entered, is listed.
abbrev mutual
  pub Listed : Node → List FileInfo → Type 0
  Listed (node info below) fs =
      (has_local info.path fs ≡ true) × (if info.is_dir then AllListed below fs else Unit {0})

  pub AllListed : Nodes → List FileInfo → Type 0
  AllListed nil fs = Unit {0}
  AllListed (cons n ns) fs = Listed n fs × AllListed ns fs

-- What is listed stays listed.
abbrev pub Keeps : List FileInfo → List FileInfo → Type 0
Keeps fs gs = (p : Text) → has_local p fs ≡ true → has_local p gs ≡ true

push_new-Keeps : (f : FileInfo) (fs : List FileInfo) → Keeps fs (push_new f fs)
unfolding push_new
push_new-Keeps f fs p h = elim (Bool-cases (has_local f.local_path fs)) [
  | inl e ↦ rw (e, push_new) h
  | inr e ↦ rw (e, push_new) (has_local-snoc p fs f ∙ ground arith)
]

push_new-listed :
    (f : FileInfo) (fs : List FileInfo) → has_local f.local_path (push_new f fs) ≡ true
unfolding push_new
push_new-listed f fs = elim (Bool-cases (has_local f.local_path fs)) [
  | inl e ↦ rw (e, push_new) e
  | inr e ↦
      rw (e, push_new)
        (has_local-snoc f.local_path fs f ∙ ground (arith, same_text_refl f.local_path))
]

lift_if :
    {P Q : Type 0} (b : Bool) → (P → Q) → (if b then P else Unit {0}) → (if b then Q else Unit {0})
lift_if true f p = f p
lift_if false f p = tt

entered :
    (P : List FileInfo → Type 0) (b : Bool) (x y : List FileInfo)
    → P x
    → (if b then P (if b then x else y) else Unit {0})
entered P true x y p = p
entered P false x y p = tt

mutual
  Listed-mono : (n : Node) (fs gs : List FileInfo) → Keeps fs gs → Listed n fs → Listed n gs
  Listed-mono (node info below) fs gs k h =
      (k info.path h.0, lift_if info.is_dir (AllListed-mono below fs gs k) h.1)

  AllListed-mono :
      (ns : Nodes) (fs gs : List FileInfo) → Keeps fs gs → AllListed ns fs → AllListed ns gs
  AllListed-mono nil fs gs k h = tt
  AllListed-mono (cons n ns) fs gs k h = (Listed-mono n fs gs k h.0, AllListed-mono ns fs gs k h.1)

-- The nodes of the URLs that are a file or a directory are listed.
abbrev pub UrlListed : Url → List FileInfo → Type 0
UrlListed remote fs = Unit {0}
UrlListed (local n b) fs =
    if (info_of n).is_dir || (info_of n).is_file then Listed n fs else Unit {0}

abbrev pub UrlsListed : List Url → List FileInfo → Type 0
UrlsListed [] fs = Unit {0}
UrlsListed (u ∷ us) fs = UrlListed u fs × UrlsListed us fs

module _ (relative : Text → Text → Text) (root : Info) where
  mutual
    unfolding append_info

    append_info-Keeps : (n : Node) (fs : List FileInfo) → Keeps fs (append_info relative root n fs)
    append_info-Keeps (node info below) fs =
        let first = push_new-Keeps (listed relative root info) fs in
        either (Keeps fs) info.is_dir _ _
          (λ p h. append_infos-Keeps below (push_new (listed relative root info) fs) p (first p h))
          first

    append_infos-Keeps :
        (ns : Nodes) (fs : List FileInfo) → Keeps fs (append_infos relative root ns fs)
    append_infos-Keeps nil fs p h = h
    append_infos-Keeps (cons n ns) fs p h =
        append_infos-Keeps ns (append_info relative root n fs) p (append_info-Keeps n fs p h)

  mutual
    unfolding append_info

    append_info-Listed : (n : Node) (fs : List FileInfo) → Listed n (append_info relative root n fs)
    append_info-Listed (node info below) fs =
        let first = push_new (listed relative root info) fs in
        let here = push_new-listed (listed relative root info) fs in
        (
          either (λ gs. has_local info.path gs ≡ true) info.is_dir _ _
              (append_infos-Keeps below first info.path here) here,
          entered (AllListed below) info.is_dir _ _ (append_infos-Listed below first),
        )

    append_infos-Listed :
        (ns : Nodes) (fs : List FileInfo) → AllListed ns (append_infos relative root ns fs)
    append_infos-Listed nil fs = tt
    append_infos-Listed (cons n ns) fs =
        let first = append_info relative root n fs in
        (
          Listed-mono n first _ (append_infos-Keeps ns first) (append_info-Listed n fs),
          append_infos-Listed ns first,
        )

module _ (relative : Text → Text → Text) where
  append_url-Keeps : (u : Url) (fs : List FileInfo) → Keeps fs (append_url relative u fs)
  unfolding append_url
  append_url-Keeps remote fs = λ p h. h
  append_url-Keeps (local n b) fs =
      either (Keeps fs) ((info_of n).is_dir || (info_of n).is_file) _ _
        (append_info-Keeps relative (info_of n) n fs) (λ p h. h)

  append_url-Listed : (u : Url) (fs : List FileInfo) → UrlListed u (append_url relative u fs)
  unfolding append_url
  append_url-Listed remote fs = tt
  append_url-Listed (local n b) fs =
      entered (Listed n) ((info_of n).is_dir || (info_of n).is_file) _ _
        (append_info-Listed relative (info_of n) n fs)

  UrlListed-mono : (u : Url) (fs gs : List FileInfo) → Keeps fs gs → UrlListed u fs → UrlListed u gs
  UrlListed-mono remote fs gs k h = tt
  UrlListed-mono (local n b) fs gs k h =
      lift_if ((info_of n).is_dir || (info_of n).is_file) (Listed-mono n fs gs k) h

  append_urls-Keeps : (us : List Url) (fs : List FileInfo) → Keeps fs (append_urls relative us fs)
  unfolding append_urls
  append_urls-Keeps [] fs p h = h
  append_urls-Keeps (u ∷ us) fs p h =
      append_urls-Keeps us (append_url relative u fs) p (append_url-Keeps u fs p h)

  -- Appending the URLs lists each one's path that is a file or a directory and, through all levels of
  -- directories, the paths of the files below it.
  pub append_urls-Listed :
      (us : List Url) (fs : List FileInfo) → UrlsListed us (append_urls relative us fs)
  unfolding append_urls
  append_urls-Listed [] fs = tt
  append_urls-Listed (u ∷ us) fs =
      let first = append_url relative u fs in
      (
        UrlListed-mono u first _ (append_urls-Keeps us first) (append_url-Listed u fs),
        append_urls-Listed us first,
      )
