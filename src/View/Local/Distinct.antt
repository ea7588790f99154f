-- ===== src/View/Local/Distinct.antt =====
-- No path is listed twice.
use qfreerdp.Base.{
  ◌≡◌, refl, Bool, true, false, Bool-cases, inl, inr, ◌||◌, List, [], ◌∷◌, ◌++◌, arith,
  if◌then◌else◌,
}
use qfreerdp.Entry.Types.{Text, FileInfo}
use qfreerdp.Entry.Batch.Texts.{same_text_sym}
use qfreerdp.View.Local.Paths.{has_local-snoc}
use qfreerdp.View.Local.{
  Info, Node, node, Nodes, nil, cons, listed, has_local, push_new, Url, local, remote, info_of,
  append_info, append_infos, append_url, append_urls,
}

-- No two entries have one path.
abbrev pub Distinct : List FileInfo → Type 0
Distinct [] = Unit {0}
Distinct (f ∷ fs) = (has_local f.local_path fs ≡ false) × Distinct fs

Distinct-snoc :
    (fs : List FileInfo) (f : FileInfo)
    → Distinct fs
    → has_local f.local_path fs ≡ false
    → Distinct (fs ++ f ∷ [])
Distinct-snoc [] f d h = (refl, tt)
Distinct-snoc (g ∷ fs) f d h = (
  ground (arith, has_local-snoc g.local_path fs f, same_text_sym f.local_path g.local_path),
  Distinct-snoc fs f d.1 (ground arith),
)

push_new-Distinct : (f : FileInfo) (fs : List FileInfo) → Distinct fs → Distinct (push_new f fs)
unfolding push_new
push_new-Distinct f fs d = elim (Bool-cases (has_local f.local_path fs)) [
  | inl e ↦ rw (e, push_new) d
  | inr e ↦ rw (e, push_new) (Distinct-snoc fs f d e)
]

pub either :
    (P : List FileInfo → Type 0) (b : Bool) (x y : List FileInfo)
    → P x
    → P y
    → P (if b then x else y)
either P true x y p q = p
either P false x y p q = q

module _ (relative : Text → Text → Text) (root : Info) where
  mutual
    unfolding append_info

    append_info-Distinct :
        (n : Node) (fs : List FileInfo) → Distinct fs → Distinct (append_info relative root n fs)
    append_info-Distinct (node info below) fs d =
        let first = push_new-Distinct (listed relative root info) fs d in
        either Distinct info.is_dir _ _ (append_infos-Distinct below _ first) first

    append_infos-Distinct :
        (ns : Nodes) (fs : List FileInfo)
        → Distinct fs
        → Distinct (append_infos relative root ns fs)
    append_infos-Distinct nil fs d = d
    append_infos-Distinct (cons n ns) fs d =
        append_infos-Distinct ns (append_info relative root n fs) (append_info-Distinct n fs d)

module _ (relative : Text → Text → Text) where
  append_url-Distinct :
      (u : Url) (fs : List FileInfo) → Distinct fs → Distinct (append_url relative u fs)
  unfolding append_url
  append_url-Distinct remote fs d = d
  append_url-Distinct (local n b) fs d =
      either Distinct ((info_of n).is_dir || (info_of n).is_file) _ _
        (append_info-Distinct relative (info_of n) n fs d) d

  -- Appending the URLs to a list with no path twice gives a list with no path twice.
  pub append_urls-Distinct :
      (us : List Url) (fs : List FileInfo) → Distinct fs → Distinct (append_urls relative us fs)
  unfolding append_urls
  append_urls-Distinct [] fs d = d
  append_urls-Distinct (u ∷ us) fs d =
      append_urls-Distinct us (append_url relative u fs) (append_url-Distinct u fs d)
