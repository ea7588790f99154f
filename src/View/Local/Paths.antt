-- ===== src/View/Local/Paths.antt =====
-- Which paths a list of files has behind `appendClipboardInfoFile`.
use qfreerdp.Base.{
  ◌≡◌, refl, subst, ap, ◌∙◌, Bool, true, false, Bool-cases, inl, inr, ◌||◌, ◌&&◌, List, [], ◌∷◌,
  ◌++◌, arith, if◌then◌else◌,
}
use qfreerdp.Entry.Types.{Text, FileInfo}
use qfreerdp.Entry.Batch.{same_text}
use qfreerdp.Entry.Batch.Texts.{same_text-eq}
use qfreerdp.View.Local.{
  Info, Node, node, Nodes, nil, cons, listed, has_local, push_new, Url, local, remote, info_of,
  append_info, append_infos, append_url, append_urls,
}

-- Whether a path is in a tree, as far as directories are entered, and whether it is in the tree of a URL
-- that is a file or a directory.
abbrev mutual
  pub in_node : Text → Node → Bool
  in_node p (node info below) = same_text info.path p || (info.is_dir && in_nodes p below)

  pub in_nodes : Text → Nodes → Bool
  in_nodes p nil = false
  in_nodes p (cons n ns) = in_node p n || in_nodes p ns

abbrev pub in_urls : Text → List Url → Bool
in_urls p [] = false
in_urls p (remote ∷ us) = in_urls p us
in_urls p (local n b ∷ us) =
    ((info_of n).is_dir || (info_of n).is_file) && in_node p n || in_urls p us

pub has_local-snoc :
    (p : Text) (fs : List FileInfo) (f : FileInfo)
    → has_local p (fs ++ f ∷ []) ≡ (has_local p fs || same_text f.local_path p)
has_local-snoc p [] f = ground arith
has_local-snoc p (g ∷ fs) f = ground (arith, has_local-snoc p fs f)

-- A path that is listed already need not be added.
push_new-has :
    (p : Text) (f : FileInfo) (fs : List FileInfo)
    → has_local p (push_new f fs) ≡ (has_local p fs || same_text f.local_path p)
unfolding push_new
push_new-has p f fs = elim (Bool-cases (has_local f.local_path fs)) [
  | inr e ↦ rw (e, push_new) (has_local-snoc p fs f)
  | inl e ↦ elim (Bool-cases (same_text f.local_path p)) [
    | inr d ↦ rw (e, push_new) (ground arith)
    | inl d ↦
        let there : has_local p fs ≡ true =
          subst (λ x. has_local x fs ≡ true) (same_text-eq f.local_path p d) e in
        rw (e, push_new) (ground (arith, there))
  ]
]

branch_has :
    (p : Text) (b m : Bool) (x y : List FileInfo)
    → has_local p x ≡ (has_local p y || m)
    → has_local p (if b then x else y) ≡ (has_local p y || (b && m))
branch_has p true m x y h = h
branch_has p false m x y h = ground arith

module _ (relative : Text → Text → Text) (root : Info) (p : Text) where
  mutual
    unfolding append_info

    append_info-has :
        (n : Node) (fs : List FileInfo)
        → has_local p (append_info relative root n fs) ≡ (has_local p fs || in_node p n)
    append_info-has (node info below) fs =
        let pushed = push_new (listed relative root info) fs in
        branch_has p info.is_dir (in_nodes p below) (append_infos relative root below pushed) pushed
          (append_infos-has below pushed)
        ∙ ap (λ b. b || (info.is_dir && in_nodes p below))
            (push_new-has p (listed relative root info) fs)
        ∙ ground arith

    append_infos-has :
        (ns : Nodes) (fs : List FileInfo)
        → has_local p (append_infos relative root ns fs) ≡ (has_local p fs || in_nodes p ns)
    append_infos-has nil fs = ground arith
    append_infos-has (cons n ns) fs =
        append_infos-has ns (append_info relative root n fs)
        ∙ ap (λ b. b || in_nodes p ns) (append_info-has n fs)
        ∙ ground arith

module _ (relative : Text → Text → Text) (p : Text) where
  append_url-has :
      (u : Url) (us : List Url) (fs : List FileInfo)
      → (has_local p (append_url relative u fs) || in_urls p us)
        ≡ (has_local p fs || in_urls p (u ∷ us))
  unfolding append_url
  append_url-has remote us fs = refl
  append_url-has (local n b) us fs =
      ap (λ c. c || in_urls p us)
        (branch_has p ((info_of n).is_dir || (info_of n).is_file) (in_node p n)
          (append_info relative (info_of n) n fs) fs (append_info-has relative (info_of n) p n fs))
      ∙ ground arith

  -- The list has a path exactly if it had it before or one of the URLs has it.
  pub append_urls-has :
      (us : List Url) (fs : List FileInfo)
      → has_local p (append_urls relative us fs) ≡ (has_local p fs || in_urls p us)
  unfolding append_urls
  append_urls-has [] fs = ground arith
  append_urls-has (u ∷ us) fs =
      append_urls-has us (append_url relative u fs) ∙ append_url-has u us fs
