-- ===== src/Entry/Path/Safe.antt =====
-- A name that `safe_remote_relative_path` lets through leads to a place below the batch's directory.
use native.Mathlib.Nat.{add-zero}
use qfreerdp.Base.{
  ℕ, zero, suc, ◌+◌, ◌<◌, ◌≡◌, ◌≢◌, refl, ap, sym, ◌∙◌, ◌⊎◌, inl, inr, true, false, Bool-cases,
  ◌||◌, List, [], ◌∷◌, map, Option, none, some, arith, All, ◌==◌, if◌then◌else◌, length, not,
}
use qfreerdp.Entry.Types.{Text}
use qfreerdp.Entry.Path.{
  PathApi, IsPlain, slash, backslash, swap_unit, is_empty, is_dot, is_dot_dot, any_dots, no_parts,
  is_absolute, normalized, parts, safe_remote_relative_path,
}

-- One component of a path, by the depth below a start: `none` leaves it upwards.
abbrev climb : ℕ → Option ℕ
climb zero = none
climb (suc d) = some d

abbrev move : Text → ℕ → Option ℕ
move p d =
    if is_empty p || is_dot p then some d else (if is_dot_dot p then climb d else some (suc d))

abbrev pub walk : ℕ → List Text → Option ℕ
walk d [] = some d
walk d (p ∷ ps) = elim (move p d) [ none ↦ none | some d' ↦ walk d' ps ]

walk_plain : (d : ℕ) (ps : List Text) → All IsPlain ps → walk d ps ≡ some (d + length ps)
walk_plain d [] h = rw add-zero
walk_plain d (p ∷ ps) h =
    let next : move p d ≡ some (suc d) = ground arith in
    rw (next, walk) (walk_plain (suc d) ps h.1 ∙ ap some (omega arith))

IsPlain-parts :
    (ps : List Text)
    → All (λ p. is_empty p ≡ false) ps
    → All (λ p. All (λ u. u ≢ slash) p) ps
    → any_dots ps ≡ false
    → All IsPlain ps
IsPlain-parts [] a b c = tt
IsPlain-parts (p ∷ ps) a b c = (
  record { named = a.0; not_dot = ground arith; not_dot_dot = ground arith; one_level = b.0 },
  IsPlain-parts ps a.1 b.1 (ground arith),
)

unslash : (s : Text) → All (λ u. not (u == backslash) ≡ true) (map (swap_unit backslash slash) s)
unslash [] = tt
unslash (c ∷ s) = (ground arith, unslash s)

positive : (ps : List Text) → ps ≢ [] → 0 < length ps
positive [] h = absurd (h refl)
positive (p ∷ ps) h = omega arith

has_parts : (ps : List Text) → ps ≢ [] → no_parts ps ≡ false
has_parts [] h = absurd (h refl)
has_parts (p ∷ ps) h = refl

module _ (api : PathApi) where
  open api use {
    split, join, split_named, split_apart, split_units, split-join, clean_path-join, replace-map,
  }

  -- The name is refused, or its components are plain ones and the path joins them.
  safe_path_cases :
      (name : Text)
      → (safe_remote_relative_path api name ≡ [])
        ⊎ (All IsPlain (parts api name)
            × (parts api name ≢ [])
            × (safe_remote_relative_path api name ≡ join slash (parts api name)))
  unfolding safe_remote_relative_path
  safe_path_cases name = elim (Bool-cases (is_absolute (normalized api name))) [
    | inl e ↦ inl (ground arith)
    | inr e ↦ elim (Bool-cases (any_dots (parts api name))) [
      | inl f ↦ inl (ground arith)
      | inr f ↦ elim (Bool-cases (no_parts (parts api name))) [
        | inl g ↦ inl (ground arith)
        | inr g ↦
            let plain =
              IsPlain-parts (parts api name) (split_named slash (normalized api name))
                (split_apart slash (normalized api name)) f in
            inr (
              plain,
              (λ z. cc (sym g, ap no_parts z)),
              ground (arith, clean_path-join (parts api name) plain),
            )
      ]
    ]
  ]

  -- A name that is let through gives a path that, followed component by component, never leaves the
  -- directory it starts from, and ends below it: as deep as the name has components. None of its
  -- components holds a backslash.
  pub safe_path_inside :
      (name : Text)
      → safe_remote_relative_path api name ≢ []
      → let ps = split slash (safe_remote_relative_path api name) in
        (walk 0 ps ≡ some (length (parts api name)))
        × (0 < length (parts api name))
        × All (λ p. All (λ u. not (u == backslash) ≡ true) p) ps
  safe_path_inside name h = elim (safe_path_cases name) [
    | inl e ↦ absurd (h e)
    | inr (plain, some_part, e) ↦
        let again : split slash (safe_remote_relative_path api name) ≡ parts api name =
          ap (split slash) e
          ∙ split-join slash (parts api name) (split_named slash (normalized api name))
              (split_apart slash (normalized api name)) in
        let clean : All (λ u. not (u == backslash) ≡ true) (normalized api name) =
          rw (replace-map backslash slash name) (unslash name) in
        rw again (
          walk_plain 0 (parts api name) plain ∙ ap some (omega arith),
          positive (parts api name) some_part,
          split_units (λ u. not (u == backslash)) slash (normalized api name) clean,
        )
  ]

  -- A name is let through, as its components joined by slashes, when it is not absolute, has no drive
  -- letter, and has components, none of them a dot or two.
  pub safe_path_kept :
      (name : Text)
      → is_absolute (normalized api name) ≡ false
      → parts api name ≢ []
      → any_dots (parts api name) ≡ false
      → safe_remote_relative_path api name ≡ join slash (parts api name)
  unfolding safe_remote_relative_path
  safe_path_kept name a n d =
      let plain =
        IsPlain-parts (parts api name) (split_named slash (normalized api name))
          (split_apart slash (normalized api name)) d in
      let there : no_parts (parts api name) ≡ false = has_parts (parts api name) n in
      ground (arith, clean_path-join (parts api name) plain)
