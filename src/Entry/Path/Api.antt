-- ===== src/Entry/Path/Api.antt =====
-- Concrete functions that meet `PathApi`.
use qfreerdp.Base.{
  ℕ, ◌≡◌, ◌≢◌, refl, ap, ◌∙◌, Bool, true, false, Bool-cases, inl, inr, List, [], ◌∷◌, ◌++◌, map,
  All, arith, ◌==◌, if◌then◌else◌,
}
use qfreerdp.Entry.Types.{Text}
use qfreerdp.Entry.Path.{PathApi, swap_unit, is_empty}

-- An empty part is skipped.
abbrev pub keep : Text → List Text → List Text
keep [] ps = ps
keep (u ∷ p) ps = (u ∷ p) ∷ ps

-- The text up to the first separator, and the parts behind it.
unfoldable pub cut : ℕ → Text → Text × List Text
cut c [] = ([], [])
cut c (u ∷ s) = let (p, ps) = cut c s in if u == c then ([], keep p ps) else (u ∷ p, ps)

abbrev pub split_skip : ℕ → Text → List Text
split_skip c s = keep (cut c s).0 (cut c s).1

unfoldable pub join_by : ℕ → List Text → Text
join_by c [] = []
join_by c (p ∷ []) = p
join_by c (p ∷ q ∷ ps) = p ++ c ∷ join_by c (q ∷ ps)

abbrev Named : Text → Type 0
Named p = is_empty p ≡ false

keep-Named : (p : Text) (ps : List Text) → All Named ps → All Named (keep p ps)
keep-Named [] ps h = h
keep-Named (u ∷ p) ps h = (refl, h)

cut-Named : (c : ℕ) (s : Text) → All Named (cut c s).1
unfolding cut
cut-Named c [] = tt
cut-Named c (u ∷ s) = ground (arith, cut-Named c s, keep-Named (cut c s).0 (cut c s).1)

module _ (Q : ℕ → Type 0) where
  keep-All : (p : Text) (ps : List Text) → All Q p → All (All Q) ps → All (All Q) (keep p ps)
  keep-All [] ps h k = k
  keep-All (u ∷ p) ps h k = (h, k)

  -- A property of the units that are no separator holds throughout the parts.
  cut-All :
      (c : ℕ) (s : Text) → All (λ u. u ≢ c → Q u) s → All Q (cut c s).0 × All (All Q) (cut c s).1
  unfolding cut
  cut-All c [] h = (tt, tt)
  cut-All c (u ∷ s) h =
      let (a, b) = cut-All c s h.1 in
      elim (Bool-cases (u == c)) [
        | inl e ↦ rw e (tt, keep-All (cut c s).0 (cut c s).1 a b)
        | inr e ↦ rw e ((h.0 (ground arith), a), b)
      ]

All-units : (Q : ℕ → Type 0) (s : Text) → ((u : ℕ) → Q u) → All Q s
All-units Q [] h = tt
All-units Q (u ∷ s) h = (h u, All-units Q s h)

weaken :
    (q : ℕ → Bool) (c : ℕ) (s : Text) → All (λ u. q u ≡ true) s → All (λ u. u ≢ c → q u ≡ true) s
weaken q c [] h = tt
weaken q c (u ∷ s) h = ((λ n. h.0), weaken q c s h.1)

pub split_skip_named : (c : ℕ) (s : Text) → All (λ p. is_empty p ≡ false) (split_skip c s)
split_skip_named c s = keep-Named (cut c s).0 (cut c s).1 (cut-Named c s)

pub split_skip_apart : (c : ℕ) (s : Text) → All (λ p. All (λ u. u ≢ c) p) (split_skip c s)
split_skip_apart c s =
    let (a, b) = cut-All (λ u. u ≢ c) c s (All-units (λ u. u ≢ c → u ≢ c) s (λ u h. h)) in
    keep-All (λ u. u ≢ c) (cut c s).0 (cut c s).1 a b

pub split_skip_units :
    (q : ℕ → Bool) (c : ℕ) (s : Text)
    → All (λ u. q u ≡ true) s
    → All (λ p. All (λ u. q u ≡ true) p) (split_skip c s)
split_skip_units q c s h =
    let (a, b) = cut-All (λ u. q u ≡ true) c s (weaken q c s h) in
    keep-All (λ u. q u ≡ true) (cut c s).0 (cut c s).1 a b

cut_whole : (c : ℕ) (p : Text) → All (λ u. u ≢ c) p → cut c p ≡ (p, [])
unfolding cut
cut_whole c [] h = refl
cut_whole c (u ∷ p) h = let ih = cut_whole c p h.1 in ground arith

cut_part : (c : ℕ) (p r : Text) → All (λ u. u ≢ c) p → cut c (p ++ c ∷ r) ≡ (p, split_skip c r)
unfolding cut
cut_part c [] r h = ground arith
cut_part c (u ∷ p) r h = let ih = cut_part c p r h.1 in ground arith

keep_part : (p : Text) (ps : List Text) → is_empty p ≡ false → keep p ps ≡ p ∷ ps
keep_part [] ps h = cc
keep_part (u ∷ p) ps h = refl

pub split_skip-join_by :
    (c : ℕ) (ps : List Text)
    → All (λ p. is_empty p ≡ false) ps
    → All (λ p. All (λ u. u ≢ c) p) ps
    → split_skip c (join_by c ps) ≡ ps
unfolding join_by
split_skip-join_by c [] a b = unfold cut in refl
split_skip-join_by c (p ∷ []) a b = rw (cut_whole c p b.0) (keep_part p [] a.0)
split_skip-join_by c (p ∷ q ∷ ps) a b =
    rw (cut_part c p (join_by c (q ∷ ps)) b.0)
      (keep_part p _ a.0 ∙ ap (◌∷◌ p) (split_skip-join_by c (q ∷ ps) a.1 b.1))

abbrev pub path_api : PathApi
path_api = record {
  replace = λ a b s. map (swap_unit a b) s;
  split = split_skip;
  join = join_by;
  clean_path = λ s. s;
  replace-map = λ a b s. refl;
  split_named = split_skip_named;
  split_apart = split_skip_apart;
  split_units = split_skip_units;
  split-join = split_skip-join_by;
  clean_path-join = λ ps h. refl;
}
