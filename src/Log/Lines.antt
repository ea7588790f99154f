-- ===== src/Log/Lines.antt =====
-- What is logged is in the log, and can be read there.
use qfreerdp.Base.{
  suc, ◌≡◌, ◌≢◌, refl, sym, ap, ◌∙◌, true, List, [], ◌∷◌, ◌++◌, map, arith, All, length, drop,
  replicate, ◌-◌, append_assoc, append-nil, then_branch, else_branch, leb, false, ◌==◌,
  if◌then◌else◌,
}
use qfreerdp.Entry.Types.{Text}
use qfreerdp.Log.{
  Level, level_debug, level_info, level_warn, level_err, rank, debug, info, warn, error, Logger,
  init, pad, line, write,
}

-- The text up to a closing bracket.
abbrev pub up_to_bracket : Text → Text
up_to_bracket [] = []
up_to_bracket (u ∷ t) = let rest = up_to_bracket t in if u == b']' then [] else u ∷ rest

-- What a reader takes for the action and the message of a line.
abbrev pub read_line : Text → Text × Text
read_line [] = ([], [])
read_line (u ∷ t) =
    let action = up_to_bracket t in
    (action, drop (suc (length (pad (b'[' ∷ action ++ b']' ∷ [])))) (u ∷ t))

up_to_bracket_lem : (a rest : Text) → All (λ u. u ≢ b']') a → up_to_bracket (a ++ b']' ∷ rest) ≡ a
up_to_bracket_lem [] rest h = refl
up_to_bracket_lem (u ∷ a) rest h = let ih = up_to_bracket_lem a rest h.1 in ground arith

drop_behind : (p m : Text) → drop (suc (length p)) (p ++ b' ' ∷ m) ≡ m
drop_behind [] m = refl
drop_behind (u ∷ p) m = drop_behind p m

abbrev blanks_behind : Text → Text
blanks_behind a = replicate (22 - length (b'[' ∷ a ++ b']' ∷ [])) b' '

line_split :
    (a m : Text)
    → ((a ++ b']' ∷ []) ++ blanks_behind a) ++ b' ' ∷ m
      ≡ a ++ (b']' ∷ (blanks_behind a ++ b' ' ∷ m))
line_split a m = simp (append_assoc)

read_line-line : (a m : Text) → All (λ u. u ≢ b']') a → read_line (line a m) ≡ (a, m)
read_line-line a m h =
    let found : up_to_bracket (((a ++ b']' ∷ []) ++ blanks_behind a) ++ b' ' ∷ m) ≡ a =
      ap up_to_bracket (line_split a m) ∙ up_to_bracket_lem a (blanks_behind a ++ b' ' ∷ m) h in
    ap (λ x. (x, drop (suc (length (pad (b'[' ∷ x ++ b']' ∷ [])))) (line a m))) found
    ∙ ap (λ y. (a, y)) (drop_behind (pad (b'[' ∷ a ++ b']' ∷ [])) m)

-- A call of `debug`, `info`, `warn` or `error`, with its action and message.
abbrev pub Call : Type 0
Call = Level × (Text × Text)

abbrev pub log : Call → Logger → Logger
log (level_debug, (a, m)) s = debug a m s
log (level_info, (a, m)) s = info a m s
log (level_warn, (a, m)) s = warn a m s
log (level_err, (a, m)) s = error a m s

abbrev pub write_all : List Call → Logger → Logger
write_all [] s = s
write_all (w ∷ ws) s = write_all ws (log w s)

all_written : (l : Level) → leb (rank level_debug) (rank l) ≡ true
all_written level_debug = refl
all_written level_info = refl
all_written level_warn = refl
all_written level_err = refl

map-append : {A B : Type 0} → (f : A → B) (xs ys : List A) → map f (xs ++ ys) ≡ map f xs ++ map f ys
map-append f [] ys = refl
map-append f (x ∷ xs) ys = ap (◌∷◌ (f x)) (map-append f xs ys)

log-write : (l : Level) (a m : Text) (s : Logger) → log (l, (a, m)) s ≡ write l a m s
unfolding debug info warn error
log-write level_debug a m s = refl
log-write level_info a m s = refl
log-write level_warn a m s = refl
log-write level_err a m s = refl

log-line :
    (l : Level) (a m : Text) (s : Logger)
    → s.level ≡ level_debug
    → log (l, (a, m)) s ≡ record s { lines = s.lines ++ line a m ∷ [] }
unfolding write
log-line l a m s h =
    log-write l a m s
    ∙ then_branch (leb (rank s.level) (rank l)) _ s
        (ap (λ d. leb (rank d) (rank l)) h ∙ all_written l)

write_all-lines :
    (ws : List Call) (s : Logger)
    → s.level ≡ level_debug
    → All (λ w. All (λ u. u ≢ b']') w.1.0) ws
    → map read_line (write_all ws s).lines ≡ map read_line s.lines ++ map (λ w. w.1) ws
write_all-lines [] s h n = sym (append-nil (map read_line s.lines))
write_all-lines ((l, (a, m)) ∷ ws) s h n =
    let t : Logger = record s { lines = s.lines ++ line a m ∷ [] } in
    ap (λ r. map read_line (write_all ws r).lines) (log-line l a m s h)
    ∙ write_all-lines ws t h n.1
    ∙ ap (◌++ map (λ w. w.1) ws) (map-append read_line s.lines (line a m ∷ []))
    ∙ append_assoc (map read_line s.lines) _ _
    ∙ ap (λ x. map read_line s.lines ++ x ∷ map (λ w. w.1) ws) (read_line-line a m n.0)

-- Once the log is initialised, whatever the calls and their levels, each call is a line of it, in the
-- order of the calls, and the action and the message can be read back from the line. The actions hold
-- no closing bracket.
pub init-write_all :
    (ws : List Call) (s : Logger)
    → s.init_done ≡ false
    → s.lines ≡ []
    → All (λ w. All (λ u. u ≢ b']') w.1.0) ws
    → map read_line (write_all ws (init s)).lines ≡ map (λ w. w.1) ws
unfolding init
init-write_all ws s f e n =
    let t : Logger = record s { init_done = true; level = level_debug; flush_on = level_debug } in
    ap (λ r. map read_line (write_all ws r).lines) (else_branch s.init_done s t f)
    ∙ write_all-lines ws t refl n
    ∙ ap (λ ls. map read_line ls ++ map (λ w. w.1) ws) e
