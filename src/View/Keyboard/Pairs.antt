-- ===== src/View/Keyboard/Pairs.antt =====
-- What is pressed is released.
use qfreerdp.Base.{◌≡◌, refl, Bool, true, false, [], ◌∷◌, if◌then◌else◌}
use qfreerdp.Entry.Types.{Text}
use qfreerdp.Keys.{to_freerdp_key_code}
use qfreerdp.View.Keyboard.{
  KeyEvent, KeySent, no_key, unicode, scancode, send_text, is_unknown, keyboard_unicode_event_send,
  key_press_event, key_release_event,
}

-- The event that releases what the given one presses.
abbrev pub released : KeySent → KeySent
released no_key = no_key
released (unicode up u) = unicode true u
released (scancode down again c) = scancode false false c

send_text-released : (t : Text) → send_text false t ≡ released (send_text true t)
send_text-released [] = refl
send_text-released (u ∷ us) = refl

released_if :
    (b : Bool) (x y x' y' : KeySent)
    → x' ≡ released x
    → y' ≡ released y
    → (if b then x' else y') ≡ released (if b then x else y)
released_if true x y x' y' p q = p
released_if false x y x' y' p q = q

-- The release of a key sends the counterpart of what its press sends, for the same scancode or unit of
-- text, whatever the modifier, and not as a repetition.
pub key_release-press :
    (connected : Bool) (e : KeyEvent)
    → key_release_event connected e ≡ released (key_press_event connected e)
unfolding key_release_event key_press_event keyboard_unicode_event_send
key_release-press connected e =
    let code = to_freerdp_key_code e.keypad e.key in
    released_if connected _ _ _ _
      (released_if (is_unknown code) _ _ _ _ (send_text-released e.text) refl) refl
