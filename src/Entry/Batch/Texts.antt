-- ===== src/Entry/Batch/Texts.antt =====
-- QString's equality is one of texts.
use qfreerdp.Base.{◌≡◌, refl, true, [], ◌∷◌, arith}
use qfreerdp.Entry.Types.{Text}
use qfreerdp.Entry.Batch.{same_text}

pub same_text_refl : (a : Text) → same_text a a ≡ true
same_text_refl [] = refl
same_text_refl (x ∷ a) = ground (arith, same_text_refl a)

pub same_text_sym : (a b : Text) → same_text a b ≡ same_text b a
same_text_sym [] [] = refl
same_text_sym [] (y ∷ b) = refl
same_text_sym (x ∷ a) [] = refl
same_text_sym (x ∷ a) (y ∷ b) = ground (arith, same_text_sym a b)

pub same_text-eq : (a b : Text) → same_text a b ≡ true → a ≡ b
same_text-eq [] [] h = refl
same_text-eq [] (y ∷ b) h = absurd (ground arith)
same_text-eq (x ∷ a) [] h = absurd (ground arith)
same_text-eq (x ∷ a) (y ∷ b) h = let ih = same_text-eq a b (ground arith) in ground arith
