-- ===== src/Entry/Types/Utf16.antt =====
-- What the sources rely on of QString::fromUtf16, which they call on units from the remote side.
use qfreerdp.Base.{ℕ, ◌+◌, ◌*◌, ◌/◌, ◌%◌, ◌≡◌, ◌≢◌, refl, List, [], ◌∷◌, arith, ◌==◌, if◌then◌else◌}
use qfreerdp.Entry.Types.{Text}

-- QString::fromUtf16 takes a byte-order mark at the start, of either order, for itself, and turns the
-- units behind a reversed one around; units without a mark it takes as they are.
abbrev pub IsUnmarked : Text → Type 0
IsUnmarked [] = Unit {0}
IsUnmarked (u ∷ us) = (u ≢ 0xFEFF) × (u ≢ 0xFFFE)

abbrev pub KeepsUnmarked : (List ℕ → Text) → Type 0
KeepsUnmarked from_utf16 = (t : Text) → IsUnmarked t → from_utf16 t ≡ t

-- A function that does this: a mark at the start is dropped, and behind a reversed one the two bytes of
-- each unit change places.
abbrev pub turned : List ℕ → Text
turned [] = []
turned (u ∷ us) = (u % 256 * 256 + u / 256) ∷ turned us

abbrev pub from_utf16 : List ℕ → Text
from_utf16 [] = []
from_utf16 (u ∷ us) = if u == 0xFEFF then us else (if u == 0xFFFE then turned us else u ∷ us)

pub from_utf16-keeps : KeepsUnmarked from_utf16
from_utf16-keeps [] h = refl
from_utf16-keeps (u ∷ us) h = ground arith
