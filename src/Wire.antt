-- ===== src/Wire.antt =====
-- Numbers that the sources take from the headers of FreeRDP and WinPR: values fixed by Windows and by
-- the remote desktop protocol.
use qfreerdp.Base.{ℕ}

-- Clipboard formats.
abbrev pub cf_dib : ℕ
cf_dib = 8

abbrev pub cf_unicodetext : ℕ
cf_unicodetext = 13

abbrev pub cf_dibv5 : ℕ
cf_dibv5 = 17

-- Flags of a pointer event: the wheel, a rotation towards the user, and the rotation's nine bits.
abbrev pub ptr_flags_wheel : ℕ
ptr_flags_wheel = 0x0200

abbrev pub ptr_flags_wheel_negative : ℕ
ptr_flags_wheel_negative = 0x0100

abbrev pub wheel_rotation_mask : ℕ
wheel_rotation_mask = 0x01ff
