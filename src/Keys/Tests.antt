-- ===== src/Keys/Tests.antt =====
-- The theorem on the key map at concrete inputs.
use qfreerdp.Base.{◌≡◌, true}
use qfreerdp.Keys.{key_7, to_freerdp_key_code}
use qfreerdp.Keys.Collisions.{key_of, canonical, key_of-to_freerdp_key_code}

key_of-to_freerdp_key_code_example : key_of (to_freerdp_key_code true key_7) ≡ canonical true key_7
key_of-to_freerdp_key_code_example = key_of-to_freerdp_key_code true key_7
