-- ===== src/Sharing/Uuid.antt =====
-- `UUID_RE` of src/sharing/camera-access.service.ts, a regular expression with the flag `i`.
use Prim.Native.Char.{Char, code}
use Prim.Native.String.{[], ◌∷◌}
use reolink_station.Prelude.{ℕ, zero, suc, String, Bool, true, false, ◌&&◌, ◌||◌, leb, ◌==◌}

is_hex : Char → Bool
is_hex c =
    leb b'0' (code c) && leb (code c) b'9'
    || leb b'a' (code c) && leb (code c) b'f'
    || leb b'A' (code c) && leb (code c) b'F'

-- `n` hexadecimal digits, then what `rest` accepts
hex_run : ℕ → (String → Bool) → String → Bool
hex_run zero rest s = rest s
hex_run (suc n) rest [] = false
hex_run (suc n) rest (c ∷ s) = is_hex c && hex_run n rest s

dash_then : (String → Bool) → String → Bool
dash_then rest [] = false
dash_then rest (c ∷ s) = code c == b'-' && rest s

at_end : String → Bool
at_end [] = true
at_end (c ∷ s) = false

unfoldable pub is_uuid : String → Bool
unfolding hex_run dash_then at_end is_hex
is_uuid = hex_run 8 (
    dash_then
      (hex_run 4 (dash_then (hex_run 4 (dash_then (hex_run 4 (dash_then (hex_run 12 at_end))))))))
