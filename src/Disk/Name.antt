-- ===== src/Disk/Name.antt =====
-- `nameRe` and `sha256Re` of internal/disk/manifest.go, as matchers.
use bladerunner.Prelude.{Bool, Text, [], false, leb, length, true, ℕ, ◌&&◌, ◌==◌, ◌||◌, ◌∷◌}

unfoldable pub is_name_start : ℕ → Bool
is_name_start c = (leb b'a' c && leb c b'z') || (leb b'0' c && leb c b'9')

unfoldable pub is_name_byte : ℕ → Bool
unfolding is_name_start
is_name_byte c = is_name_start c || c == b'-'

unfoldable pub all_bytes : (ℕ → Bool) → Text → Bool
all_bytes p [] = true
all_bytes p (c ∷ s) = p c && all_bytes p s

-- `^[a-z0-9][a-z0-9-]*$`
unfoldable pub valid_name : Text → Bool
unfolding is_name_byte all_bytes
valid_name [] = false
valid_name (c ∷ s) = is_name_start c && all_bytes is_name_byte s

unfoldable pub is_hex_byte : ℕ → Bool
is_hex_byte c = (leb b'0' c && leb c b'9') || (leb b'a' c && leb c b'f')

-- `^[0-9a-f]{64}$`
unfoldable pub valid_sha256 : Text → Bool
unfolding is_hex_byte all_bytes
valid_sha256 s = length s == 64 && all_bytes is_hex_byte s
