-- ===== src/Shared/Validation.antt =====
-- shared/src/lib.rs: the tests on user names and on the text of public keys.
pub mod Bounds
use phantasma.Prelude.{ℕ, Text, Bool, not, ◌&&◌, ◌||◌, leb, ◌==◌, nat_eq, all}
use phantasma.Prelude.Utf8.{len, is_empty, is_ascii_alphanumeric}

abbrev pub ed25519_public_key_text_len : ℕ
ed25519_public_key_text_len = 43

abbrev pub x25519_public_key_text_len : ℕ
x25519_public_key_text_len = 43

abbrev pub max_username_len : ℕ
max_username_len = 64

-- The closure in `is_valid_username`.
unfoldable pub is_username_char : ℕ → Bool
is_username_char ch = is_ascii_alphanumeric ch || ch == b'-' || ch == b'_' || ch == b'.'

-- The closure in the tests of both key texts: the alphabet of base64url.
unfoldable pub is_base64url_char : ℕ → Bool
is_base64url_char ch = is_ascii_alphanumeric ch || ch == b'-' || ch == b'_'

unfoldable pub is_valid_username : Text → Bool
is_valid_username username =
    not (is_empty username) && leb (len username) max_username_len && all is_username_char username

unfoldable pub is_valid_ed25519_public_key_text : Text → Bool
is_valid_ed25519_public_key_text public_key =
    len public_key == ed25519_public_key_text_len && all is_base64url_char public_key

unfoldable pub is_valid_x25519_public_key_text : Text → Bool
is_valid_x25519_public_key_text public_key =
    len public_key == x25519_public_key_text_len && all is_base64url_char public_key
