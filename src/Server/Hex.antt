-- ===== src/Server/Hex.antt =====
-- server/src/main.rs: `hex_preview`.
pub mod Decoding
use phantasma.Prelude.{
  ℕ, ◌+◌, ◌/◌, ◌%◌, Text, Bytes, List, [], ◌∷◌, ◌++◌, length, take, leb, if◌then◌else◌,
}
use phantasma.Prelude.Utf8.{text}

abbrev pub limit : ℕ
limit = 96

-- A digit of `{:02x}`.
unfoldable pub hex_digit : ℕ → ℕ
hex_digit n = if leb n 9 then b'0' + n else b'W' + n

unfoldable pub hex_bytes : Bytes → Text
hex_bytes [] = []
hex_bytes (byte ∷ bytes) = hex_digit (byte / 16) ∷ hex_digit (byte % 16) ∷ hex_bytes bytes

unfoldable pub hex_preview : Bytes → Text
hex_preview bytes =
    hex_bytes (take limit bytes) ++ (if leb (length bytes) limit then [] else text "...")
