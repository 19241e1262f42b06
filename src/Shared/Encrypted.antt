-- ===== src/Shared/Encrypted.antt =====
-- shared/src/lib.rs: `EncryptedChatMessage`.
use phantasma.Prelude.{ℕ, Text, Bytes, Result}
use phantasma.Shared.Codec.{Codec, JsonError}

-- `version` is a `u8`.
pub record EncryptedChatMessage : Type 0 where
  pub version : ℕ
  pub sender_encryption_public_key : Text
  pub nonce : Text
  pub ciphertext : Text

unfoldable pub to_wire_bytes :
    Codec EncryptedChatMessage → EncryptedChatMessage → Result JsonError Bytes
to_wire_bytes json message = json.to_vec message

unfoldable pub from_wire_bytes :
    Codec EncryptedChatMessage → Bytes → Result JsonError EncryptedChatMessage
from_wire_bytes json bytes = json.from_slice bytes
