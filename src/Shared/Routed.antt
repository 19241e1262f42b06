-- ===== src/Shared/Routed.antt =====
-- shared/src/lib.rs: `RoutedEncryptedMessage`.
use phantasma.Prelude.{Text, Bytes, Result}
use phantasma.Shared.Codec.{Codec, JsonError}
use phantasma.Shared.Encrypted.{EncryptedChatMessage}

pub record RoutedEncryptedMessage : Type 0 where
  pub from : Text
  pub to : Text
  pub encrypted : EncryptedChatMessage

abbrev pub new : Text → Text → EncryptedChatMessage → RoutedEncryptedMessage
new from to encrypted = record { from = from; to = to; encrypted = encrypted }

unfoldable pub to_wire_bytes :
    Codec RoutedEncryptedMessage → RoutedEncryptedMessage → Result JsonError Bytes
to_wire_bytes json message = json.to_vec message

unfoldable pub from_wire_bytes :
    Codec RoutedEncryptedMessage → Bytes → Result JsonError RoutedEncryptedMessage
from_wire_bytes json bytes = json.from_slice bytes
