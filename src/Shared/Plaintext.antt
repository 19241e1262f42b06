-- ===== src/Shared/Plaintext.antt =====
-- shared/src/lib.rs: `PlaintextChatMessage`.
use phantasma.Prelude.{Text, Bytes, Result}
use phantasma.Shared.Codec.{Codec, JsonError}

pub record PlaintextChatMessage : Type 0 where
  pub from : Text
  pub to : Text
  pub body : Text

abbrev pub new : Text → Text → Text → PlaintextChatMessage
new from to body = record { from = from; to = to; body = body }

unfoldable pub to_wire_bytes :
    Codec PlaintextChatMessage → PlaintextChatMessage → Result JsonError Bytes
to_wire_bytes json message = json.to_vec message

unfoldable pub from_wire_bytes :
    Codec PlaintextChatMessage → Bytes → Result JsonError PlaintextChatMessage
from_wire_bytes json bytes = json.from_slice bytes
