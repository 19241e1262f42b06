-- ===== src/Client/Sending.antt =====
-- client/src/main.rs: `send_message`.
pub mod Typed
pub mod Sealed
pub mod EndToEnd
pub mod Pins
use phantasma.Prelude.{
  ℕ, suc, Text, Bytes, String, not, ◌||◌, Option, none, some, Result, ok, err, Exec, pure, raise,
  ◌>>=◌, ◌>>◌, map_err, ◌==◌, text_eq, ◌++◌, ◌∷◌, [], if◌then◌else◌,
}
use phantasma.Prelude.Dict
use phantasma.Prelude.Utf8.{is_empty}
use phantasma.Prelude.Str.{trim, split_once}
use phantasma.Shared.Codec.{Codec}
use phantasma.Shared.Plaintext.{PlaintextChatMessage}
use phantasma.Shared.Routed as Routed
use phantasma.Shared.Routed.{RoutedEncryptedMessage}
use phantasma.Shared.Registration.{PublicKeyEntry}
use phantasma.Client.Crypto.{Primitives, encrypt_message}
use phantasma.Client.Identity.{Identity}
use phantasma.Client.Directory.{
  Outside, ClientState, Client, lift, lookup_public_key, json_failed, crypto_failed, socket_failed,
  usage_send, added_contact, no_recipient_key, sent_message,
}
use phantasma.Client.Messages.{say, add}

-- `socket_writer.send(Message::Binary(payload))`
unfoldable pub write_to_socket : Outside → Bytes → Client Unit
write_to_socket o payload s = elim (o.socket_fault s.sends) [
  | some e ↦ (err (socket_failed e), record s { sends = suc s.sends })
  | none ↦ (ok tt, record s { sends = suc s.sends; sent = s.sent ++ payload ∷ [] })
]

module _ (o : Outside) (http_base_url : Text) where
  abbrev kept : Text → Option PublicKeyEntry → Client (Option PublicKeyEntry)
  kept recipient none = pure none
  kept recipient (some entry) = do add o entry; say (added_contact recipient); pure (some entry)

  -- The contact of the recipient, or what the server has; `none` if it has nothing.
  unfoldable pub recipient_entry : Text → Client (Option PublicKeyEntry)
  recipient_entry recipient s = elim (Dict.get recipient s.book.contacts) [
    | some entry ↦ (ok (some entry), s)
    | none ↦ (lookup_public_key o http_base_url recipient >>= kept recipient) s
  ]

  module _ (p : Primitives) (plaintext : Codec PlaintextChatMessage)
      (routed_codec : Codec RoutedEncryptedMessage) (nonce : Bytes) (sender_name : Text)
      (identity : Identity) where
    unfoldable pub send_encrypted : Text → Text → PublicKeyEntry → Client Unit
    send_encrypted recipient message_body entry = do
      encrypted ← lift (
          map_err crypto_failed (
            encrypt_message p plaintext nonce sender_name recipient message_body
              identity.encryption_secret_key identity.encryption_public_key
              entry.encryption_public_key))
      wire_message ← lift (
          map_err json_failed
            (Routed.to_wire_bytes routed_codec (Routed.new sender_name recipient encrypted)))
      write_to_socket o wire_message
      say (sent_message recipient)

    abbrev send_found : Text → Text → Option PublicKeyEntry → Client Unit
    send_found recipient message_body none = say (no_recipient_key recipient)
    send_found recipient message_body (some entry) = send_encrypted recipient message_body entry

    abbrev send_to : Text → Text → Client Unit
    send_to recipient message_body =
        if is_empty recipient || is_empty message_body
        then say usage_send
        else recipient_entry recipient >>= send_found recipient message_body

    -- `rest` is what follows the command, and the nonce is what is drawn for the message.
    unfoldable pub send_message : Text → Client Unit
    send_message rest = elim (split_once 0x20 (trim rest)) [
      | none ↦ say usage_send
      | some (recipient, message_body) ↦ send_to (trim recipient) (trim message_body)
    ]
