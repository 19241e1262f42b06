-- ===== src/Client/Messages.antt =====
-- client/src/main.rs: what the client does with a message from the relay, and with its contacts.
pub mod Received
pub mod Pins
use phantasma.Prelude.{
  ℕ, suc, Text, Bytes, not, Option, none, some, Result, ok, err, Exec, pure, raise, ◌>>=◌, ◌>>◌,
  map_err, ◌==◌, text_eq, ◌++◌, ◌∷◌, [], if◌then◌else◌,
}
use phantasma.Prelude.Dict
use phantasma.Prelude.Utf8.{is_empty}
use phantasma.Shared.Codec.{Codec}
use phantasma.Shared.Plaintext.{PlaintextChatMessage}
use phantasma.Shared.Encrypted as Encrypted
use phantasma.Shared.Encrypted.{EncryptedChatMessage}
use phantasma.Shared.Registration.{PublicKeyEntry}
use phantasma.Client.Crypto.{Primitives, decrypt_message}
use phantasma.Client.Contacts as Contacts
use phantasma.Client.Directory.{
  Outside, ClientState, Client, OutputLine, lift, lookup_public_key, invalid_username,
  sender_key_mismatch, contacts_failed, json_failed, crypto_failed, unknown_sender, usage_add,
  added_contact, no_key_found, received,
}

abbrev pub say : OutputLine → Client Unit
say line s = (ok tt, record s { output = s.output ++ line ∷ [] })

-- `ContactBook::add` on the book of the client.
unfoldable pub add : Outside → PublicKeyEntry → Client Unit
add o entry s =
    let (r, (book, files)) = Contacts.add o.machine o.contacts_json entry (s.book, s.files) in
    (map_err contacts_failed r, record s { book = book; files = files })

module _ (o : Outside) (http_base_url : Text) where
  abbrev pub added : Text → Option PublicKeyEntry → Client PublicKeyEntry
  added username none = raise (unknown_sender username)
  added username (some entry) = do add o entry; say (added_contact username); pure entry

  unfoldable pub find_or_add_sender : Text → Client PublicKeyEntry
  find_or_add_sender username s = elim (Dict.get username s.book.contacts) [
    | some entry ↦ (ok entry, s)
    | none ↦ (lookup_public_key o http_base_url username >>= added username) s
  ]

  abbrev add_found : Text → Option PublicKeyEntry → Client Unit
  add_found username none = say (no_key_found username)
  add_found username (some entry) = do add o entry; say (added_contact username)

  unfoldable pub add_contact : Text → Client Unit
  add_contact username =
      if is_empty username
      then say usage_add
      else lookup_public_key o http_base_url username >>= add_found username

  module _ (p : Primitives) (plaintext : Codec PlaintextChatMessage)
      (encrypted_codec : Codec EncryptedChatMessage) where
    -- The message once it is decrypted.
    unfoldable pub open_message : Text → EncryptedChatMessage → PlaintextChatMessage → Client Unit
    open_message receiver_name encrypted chat_message =
        if not (chat_message.to == receiver_name) then pure tt else (do
          sender_entry ← find_or_add_sender chat_message.from
          if not (sender_entry.encryption_public_key == encrypted.sender_encryption_public_key)
              then raise sender_key_mismatch
              else say (received chat_message.from chat_message.body))

    unfoldable pub receive_message : Text → Bytes → Text → Bytes → Client Unit
    receive_message receiver_name secret_key public_key bytes = do
      encrypted ← lift (map_err json_failed (Encrypted.from_wire_bytes encrypted_codec bytes))
      chat_message ←
          lift (map_err crypto_failed (decrypt_message p plaintext secret_key public_key encrypted))
      open_message receiver_name encrypted chat_message
