-- ===== src/Client/Messages/Received.antt =====
-- Which messages the client shows.
use phantasma.Prelude.{
  Text, Bytes, ok, some, ◌≡◌, ◌≢◌, ◌^◌, ◌<◌, ◌++◌, ◌∷◌, [], length, arith, text_eq,
}
use phantasma.Prelude.Dict
use phantasma.Shared.Codec as Codec
use phantasma.Shared.Codec.{Codec}
use phantasma.Shared.Plaintext as Plaintext
use phantasma.Shared.Plaintext.{PlaintextChatMessage}
use phantasma.Shared.Encrypted as Encrypted
use phantasma.Shared.Encrypted.{EncryptedChatMessage}
use phantasma.Shared.Registration.{PublicKeyEntry}
use phantasma.Client.Crypto.{Primitives, IsLawful, encrypt_message, decrypt_message}
use phantasma.Client.Crypto.Opening.{decrypt_message-encrypt_message}
use phantasma.Client.Directory.{Outside, ClientState, received}
use phantasma.Client.Messages.{find_or_add_sender, open_message, receive_message}

module _ (o : Outside) (http_base_url : Text) (p : Primitives)
    (plaintext : Codec PlaintextChatMessage) (encrypted_codec : Codec EncryptedChatMessage) where
  -- Whoever sends it: a message that reads and decrypts, and claims to come from a saved contact
  -- under another key than the saved one, is not shown and changes nothing.
  pub receive_message-impostor :
      (receiver_name : Text) (secret_key : Bytes) (public_key : Text) (bytes : Bytes)
      (e : EncryptedChatMessage) (m : PlaintextChatMessage) (entry : PublicKeyEntry)
      (s : ClientState)
      → Encrypted.from_wire_bytes encrypted_codec bytes ≡ ok e
      → decrypt_message p plaintext secret_key public_key e ≡ ok m
      → Dict.get m.from s.book.contacts ≡ some entry
      → entry.encryption_public_key ≢ e.sender_encryption_public_key
      → (receive_message o http_base_url p plaintext encrypted_codec receiver_name secret_key
          public_key bytes s).1
        ≡ s
  unfolding receive_message open_message find_or_add_sender
  receive_message-impostor receiver_name secret_key public_key bytes e m entry s reads opens known
        ne =
      ground arith

  -- From one user to the other. With the key pairs of two users and a nonce of 24 bytes, a message
  -- whose serialised form is below 2 ^ 32 bytes can be encrypted, and its wire form, received by a
  -- recipient who has saved the sender's key, is shown with the sender's name and its body, while
  -- nothing else changes.
  pub receive_message-encrypt_message :
      IsLawful p
      → Codec.IsLawful plaintext
      → Codec.IsLawful encrypted_codec
      → (a b nonce wire : Bytes) (sender recipient body : Text) (entry : PublicKeyEntry)
        (s : ClientState)
      → length nonce ≡ 24
      → plaintext.to_vec (Plaintext.new sender recipient body) ≡ ok wire
      → length wire < 2 ^ 32
      → Dict.get sender s.book.contacts ≡ some entry
      → entry.encryption_public_key ≡ p.encode (p.public_key a)
      → (e : EncryptedChatMessage) × (bytes : Bytes) × (encrypt_message p plaintext nonce sender
            recipient body a
            (p.encode (p.public_key a))
            (p.encode (p.public_key b))
          ≡ ok e)
        × (Encrypted.to_wire_bytes encrypted_codec e ≡ ok bytes)
        × (receive_message o http_base_url p plaintext encrypted_codec recipient b
              (p.encode (p.public_key b))
              bytes
              s
            ≡ (ok tt, record s { output = s.output ++ received sender body ∷ [] }))
  unfolding receive_message open_message find_or_add_sender Encrypted.to_wire_bytes
      Encrypted.from_wire_bytes
  receive_message-encrypt_message laws pl el a b nonce wire sender recipient body entry s n w small
        known key =
      let (e, enc, dec, names) =
        decrypt_message-encrypt_message p laws plaintext pl a b nonce wire sender recipient body n w
          small in
      let (bytes, to) = el.total e in
      (e, bytes, enc, to, ground (arith, dec, names, el.round_trip e bytes to))
