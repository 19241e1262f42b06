-- ===== src/Client/Crypto.antt =====
-- client/src/crypto.rs: the end-to-end encryption of a message. The crates for base64, X25519,
-- HKDF and XChaCha20-Poly1305 are a parameter, `Primitives`; the random nonce is an argument.
pub mod Opening
use phantasma.Prelude.{
  ℕ, Text, Bytes, String, Option, Result, ok, err, map_err, length, nat_eq, ◌++◌, ◌==◌, not,
  if◌then◌else◌, ◌≡◌, some, ◌^◌, ◌<◌,
}
use phantasma.Prelude.Utf8.{text}
use phantasma.Prelude.Fallible.{◌>>=◌, ok_or}
use phantasma.Shared.Codec.{Codec, JsonError}
use phantasma.Shared.Plaintext as Plaintext
use phantasma.Shared.Plaintext.{PlaintextChatMessage}
use phantasma.Shared.Encrypted.{EncryptedChatMessage}

-- What the crates compute. `expand` is HKDF-SHA256 from a salt and a shared secret with the given
-- info, `encrypt` and `decrypt` take the key, the nonce, the message and the associated data.
pub record Primitives : Type 0 where
  pub encode : Bytes → Text
  pub decode : Text → Option Bytes
  pub public_key : Bytes → Bytes
  pub diffie_hellman : Bytes → Bytes → Bytes
  pub expand : Bytes → Bytes → Bytes → Option Bytes
  pub encrypt : Bytes → Bytes → Bytes → Bytes → Option Bytes
  pub decrypt : Bytes → Bytes → Bytes → Bytes → Option Bytes

-- What the crates document: the decoder inverts the encoder, a public key has 32 bytes, both
-- sides of a key agreement come to one secret, 32 bytes of key can always be derived, a message
-- below the cipher's limit can be encrypted, and a ciphertext opens to the message it was made from
-- under the same key, nonce and associated data.
pub record IsLawful (p : Primitives) : Type 0 where
  pub decode-encode : (b : Bytes) → p.decode (p.encode b) ≡ some b
  pub length-public_key : (s : Bytes) → length (p.public_key s) ≡ 32
  pub agreement :
      (s r : Bytes) → p.diffie_hellman s (p.public_key r) ≡ p.diffie_hellman r (p.public_key s)
  pub expand_total :
      (salt secret info : Bytes) → (key : Bytes) × (p.expand salt secret info ≡ some key)
  pub encrypt_total :
      (key nonce msg aad : Bytes)
      → length msg < 2 ^ 32
      → (ciphertext : Bytes) × (p.encrypt key nonce msg aad ≡ some ciphertext)
  pub decrypt-encrypt :
      (key nonce msg aad ciphertext : Bytes)
      → p.encrypt key nonce msg aad ≡ some ciphertext
      → p.decrypt key nonce ciphertext aad ≡ some msg

pub data CryptoError : Type 0 where
  not_base64url : String → CryptoError
  wrong_length : String → CryptoError
  key_derivation_failed encryption_failed decryption_failed unsupported_version : CryptoError
  json_failed : JsonError → CryptoError

abbrev pub message_version : ℕ
message_version = 1

abbrev pub nonce_len : ℕ
nonce_len = 24

abbrev pub key_derivation_salt : Bytes
key_derivation_salt = text "phantasma x25519 xchacha20poly1305 v1"

unfoldable pub associated_data : Bytes → Bytes → Bytes
associated_data sender_public_key recipient_public_key =
    text "phantasma:v1:" ++ (sender_public_key ++ recipient_public_key)

-- `try_into` an array of that many bytes.
unfoldable pub try_into : String → ℕ → Bytes → Result CryptoError Bytes
try_into label n bytes = if length bytes == n then ok bytes else err (wrong_length label)

module _ (p : Primitives) where
  unfoldable pub decode_fixed_key : Text → String → Result CryptoError Bytes
  decode_fixed_key encoded label = do
    bytes ← ok_or (not_base64url label) (p.decode encoded)
    try_into label 32 bytes

  unfoldable pub decode_nonce : Text → Result CryptoError Bytes
  decode_nonce encoded = do
    bytes ← ok_or (not_base64url "nonce") (p.decode encoded)
    try_into "nonce" nonce_len bytes

  unfoldable pub derive_message_key : Bytes → Bytes → Bytes → Result CryptoError Bytes
  derive_message_key shared_secret sender_public_key recipient_public_key =
      ok_or key_derivation_failed (
        p.expand key_derivation_salt shared_secret
          (associated_data sender_public_key recipient_public_key))

  module _ (json : Codec PlaintextChatMessage) where
    unfoldable pub encrypt_message :
        Bytes → Text → Text → Text → Bytes → Text → Text → Result CryptoError EncryptedChatMessage
    encrypt_message nonce sender recipient body sender_secret_key sender_public_key
          recipient_public_key =
        do
          sender_key ← decode_fixed_key sender_public_key "sender public key"
          recipient_key ← decode_fixed_key recipient_public_key "recipient public key"
          message_key ←
              derive_message_key (p.diffie_hellman sender_secret_key recipient_key) sender_key
                recipient_key
          plaintext ←
              map_err json_failed
                (Plaintext.to_wire_bytes json (Plaintext.new sender recipient body))
          ciphertext ←
              ok_or encryption_failed
                (p.encrypt message_key nonce plaintext (associated_data sender_key recipient_key))
          ok (record {
            version = message_version;
            sender_encryption_public_key = sender_public_key;
            nonce = p.encode nonce;
            ciphertext = p.encode ciphertext;
          })

    unfoldable pub decrypt_message :
        Bytes → Text → EncryptedChatMessage → Result CryptoError PlaintextChatMessage
    decrypt_message recipient_secret_key recipient_public_key encrypted =
        if not (encrypted.version == message_version) then err unsupported_version else (do
          sender_key ← decode_fixed_key encrypted.sender_encryption_public_key "sender public key"
          recipient_key ← decode_fixed_key recipient_public_key "recipient public key"
          nonce ← decode_nonce encrypted.nonce
          ciphertext ← ok_or (not_base64url "ciphertext") (p.decode encrypted.ciphertext)
          message_key ←
              derive_message_key (p.diffie_hellman recipient_secret_key sender_key) sender_key
                recipient_key
          plaintext ←
              ok_or decryption_failed
                (p.decrypt message_key nonce ciphertext (associated_data sender_key recipient_key))
          map_err json_failed (Plaintext.from_wire_bytes json plaintext))
