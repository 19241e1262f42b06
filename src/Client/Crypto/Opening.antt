-- ===== src/Client/Crypto/Opening.antt =====
-- What encryption and decryption of one message do together.
use phantasma.Prelude.{refl, Text, Bytes, ok, length, ◌≡◌, ◌^◌, ◌<◌, arith, nat_eq}
use phantasma.Shared.Codec as Codec
use phantasma.Shared.Codec.{Codec}
use phantasma.Shared.Plaintext as Plaintext
use phantasma.Shared.Plaintext.{PlaintextChatMessage}
use phantasma.Shared.Encrypted.{EncryptedChatMessage}
use phantasma.Client.Crypto.{
  Primitives, IsLawful, decode_fixed_key, decode_nonce, derive_message_key, try_into,
  associated_data, key_derivation_salt, encrypt_message, decrypt_message,
}

module _ (p : Primitives) (laws : IsLawful p) where
  decode_fixed_key-public_key :
      (s : Bytes) (label : _)
      → decode_fixed_key p (p.encode (p.public_key s)) label ≡ ok (p.public_key s)
  unfolding decode_fixed_key try_into
  decode_fixed_key-public_key s label =
      ground (arith, laws.decode-encode (p.public_key s), laws.length-public_key s)

  decode_nonce-encode : (n : Bytes) → length n ≡ 24 → decode_nonce p (p.encode n) ≡ ok n
  unfolding decode_nonce try_into
  decode_nonce-encode n e = ground (arith, laws.decode-encode n)

  module _ (json : Codec PlaintextChatMessage) (codec : Codec.IsLawful json) where
    -- With the key pairs of two users and a nonce of 24 bytes, a message whose serialised form is
    -- below 2 ^ 32 bytes can be encrypted. What the sender makes of it names the sender's public
    -- key, and the recipient decrypts it to the sender, the recipient and the body that were given.
    pub decrypt_message-encrypt_message :
        (a b nonce wire : Bytes) (sender recipient body : Text)
        → length nonce ≡ 24
        → json.to_vec (Plaintext.new sender recipient body) ≡ ok wire
        → length wire < 2 ^ 32
        → (e : EncryptedChatMessage) × (encrypt_message p json nonce sender recipient body a
              (p.encode (p.public_key a))
              (p.encode (p.public_key b))
            ≡ ok e)
          × (decrypt_message p json b (p.encode (p.public_key b)) e
              ≡ ok (Plaintext.new sender recipient body))
          × (e.sender_encryption_public_key ≡ p.encode (p.public_key a))
    unfolding encrypt_message decrypt_message derive_message_key Plaintext.to_wire_bytes
        Plaintext.from_wire_bytes
    decrypt_message-encrypt_message a b nonce wire sender recipient body n w small =
        let sa = p.public_key a in
        let sb = p.public_key b in
        let aad = associated_data sa sb in
        let (key, k) = laws.expand_total key_derivation_salt (p.diffie_hellman a sb) aad in
        let (c, e) = laws.encrypt_total key nonce wire aad small in
        let ka = decode_fixed_key-public_key a "sender public key" in
        let kb = decode_fixed_key-public_key b "recipient public key" in
        (
          record {
            version = 1;
            sender_encryption_public_key = p.encode sa;
            nonce = p.encode nonce;
            ciphertext = p.encode c;
          },
          ground (arith, ka, kb, k, e, w),
          ground (
            arith,
            ka,
            kb,
            k,
            decode_nonce-encode nonce n,
            laws.agreement a b,
            laws.decode-encode c,
            laws.decrypt-encrypt key nonce wire aad c e,
            codec.round_trip (Plaintext.new sender recipient body) wire w,
          ),
          refl,
        )
