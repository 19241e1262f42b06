-- ===== src/Client/Keys.antt =====
-- client/src/identity.rs: the keys in an identity file. The crates for Ed25519, X25519 and base64
-- are parameters.
use phantasma.Prelude.{
  ℕ, Text, Bytes, String, Bool, true, not, Result, ok, err, ◌==◌, nat_eq, text_eq, length,
  if◌then◌else◌, ◌≡◌,
}
use phantasma.Prelude.Fallible.{◌>>=◌, ok_or}
use phantasma.Shared.Codec.{JsonError}
use phantasma.Client.Crypto.{Primitives}
use phantasma.Client.Files.{IoError}

pub record StoredIdentity : Type 0 where
  pub identity_public_key : Text
  pub identity_secret_key : Text
  pub encryption_public_key : Text
  pub encryption_secret_key : Text

pub record LegacyStoredIdentity : Type 0 where
  pub public_key : Text
  pub secret_key : Text

-- An `anyhow::Error` of the module.
pub data IdentityError : Type 0 where
  invalid_username : IdentityError
  io : IoError → IdentityError
  json : JsonError → IdentityError
  not_base64url wrong_length : String → IdentityError
  invalid_identity_public_key identity_key_mismatch encryption_key_mismatch : IdentityError

-- Ed25519, and the random generator. A `VerifyingKey` is its 32 bytes, and can be read from bytes
-- if these are a point; `signing_key` and `encryption_secret` are what is drawn at a moment.
pub record Ed25519 : Type 0 where
  pub verifying_key : Bytes → Bytes
  pub is_point : Bytes → Bool
  pub signing_key : ℕ → Bytes
  pub encryption_secret : ℕ → Bytes

-- What the crates document: a key has 32 bytes, and the public key of a secret is a point.
pub record IsLawful (e : Ed25519) : Type 0 where
  pub verifying_key_is_point : (s : Bytes) → e.is_point (e.verifying_key s) ≡ true
  pub length-verifying_key : (s : Bytes) → length (e.verifying_key s) ≡ 32
  pub length-signing_key : (n : ℕ) → length (e.signing_key n) ≡ 32
  pub length-encryption_secret : (n : ℕ) → length (e.encryption_secret n) ≡ 32

module _ (p : Primitives) (e : Ed25519) where
  unfoldable pub decode_key : Text → String → Result IdentityError Bytes
  decode_key encoded label = do
    bytes ← ok_or (not_base64url label) (p.decode encoded)
    if length bytes == 32 then ok bytes else err (wrong_length label)

  -- The test that `validate_stored_identity` and `upgrade_legacy_identity` make.
  unfoldable pub check_identity_keys : Bytes → Bytes → Result IdentityError (Unit {0})
  check_identity_keys secret_key public_key =
      if not (e.is_point public_key)
      then err invalid_identity_public_key
      else if not (e.verifying_key secret_key == public_key)
      then err identity_key_mismatch
      else ok tt

  unfoldable pub validate_stored_identity : StoredIdentity → Result IdentityError (Unit {0})
  validate_stored_identity stored = do
    secret_key ← decode_key stored.identity_secret_key "identity secret key"
    public_key ← decode_key stored.identity_public_key "identity public key"
    checked ← check_identity_keys secret_key public_key
    encryption_secret_key ← decode_key stored.encryption_secret_key "encryption secret key"
    encryption_public_key ← decode_key stored.encryption_public_key "encryption public key"
    if not (p.public_key encryption_secret_key == encryption_public_key)
        then err encryption_key_mismatch
        else ok tt

  -- What `upgrade_legacy_identity` makes of an older file with a new X25519 secret.
  unfoldable pub upgraded : Bytes → LegacyStoredIdentity → Result IdentityError StoredIdentity
  upgraded encryption_secret legacy = do
    secret_key ← decode_key legacy.secret_key "identity secret key"
    public_key ← decode_key legacy.public_key "identity public key"
    checked ← check_identity_keys secret_key public_key
    ok (record {
      identity_public_key = legacy.public_key;
      identity_secret_key = legacy.secret_key;
      encryption_public_key = p.encode (p.public_key encryption_secret);
      encryption_secret_key = p.encode encryption_secret;
    })

  -- A new identity from the two secrets.
  unfoldable pub generated : Bytes → Bytes → StoredIdentity
  generated signing_key encryption_secret = record {
    identity_public_key = p.encode (e.verifying_key signing_key);
    identity_secret_key = p.encode signing_key;
    encryption_public_key = p.encode (p.public_key encryption_secret);
    encryption_secret_key = p.encode encryption_secret;
  }
