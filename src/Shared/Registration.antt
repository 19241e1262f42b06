-- ===== src/Shared/Registration.antt =====
-- shared/src/lib.rs: `PublicKeyRegistration` and `PublicKeyEntry`.
use phantasma.Prelude.{Text}

pub record PublicKeyRegistration : Type 0 where
  pub username : Text
  pub identity_public_key : Text
  pub encryption_public_key : Text

abbrev pub new : Text → Text → Text → PublicKeyRegistration
new username identity_public_key encryption_public_key = record {
  username = username;
  identity_public_key = identity_public_key;
  encryption_public_key = encryption_public_key;
}

pub record PublicKeyEntry : Type 0 where
  pub username : Text
  pub identity_public_key : Text
  pub encryption_public_key : Text
