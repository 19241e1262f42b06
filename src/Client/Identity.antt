-- ===== src/Client/Identity.antt =====
-- client/src/identity.rs: the identity file of a user, made at the first run and read at each
-- later one. `serde_json` at the types of the file is a parameter.
pub mod Stored
pub mod Reload
pub mod Kept
use phantasma.Prelude.{
  ℕ, Text, Bytes, Bool, true, false, not, Result, ok, err, Exec, pure, raise, map_err, ◌>>=◌, ◌>>◌,
  ◌++◌, if◌then◌else◌,
}
use phantasma.Prelude.Utf8.{text}
use phantasma.Shared.Codec.{JsonError}
use phantasma.Shared.Validation.{is_valid_username}
use phantasma.Client.Crypto.{Primitives}
use phantasma.Client.Files as Files
use phantasma.Client.Files.{Machine, FileSystem, Io}
use phantasma.Client.Keys.{
  StoredIdentity, LegacyStoredIdentity, IdentityError, invalid_username, io, json, Ed25519,
  decode_key, validate_stored_identity, upgraded, generated,
}

pub record Identity : Type 0 where
  pub identity_public_key : Text
  pub encryption_public_key : Text
  pub encryption_secret_key : Bytes
  pub path : Text
  pub was_created : Bool

-- `serde_json` with its values `V`; `has_identity_public_key` is whether a value has that key.
pub record IdentityJson (V : Type 0) : Type 0 where
  pub from_str : Text → Result JsonError V
  pub has_identity_public_key : V → Bool
  pub stored_from_value : V → Result JsonError StoredIdentity
  pub legacy_from_value : V → Result JsonError LegacyStoredIdentity
  pub to_string_pretty : StoredIdentity → Result JsonError Text

abbrev pub Keyring : Type 0 → Type 0
Keyring A = Exec FileSystem IdentityError A

abbrev lift : {A : Type 0} → Result IdentityError A → Keyring A
lift r s = (r, s)

abbrev on_files : {A : Type 0} → Io A → Keyring A
on_files m s = let (r, s') = m s in (map_err io r, s')

-- What depends on the machine, the crates and the format of the file.
pub record Setting (V : Type 0) : Type 0 where
  pub machine : Machine
  pub primitives : Primitives
  pub ed25519 : Ed25519
  pub format : IdentityJson V

module _ {V : Type 0} (c : Setting V) where
  unfoldable pub upgrade_legacy_identity : Text → V → Keyring StoredIdentity
  upgrade_legacy_identity path value = do
    legacy ← lift (map_err json (c.format.legacy_from_value value))
    stored ←
        λ s. (upgraded c.primitives c.ed25519 (c.ed25519.encryption_secret s.operations) legacy, s)
    written ← lift (map_err json (c.format.to_string_pretty stored))
    on_files (Files.write c.machine path written)
    pure stored

  unfoldable pub load_identity_file : Text → Keyring StoredIdentity
  load_identity_file path = do
    contents ← on_files (Files.read_to_string c.machine path)
    value ← lift (map_err json (c.format.from_str contents))
    stored ←
        if c.format.has_identity_public_key value
        then lift (map_err json (c.format.stored_from_value value))
        else upgrade_legacy_identity path value
    lift (validate_stored_identity c.primitives c.ed25519 stored)
    pure stored

  unfoldable pub load_identity : Text → Keyring Identity
  load_identity path = do
    stored ← load_identity_file path
    encryption_secret_key ←
        lift
          (decode_key c.primitives c.ed25519 stored.encryption_secret_key "encryption secret key")
    pure (record {
      identity_public_key = stored.identity_public_key;
      encryption_public_key = stored.encryption_public_key;
      encryption_secret_key = encryption_secret_key;
      path = path;
      was_created = false;
    })

  unfoldable pub write_identity : Text → Bytes → Bytes → Keyring Identity
  write_identity path signing_key encryption_secret = do
    let stored = generated c.primitives c.ed25519 signing_key encryption_secret
    written ← lift (map_err json (c.format.to_string_pretty stored))
    on_files (Files.write_secret_file c.machine path written)
    pure (record {
      identity_public_key = stored.identity_public_key;
      encryption_public_key = stored.encryption_public_key;
      encryption_secret_key = encryption_secret;
      path = path;
      was_created = true;
    })

  unfoldable pub create_identity : Text → Text → Keyring Identity
  create_identity identity_dir path = do
    on_files (Files.create_dir_all c.machine identity_dir)
    λ s.
        write_identity path (c.ed25519.signing_key s.operations)
          (c.ed25519.encryption_secret s.operations) s

  abbrev pub identity_path : Text → Text → Text
  identity_path username root =
      c.machine.join (c.machine.join root (text "identities")) (username ++ text ".json")

  abbrev exists : Text → Keyring Bool
  exists path s = let (found, s') = Files.exists c.machine path s in (ok found, s')

  unfoldable pub load_or_create_in : Text → Text → Keyring Identity
  load_or_create_in username root =
      if not (is_valid_username username) then raise invalid_username else (do
        found ← exists (identity_path username root)
        if found
            then load_identity (identity_path username root)
            else create_identity (c.machine.join root (text "identities"))
                (identity_path username root))
