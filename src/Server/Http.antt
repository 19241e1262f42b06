-- ===== src/Server/Http.antt =====
-- server/src/main.rs: the handlers of the HTTP routes. A body or path that axum does not accept
-- never reaches them.
pub mod Directory
pub mod Vetting
pub mod Refusals
use phantasma.Prelude.{
  Text, String, Bool, not, Option, none, some, Result, ok, err, Exec, continue, pure, ◌>>=◌, ◌>>◌,
  if◌then◌else◌,
}
use phantasma.Shared.Registration.{PublicKeyRegistration, PublicKeyEntry}
use phantasma.Shared.Validation.{
  is_valid_username, is_valid_ed25519_public_key_text, is_valid_x25519_public_key_text,
}
use phantasma.Server.Sqlite.{SqlxError, Sql}
use phantasma.Server.Directory.Keys as Keys
use phantasma.Server.State.{AppState, Environment, directory_failed, print, on_directory}

pub data StatusCode : Type 0 where
  created bad_request not_found internal_server_error : StatusCode

-- `(StatusCode, String)`
pub record HttpError : Type 0 where
  pub status : StatusCode
  pub message : String

abbrev pub Http : Type 0 → Type 0
Http A = Exec AppState HttpError A

abbrev pub bad_username : HttpError
bad_username = record {
  status = bad_request;
  message = "username must use only letters, numbers, '.', '-', or '_'";
}

abbrev pub bad_identity_key : HttpError
bad_identity_key = record {
  status = bad_request;
  message = "public key must be a base64url Ed25519 public key";
}

abbrev pub bad_encryption_key : HttpError
bad_encryption_key = record {
  status = bad_request;
  message = "encryption public key must be a base64url X25519 public key";
}

abbrev pub no_such_key : HttpError
no_such_key = record { status = not_found; message = "public key not found" }

abbrev pub directory_error : HttpError
directory_error = record { status = internal_server_error; message = "directory database error" }

unfoldable pub validate_registration : PublicKeyRegistration → Result HttpError (Unit {0})
validate_registration r =
    if not (is_valid_username r.username)
    then err bad_username
    else if not (is_valid_ed25519_public_key_text r.identity_public_key)
    then err bad_identity_key
    else if not (is_valid_x25519_public_key_text r.encryption_public_key)
    then err bad_encryption_key
    else ok tt

-- `internal_error` logs the database's error and hides it from the answer.
unfoldable pub internal_error : {A : Type 0} → SqlxError → Http A
internal_error e s = (err directory_error, print (directory_failed e) s)

-- `.await.map_err(internal_error)?`
abbrev query : {A : Type 0} → Sql A → Http A
query m s =
    let (r, s') = on_directory (λ e. e) m s in
    elim r [ ok a ↦ (ok a, s') | err e ↦ internal_error e s' ]

unfoldable pub register_public_key :
    Environment → PublicKeyRegistration → Http (StatusCode × PublicKeyEntry)
register_public_key env registration = do
  λ s. (validate_registration registration, s)
  entry ← query (Keys.register_public_key env.sqlite registration)
  pure (created, entry)

abbrev found_or_404 : Option PublicKeyEntry → Http PublicKeyEntry
found_or_404 none s = (err no_such_key, s)
found_or_404 (some entry) s = (ok entry, s)

unfoldable pub lookup_public_key : Environment → Text → Http PublicKeyEntry
lookup_public_key env username =
    if not (is_valid_username username)
    then (λ s. (err bad_username, s))
    else (do entry ← query (Keys.lookup_public_key env.sqlite username); found_or_404 entry)

-- The name for which the socket is upgraded.
unfoldable pub websocket_handler : Text → Result HttpError Text
websocket_handler username =
    if not (is_valid_username username) then err bad_username else ok username
