-- ===== src/Tests/Http.antt =====
-- The HTTP handlers and the preview of the log at concrete data.
use phantasma.Prelude.{
  ◌≡◌, ◌⊎◌, refl, arith, Text, none, some, [], ok, err, all, nat_eq, text_eq, string_eq, ◌==◌,
  if◌then◌else◌,
}
use phantasma.Prelude.Utf8.{len, len_utf8, is_ascii_alphanumeric}
use phantasma.Shared.Registration.{PublicKeyRegistration}
use phantasma.Shared.Validation.{
  is_valid_username, is_valid_ed25519_public_key_text, is_valid_x25519_public_key_text,
  is_username_char, is_base64url_char,
}
use phantasma.Server.Directory.Keys.Lookups.{registered, stored_entry}
use phantasma.Server.Directory.Queue.{}
use phantasma.Server.Http.{register_public_key, lookup_public_key, created, directory_error}
use phantasma.Server.Http.Directory.{IsValid, served, register_public_key-lookup_public_key}
use phantasma.Server.Http.Refusals.{
  IsName, IsKeyText, TellsField, IsLookupAnswer, register_public_key-rejects,
  lookup_public_key-answers,
}
use phantasma.Server.Payload.Routing.{}
use phantasma.Server.Delivery.Accounting.{}
use phantasma.Server.Connection.{}
use phantasma.Server.System.{}
use phantasma.Server.System.StoreForward.{}
use phantasma.Tests.Tables.{alice, bob, tables, tables-IsReady, key_a}
use phantasma.Tests.Relay.{env, online}

abbrev registration : PublicKeyRegistration
registration = record {
  username = alice;
  identity_public_key = key_a;
  encryption_public_key = key_a;
}

registration-IsValid : IsValid registration
unfolding is_valid_username is_valid_ed25519_public_key_text is_valid_x25519_public_key_text len
    len_utf8 all is_username_char is_base64url_char is_ascii_alphanumeric nat_eq
registration-IsValid = record { username = refl; identity = refl; encryption = refl }

register_public_key-lookup_public_key_example :
    let (answer, s') = register_public_key env registration online in
    ((answer ≡ ok (created, registered registration))
      × ((name : Text)
          → (lookup_public_key env name s').0
            ≡ served name (
                if alice == name
                then some (registered registration)
                else stored_entry name tables)))
    ⊎ ((answer ≡ err directory_error) × (s'.directory.public_keys ≡ []))
register_public_key-lookup_public_key_example =
    register_public_key-lookup_public_key env online registration registration-IsValid
      tables-IsReady refl

lookup_public_key-answers_example :
    IsLookupAnswer bob none (stored_entry bob tables) (lookup_public_key env bob online).0
lookup_public_key-answers_example = lookup_public_key-answers env online bob tables-IsReady

abbrev bad_registration : PublicKeyRegistration
bad_registration = record registration { encryption_public_key = [] }

bad_registration-wrong :
    ¬ (IsName alice × IsKeyText key_a × IsKeyText bad_registration.encryption_public_key)
bad_registration-wrong (name, identity, (len, letters)) = omega (arith, len)

register_public_key-rejects_example :
    TellsField online bad_registration (register_public_key env bad_registration online)
register_public_key-rejects_example =
    register_public_key-rejects env online bad_registration bad_registration-wrong
