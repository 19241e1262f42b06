-- ===== src/Server/Directory/Keys.antt =====
-- server/src/directory.rs: `register_public_key` and `lookup_public_key`.
pub mod Lookups
use phantasma.Prelude.{
  Text, String, Option, none, some, List, [], ◌∷◌, ok, pure, ◌>>=◌, ◌>>◌, ◌==◌, text_eq,
  if◌then◌else◌,
}
use mathlib.Core.Option
use phantasma.Shared.Registration.{PublicKeyRegistration, PublicKeyEntry}
use phantasma.Server.Sqlite.{PublicKeyRow, Database, Sqlite, Sql, run}
use phantasma.Server.Directory.Schema.{key_columns, missing, unless}

-- `INSERT ... ON CONFLICT(username) DO UPDATE SET ...` on the rows.
unfoldable pub upsert : PublicKeyRow → List PublicKeyRow → List PublicKeyRow
upsert row [] = row ∷ []
upsert row (old ∷ rows) =
    if old.username == row.username
    then record old {
      identity_public_key = row.identity_public_key;
      encryption_public_key = row.encryption_public_key;
      updated_at = row.updated_at;
    }
      ∷ rows
    else old ∷ upsert row rows

-- `SELECT ... WHERE username = ?` with `fetch_optional`: the first row.
unfoldable pub select_key : Text → List PublicKeyRow → Option PublicKeyRow
select_key name [] = none
select_key name (row ∷ rows) = if row.username == name then some row else select_key name rows

abbrev insert_key : PublicKeyRegistration → Text → Sql Unit
insert_key registration now db =
    unless (missing key_columns db.columns)
      (λ d. (
        ok tt,
        record d {
          public_keys =
              upsert
                (record {
                  username = registration.username;
                  identity_public_key = registration.identity_public_key;
                  encryption_public_key = registration.encryption_public_key;
                  updated_at = now;
                })
                d.public_keys;
        },
      ))
      db

abbrev lookup_columns : List String
lookup_columns = "username" ∷ "identity_public_key" ∷ "encryption_public_key" ∷ []

abbrev fetch_key : Text → Text → Sql (Option PublicKeyRow)
fetch_key name now db =
    unless (missing lookup_columns db.columns) (λ d. (ok (select_key name d.public_keys), d)) db

abbrev pub entry_of : PublicKeyRow → PublicKeyEntry
entry_of row = record {
  username = row.username;
  identity_public_key = row.identity_public_key;
  encryption_public_key = row.encryption_public_key;
}

unfoldable pub register_public_key : Sqlite → PublicKeyRegistration → Sql PublicKeyEntry
register_public_key q registration = do
  run q (insert_key registration)
  pure (record {
    username = registration.username;
    identity_public_key = registration.identity_public_key;
    encryption_public_key = registration.encryption_public_key;
  })

unfoldable pub lookup_public_key : Sqlite → Text → Sql (Option PublicKeyEntry)
lookup_public_key q username = do row ← run q (fetch_key username); pure (Option.map entry_of row)
