-- ===== src/Server/Http/Vetting.antt =====
-- Nothing enters the key table without passing the tests of shared/src/lib.rs.
use phantasma.Prelude.{◌≡◌, true, List, [], ◌∷◌, arith, All, string_eq, text_eq}
use phantasma.Shared.Registration.{PublicKeyRegistration}
use phantasma.Shared.Validation.{
  is_valid_username, is_valid_ed25519_public_key_text, is_valid_x25519_public_key_text,
}
use phantasma.Server.Sqlite.{PublicKeyRow, Sqlite, Database, run}
use phantasma.Server.Directory.Keys as Keys
use phantasma.Server.Directory.Keys.{upsert}
use phantasma.Server.Http.Directory.{IsValid}

pub record IsVetted (row : PublicKeyRow) : Type 0 where
  pub username : is_valid_username row.username ≡ true
  pub identity : is_valid_ed25519_public_key_text row.identity_public_key ≡ true
  pub encryption : is_valid_x25519_public_key_text row.encryption_public_key ≡ true

upsert-IsVetted :
    (row : PublicKeyRow) (rows : List PublicKeyRow)
    → IsVetted row
    → All IsVetted rows
    → All IsVetted (upsert row rows)
unfolding upsert
upsert-IsVetted row [] v h = (v, tt)
upsert-IsVetted row (old ∷ rows) v (o, h) = ground (arith, upsert-IsVetted row rows v h)

pub stored-IsVetted :
    (q : Sqlite) (r : PublicKeyRegistration) (db : Database)
    → IsValid r
    → All IsVetted db.public_keys
    → All IsVetted (Keys.register_public_key q r db).1.public_keys
unfolding Keys.register_public_key run
stored-IsVetted q r db v h = ground (
  arith,
  upsert-IsVetted row db.public_keys
      (record { username = v.username; identity = v.identity; encryption = v.encryption }) h,
)
  where
    row : PublicKeyRow
    row = record {
      username = r.username;
      identity_public_key = r.identity_public_key;
      encryption_public_key = r.encryption_public_key;
      updated_at = q.now db.statements;
    }
