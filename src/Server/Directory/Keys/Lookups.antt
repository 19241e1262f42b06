-- ===== src/Server/Directory/Keys/Lookups.antt =====
-- Registration and lookup together: the key directory is a map from names to keys.
use phantasma.Prelude.{
  suc, ◌≡◌, ◌≢◌, ◌⊎◌, inl, inr, Option-cases, Text, Option, none, some, List, [], ◌∷◌, arith, ok,
  err, ◌==◌, text_eq, if◌then◌else◌, all,
}
use mathlib.Core.Option
use phantasma.Shared.Registration.{PublicKeyRegistration, PublicKeyEntry}
use phantasma.Server.Sqlite.{SqlxError, PublicKeyRow, Database, Sqlite, run}
use phantasma.Server.Directory.Schema.Preparation.{IsReady}
use phantasma.Server.Directory.Keys.{
  upsert, select_key, entry_of, register_public_key, lookup_public_key,
}

-- The keys that the table holds for a name.
abbrev pub stored_entry : Text → Database → Option PublicKeyEntry
stored_entry name db = Option.map entry_of (select_key name db.public_keys)

abbrev pub registered : PublicKeyRegistration → PublicKeyEntry
registered r = record {
  username = r.username;
  identity_public_key = r.identity_public_key;
  encryption_public_key = r.encryption_public_key;
}

select_key-upsert :
    (name : Text) (row : PublicKeyRow) (rows : List PublicKeyRow)
    → Option.map entry_of (select_key name (upsert row rows)) ≡ (
        if row.username == name
        then some (entry_of row)
        else Option.map entry_of (select_key name rows))
unfolding select_key upsert
select_key-upsert name row [] = ground arith
select_key-upsert name row (old ∷ rows) = ground (arith, select_key-upsert name row rows)

abbrev row_of : PublicKeyRegistration → Text → PublicKeyRow
row_of r now = record {
  username = r.username;
  identity_public_key = r.identity_public_key;
  encryption_public_key = r.encryption_public_key;
  updated_at = now;
}

-- A registration on ready tables either fails and changes no table, or answers with the keys that
-- it stores: then the name has these keys, and every other name has what it had.
pub register_public_key-stores :
    (q : Sqlite) (r : PublicKeyRegistration) (db : Database)
    → IsReady db
    → let (answer, db') = register_public_key q r db in
      IsReady db'
      × (db'.queued_messages ≡ db.queued_messages)
      × (((answer ≡ ok (registered r))
            × ((name : Text)
                → stored_entry name db'
                  ≡ (if r.username == name then some (registered r) else stored_entry name db)))
          ⊎ ((e : SqlxError) × (answer ≡ err e) × (db'.public_keys ≡ db.public_keys)))
unfolding register_public_key run
register_public_key-stores q r db h = elim (Option-cases (q.fault db.statements)) [
  | inl e ↦ (
    ground arith,
    ground arith,
    inl (
      ground arith,
      λ name.
          ground (arith, select_key-upsert name (row_of r (q.now db.statements)) db.public_keys),
    ),
  )
  | inr (f, e) ↦ (ground arith, ground arith, inr (f, ground arith, ground arith))
]

-- A lookup changes no table. It answers with the stored keys, unless its statement fails.
pub lookup_public_key-answer :
    (q : Sqlite) (name : Text) (db : Database)
    → IsReady db
    → let (answer, db') = lookup_public_key q name db in
      (db' ≡ record db { statements = suc db.statements })
      × (answer
          ≡ elim (q.fault db.statements) [ some e ↦ err e | none ↦ ok (stored_entry name db) ])
unfolding lookup_public_key run all
lookup_public_key-answer q name db h = ground arith

-- `username` is the primary key: no two rows share it.
abbrev pub UniqueNames : List PublicKeyRow → Type 0
UniqueNames [] = Unit
UniqueNames (row ∷ rows) = (select_key row.username rows ≡ none) × UniqueNames rows

select_key-upsert_ne :
    (name : Text) (row : PublicKeyRow) (rows : List PublicKeyRow)
    → row.username ≢ name
    → select_key name rows ≡ none
    → select_key name (upsert row rows) ≡ none
unfolding select_key upsert
select_key-upsert_ne name row [] ne h = ground arith
select_key-upsert_ne name row (old ∷ rows) ne h = ground (arith, select_key-upsert_ne name row rows)

upsert-UniqueNames :
    (row : PublicKeyRow) (rows : List PublicKeyRow)
    → UniqueNames rows
    → UniqueNames (upsert row rows)
unfolding upsert select_key
upsert-UniqueNames row [] h = ground arith
upsert-UniqueNames row (old ∷ rows) h =
    ground (arith, upsert-UniqueNames row rows, select_key-upsert_ne old.username row rows)

-- No registration, failing or not, makes two rows of one name.
pub register_public_key-UniqueNames :
    (q : Sqlite) (r : PublicKeyRegistration) (db : Database)
    → UniqueNames db.public_keys
    → UniqueNames (register_public_key q r db).1.public_keys
unfolding register_public_key run
register_public_key-UniqueNames q r db h =
    ground (arith, upsert-UniqueNames (row_of r (q.now db.statements)) db.public_keys)
