-- ===== src/Server/Directory/Schema.antt =====
-- server/src/directory.rs: `prepare_database` and the columns that the statements need.
pub mod Preparation
use phantasma.Prelude.{
  Text, String, Bool, true, false, ◌||◌, not, Option, none, some, List, [], ◌∷◌, ◌++◌, map, ok, err,
  pure, raise, ◌>>=◌, ◌>>◌, ◌==◌, string_eq, if◌then◌else◌, all,
}
use phantasma.Server.Sqlite.{
  SqlxError, no_such_table, no_such_column, PublicKeyRow, Database, Sqlite, Sql, run,
}

-- `columns.iter().any(|row| row.get("name") == column_name)`
unfoldable pub contains : String → List String → Bool
contains name [] = false
contains name (c ∷ cs) = c == name || contains name cs

abbrev pub key_columns : List String
key_columns = "username" ∷ "identity_public_key" ∷ "encryption_public_key" ∷ "updated_at" ∷ []

-- A statement that names columns of `public_keys` fails where the table lacks one of them.
abbrev pub missing : List String → Option (List String) → Option SqlxError
missing needed none = some no_such_table
missing needed (some cs) =
    if all (λ name. contains name cs) needed then none else some no_such_column

abbrev pub unless : {A : Type 0} → Option SqlxError → Sql A → Sql A
unless none m = m
unless (some e) m = raise e

-- `CREATE TABLE IF NOT EXISTS public_keys (...)`
abbrev create_public_keys : Text → Sql Unit
create_public_keys now db = elim db.columns [
  | some cs ↦ (ok tt, db)
  | none ↦ (ok tt, record db { columns = some key_columns; public_keys = [] })
]

-- `PRAGMA table_info(public_keys)`: no row for a table that is not there.
abbrev table_info : Text → Sql (List String)
table_info now db = elim db.columns [ some cs ↦ (ok cs, db) | none ↦ (ok [], db) ]

abbrev set_column : String → Text → PublicKeyRow → PublicKeyRow
set_column name default row =
    if name == "identity_public_key"
    then record row { identity_public_key = default }
    else if name == "encryption_public_key"
    then record row { encryption_public_key = default }
    else row

-- `ALTER TABLE public_keys ADD COLUMN {column_name} {column_definition}`: every row gets the
-- default in the new column.
abbrev add_column : String → Text → Text → Sql Unit
add_column name default now db = elim db.columns [
  | none ↦ (err no_such_table, db)
  | some cs ↦ (
    ok tt,
    record db {
      columns = some (cs ++ name ∷ []);
      public_keys = map (set_column name default) db.public_keys;
    },
  )
]

-- `CREATE TABLE IF NOT EXISTS queued_messages (...)`
abbrev create_queued_messages : Text → Sql Unit
create_queued_messages now db = (ok tt, record db { has_queue = true })

-- `CREATE INDEX IF NOT EXISTS queued_messages_recipient_id ...`
abbrev create_index : Text → Sql Unit
create_index now db =
    if db.has_queue then (ok tt, record db { has_index = true }) else (err no_such_table, db)

unfoldable pub add_column_if_missing : Sqlite → String → Text → Sql Unit
add_column_if_missing q column_name default = do
  columns ← run q table_info
  if contains column_name columns then pure tt else run q (add_column column_name default)

unfoldable pub prepare_database : Sqlite → Sql Unit
unfolding add_column_if_missing
prepare_database q = do
  run q create_public_keys
  add_column_if_missing q "identity_public_key" []
  add_column_if_missing q "encryption_public_key" []
  run q create_queued_messages
  run q create_index
  pure tt
