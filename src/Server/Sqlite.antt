-- ===== src/Server/Sqlite.antt =====
-- The database file that server/src/directory.rs works on, and how one statement is run.
-- SQLite and sqlx are not part of the repository. The statements that the program sends are
-- modelled as functions on the tables; whether the n-th of them is carried out, and what the
-- clock shows then, is the parameter `Sqlite`. A statement that fails changes no table.
use phantasma.Prelude.{
  ℕ, suc, Text, Bytes, Bool, false, String, Option, none, some, List, [], err, Exec,
}

pub data SqlxError : Type 0 where
  no_such_table no_such_column database_full : SqlxError
  driver : String → SqlxError

-- A row of `public_keys`. Where the table lacks a column, its field holds the default text ''.
pub record PublicKeyRow : Type 0 where
  pub username : Text
  pub identity_public_key : Text
  pub encryption_public_key : Text
  pub updated_at : Text

-- A row of `queued_messages`.
pub record QueuedRow : Type 0 where
  pub id : ℕ
  pub recipient : Text
  pub payload : Bytes
  pub created_at : Text

pub record Database : Type 0 where
  -- the columns of `public_keys`, if the table exists
  pub columns : Option (List String)
  pub public_keys : List PublicKeyRow
  -- whether `queued_messages` and its index exist
  pub has_queue : Bool
  pub has_index : Bool
  pub queued_messages : List QueuedRow
  -- `sqlite_sequence`: the largest id that AUTOINCREMENT has given out
  pub last_id : ℕ
  -- how many statements were sent so far
  pub statements : ℕ

pub record Sqlite : Type 0 where
  -- the error with which the n-th statement fails, if it does
  pub fault : ℕ → Option SqlxError
  -- `strftime('%Y-%m-%dT%H:%M:%fZ', 'now')` in the n-th statement
  pub now : ℕ → Text

abbrev pub Sql : Type 0 → Type 0
Sql A = Exec Database SqlxError A

abbrev pub sent : Database → Database
sent db = record db { statements = suc db.statements }

-- Runs a statement, which is given the time of the clock.
unfoldable pub run : {A : Type 0} → Sqlite → (Text → Sql A) → Sql A
run q statement db = elim (q.fault db.statements) [
  | some e ↦ (err e, sent db)
  | none ↦ statement (q.now db.statements) (sent db)
]

-- An empty file, as `create_if_missing` leaves it.
abbrev pub fresh : Database
fresh = record {
  columns = none;
  public_keys = [];
  has_queue = false;
  has_index = false;
  queued_messages = [];
  last_id = 0;
  statements = 0;
}
