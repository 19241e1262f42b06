-- ===== src/Server/Directory/Queue.antt =====
-- server/src/directory.rs: the queue of messages for users who are offline.
pub mod Order
pub mod Contents
use phantasma.Prelude.{
  ℕ, suc, ◌-◌, ◌^◌, Text, Bytes, Bool, not, Option, none, some, List, [], ◌∷◌, ◌++◌, map, ok, err,
  pure, ◌>>=◌, ◌>>◌, leb, ◌==◌, nat_eq, text_eq, if◌then◌else◌, keep,
}
use phantasma.Server.Sqlite.{
  SqlxError, no_such_table, database_full, QueuedRow, Database, Sqlite, Sql, run,
}
use phantasma.Server.Directory.Schema.{unless}

pub record QueuedMessage : Type 0 where
  pub id : ℕ
  pub payload : Bytes

-- The largest id that an INTEGER PRIMARY KEY holds; AUTOINCREMENT fails once it is used.
abbrev pub max_id : ℕ
max_id = 2 ^ 63 - 1

abbrev no_queue : Bool → Option SqlxError
no_queue b = if b then none else some no_such_table

abbrev no_room : ℕ → Option SqlxError
no_room last_id = if leb max_id last_id then some database_full else none

-- `INSERT INTO queued_messages (recipient, payload) VALUES (?, ?)`
abbrev insert_message : Text → Bytes → Text → Sql Unit
insert_message recipient payload now db =
    unless (no_queue db.has_queue)
      (unless (no_room db.last_id) (λ d. (
        ok tt,
        record d {
          last_id = suc d.last_id;
          queued_messages =
              d.queued_messages
              ++ record {
                id = suc d.last_id;
                recipient = recipient;
                payload = payload;
                created_at = now;
              }
                ∷ [];
        },
      )))
      db

-- `ORDER BY id`
unfoldable pub insert_by_id : QueuedRow → List QueuedRow → List QueuedRow
insert_by_id row [] = row ∷ []
insert_by_id row (r ∷ rows) = if leb row.id r.id then row ∷ r ∷ rows else r ∷ insert_by_id row rows

unfoldable pub order_by_id : List QueuedRow → List QueuedRow
order_by_id [] = []
order_by_id (r ∷ rows) = insert_by_id r (order_by_id rows)

unfoldable pub is_for : Text → QueuedRow → Bool
is_for recipient row = row.recipient == recipient

-- `SELECT id, payload FROM queued_messages WHERE recipient = ? ORDER BY id`
abbrev fetch_messages : Text → Text → Sql (List QueuedRow)
fetch_messages recipient now db =
    unless (no_queue db.has_queue)
      (λ d. (ok (order_by_id (keep (is_for recipient) d.queued_messages)), d)) db

-- `DELETE FROM queued_messages WHERE id = ?`
unfoldable pub delete_id : ℕ → List QueuedRow → List QueuedRow
delete_id id = keep (λ row. not (row.id == id))

abbrev delete_message : ℕ → Text → Sql Unit
delete_message id now db =
    unless (no_queue db.has_queue)
      (λ d. (ok tt, record d { queued_messages = delete_id id d.queued_messages })) db

abbrev pub message_of : QueuedRow → QueuedMessage
message_of row = record { id = row.id; payload = row.payload }

unfoldable pub queue_message : Sqlite → Text → Bytes → Sql Unit
queue_message q recipient payload = do run q (insert_message recipient payload); pure tt

unfoldable pub queued_messages_for : Sqlite → Text → Sql (List QueuedMessage)
queued_messages_for q recipient = do
  rows ← run q (fetch_messages recipient)
  pure (map message_of rows)

unfoldable pub delete_queued_message : Sqlite → ℕ → Sql Unit
delete_queued_message q id = do run q (delete_message id); pure tt
