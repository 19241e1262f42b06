-- ===== src/Server/System/Safety.antt =====
-- The tables after any sequence of events.
use phantasma.Prelude.{
  ℕ, suc, ◌≤◌, ◌<◌, ◌≡◌, ◌⊎◌, inl, inr, Text, Bytes, List, [], ◌∷◌, arith, All, All-append,
  All-keep, refl, not, ◌==◌, nat_eq,
}
use mathlib.Core.List.{Memᴰ}
use phantasma.Shared.Registration.{PublicKeyRegistration}
use phantasma.Server.Sqlite as Sql
use phantasma.Server.Sqlite.{QueuedRow, Database, Sqlite}
use phantasma.Server.Directory.Keys as Keys
use phantasma.Server.Directory.Keys.Lookups.{UniqueNames, register_public_key-UniqueNames}
use phantasma.Server.Directory.Queue.{
  queue_message, queued_messages_for, delete_id, delete_queued_message,
}
use phantasma.Server.Directory.Queue.Order.{
  IsSound, queue_message-IsSound, queued_messages_for-IsSound, delete_queued_message-IsSound,
}
use phantasma.Server.State.{Environment}
use phantasma.Server.Http.Vetting.{IsVetted, stored-IsVetted}
use phantasma.Server.System.{World, Event, run}
use phantasma.Server.System.Kept.{IsKept}
use phantasma.Server.System.Tables.{run-keeps}

-- The queue is in the order of ids that are used once, no two rows of the key table share a name,
-- and each row has passed the tests on names and keys.
pub record TablesOk (db : Database) : Type 0 where
  pub sound : IsSound db
  pub unique : UniqueNames db.public_keys
  pub vetted : All IsVetted db.public_keys

module _ (q : Sqlite) where
  queue-same :
      (to : Text) (payload : Bytes) (db : Database)
      → (queue_message q to payload db).1.public_keys ≡ db.public_keys
  unfolding queue_message Sql.run
  queue-same to payload db = ground arith

  load-same :
      (name : Text) (db : Database) → (queued_messages_for q name db).1.public_keys ≡ db.public_keys
  unfolding queued_messages_for Sql.run
  load-same name db = ground arith

  delete-same :
      (id : ℕ) (db : Database) → (delete_queued_message q id db).1.public_keys ≡ db.public_keys
  unfolding delete_queued_message Sql.run
  delete-same id db = ground arith

  find-same : (name : Text) (db : Database) → (Keys.lookup_public_key q name db).1 ≡ Sql.sent db
  unfolding Keys.lookup_public_key Sql.run
  find-same name db = ground arith

  store-IsSound :
      (r : PublicKeyRegistration) (db : Database)
      → IsSound db
      → IsSound (Keys.register_public_key q r db).1
  unfolding Keys.register_public_key Sql.run
  store-IsSound r db h = ground (arith, h.ordered)

  pub TablesOk-of_same :
      (db db' : Database)
      → db'.public_keys ≡ db.public_keys
      → TablesOk db
      → IsSound db'
      → TablesOk db'
  TablesOk-of_same db db' e h sound = record {
    sound = sound;
    unique = rw e h.unique;
    vetted = rw e h.vetted;
  }

  pub TablesOk-IsKept : IsKept q TablesOk
  TablesOk-IsKept = record {
    weaken = λ db h. h;
    queue = λ to payload db h.
        TablesOk-of_same db _ (queue-same to payload db) h
          (queue_message-IsSound q db h.sound to payload);
    load = λ name db h.
        TablesOk-of_same db _ (load-same name db) h (queued_messages_for-IsSound q db h.sound name);
    delete = λ id db h.
        TablesOk-of_same db _ (delete-same id db) h (delete_queued_message-IsSound q db h.sound id);
    store = λ r db v h. record {
      sound = store-IsSound r db h.sound;
      unique = register_public_key-UniqueNames q r db h.unique;
      vetted = stored-IsVetted q r db v h.vetted;
    };
    find = λ name db h. rw find-same (record {
      sound = record { has_queue = h.sound.has_queue; ordered = h.sound.ordered };
      unique = h.unique;
      vetted = h.vetted;
    });
  }

-- A row with an id above all those that `start` has given out, or a row of `start` as it was.
abbrev IsIssued : Database → QueuedRow → Type 0
IsIssued start row = (start.last_id < row.id) ⊎ Memᴰ row start.queued_messages

-- No id is used again.
pub record IdsRise (start db : Database) : Type 0 where
  pub rises : start.last_id ≤ db.last_id
  pub rows : All (IsIssued start) db.queued_messages

module _ (P : QueuedRow → Type 0) where
  All-of_Memᴰ : (rows : List QueuedRow) → ((row : QueuedRow) → Memᴰ row rows → P row) → All P rows
  All-of_Memᴰ [] h = tt
  All-of_Memᴰ (row ∷ rows) h = (h row (Memᴰ.head refl), All-of_Memᴰ rows (λ r m. h r (Memᴰ.tail m)))

module _ (q : Sqlite) (start : Database) where
  queue-IdsRise :
      (to : Text) (payload : Bytes) (db : Database)
      → IdsRise start db
      → IdsRise start (queue_message q to payload db).1
  unfolding queue_message Sql.run
  queue-IdsRise to payload db h = ground (
    arith,
    h.rises,
    All-append (IsIssued start) db.queued_messages (new_row ∷ []) h.rows
        (inl (omega (arith, h.rises)), tt),
  )
    where
      new_row : QueuedRow
      new_row = record {
        id = suc db.last_id;
        recipient = to;
        payload = payload;
        created_at = q.now db.statements;
      }

  delete-IdsRise :
      (id : ℕ) (db : Database) → IdsRise start db → IdsRise start (delete_queued_message q id db).1
  unfolding delete_queued_message delete_id Sql.run
  delete-IdsRise id db h = ground (
    arith,
    h.rises,
    All-keep (IsIssued start) (λ row. not (row.id == id)) db.queued_messages h.rows,
  )

  same-IdsRise :
      (db db' : Database)
      → db'.last_id ≡ db.last_id
      → db'.queued_messages ≡ db.queued_messages
      → IdsRise start db
      → IdsRise start db'
  same-IdsRise db db' e f h = record { rises = omega (arith, h.rises); rows = rw f h.rows }

  IdsRise-IsKept : IsKept q (IdsRise start)
  unfolding queued_messages_for Keys.register_public_key Keys.lookup_public_key Sql.run
  IdsRise-IsKept = record {
    weaken = λ db h. h;
    queue = queue-IdsRise;
    load = λ name db h. same-IdsRise db _ (ground arith) (ground arith) h;
    delete = delete-IdsRise;
    store = λ r db v h. same-IdsRise db _ (ground arith) (ground arith) h;
    find = λ name db h. same-IdsRise db _ (ground arith) (ground arith) h;
  }

-- If the tables are in order at the start, they are after any events in any order, whatever
-- statements fail: the ids of the queue rise, no name has two rows of keys, and every row of keys
-- has a valid name and valid key texts. And no id of the queue is used again: each row at the end
-- is one of the start, or has an id above all those that were given out by then.
pub run-TablesOk :
    (env : Environment) (es : List Event) (w : World)
    → TablesOk w.app.directory
    → TablesOk (run env w es).app.directory × IdsRise w.app.directory (run env w es).app.directory
run-TablesOk env es w h =
    let start = w.app.directory in
    (
      run-keeps env TablesOk (TablesOk-IsKept env.sqlite) es w h,
      run-keeps env (IdsRise start) (IdsRise-IsKept env.sqlite start) es w (record {
        rises = omega arith;
        rows = All-of_Memᴰ _ start.queued_messages (λ row m. inr m);
      }),
    )
