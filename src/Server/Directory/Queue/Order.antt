-- ===== src/Server/Directory/Queue/Order.antt =====
-- The rows of `queued_messages` stand in the order of their ids, which are never used twice.
use phantasma.Prelude.{
  ℕ, suc, ◌≤◌, ◌<◌, ◌≡◌, refl, Text, Bytes, Bool, true, not, List, [], ◌∷◌, ◌++◌, arith, nat_eq,
  ◌==◌, keep,
}
use phantasma.Server.Sqlite.{QueuedRow, Database, Sqlite, run}
use phantasma.Server.Directory.Queue.{
  insert_by_id, order_by_id, delete_id, queue_message, queued_messages_for, delete_queued_message,
}

-- The ids rise strictly, start above `lo` and end at most at `hi`.
abbrev pub Between : ℕ → ℕ → List QueuedRow → Type 0
Between lo hi [] = lo ≤ hi
Between lo hi (r ∷ rows) = (lo < r.id) × Between r.id hi rows

-- Every row has an id that AUTOINCREMENT has given out, in the order of the rows.
abbrev pub IsOrdered : Database → Type 0
IsOrdered db = Between 0 db.last_id db.queued_messages

pub Between-le : (lo hi : ℕ) (rows : List QueuedRow) → Between lo hi rows → lo ≤ hi
Between-le lo hi [] h = h
Between-le lo hi (r ∷ rows) h = omega (arith, h.0, Between-le r.id hi rows h.1)

pub Between-weaken :
    (lo lo' hi : ℕ) (rows : List QueuedRow) → lo' ≤ lo → Between lo hi rows → Between lo' hi rows
Between-weaken lo lo' hi [] le h = omega arith
Between-weaken lo lo' hi (r ∷ rows) le h = (omega (arith, h.0), h.1)

pub Between-append :
    (lo hi : ℕ) (rows : List QueuedRow) (row : QueuedRow)
    → Between lo hi rows
    → hi < row.id
    → Between lo row.id (rows ++ row ∷ [])
Between-append lo hi [] row h lt = (omega arith, omega arith)
Between-append lo hi (r ∷ rows) row h lt = (h.0, Between-append r.id hi rows row h.1 lt)

pub Between-keep :
    (p : QueuedRow → Bool) (lo hi : ℕ) (rows : List QueuedRow)
    → Between lo hi rows
    → Between lo hi (keep p rows)
unfolding keep
Between-keep p lo hi [] h = h
Between-keep p lo hi (r ∷ rows) h =
    let rest = Between-keep p r.id hi rows h.1 in
    ground (arith, rest, Between-weaken r.id lo hi (keep p rows) (omega arith) rest)

insert_by_id-first :
    (row : QueuedRow) (hi : ℕ) (rows : List QueuedRow)
    → Between row.id hi rows
    → insert_by_id row rows ≡ row ∷ rows
unfolding insert_by_id
insert_by_id-first row hi [] h = refl
insert_by_id-first row hi (r ∷ rows) h = ground arith

-- Sorting such rows changes nothing.
pub order_by_id-eq_self :
    (lo hi : ℕ) (rows : List QueuedRow) → Between lo hi rows → order_by_id rows ≡ rows
unfolding order_by_id
order_by_id-eq_self lo hi [] h = refl
order_by_id-eq_self lo hi (r ∷ rows) h =
    rw (order_by_id-eq_self r.id hi rows h.1) (insert_by_id-first r hi rows h.1)

-- The table is there, and its rows are in order.
pub record IsSound (db : Database) : Type 0 where
  pub has_queue : db.has_queue ≡ true
  pub ordered : IsOrdered db

module _ (q : Sqlite) (db : Database) (sound : IsSound db) where
  -- No statement on the queue, failing or not, breaks the table: ids stay in order, at most the
  -- last id given out, and so no id is given out twice.
  pub queue_message-IsSound :
      (recipient : Text) (payload : Bytes) → IsSound (queue_message q recipient payload db).1
  unfolding queue_message run
  queue_message-IsSound recipient payload =
      ground (arith, Between-append 0 db.last_id db.queued_messages new_row sound.ordered)
    where
      new_row : QueuedRow
      new_row = record {
        id = suc db.last_id;
        recipient = recipient;
        payload = payload;
        created_at = q.now db.statements;
      }

  pub queued_messages_for-IsSound :
      (recipient : Text) → IsSound (queued_messages_for q recipient db).1
  unfolding queued_messages_for run
  queued_messages_for-IsSound recipient = ground (arith, sound.ordered)

  pub delete_queued_message-IsSound : (id : ℕ) → IsSound (delete_queued_message q id db).1
  unfolding delete_queued_message run delete_id
  delete_queued_message-IsSound id = ground (
    arith,
    Between-keep (λ row. not (row.id == id)) 0 db.last_id db.queued_messages sound.ordered,
    sound.ordered,
  )
