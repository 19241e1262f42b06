-- ===== src/Server/Directory/Queue/Contents.antt =====
-- What the queue holds for each recipient, before and after each statement.
use phantasma.Prelude.{
  ℕ, suc, ◌≤◌, ◌<◌, ◌≡◌, refl, ap, Text, Bytes, Bool, true, List, [], ◌∷◌, ◌++◌, map, arith, none,
  some, Result, ok, err, leb, nat_eq, text_eq, ◌==◌, if◌then◌else◌, keep,
}
use mathlib.Core.List.{append-nil}
use phantasma.Server.Sqlite.{SqlxError, database_full, QueuedRow, Database, Sqlite, run}
use phantasma.Server.Directory.Queue.{
  QueuedMessage, message_of, is_for, delete_id, queue_message, queued_messages_for,
  delete_queued_message, max_id,
}
use phantasma.Server.Directory.Queue.Order.{Between, IsOrdered, Between-keep, order_by_id-eq_self}

-- The messages that wait for a recipient, oldest first.
unfoldable pub waiting : Text → Database → List QueuedMessage
waiting name db = map message_of (keep (is_for name) db.queued_messages)

pub delete_id-above :
    (id lo hi : ℕ) (rows : List QueuedRow) → id ≤ lo → Between lo hi rows → delete_id id rows ≡ rows
unfolding delete_id keep
delete_id-above id lo hi [] le h = refl
delete_id-above id lo hi (r ∷ rows) le h = ground (arith, delete_id-above id r.id hi rows)

pub keep-above :
    (p : QueuedRow → Bool) (lo hi : ℕ) (rows : List QueuedRow) (r : QueuedRow)
    (rest : List QueuedRow)
    → Between lo hi rows
    → keep p rows ≡ r ∷ rest
    → lo < r.id
keep-above p lo hi rows r rest h e =
    let b : Between lo hi (r ∷ rest) = rw e at (Between-keep p lo hi rows h) in b.0

keep-delete_id :
    (name other : Text) (lo hi : ℕ) (rows : List QueuedRow) (r : QueuedRow) (rest : List QueuedRow)
    → Between lo hi rows
    → keep (is_for name) rows ≡ r ∷ rest
    → keep (is_for other) (delete_id r.id rows)
      ≡ (if name == other then rest else keep (is_for other) rows)
unfolding keep delete_id is_for
keep-delete_id name other lo hi [] r rest h e = absurd (cc)
keep-delete_id name other lo hi (x ∷ rows) r rest h e = ground (
  arith,
  delete_id-above x.id x.id hi rows,
  keep-above (is_for name) x.id hi rows r rest h.1,
  keep-delete_id name other x.id hi rows r rest h.1,
)

pub map-message_of-eq_cons :
    (rows : List QueuedRow) (m : QueuedMessage) (ms : List QueuedMessage)
    → map message_of rows ≡ m ∷ ms
    → (r : QueuedRow) × (rest : List QueuedRow) × (rows ≡ r ∷ rest)
      × (message_of r ≡ m)
      × (map message_of rest ≡ ms)
map-message_of-eq_cons [] m ms e = absurd (cc)
map-message_of-eq_cons (r ∷ rows) m ms e = (r, rows, refl, cc, cc)

messages-append :
    (name : Text) (rows : List QueuedRow) (row : QueuedRow)
    → map message_of (keep (is_for name) (rows ++ row ∷ []))
      ≡ map message_of (keep (is_for name) rows)
        ++ (if row.recipient == name then message_of row ∷ [] else [])
unfolding keep is_for
messages-append name [] row = ground arith
messages-append name (r ∷ rows) row = ground (arith, messages-append name rows row)

-- The result of a statement that only a fault can stop.
abbrev pub answers {ℓ} : {A : Type ℓ} → Sqlite → Database → A → Result SqlxError A
answers q db a = elim (q.fault db.statements) [ some e ↦ err e | none ↦ ok a ]

abbrev pub next_message : Database → Bytes → QueuedMessage
next_message db payload = record { id = suc db.last_id; payload = payload }

-- What an insertion with this result adds to the messages that wait for `name`.
abbrev pub added : Result SqlxError (Unit {0}) → Bool → QueuedMessage → List QueuedMessage
added (ok _) same m = if same then m ∷ [] else []
added (err e) same m = []

module _ (q : Sqlite) (db : Database) (ready : db.has_queue ≡ true) where
  queue_message-answer :
      (recipient : Text) (payload : Bytes)
      → (queue_message q recipient payload db).0 ≡ elim (q.fault db.statements) [
        | some e ↦ err e
        | none ↦ if leb max_id db.last_id then err database_full else ok tt
      ]
  unfolding queue_message run
  queue_message-answer recipient payload = ground arith

  -- Over a database with its queue table, queueing a message puts it last among those of its
  -- recipient if it succeeds; if it fails, and for every other recipient, what waits is as it
  -- was.
  pub queue_message-waiting :
      (recipient name : Text) (payload : Bytes)
      → let (answer, db') = queue_message q recipient payload db in
        waiting name db'
        ≡ waiting name db ++ added answer (recipient == name) (next_message db payload)
  unfolding queue_message run waiting is_for
  queue_message-waiting recipient name payload = ground (
    arith,
    messages-append name db.queued_messages new_row,
    append-nil (map message_of (keep (is_for name) db.queued_messages)),
  )
    where
      new_row : QueuedRow
      new_row = record {
        id = suc db.last_id;
        recipient = recipient;
        payload = payload;
        created_at = q.now db.statements;
      }

  -- Over a queue table in the order of its ids, loading the messages of a recipient gives what
  -- waits for it, oldest first, or the error of a fault, and changes no table.
  pub queued_messages_for-waiting :
      (name : Text)
      → IsOrdered db
      → queued_messages_for q name db
        ≡ (answers q db (waiting name db), record db { statements = suc db.statements })
  unfolding queued_messages_for run waiting
  queued_messages_for-waiting name h = ground (
    arith,
    order_by_id-eq_self 0 db.last_id (keep (is_for name) db.queued_messages)
        (Between-keep (is_for name) 0 db.last_id db.queued_messages h),
  )

  -- Over a queue table in the order of its ids, deleting the oldest message of a recipient
  -- fails only by a fault. It takes away that message alone, and nothing if it fails.
  pub delete_queued_message-waiting :
      (name other : Text) (m : QueuedMessage) (ms : List QueuedMessage)
      → IsOrdered db
      → waiting name db ≡ m ∷ ms
      → let (answer, db') = delete_queued_message q m.id db in
        (answer ≡ answers q db tt)
        × (waiting other db' ≡ elim answer [
          | ok _ ↦ if name == other then ms else waiting other db
          | err _ ↦ waiting other db
        ])
  unfolding delete_queued_message run waiting
  delete_queued_message-waiting name other m ms h e =
      let (r, rest, kept, same, others) =
        map-message_of-eq_cons (keep (is_for name) db.queued_messages) m ms e in
      let id : r.id ≡ m.id = ap (λ (x : QueuedMessage). x.id) same in
      ground (
        arith,
        id,
        others,
        ap (map message_of)
            (keep-delete_id name other 0 db.last_id db.queued_messages r rest h kept),
      )
