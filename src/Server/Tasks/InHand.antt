-- ===== src/Server/Tasks/InHand.antt =====
-- The messages that an interrupted delivery has in hand, and the rows that they came from.
use phantasma.Prelude.{
  ℕ, suc, ◌+◌, ◌≡◌, ◌≤◌, ◌<◌, refl, Text, Bytes, List, [], ◌∷◌, ◌++◌, arith, map, not, nat_eq,
  text_eq, ◌==◌, leb, All, All-map, All-append, All-keep, keep, Bool-cases, Option-cases, ◌⊎◌, inl,
  inr,
}
use phantasma.Server.Sqlite.{QueuedRow, Database, Sqlite, run}
use phantasma.Server.Directory.Queue.{
  QueuedMessage, max_id, message_of, is_for, delete_id, queue_message, queued_messages_for,
  delete_queued_message,
}
use phantasma.Server.Directory.Queue.Order.{Between, Between-le, IsSound}
use phantasma.Server.Directory.Queue.Contents.{waiting, delete_id-above}
use phantasma.Server.Copies.Totals.{total}
use phantasma.Server.Copies.{one, in_rows}

-- A row with the id of the message is the message.
abbrev pub Agrees : QueuedMessage → QueuedRow → Type 0
Agrees m r = r.id ≡ m.id → r.payload ≡ m.payload

-- The id of the message was given out, and is not that of another message.
pub record IsKnown (db : Database) (m : QueuedMessage) : Type 0 where
  pub given : m.id ≤ db.last_id
  pub own : All (Agrees m) db.queued_messages

abbrev pub AreKnown : Database → List QueuedMessage → Type 0
AreKnown db = All (IsKnown db)

Agrees-above :
    (m : QueuedMessage) (lo hi : ℕ) (rows : List QueuedRow)
    → m.id ≤ lo
    → Between lo hi rows
    → All (Agrees m) rows
Agrees-above m lo hi [] le h = tt
Agrees-above m lo hi (r ∷ rows) le h =
    ((λ e. absurd (omega (arith, e, h.0))), Agrees-above m r.id hi rows (omega (arith, h.0)) h.1)

-- A message of these rows.
abbrev Good : ℕ → ℕ → List QueuedRow → QueuedMessage → Type 0
Good lo hi rows m = (lo < m.id) × (m.id ≤ hi) × All (Agrees m) rows

messages-agree :
    (name : Text) (lo hi : ℕ) (rows : List QueuedRow)
    → Between lo hi rows
    → All (Good lo hi rows) (map message_of (keep (is_for name) rows))
unfolding keep
messages-agree name lo hi [] h = tt
messages-agree name lo hi (r ∷ rows) h =
    let head : Good lo hi (r ∷ rows) (message_of r) = (
      h.0,
      Between-le r.id hi rows h.1,
      ((λ e. refl), Agrees-above (message_of r) r.id hi rows (omega arith) h.1),
    ) in
    let tail =
      All-map (Good r.id hi rows) (Good lo hi (r ∷ rows))
        (λ m g. (omega (arith, g.0, h.0), g.1, ((λ e. absurd (omega (arith, e, g.0))), g.2)))
        (map message_of (keep (is_for name) rows)) (messages-agree name r.id hi rows h.1) in
    elim (Bool-cases (is_for name r)) [ inl e ↦ rw e (head, tail) | inr e ↦ rw e tail ]

-- The messages that a delivery loads are known.
pub waiting-AreKnown : (name : Text) (db : Database) → IsSound db → AreKnown db (waiting name db)
unfolding waiting
waiting-AreKnown name db sound =
    All-map _ (IsKnown db) (λ m g. record { given = g.1; own = g.2 }) _
      (messages-agree name 0 db.last_id db.queued_messages sound.ordered)

-- Deleting a known message takes at most one copy of its payload.
pub in_rows-delete_known :
    (p : Bytes) (m : QueuedMessage) (lo hi : ℕ) (rows : List QueuedRow)
    → Between lo hi rows
    → All (Agrees m) rows
    → in_rows p rows ≤ in_rows p (delete_id m.id rows) + one p m.payload
unfolding total delete_id keep
in_rows-delete_known p m lo hi [] h own = omega arith
in_rows-delete_known p m lo hi (r ∷ rows) h own = elim (nat_eq.dec r.id m.id) [
  | yes e ↦
      let rest : delete_id m.id rows ≡ rows =
        delete_id-above m.id r.id hi rows (omega (arith, e)) h.1 in
      ground (arith, own.0 e, rest)
  | no ne ↦ ground (arith, ne, in_rows-delete_known p m r.id hi rows h.1 own.1)
]

-- What a statement does to the rows and to the last id.
abbrev pub Unchanged : Database → Database → Type 0
Unchanged db db' = (db'.queued_messages ≡ db.queued_messages) × (db'.last_id ≡ db.last_id)

abbrev pub Inserted : Bytes → Database → Database → Type 0
Inserted payload db db' =
    (row : QueuedRow) × (row.id ≡ suc db.last_id)
    × (db'.queued_messages ≡ db.queued_messages ++ row ∷ [])
    × (db'.last_id ≡ suc db.last_id)

abbrev pub Deleted : ℕ → Database → Database → Type 0
Deleted id db db' =
    (db'.queued_messages ≡ delete_id id db.queued_messages) × (db'.last_id ≡ db.last_id)

module _ (q : Sqlite) (db : Database) where
  pub queue_message-shape :
      (to : Text) (payload : Bytes)
      → let db' = (queue_message q to payload db).1 in Unchanged db db' ⊎ Inserted payload db db'
  unfolding queue_message run
  queue_message-shape to payload = elim (Option-cases (q.fault db.statements)) [
    | inr (f, e) ↦ inl (ground arith, ground arith)
    | inl e ↦ elim (Bool-cases db.has_queue) [
      | inr h ↦ inl (ground arith, ground arith)
      | inl h ↦ elim (Bool-cases (leb max_id db.last_id)) [
        | inl full ↦ inl (ground arith, ground arith)
        | inr room ↦ inr (
          record {
            id = suc db.last_id;
            recipient = to;
            payload = payload;
            created_at = q.now db.statements;
          },
          refl,
          ground arith,
          ground arith,
        )
      ]
    ]
  ]

  pub delete_queued_message-shape :
      (id : ℕ) → let db' = (delete_queued_message q id db).1 in Unchanged db db' ⊎ Deleted id db db'
  unfolding delete_queued_message run
  delete_queued_message-shape id = elim (Option-cases (q.fault db.statements)) [
    | inr (f, e) ↦ inl (ground arith, ground arith)
    | inl e ↦ elim (Bool-cases db.has_queue) [
      | inr h ↦ inl (ground arith, ground arith)
      | inl h ↦ inr (ground arith, ground arith)
    ]
  ]

  pub queued_messages_for-shape : (name : Text) → Unchanged db (queued_messages_for q name db).1
  unfolding queued_messages_for run
  queued_messages_for-shape name = (ground arith, ground arith)

IsKnown-Unchanged :
    (m : QueuedMessage) (db db' : Database) → Unchanged db db' → IsKnown db m → IsKnown db' m
IsKnown-Unchanged m db db' (rows, last) known = record {
  given = rw last known.given;
  own = rw rows known.own;
}

module _ (q : Sqlite) (m : QueuedMessage) (db : Database) (known : IsKnown db m) where
  -- A known message stays known, whatever statement of a task is carried out.
  pub queue_message-IsKnown :
      (to : Text) (payload : Bytes) → IsKnown (queue_message q to payload db).1 m
  queue_message-IsKnown to payload = elim (queue_message-shape q db to payload) [
    | inl same ↦ IsKnown-Unchanged m db _ same known
    | inr (row, new, rows, last) ↦ record {
      given = omega (arith, known.given, last);
      own = rw rows (
          All-append (Agrees m) db.queued_messages (row ∷ []) known.own
            ((λ e. absurd (omega (arith, e, new, known.given))), tt));
    }
  ]

  pub delete_queued_message-IsKnown : (id : ℕ) → IsKnown (delete_queued_message q id db).1 m
  unfolding delete_id
  delete_queued_message-IsKnown id = elim (delete_queued_message-shape q db id) [
    | inl same ↦ IsKnown-Unchanged m db _ same known
    | inr (rows, last) ↦ record {
      given = rw last known.given;
      own = rw rows (All-keep (Agrees m) (λ row. not (row.id == id)) db.queued_messages known.own);
    }
  ]

  pub queued_messages_for-IsKnown : (name : Text) → IsKnown (queued_messages_for q name db).1 m
  queued_messages_for-IsKnown name =
      IsKnown-Unchanged m db _ (queued_messages_for-shape q db name) known
