-- ===== src/Server/Copies/Moves.antt =====
-- How the operations on channels and on the queue change the number of copies.
use phantasma.Prelude.{
  ℕ, suc, ◌+◌, ◌≡◌, Text, Bytes, Bool, true, false, Option, none, some, List, [], ◌∷◌, ◌++◌, arith,
  get_elem?, set-eq_self_of_none, nat_eq, text_eq, if◌then◌else◌, Option-cases, List-cases, inl,
  inr,
}
use phantasma.Server.Sqlite.{QueuedRow, Database, Sqlite, run}
use phantasma.Server.Directory.Queue.{queue_message}
use phantasma.Server.State.{AppState, Channel, send, drop_receiver, unbounded_channel}
use phantasma.Server.State.Channels.{buffer, is_live}
use phantasma.Server.Connection.{recv}
use phantasma.Server.PostOffice.Abstraction.{is_err}
use phantasma.Server.Copies.Totals.{total, total-snoc, total-set}
use phantasma.Server.Copies.{one, in_rows, held}

module _ (p : Bytes) where
  abbrev count : List Bytes → ℕ
  count = total (one p)

  abbrev in_channel : Channel → ℕ
  in_channel c = count c.buffer

  abbrev one_if : Bool → Bytes → ℕ
  one_if b payload = if b then one p payload else 0

  -- A send adds the payload once if the receiver is there, and nothing if it is not.
  pub held-send :
      (address : ℕ) (payload : Bytes) (s : AppState)
      → held p (send address payload s).1 ≡ held p s + one_if (is_live address s) payload
  unfolding send is_live
  held-send address payload s = elim (Option-cases (get_elem? s.channels address)) [
    | inl e ↦ ground arith
    | inr (c, e) ↦
        let c' : Channel = record c { buffer = c.buffer ++ payload ∷ [] } in
        ground (
          arith,
          total-set in_channel s.channels address c c' e,
          total-snoc (one p) c.buffer payload,
        )
  ]

  -- Dropping a receiver takes away what its channel held.
  pub held-drop_receiver :
      (address : ℕ) (s : AppState)
      → held p (drop_receiver address s) + count (buffer address s) ≡ held p s
  unfolding drop_receiver buffer total
  held-drop_receiver address s = elim (Option-cases (get_elem? s.channels address)) [
    | inl e ↦
        ground (
          arith,
          set-eq_self_of_none s.channels address (record { buffer = []; is_open = false }) e,
        )
    | inr (c, e) ↦ ground (
      arith,
      total-set in_channel s.channels address c (record { buffer = []; is_open = false }) e,
    )
  ]

  abbrev pub of_next : Option Bytes → ℕ
  of_next none = 0
  of_next (some payload) = one p payload

  -- What a receive takes leaves the channel.
  pub held-recv :
      (address : ℕ) (s : AppState)
      → held p (recv address s).1 + of_next (recv address s).0 ≡ held p s
  unfolding recv total
  held-recv address s = elim (Option-cases (get_elem? s.channels address)) [
    | inl e ↦ ground arith
    | inr (c, e) ↦ elim (List-cases c.buffer) [
      | inl d ↦ ground arith
      | inr (payload, rest, d) ↦
          ground (arith, total-set in_channel s.channels address c (record c { buffer = rest }) e)
    ]
  ]

  pub held-unbounded_channel : (s : AppState) → held p (unbounded_channel s).1 ≡ held p s
  unfolding unbounded_channel total
  held-unbounded_channel s =
      ground (arith, total-snoc in_channel s.channels (record { buffer = []; is_open = true }))

  -- Queueing adds the payload once if it succeeds.
  pub in_rows-queue_message :
      (q : Sqlite) (to : Text) (payload : Bytes) (db : Database)
      → let (answer, db') = queue_message q to payload db in
        in_rows p db'.queued_messages
        ≡ in_rows p db.queued_messages + (if is_err answer then 0 else one p payload)
  unfolding queue_message run
  in_rows-queue_message q to payload db = ground (
    arith,
    total-snoc (λ (r : QueuedRow). one p r.payload) db.queued_messages
        (record {
          id = suc db.last_id;
          recipient = to;
          payload = payload;
          created_at = q.now db.statements;
        }),
  )
