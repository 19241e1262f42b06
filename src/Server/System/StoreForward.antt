-- ===== src/Server/System/StoreForward.antt =====
-- A message for a user who is away waits, and reaches the next connection of the user.
use phantasma.Prelude.{ℕ, ◌≡◌, ap, Text, none, [], arith, nat_eq}
use phantasma.Server.Directory.Queue.Order.{IsSound}
use phantasma.Server.Directory.Queue.Contents.{waiting}
use phantasma.Server.State.{AppState, Environment}
use phantasma.Server.State.Channels.{buffer}
use phantasma.Server.Delivery.{deliver_queued_messages}
use phantasma.Server.Delivery.Outcome.{Outcome, payloads}
use phantasma.Server.Delivery.Accounting.{deliver_queued_messages-Outcome}
use phantasma.Server.Connection.{Connection, open_connection}
use phantasma.Server.Connection.Registry.{get-open_connection}

-- `handle_socket` up to its loops.
abbrev pub connection_of : Text → AppState → Connection
connection_of username s = (open_connection username s).0

abbrev pub connect_and_deliver : Environment → Text → AppState → AppState
connect_and_deliver env username s =
    let (c, s') = open_connection username s in deliver_queued_messages env username c.address s'

module _ (env : Environment) (username : Text) (s : AppState) (sound : IsSound s.directory) where
  outcome :
      Outcome env.sqlite username
        (connection_of username s).address
        (waiting username (open_connection username s).1.directory)
        (open_connection username s).1
        (connect_and_deliver env username s)
  outcome =
      let facts = get-open_connection username username s in
      deliver_queued_messages-Outcome env username (connection_of username s).address _ facts.1
        (rw facts.3 sound)

  -- Over a database in which no statement fails and whose queue is in the order of its ids, a
  -- new connection finds in its channel exactly the messages that waited for its user, oldest
  -- first, none of them waits any longer, and the queue is still in order.
  pub connect_and_deliver_complete :
      ((n : ℕ) → env.sqlite.fault n ≡ none)
      → let s' = connect_and_deliver env username s in
        (buffer (connection_of username s).address s' ≡ payloads (waiting username s.directory))
        × (waiting username s'.directory ≡ [])
        × IsSound s'.directory
  connect_and_deliver_complete works =
      let facts = get-open_connection username username s in
      let o = outcome in
      let all = o.complete works in
      (
        ground (
          arith,
          o.buffers (connection_of username s).address,
          facts.2,
          facts.3,
          ap payloads all.0,
          ap (waiting username) facts.3,
        ),
        all.1,
        o.sound,
      )
