-- ===== src/Server/System/Gaps.antt =====
-- A message that the relay accepted and that waits although its recipient is there; and what the
-- sending task writes while its socket takes it.
use phantasma.Prelude.{
  ℕ, ◌≡◌, refl, ◌∙◌, Text, Bytes, true, none, some, [], ◌∷◌, arith, ok, nat_eq, text_eq,
}
use phantasma.Prelude.Dict
use phantasma.Server.Directory.Queue.Order.{IsSound}
use phantasma.Server.Directory.Queue.Contents.{waiting, next_message}
use phantasma.Server.State.{AppState, Environment}
use phantasma.Server.State.Channels.{buffer, is_live}
use phantasma.Server.Payload.{relay_or_queue}
use phantasma.Server.Payload.Routing.{relay_or_queue-queues}
use phantasma.Server.State.Frame.{SameRegistry}
use phantasma.Server.Delivery.Outcome.{payloads}
use phantasma.Server.Delivery.Frame.{deliver_queued_messages-SameRegistry}
use phantasma.Server.Payload.Frame.{relay_or_queue-SameRegistry}
use phantasma.Server.Connection.Registry.{get-open_connection}
use phantasma.Server.Connection.{Connection, open_connection, send_turn}
use phantasma.Server.Connection.Frame.{recv_lem}
use phantasma.Server.System.StoreForward.{
  connection_of, connect_and_deliver, connect_and_deliver_complete,
}

module _ (env : Environment) (to : Text) (bytes : Bytes) (s : AppState)
    (sound : IsSound s.directory) (works : (n : ℕ) → env.sqlite.fault n ≡ none) where
  abbrev here : AppState
  here = connect_and_deliver env to s

  abbrev address : ℕ
  address = (connection_of to s).address

  same : SameRegistry address (open_connection to s).1 here
  same = deliver_queued_messages-SameRegistry env to address address (open_connection to s).1

  -- A message whose sender looked the recipient up just before the recipient connected, over a
  -- database in which no statement fails and whose queue is in order: it is queued after the
  -- new connection has loaded its queue. If the handler reports success, the message waits
  -- although its recipient is registered with an open channel, and that channel holds only what
  -- had waited before.
  pub relay_or_queue-strands :
      (relay_or_queue env to bytes none here).0 ≡ ok tt
      → let s' = (relay_or_queue env to bytes none here).1 in
        (waiting to s'.directory ≡ next_message here.directory bytes ∷ [])
        × (Dict.get to s'.active_clients
            ≡ some
                (record { connection_id = (connection_of to s).connection_id; sender = address }))
        × (is_live address s' ≡ true)
        × (buffer address s' ≡ payloads (waiting to s.directory))
  relay_or_queue-strands done =
      let (full, empty, sound') = connect_and_deliver_complete env to s sound works in
      let (r, buffers, queues, registry) =
        relay_or_queue-queues env to bytes none here refl sound'.has_queue in
      let opened = get-open_connection to to s in
      (
        ground (arith, done, r, queues to, empty),
        ground (arith, registry, same, opened),
        ground (arith, opened, same, relay_or_queue-SameRegistry env address to bytes none here),
        buffers address ∙ full,
      )

-- While the socket takes what it is given, the sending task goes on, and nothing is lost or
-- reordered: what was written and what still waits make up the same sequence as before.
pub send_turn-in_order :
    (c : Connection) (s : AppState)
    → let (written, goes_on, s') = send_turn c true s in
      (goes_on ≡ true)
      × (buffer c.address s
          ≡ elim written [ none ↦ [] | some payload ↦ payload ∷ buffer c.address s' ])
unfolding send_turn
send_turn-in_order c s = ground (arith, recv_lem c.address c.address s)
