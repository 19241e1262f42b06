-- ===== src/Server/Connection.antt =====
-- server/src/main.rs: `handle_socket`, in the pieces between which other tasks may run. The socket
-- is the environment: what it receives, and whether it takes what is written, are arguments.
pub mod Registry
pub mod Frame
use phantasma.Prelude.{
  ℕ, suc, ◌+◌, ◌%◌, ◌^◌, Text, Bytes, Bool, true, false, Option, none, some, List, [], ◌∷◌, ok, err,
  length, get_elem?, set, ◌==◌, nat_eq, text_eq, if◌then◌else◌,
}
use phantasma.Prelude.Dict
use phantasma.Prelude.Utf8.{len}
use phantasma.Server.State.{
  ActiveClient, Channel, AppState, Environment, plaintext_rejected, payload_failed,
  websocket_failed, connected, disconnected, print, unbounded_channel, drop_receiver,
}
use phantasma.Server.Payload.{handle_encrypted_payload}

-- What the task of a connection holds on to.
pub record Connection : Type 0 where
  pub username : Text
  pub connection_id : ℕ
  -- the address of `outbound_sender` and `outbound_receiver`
  pub address : ℕ

-- `socket_receiver.next().await` gives a frame, an error, or the end of the stream.
pub data Incoming : Type 0 where
  binary : Bytes → Incoming
  text_frame : Text → Incoming
  close ping pong : Incoming
  failed end_of_stream : Incoming

-- The number of values of an `AtomicU64`, whose `fetch_add` wraps around.
abbrev pub u64_mod : ℕ
u64_mod = 2 ^ 64

-- The first part: a new id, a new channel, and the entry under the name.
unfoldable pub open_connection : Text → AppState → Connection × AppState
open_connection username s =
    let connection_id = s.next_connection_id in
    let (address, s₁) =
      unbounded_channel (record s { next_connection_id = (connection_id + 1) % u64_mod }) in
    let client : ActiveClient = record { connection_id = connection_id; sender = address } in
    (
      record { username = username; connection_id = connection_id; address = address },
      print (connected connection_id username)
          (record s₁ { active_clients = Dict.insert username client s₁.active_clients }),
    )

-- One round of `receive_task`: whether the loop goes on.
unfoldable pub receive_turn : Environment → Connection → Incoming → AppState → Bool × AppState
receive_turn env c (binary bytes) s =
    let (r, s') = handle_encrypted_payload env c.username bytes s in
    (true, elim r [ ok _ ↦ s' | err _ ↦ print (payload_failed c.connection_id) s' ])
receive_turn env c (text_frame t) s = (true, print (plaintext_rejected (len t)) s)
receive_turn env c close s = (false, s)
receive_turn env c ping s = (true, s)
receive_turn env c pong s = (true, s)
receive_turn env c failed s = (false, print (websocket_failed c.connection_id) s)
receive_turn env c end_of_stream s = (false, s)

-- `outbound_receiver.recv()`: the oldest payload, if there is one.
unfoldable pub recv : ℕ → AppState → Option Bytes × AppState
recv address s = elim (get_elem? s.channels address) [
  | none ↦ (none, s)
  | some c ↦ elim c.buffer [
    | [] ↦ (none, s)
    | payload ∷ rest ↦
        (some payload, record s { channels = set s.channels address (record c { buffer = rest }) })
  ]
]

-- One round of `send_task`: what was written to the socket, and whether the loop goes on. When it
-- ends, the task's receiver is dropped. With nothing to send the task waits.
unfoldable pub send_turn : Connection → Bool → AppState → Option Bytes × Bool × AppState
send_turn c accepts s =
    let (next, s') = recv c.address s in
    elim next [
      | none ↦ (none, true, s')
      | some payload ↦
          if accepts then (some payload, true, s') else (none, false, drop_receiver c.address s')
    ]

-- `active_clients.get(&username).is_some_and(|client| client.connection_id == connection_id)`
abbrev pub is_own : Connection → Option ActiveClient → Bool
is_own c none = false
is_own c (some client) = client.connection_id == c.connection_id

-- The last part, after one of the tasks has ended: the other is aborted, and the entry is removed
-- if it still belongs to this connection.
unfoldable pub close_connection : Connection → AppState → AppState
close_connection c s =
    let s₁ = drop_receiver c.address s in
    let should_remove = is_own c (Dict.get c.username s₁.active_clients) in
    let remaining =
      if should_remove then Dict.remove c.username s₁.active_clients else s₁.active_clients in
    print (disconnected c.connection_id c.username) (record s₁ { active_clients = remaining })
