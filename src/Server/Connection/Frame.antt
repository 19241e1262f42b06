-- ===== src/Server/Connection/Frame.antt =====
-- How the pieces of `handle_socket` change the registry, the channels and the tables.
use phantasma.Prelude.{
  ℕ, ◌+◌, ◌%◌, ◌≡◌, Text, Bool, true, false, none, some, [], ◌∷◌, arith, length, ◌==◌, nat_eq,
  if◌then◌else◌, get_elem?, get_elem?-set, length-set, Option-cases, List-cases, inl, inr,
}
use phantasma.Server.Directory.Queue.Order.{IsSound}
use phantasma.Server.State.{AppState, Channel, Environment}
use phantasma.Server.State.Channels.{is_live, buffer, drop_receiver_lem, unbounded_channel_lem}
use phantasma.Server.State.Frame.{SameRegistry, SameRegistry-refl}
use phantasma.Server.Payload.Frame.{
  handle_encrypted_payload-SameRegistry, handle_encrypted_payload-IsSound,
}
use phantasma.Server.Connection.{
  Connection, Incoming, binary, text_frame, u64_mod, open_connection, receive_turn, recv, send_turn,
  close_connection,
}

module _ (env : Environment) (c : Connection) where
  pub receive_turn-SameRegistry :
      (other : ℕ) (i : Incoming) (s : AppState) → SameRegistry other s (receive_turn env c i s).1
  unfolding receive_turn is_live
  receive_turn-SameRegistry other (binary bytes) s =
      ground (arith, handle_encrypted_payload-SameRegistry env other c.username bytes s)
  receive_turn-SameRegistry other (text_frame t) s = SameRegistry-refl other s
  receive_turn-SameRegistry other _ s = SameRegistry-refl other s

  pub receive_turn-IsSound :
      (i : Incoming) (s : AppState)
      → IsSound s.directory
      → IsSound (receive_turn env c i s).1.directory
  unfolding receive_turn
  receive_turn-IsSound (binary bytes) s sound =
      ground (arith, handle_encrypted_payload-IsSound env c.username bytes s sound)
  receive_turn-IsSound (text_frame t) s sound = sound
  receive_turn-IsSound _ s sound = sound

-- Taking a payload out of a channel gives its oldest, and changes nothing else.
pub recv_lem :
    (address other : ℕ) (s : AppState)
    → let (next, s') = recv address s in
      (buffer address s ≡ elim next [ none ↦ [] | some payload ↦ payload ∷ buffer address s' ])
      × SameRegistry other s s'
      × (s'.directory ≡ s.directory)
unfolding recv buffer is_live
recv_lem address other s = elim (Option-cases (get_elem? s.channels address)) [
  | inl e ↦ ground arith
  | inr (c, e) ↦ elim (List-cases c.buffer) [
    | inl d ↦ ground arith
    | inr (payload, rest, d) ↦
        let c' : Channel = record c { buffer = rest } in
        ground (
          arith,
          get_elem?-set s.channels address address c' c e,
          get_elem?-set s.channels address other c' c e,
          length-set s.channels address c',
        )
  ]
]

-- A round of the sending task leaves every other receiver, the registry and the tables alone; its
-- own receiver stays exactly if the task goes on.
pub send_turn_lem :
    (c : Connection) (accepts : Bool) (other : ℕ) (s : AppState)
    → let (written, goes_on, s') = send_turn c accepts s in
      (is_live other s' ≡ (
        if goes_on then is_live other s else if c.address == other then false else is_live other s))
      × (s'.active_clients ≡ s.active_clients)
      × (s'.next_connection_id ≡ s.next_connection_id)
      × (length s'.channels ≡ length s.channels)
      × (s'.directory ≡ s.directory)
unfolding send_turn
send_turn_lem c accepts other s =
    ground
      (arith, recv_lem c.address other s, drop_receiver_lem c.address other (recv c.address s).1)

pub open_connection_lem :
    (username : Text) (other : ℕ) (s : AppState)
    → let (c, s') = open_connection username s in
      (c ≡ record {
        username = username;
        connection_id = s.next_connection_id;
        address = length s.channels;
      })
      × (is_live other s' ≡ (if length s.channels == other then true else is_live other s))
      × (s'.next_connection_id ≡ (s.next_connection_id + 1) % u64_mod)
      × (length s'.channels ≡ length s.channels + 1)
      × (s'.directory ≡ s.directory)
unfolding open_connection is_live
open_connection_lem username other s = ground (
  arith,
  unbounded_channel_lem other
      (record s { next_connection_id = (s.next_connection_id + 1) % u64_mod }),
)

pub close_connection_lem :
    (c : Connection) (other : ℕ) (s : AppState)
    → let s' = close_connection c s in
      (is_live other s' ≡ (if c.address == other then false else is_live other s))
      × (s'.next_connection_id ≡ s.next_connection_id)
      × (length s'.channels ≡ length s.channels)
      × (s'.directory ≡ s.directory)
unfolding close_connection is_live
close_connection_lem c other s = ground (arith, drop_receiver_lem c.address other s)
