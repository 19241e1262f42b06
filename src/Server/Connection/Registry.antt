-- ===== src/Server/Connection/Registry.antt =====
-- Which connection a name leads to, while connections come and go.
use phantasma.Prelude.{
  ◌+◌, ◌%◌, ◌≡◌, Text, true, ◌&&◌, none, some, [], arith, length, ◌==◌, nat_eq, text_eq,
  if◌then◌else◌,
}
use phantasma.Prelude.Dict
use phantasma.Server.State.{AppState, unbounded_channel}
use phantasma.Server.State.Channels.{
  buffer, is_live, drop_receiver_lem, unbounded_channel_lem, buffer-length,
}
use phantasma.Server.Connection.{Connection, u64_mod, is_own, open_connection, close_connection}

-- Closing a connection takes its name out of the registry if the entry is its own. The entry that a later connection of
-- the same user has made stays, and so does every other name.
pub get-close_connection :
    (c : Connection) (name : Text) (s : AppState)
    → let entry = Dict.get name s.active_clients in
      Dict.get name (close_connection c s).active_clients
      ≡ (if name == c.username && is_own c entry then none else entry)
unfolding close_connection
get-close_connection c name s =
    ground
      (arith, drop_receiver_lem c.address 0 s, Dict.get-remove name c.username s.active_clients)

-- A new connection takes over its name, whoever held it, with a channel that is open and empty.
-- Every other name keeps its entry, and the database does not change.
pub get-open_connection :
    (username name : Text) (s : AppState)
    → let (c, s') = open_connection username s in
      (Dict.get name s'.active_clients ≡ (
        if name == username
        then some (record { connection_id = c.connection_id; sender = c.address })
        else Dict.get name s.active_clients))
      × (is_live c.address s' ≡ true)
      × (buffer c.address s' ≡ [])
      × (s'.directory ≡ s.directory)
unfolding open_connection buffer is_live
get-open_connection username name s =
    let s₀ = record s { next_connection_id = (s.next_connection_id + 1) % u64_mod } in
    ground (
      arith,
      unbounded_channel_lem (length s.channels) s₀,
      buffer-length s₀,
      Dict.get-insert name username
          (record { connection_id = s.next_connection_id; sender = (unbounded_channel s₀).0 })
          (unbounded_channel s₀).1.active_clients,
    )
