-- ===== src/Server/Payload.antt =====
-- server/src/main.rs: `handle_encrypted_payload`.
pub mod Routing
pub mod Frame
use phantasma.Prelude.{
  ℕ, Text, Bytes, Bool, true, false, not, Option, none, some, List, [], ◌∷◌, ◌++◌, Result, ok, err,
  Exec, pure, map_err, continue, ◌>>=◌, ◌>>◌, length, ◌==◌, text_eq, if◌then◌else◌,
}
use phantasma.Prelude.Dict
use phantasma.Shared.Encrypted
use phantasma.Shared.Routed
use phantasma.Shared.Validation.{is_valid_username}
use phantasma.Server.Directory.Queue.{queue_message}
use phantasma.Server.State.{
  ActiveClient, AppState, Environment, RelayError, LogLine, forged_sender, invalid_recipient,
  relayed, queued, json, database, print, on_directory, send,
}
use phantasma.Server.Hex.{hex_preview}

abbrev pub Relay : Type 0 → Type 0
Relay A = Exec AppState RelayError A

abbrev lift : {A : Type 0} → Result RelayError A → Relay A
lift r s = (r, s)

abbrev say : LogLine → Relay Unit
say line s = (ok tt, print line s)

-- `recipient.is_some()` and the send to it succeeded.
unfoldable pub send_to : Option ActiveClient → Bytes → AppState → Bool × AppState
send_to none payload s = (false, s)
send_to (some client) payload s = send client.sender payload s

-- The part of the handler after the lock on `active_clients` is given back.
unfoldable pub relay_or_queue : Environment → Text → Bytes → Option ActiveClient → Relay Unit
relay_or_queue env to payload recipient s =
    let (sent, s') = send_to recipient payload s in
    if sent
    then say (relayed to (length payload) (hex_preview payload)) s'
    else (do
      on_directory database (queue_message env.sqlite to payload)
      say (queued to (length payload) (hex_preview payload)))
        s'

unfoldable pub handle_encrypted_payload : Environment → Text → Bytes → Relay Unit
handle_encrypted_payload env sender_username payload = do
  routed ← lift (map_err json (Routed.from_wire_bytes env.routed payload))
  encrypted_payload ← lift (map_err json (Encrypted.to_wire_bytes env.encrypted routed.encrypted))
  if not (routed.from == sender_username)
      then say (forged_sender routed.from sender_username)
      else if not (is_valid_username routed.to)
      then say invalid_recipient
      else λ s.
          relay_or_queue env routed.to encrypted_payload (Dict.get routed.to s.active_clients) s
