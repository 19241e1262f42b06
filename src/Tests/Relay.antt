-- ===== src/Tests/Relay.antt =====
-- The relay at concrete data: bob is connected, and alice sends.
use phantasma.Prelude.{
  ℕ, ◌≡◌, ◌≢◌, refl, Text, Bytes, true, false, none, some, List, [], ◌∷◌, ◌++◌, arith, ok, map_err,
  all, length, nat_eq, text_eq, string_eq, keep, ◌==◌, if◌then◌else◌,
}
use phantasma.Prelude.Dict
use phantasma.Prelude.Utf8.{len, len_utf8, is_ascii_alphanumeric}
use phantasma.Shared.Encrypted
use phantasma.Shared.Encrypted.{EncryptedChatMessage}
use phantasma.Shared.Routed
use phantasma.Shared.Routed.{RoutedEncryptedMessage}
use phantasma.Shared.Validation.{is_valid_username, is_username_char}
use phantasma.Server.Sqlite.{fresh}
use phantasma.Server.Sqlite as Sql
use phantasma.Server.Directory.Queue.{
  QueuedMessage, queue_message, queued_messages_for, delete_queued_message, delete_id, is_for,
  order_by_id, insert_by_id,
}
use phantasma.Server.Directory.Queue.Contents.{waiting, added, next_message}
use phantasma.Server.State.{AppState, Environment, database, send, unbounded_channel}
use phantasma.Server.State.Channels.{buffer, is_live}
use phantasma.Server.Hex.{hex_preview}
use phantasma.Server.Http.{}
use phantasma.Server.Http.Directory.{}
use phantasma.Server.Payload.{handle_encrypted_payload, relay_or_queue, send_to}
use phantasma.Server.Payload.Routing.{
  IsAccepted, reachable, handle_encrypted_payload-rejects, handle_encrypted_payload-queues,
  handle_encrypted_payload-relays,
}
use phantasma.Server.Delivery.{deliver_loop, deliver_queued_messages}
use phantasma.Server.Delivery.Outcome.{IsAccounted, payloads}
use phantasma.Server.Delivery.Accounting.{deliver_queued_messages-accounts}
use phantasma.Server.Connection.{open_connection}
use phantasma.Server.System.{}
use phantasma.Server.System.StoreForward.{connection_of, connect_and_deliver}
use phantasma.Server.System.Gaps.{relay_or_queue-strands}
use phantasma.Tests.Codecs.{routed, encrypted}
use phantasma.Tests.Tables.{sqlite, alice, bob, tables, tables-IsSound}

abbrev pub env : Environment
env = record { sqlite = sqlite; routed = routed; encrypted = encrypted }

-- Over the tables, with a channel for bob at address 0.
abbrev pub online : AppState
online = record {
  active_clients = (bob, record { connection_id = 1; sender = 0 }) ∷ [];
  directory = tables;
  next_connection_id = 2;
  channels = record { buffer = []; is_open = true } ∷ [];
  log = [];
}

abbrev pub message : EncryptedChatMessage
message = record {
  version = 1;
  sender_encryption_public_key = 7 ∷ [];
  nonce = 8 ∷ [];
  ciphertext = 9 ∷ [];
}

abbrev to_bob : RoutedEncryptedMessage
to_bob = record { from = alice; to = bob; encrypted = message }

abbrev to_alice : RoutedEncryptedMessage
to_alice = record { from = alice; to = alice; encrypted = message }

-- `field from ++ field to ++ ...` as the codec writes it
abbrev bytes : Bytes
bytes = 1 ∷ 1 ∷ 7 ∷ 1 ∷ 8 ∷ 1 ∷ 9 ∷ []

abbrev pub wire : Text → Bytes
wire to = 5 ∷ (alice ++ (length to ∷ (to ++ bytes)))

IsAccepted-bob : IsAccepted env alice (wire bob) to_bob bytes
unfolding Routed.from_wire_bytes Encrypted.to_wire_bytes is_valid_username len len_utf8 all
    is_username_char is_ascii_alphanumeric nat_eq
IsAccepted-bob = record { reads = refl; writes = refl; from_sender = refl; to_valid = refl }

IsAccepted-alice : IsAccepted env alice (wire alice) to_alice bytes
unfolding Routed.from_wire_bytes Encrypted.to_wire_bytes is_valid_username len len_utf8 all
    is_username_char is_ascii_alphanumeric nat_eq
IsAccepted-alice = record { reads = refl; writes = refl; from_sender = refl; to_valid = refl }

pub bob_online :
    Dict.get bob online.active_clients ≡ some (record { connection_id = 1; sender = 0 })
unfolding Dict.get text_eq
bob_online = refl

pub bob_live : is_live 0 online ≡ true
unfolding is_live
bob_live = refl

alice_offline : reachable (Dict.get alice online.active_clients) online ≡ false
unfolding Dict.get text_eq
alice_offline = refl

handle_encrypted_payload-relays_example :
    let (r, s') = handle_encrypted_payload env alice (wire bob) online in
    (r ≡ ok tt)
    × ((other : ℕ)
        → buffer other s' ≡ buffer other online ++ (if 0 == other then bytes ∷ [] else []))
    × (s' ≡ record online { channels = s'.channels; log = s'.log })
handle_encrypted_payload-relays_example =
    handle_encrypted_payload-relays env alice (wire bob) online to_bob bytes IsAccepted-bob
      (record { connection_id = 1; sender = 0 }) bob_online bob_live

handle_encrypted_payload-queues_example :
    let (r, s') = handle_encrypted_payload env alice (wire alice) online in
    let answer = (queue_message sqlite alice bytes tables).0 in
    (r ≡ map_err database answer)
    × ((other : ℕ) → buffer other s' ≡ buffer other online)
    × ((name : Text)
        → waiting name s'.directory
          ≡ waiting name tables ++ added answer (alice == name) (next_message tables bytes))
    × (s'.active_clients ≡ online.active_clients)
handle_encrypted_payload-queues_example =
    handle_encrypted_payload-queues env alice (wire alice) online to_alice bytes IsAccepted-alice
      alice_offline refl

pub alice_ne_bob : alice ≢ bob
alice_ne_bob e = ground arith

-- Bob's connection sends what claims to be from alice.
not-IsAccepted : (r : RoutedEncryptedMessage) (b : Bytes) → ¬ IsAccepted env bob (wire bob) r b
unfolding Routed.from_wire_bytes
not-IsAccepted r b a = alice_ne_bob (cc (a.reads, a.from_sender))

handle_encrypted_payload-rejects_example :
    let s' = (handle_encrypted_payload env bob (wire bob) online).1 in
    s' ≡ record online { log = s'.log }
handle_encrypted_payload-rejects_example =
    handle_encrypted_payload-rejects env bob (wire bob) online not-IsAccepted

deliver_queued_messages-accounts_example :
    let s' = deliver_queued_messages env bob 0 online in
    (sent : List QueuedMessage) × IsAccounted (waiting bob tables) sent (waiting bob s'.directory)
    × ((other : ℕ)
        → buffer other s' ≡ buffer other online ++ (if 0 == other then payloads sent else []))
deliver_queued_messages-accounts_example =
    deliver_queued_messages-accounts env bob 0 online bob_live tables-IsSound

queued_late : (relay_or_queue env bob bytes none (connect_and_deliver env bob online)).0 ≡ ok tt
unfolding relay_or_queue send_to open_connection unbounded_channel send deliver_queued_messages
    deliver_loop queued_messages_for delete_queued_message delete_id queue_message Sql.run keep
    is_for order_by_id insert_by_id hex_preview text_eq nat_eq
queued_late = refl

relay_or_queue-strands_example :
    let here = connect_and_deliver env bob online in
    let address = (connection_of bob online).address in
    let s' = (relay_or_queue env bob bytes none here).1 in
    (waiting bob s'.directory ≡ next_message here.directory bytes ∷ [])
    × (Dict.get bob s'.active_clients
        ≡ some
            (record { connection_id = (connection_of bob online).connection_id; sender = address }))
    × (is_live address s' ≡ true)
    × (buffer address s' ≡ payloads (waiting bob tables))
relay_or_queue-strands_example =
    relay_or_queue-strands env bob bytes online tables-IsSound (λ n. refl) queued_late
