-- ===== src/Server/Payload/Routing.antt =====
-- Where `handle_encrypted_payload` puts a message, on every branch.
use phantasma.Prelude.{
  ℕ, ◌≡◌, inl, inr, Text, Bytes, Bool, true, false, ◌&&◌, Option, none, some, [], ◌∷◌, ◌++◌, arith,
  ok, map_err, ◌==◌, text_eq, nat_eq, if◌then◌else◌, Result-cases,
}
use mathlib.Core.List.{append-nil}
use phantasma.Prelude.Dict
use phantasma.Shared.Encrypted
use phantasma.Shared.Routed
use phantasma.Shared.Routed.{RoutedEncryptedMessage}
use phantasma.Shared.Validation.{is_valid_username}
use phantasma.Server.Directory.Queue.{queue_message}
use phantasma.Server.Directory.Queue.Contents.{waiting, added, next_message, queue_message-waiting}
use phantasma.Server.State.{ActiveClient, AppState, Environment, database}
use phantasma.Server.State.Channels.{buffer, is_live, send_lem}
use phantasma.Server.Payload.{send_to, relay_or_queue, handle_encrypted_payload}

-- A client that can take messages: registered, and its receiver not dropped.
abbrev pub reachable : Option ActiveClient → AppState → Bool
reachable none s = false
reachable (some client) s = is_live client.sender s

abbrev pub address_is : Option ActiveClient → ℕ → Bool
address_is none a = false
address_is (some client) a = client.sender == a

send_to_lem :
    (recipient : Option ActiveClient) (other : ℕ) (payload : Bytes) (s : AppState)
    → let (sent, s') = send_to recipient payload s in
      (sent ≡ reachable recipient s)
      × (buffer other s'
          ≡ buffer other s ++ (if sent && address_is recipient other then payload ∷ [] else []))
      × (s' ≡ record s { channels = s'.channels })
unfolding send_to
send_to_lem none other payload s = ground (arith, append-nil (buffer other s))
send_to_lem (some client) other payload s = ground (arith, send_lem client.sender other payload s)

module _ (env : Environment) (to : Text) (bytes : Bytes) where
  pub relay_or_queue-relays :
      (client : ActiveClient) (s : AppState)
      → is_live client.sender s ≡ true
      → let (r, s') = relay_or_queue env to bytes (some client) s in
        (r ≡ ok tt)
        × ((other : ℕ)
            → buffer other s'
              ≡ buffer other s ++ (if client.sender == other then bytes ∷ [] else []))
        × (s' ≡ record s { channels = s'.channels; log = s'.log })
  unfolding relay_or_queue send_to buffer
  relay_or_queue-relays client s live =
      let facts = λ (other : ℕ). send_lem client.sender other bytes s in
      (ground (arith, facts 0), (λ other. ground (arith, facts other)), ground (arith, facts 0))

  pub relay_or_queue-queues :
      (recipient : Option ActiveClient) (s : AppState)
      → reachable recipient s ≡ false
      → s.directory.has_queue ≡ true
      → let (r, s') = relay_or_queue env to bytes recipient s in
        let answer = (queue_message env.sqlite to bytes s.directory).0 in
        (r ≡ map_err database answer)
        × ((other : ℕ) → buffer other s' ≡ buffer other s)
        × ((name : Text)
            → waiting name s'.directory
              ≡ waiting name s.directory
                ++ added answer (to == name) (next_message s.directory bytes))
        × (s'.active_clients ≡ s.active_clients)
  unfolding relay_or_queue buffer
  relay_or_queue-queues recipient s lost ready =
      let facts = λ (other : ℕ). send_to_lem recipient other bytes s in
      (
        ground (arith, facts 0),
        (λ other. ground (arith, facts other, append-nil (buffer other s))),
        (λ name.
            ground
              (arith, facts 0, queue_message-waiting env.sqlite s.directory ready to name bytes)),
        ground (arith, facts 0),
      )

-- Whoever the recipient is: a channel that is not its own does not change.
pub buffer-relay_or_queue_ne :
    (env : Environment) (to : Text) (bytes : Bytes) (recipient : Option ActiveClient) (other : ℕ)
    (s : AppState)
    → address_is recipient other ≡ false
    → buffer other (relay_or_queue env to bytes recipient s).1 ≡ buffer other s
unfolding relay_or_queue buffer
buffer-relay_or_queue_ne env to bytes recipient other s ne =
    ground (arith, send_to_lem recipient other bytes s, append-nil (buffer other s))

-- The payload reads as a message from the user of the connection to a valid name, and `bytes` is
-- the wire form of the encrypted part.
pub record IsAccepted (env : Environment) (sender : Text) (payload : Bytes)
    (routed : RoutedEncryptedMessage) (bytes : Bytes) : Type 0 where
  pub reads : Routed.from_wire_bytes env.routed payload ≡ ok routed
  pub writes : Encrypted.to_wire_bytes env.encrypted routed.encrypted ≡ ok bytes
  pub from_sender : routed.from ≡ sender
  pub to_valid : is_valid_username routed.to ≡ true

module _ (env : Environment) (sender : Text) (payload : Bytes) (s : AppState) where
  -- A payload that does not read, whose encrypted part cannot be written, that claims another
  -- sender than the user of the connection, or that names an invalid recipient, changes nothing
  -- but the log.
  pub handle_encrypted_payload-rejects :
      ((routed : RoutedEncryptedMessage) (bytes : Bytes)
        → ¬ IsAccepted env sender payload routed bytes)
      → let s' = (handle_encrypted_payload env sender payload s).1 in s' ≡ record s { log = s'.log }
  unfolding handle_encrypted_payload
  handle_encrypted_payload-rejects h =
      elim (Result-cases (Routed.from_wire_bytes env.routed payload)) [
        | inr (f, e) ↦ ground arith
        | inl (routed, e) ↦
            elim (Result-cases (Encrypted.to_wire_bytes env.encrypted routed.encrypted)) [
              | inr (f, d) ↦ ground arith
              | inl (bytes, d) ↦ ground (
                arith,
                λ (p : routed.from ≡ sender) (v : is_valid_username routed.to ≡ true).
                    h routed bytes
                      (record { reads = e; writes = d; from_sender = p; to_valid = v }),
              )
            ]
      ]

  module _ (routed : RoutedEncryptedMessage) (bytes : Bytes)
      (a : IsAccepted env sender payload routed bytes) where
    abbrev recipient : Option ActiveClient
    recipient = Dict.get routed.to s.active_clients

    handle_encrypted_payload-accepts :
        handle_encrypted_payload env sender payload s
        ≡ relay_or_queue env routed.to bytes recipient s
    unfolding handle_encrypted_payload
    handle_encrypted_payload-accepts = ground (arith)

    -- An accepted message for a registered client whose channel is open goes last into that
    -- channel and nowhere else: no other channel, no table and no registration changes.
    pub handle_encrypted_payload-relays :
        (client : ActiveClient)
        → Dict.get routed.to s.active_clients ≡ some client
        → is_live client.sender s ≡ true
        → let (r, s') = handle_encrypted_payload env sender payload s in
          (r ≡ ok tt)
          × ((other : ℕ)
              → buffer other s'
                ≡ buffer other s ++ (if client.sender == other then bytes ∷ [] else []))
          × (s' ≡ record s { channels = s'.channels; log = s'.log })
    handle_encrypted_payload-relays client e live =
        rw handle_encrypted_payload-accepts
          (rw e (relay_or_queue-relays env routed.to bytes client s live))

    -- An accepted message for a user without a reachable client, over a database with its queue
    -- table, goes last into the queue of its recipient, and nowhere else. If the insertion
    -- fails, the handler fails with its error, and no channel and no queue has changed.
    pub handle_encrypted_payload-queues :
        reachable (Dict.get routed.to s.active_clients) s ≡ false
        → s.directory.has_queue ≡ true
        → let (r, s') = handle_encrypted_payload env sender payload s in
          let answer = (queue_message env.sqlite routed.to bytes s.directory).0 in
          (r ≡ map_err database answer)
          × ((other : ℕ) → buffer other s' ≡ buffer other s)
          × ((name : Text)
              → waiting name s'.directory
                ≡ waiting name s.directory
                  ++ added answer (routed.to == name) (next_message s.directory bytes))
          × (s'.active_clients ≡ s.active_clients)
    handle_encrypted_payload-queues lost ready =
        rw handle_encrypted_payload-accepts
          (relay_or_queue-queues env routed.to bytes recipient s lost ready)
