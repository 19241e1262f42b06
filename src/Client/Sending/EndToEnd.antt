-- ===== src/Client/Sending/EndToEnd.antt =====
-- From the line that one user types, through the relay, to the line that the other user reads.
use phantasma.Prelude.{
  Result, false, err, map_err, List, Bool, sym, ◌∙◌, arith, ℕ, Text, Bytes, true, some, none, ok,
  ◌≡◌, refl, ap, ◌++◌, ◌∷◌, [], ◌==◌, nat_eq, text_eq, length, ◌<◌, ◌^◌, if◌then◌else◌,
}
use phantasma.Prelude.Dict
use phantasma.Shared.Codec as Codec
use phantasma.Shared.Codec.{Codec}
use phantasma.Shared.Plaintext as Plaintext
use phantasma.Shared.Plaintext.{PlaintextChatMessage}
use phantasma.Shared.Validation.{is_valid_username}
use phantasma.Server.State.{ActiveClient, AppState, Environment, database}
use phantasma.Server.State.Channels.{buffer, is_live}
use phantasma.Server.Payload.{handle_encrypted_payload}
use phantasma.Server.Payload.Routing.{handle_encrypted_payload-relays}
use phantasma.Server.Directory.Queue.Order.{IsSound}
use phantasma.Server.Directory.Queue.Contents.{waiting, added, next_message}
use phantasma.Server.Sqlite.{SqlxError}
use phantasma.Server.Directory.Queue.{QueuedMessage, queue_message}
use phantasma.Server.Delivery.Outcome.{payloads}
use phantasma.Server.Payload.Frame.{handle_encrypted_payload-IsSound}
use phantasma.Server.Payload.Routing.{reachable, handle_encrypted_payload-queues}
use phantasma.Server.System.StoreForward.{
  connection_of, connect_and_deliver, connect_and_deliver_complete,
}
use phantasma.Client.Crypto as Crypto
use phantasma.Client.Crypto.{Primitives}
use phantasma.Client.Identity.{Identity}
use phantasma.Client.Directory.{Outside, ClientState, received}
use phantasma.Client.Messages.{receive_message}
use phantasma.Client.Sending.{send_message}
use phantasma.Client.Sending.Typed.{IsTrimmed}
use phantasma.Client.Sending.Sealed.{HasKeys, Knows, sealed}

-- A message that was queued for the name stands last.
payloads-added_ok :
    (held : List QueuedMessage) (m : QueuedMessage) (answer : Result SqlxError (Unit {0}))
    (same : Bool)
    → map_err database answer ≡ ok tt
    → same ≡ true
    → payloads (held ++ added answer same m) ≡ payloads held ++ m.payload ∷ []
payloads-added_ok [] m (ok u) same h e = rw e refl
payloads-added_ok (x ∷ held) m (ok u) same h e =
    ap (λ rest. x.payload ∷ rest) (payloads-added_ok held m (ok u) same h e)
payloads-added_ok [] m (err f) same h e = absurd (cc)
payloads-added_ok (x ∷ held) m (err f) same h e = absurd (cc)

module _ (env : Environment) (p : Primitives) (laws : Crypto.IsLawful p)
    (plaintext : Codec PlaintextChatMessage) (plaintext_laws : Codec.IsLawful plaintext)
    (routed_laws : Codec.IsLawful env.routed) (encrypted_laws : Codec.IsLawful env.encrypted)
    (sending receiving : Outside) (sending_url receiving_url : Text) where
  -- Two users with their key pairs who have saved each other's key, the recipient connected to the
  -- relay: a line typed after `/send`, with a valid name and a body that is trimmed and below the
  -- cipher's limit, sends one payload; the relay appends one payload to the channel of the
  -- recipient and to no other; and receiving that payload shows the sender's name and the body.
  pub send_message-reaches :
      (sender recipient body : Text) (a b nonce wire : Bytes) (ours theirs : Identity)
      (s t : ClientState) (w : AppState) (client : ActiveClient)
      → HasKeys p a ours
      → HasKeys p b theirs
      → Knows p recipient b s
      → Knows p sender a t
      → is_valid_username recipient ≡ true
      → IsTrimmed body
      → length nonce ≡ 24
      → plaintext.to_vec (Plaintext.new sender recipient body) ≡ ok wire
      → length wire < 2 ^ 32
      → sending.socket_fault s.sends ≡ none
      → Dict.get recipient w.active_clients ≡ some client
      → is_live client.sender w ≡ true
      → (payload bytes : Bytes) × (let (r, s') =
            send_message sending sending_url p plaintext env.routed nonce sender ours
              (recipient ++ 0x20 ∷ body)
              s in
          (r ≡ ok tt) × (s'.sent ≡ s.sent ++ payload ∷ []))
        × (let (r, w') = handle_encrypted_payload env sender payload w in
            (r ≡ ok tt)
            × ((other : ℕ)
                → buffer other w'
                  ≡ buffer other w ++ (if client.sender == other then bytes ∷ [] else [])))
        × (receive_message receiving receiving_url p plaintext env.encrypted recipient
              theirs.encryption_secret_key theirs.encryption_public_key bytes t
            ≡ (ok tt, record t { output = t.output ++ received sender body ∷ [] }))
  send_message-reaches sender recipient body a b nonce wire ours theirs s t w client our_keys
        their_keys to from valid typed n plain small ready online live =
      let l =
        sealed env p laws plaintext plaintext_laws routed_laws encrypted_laws sending receiving
          sending_url receiving_url sender recipient body a b nonce wire ours theirs s t our_keys
          their_keys to from valid typed n plain small ready in
      let relay =
        handle_encrypted_payload-relays env sender l.payload w l.routed l.bytes l.accepted client
          (rw l.addressed online) live in
      (l.payload, l.bytes, (l.sends, l.writes), (relay.0, relay.1), l.shows)

  -- The same two users, the recipient away from the relay, whose database works and whose queue is
  -- in order: a line typed after `/send` sends one payload. If the relay's handler reports success,
  -- then the next connection of the recipient finds in its channel what waited before and, last,
  -- one payload more; nothing waits any longer; and receiving that payload shows the sender's name
  -- and the body.
  pub send_message-waits :
      (sender recipient body : Text) (a b nonce wire : Bytes) (ours theirs : Identity)
      (s t : ClientState) (w : AppState)
      → HasKeys p a ours
      → HasKeys p b theirs
      → Knows p recipient b s
      → Knows p sender a t
      → is_valid_username recipient ≡ true
      → IsTrimmed body
      → length nonce ≡ 24
      → plaintext.to_vec (Plaintext.new sender recipient body) ≡ ok wire
      → length wire < 2 ^ 32
      → sending.socket_fault s.sends ≡ none
      → reachable (Dict.get recipient w.active_clients) w ≡ false
      → IsSound w.directory
      → ((k : ℕ) → env.sqlite.fault k ≡ none)
      → (payload bytes : Bytes) × (let (r, s') =
            send_message sending sending_url p plaintext env.routed nonce sender ours
              (recipient ++ 0x20 ∷ body)
              s in
          (r ≡ ok tt) × (s'.sent ≡ s.sent ++ payload ∷ []))
        × ((handle_encrypted_payload env sender payload w).0 ≡ ok tt
            → let w' = (handle_encrypted_payload env sender payload w).1 in
              let w'' = connect_and_deliver env recipient w' in
              (buffer (connection_of recipient w').address w''
                ≡ payloads (waiting recipient w.directory) ++ bytes ∷ [])
              × (waiting recipient w''.directory ≡ []))
        × (receive_message receiving receiving_url p plaintext env.encrypted recipient
              theirs.encryption_secret_key theirs.encryption_public_key bytes t
            ≡ (ok tt, record t { output = t.output ++ received sender body ∷ [] }))
  send_message-waits sender recipient body a b nonce wire ours theirs s t w our_keys their_keys to
        from valid typed n plain small ready away sound works =
      let l =
        sealed env p laws plaintext plaintext_laws routed_laws encrypted_laws sending receiving
          sending_url receiving_url sender recipient body a b nonce wire ours theirs s t our_keys
          their_keys to from valid typed n plain small ready in
      let queues =
        handle_encrypted_payload-queues env sender l.payload w l.routed l.bytes l.accepted
          (rw l.addressed away) sound.has_queue in
      (
        l.payload,
        l.bytes,
        (l.sends, l.writes),
        (λ accepted.
            let w' = (handle_encrypted_payload env sender l.payload w).1 in
            let sound' = handle_encrypted_payload-IsSound env sender l.payload w sound in
            let (full, empty, _) = connect_and_deliver_complete env recipient w' sound' works in
            let last : payloads (waiting recipient w'.directory)
                ≡ payloads (waiting recipient w.directory) ++ l.bytes ∷ [] =
              rw (queues.2 recipient) (
                payloads-added_ok (waiting recipient w.directory) (next_message w.directory l.bytes)
                  (queue_message env.sqlite l.routed.to l.bytes w.directory).0
                  (l.routed.to == recipient) (sym queues.0 ∙ accepted)
                  (ground (arith, l.addressed))) in
            (full ∙ last, empty)),
        l.shows,
      )
