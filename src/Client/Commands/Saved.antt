-- ===== src/Client/Commands/Saved.antt =====
-- What the whole session does to a contact that is saved, and how `/add` can end the session.
use phantasma.Prelude.{
  ℕ, suc, Text, Bytes, List, [], ◌∷◌, ◌++◌, All, err, some, String, true, false, ◌≡◌, ◌≢◌, arith,
  text_eq,
}
use phantasma.Prelude.Dict
use phantasma.Prelude.Utf8.{text, is_empty}
use phantasma.Shared.Codec.{Codec}
use phantasma.Shared.Plaintext.{PlaintextChatMessage}
use phantasma.Shared.Encrypted.{EncryptedChatMessage}
use phantasma.Shared.Routed.{RoutedEncryptedMessage}
use phantasma.Shared.Registration.{PublicKeyEntry}
use phantasma.Shared.Validation.{is_valid_username}
use phantasma.Client.Crypto.{Primitives}
use phantasma.Client.Identity.{Identity}
use phantasma.Client.Directory.{Outside, ClientState, key_url, lookup_public_key, unreachable}
use phantasma.Client.Messages.{add_contact}
use phantasma.Client.Messages.Pins.{IsHonest, receive_message-keeps_contact}
use phantasma.Client.Sending.Pins.{add_contact-keeps, send_message-keeps}
use phantasma.Client.Commands.{
  Command, nothing, quit, help, contacts, other, add, send, parse_command, Event, typed, binary,
  plaintext_frame, closed, control, socket_error, end_of_input, input_error, handle_command,
  handle_event, run,
}
use phantasma.Client.Commands.Parsed.{parse_command-add_full, parse_command-typed_add}
use phantasma.Client.Commands.Reconnect.{connect_with_retry-book}
use phantasma.Client.Commands.Loop.{print_contacts-shown}

-- The event is no `/add` and no `/lookup` of the name.
abbrev pub Leaves : Text → Event → Type 0
Leaves known (typed line nonce) = parse_command line ≢ add known
Leaves known _ = Unit

module _ (o : Outside) (http_base_url : Text) (p : Primitives)
    (plaintext : Codec PlaintextChatMessage) (encrypted_codec : Codec EncryptedChatMessage)
    (routed_codec : Codec RoutedEncryptedMessage) (name : Text) (identity : Identity)
    (websocket_url : Text) where
  module _ (honest : IsHonest o http_base_url) (known : Text) (entry : PublicKeyEntry) where
    abbrev IsSaved : ClientState → Type 0
    IsSaved s = Dict.get known s.book.contacts ≡ some entry

    handle_command-keeps :
        (command : Command) (nonce : Bytes) (s : ClientState)
        → command ≢ add known
        → IsSaved s
        → IsSaved
            (handle_command o http_base_url p plaintext encrypted_codec routed_codec name identity
              websocket_url command nonce s).1
    unfolding handle_command
    handle_command-keeps nothing nonce s n h = h
    handle_command-keeps quit nonce s n h = h
    handle_command-keeps help nonce s n h = h
    handle_command-keeps contacts nonce s n h = ground (arith, print_contacts-shown s)
    handle_command-keeps (add u) nonce s n h =
        ground (arith, add_contact-keeps o http_base_url known entry u s honest (λ e. n (cc)) h)
    handle_command-keeps (send rest) nonce s n h = ground (
      arith,
      send_message-keeps o http_base_url known entry p plaintext routed_codec nonce name identity
          rest s honest h,
    )
    handle_command-keeps other nonce s n h = h

    handle_event-keeps :
        (fuel : ℕ) (event : Event) (s : ClientState)
        → Leaves known event
        → IsSaved s
        → IsSaved
            (handle_event o http_base_url p plaintext encrypted_codec routed_codec name identity
              websocket_url fuel event s).1
    unfolding handle_event
    handle_event-keeps fuel (typed line nonce) s n h =
        handle_command-keeps (parse_command line) nonce s n h
    handle_event-keeps fuel end_of_input s n h = h
    handle_event-keeps fuel (input_error e) s n h = h
    handle_event-keeps fuel (binary bytes) s n h = ground (
      arith,
      receive_message-keeps_contact o http_base_url p plaintext encrypted_codec name
          identity.encryption_secret_key identity.encryption_public_key bytes known entry s honest
          h,
    )
    handle_event-keeps fuel (plaintext_frame t) s n h = h
    handle_event-keeps fuel closed s n h = rw (connect_with_retry-book o websocket_url fuel _) h
    handle_event-keeps fuel control s n h = h
    handle_event-keeps fuel (socket_error e) s n h =
        rw (connect_with_retry-book o websocket_url fuel _) h

    -- If the server answers each successful request for a valid name with an entry of that name, a
    -- contact that is saved stays as it is through the whole session, whatever arrives and whatever is typed but
    -- an `/add` or `/lookup` of that very name.
    pub run-keeps_contact :
        (fuel : ℕ) (events : List Event) (s : ClientState)
        → All (Leaves known) events
        → Dict.get known s.book.contacts ≡ some entry
        → Dict.get known
            (run o http_base_url p plaintext encrypted_codec routed_codec name identity
              websocket_url fuel events s).1.book.contacts
          ≡ some entry
    unfolding run
    run-keeps_contact fuel [] s n h = h
    run-keeps_contact fuel (event ∷ events) s n h =
        let next =
          (handle_event o http_base_url p plaintext encrypted_codec routed_codec name identity
            websocket_url fuel event s).1 in
        let kept = handle_event-keeps fuel event s n.0 h in
        ground (arith, run-keeps_contact fuel events next n.1 kept)

  run-unreachable :
      (fuel : ℕ) (line username nonce : Text) (e : String) (events : List Event) (s : ClientState)
      → parse_command line ≡ add username
      → is_empty username ≡ false
      → is_valid_username username ≡ true
      → o.get_request s.requests (key_url o http_base_url username) ≡ err e
      → run o http_base_url p plaintext encrypted_codec routed_codec name identity websocket_url
          fuel
          (typed line nonce ∷ events)
          s
        ≡ (err (unreachable e), record s { requests = suc s.requests })
  unfolding run handle_event handle_command add_contact lookup_public_key
  run-unreachable fuel line username nonce e events s c full v f = ground arith

  -- An `/add` of a valid name whose request does not reach the server ends the whole session with
  -- that error, and no later event is handled.
  pub run-ends_at_add :
      (fuel : ℕ) (username nonce : Text) (e : String) (events : List Event) (s : ClientState)
      → is_valid_username username ≡ true
      → o.get_request s.requests (key_url o http_base_url username) ≡ err e
      → run o http_base_url p plaintext encrypted_codec routed_codec name identity websocket_url
          fuel
          (typed (text "/add " ++ username) nonce ∷ events)
          s
        ≡ (err (unreachable e), record s { requests = suc s.requests })
  run-ends_at_add fuel username nonce e events s v f =
      let line = text "/add " ++ username in
      let read = parse_command-typed_add username v in
      run-unreachable fuel line username nonce e events s read
        (parse_command-add_full line username read) v f
