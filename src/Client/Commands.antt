-- ===== src/Client/Commands.antt =====
-- client/src/main.rs: the loop over the lines that the user types and the frames that arrive.
pub mod Parsed
pub mod Reconnect
pub mod Loop
pub mod Saved
use phantasma.Prelude.{
  ℕ, zero, suc, Text, Bytes, String, not, Option, none, some, List, Result, ok, err, Exec, pure,
  raise, ◌>>=◌, ◌>>◌, ◌==◌, text_eq, ◌++◌, ◌∷◌, [], length, if◌then◌else◌,
}
use phantasma.Prelude.Utf8.{text, is_empty, len}
use phantasma.Prelude.Str.{trim, strip_prefix}
use phantasma.Shared.Codec.{Codec}
use phantasma.Shared.Plaintext.{PlaintextChatMessage}
use phantasma.Shared.Encrypted.{EncryptedChatMessage}
use phantasma.Shared.Routed.{RoutedEncryptedMessage}
use phantasma.Client.Crypto.{Primitives}
use phantasma.Client.Identity.{Identity}
use phantasma.Client.Contacts.Names.{names}
use phantasma.Client.Directory.{
  Outside, ClientState, Client, OutputLine, ClientError, input_failed, command_help,
  unknown_command, no_contacts, connection_lost, connected, contact_name, send_failed, not_opened,
  unexpected_plaintext, connection_error, connection_failed,
}
use phantasma.Client.Messages.{say, add_contact, receive_message}
use phantasma.Client.Sending.{send_message}

pub data Command : Type 0 where
  nothing quit help contacts other : Command
  add send : Text → Command

unfoldable pub prefixed : Text → Command
prefixed command = elim (strip_prefix (text "/add ") command) [
  | some username ↦ add (trim username)
  | none ↦ elim (strip_prefix (text "/send ") command) [
    | some rest ↦ send rest
    | none ↦ elim (strip_prefix (text "/to ") command) [
      | some rest ↦ send rest
      | none ↦ elim (strip_prefix (text "/lookup ") command) [
        | some username ↦ add (trim username)
        | none ↦ other
      ]
    ]
  ]
]

-- The tests on a line that is trimmed, in their order.
unfoldable pub parse_command : Text → Command
parse_command line =
    let command = trim line in
    if is_empty command
    then nothing
    else if command == text "/quit"
    then quit
    else if command == text "/help"
    then help
    else if command == text "/contacts"
    then contacts
    else prefixed command

-- What the loop waits for: a line (with the nonce that is drawn if it sends a message), the end of
-- the input or its failure; and what the socket gives.
pub data Event : Type 0 where
  typed : Text → Bytes → Event
  end_of_input closed control : Event
  input_error socket_error : String → Event
  binary : Bytes → Event
  plaintext_frame : Text → Event

-- What the loop does next; `waiting` is that no attempt to connect has succeeded so far.
pub data Flow : Type 0 where
  go_on stop waiting : Flow

abbrev shown : Client Unit → (ClientError → OutputLine) → Client Flow
shown m line s =
    let (r, s') = m s in
    elim r [ ok done ↦ (ok go_on, s') | err e ↦ (say (line e) >> pure go_on) s' ]

abbrev print_names : List Text → Client Unit
print_names [] = pure tt
print_names (name ∷ rest) = say (contact_name name) >> print_names rest

unfoldable pub print_contacts : Client Unit
print_contacts s = elim (names s.book) [
  | [] ↦ say no_contacts s
  | name ∷ rest ↦ print_names (name ∷ rest) s
]

-- The loop of `connect_with_retry`, as far as `fuel` attempts.
unfoldable pub connect_with_retry : Outside → Text → ℕ → Client Flow
connect_with_retry o url zero s = (ok waiting, s)
connect_with_retry o url (suc fuel) s = elim (o.connect_fault s.attempts url) [
  | none ↦ (say connected >> pure go_on) (record s { attempts = suc s.attempts })
  | some e ↦
      (say (connection_failed e) >> connect_with_retry o url fuel)
        (record s { attempts = suc s.attempts })
]

module _ (o : Outside) (http_base_url : Text) (p : Primitives)
    (plaintext : Codec PlaintextChatMessage) (encrypted_codec : Codec EncryptedChatMessage)
    (routed_codec : Codec RoutedEncryptedMessage) (name : Text) (identity : Identity)
    (websocket_url : Text) where
  unfoldable pub handle_command : Command → Bytes → Client Flow
  handle_command nothing nonce = pure go_on
  handle_command quit nonce = pure stop
  handle_command help nonce = say command_help >> pure go_on
  handle_command contacts nonce = print_contacts >> pure go_on
  handle_command (add username) nonce = add_contact o http_base_url username >> pure go_on
  handle_command (send rest) nonce =
      shown (send_message o http_base_url p plaintext routed_codec nonce name identity rest)
        send_failed
  handle_command other nonce = say unknown_command >> pure go_on

  unfoldable pub handle_event : ℕ → Event → Client Flow
  handle_event fuel (typed line nonce) = handle_command (parse_command line) nonce
  handle_event fuel end_of_input = pure stop
  handle_event fuel (input_error e) = raise (input_failed e)
  handle_event fuel (binary bytes) =
      shown
        (receive_message o http_base_url p plaintext encrypted_codec name
          identity.encryption_secret_key identity.encryption_public_key bytes)
        not_opened
  handle_event fuel (plaintext_frame s) = say (unexpected_plaintext (len s)) >> pure go_on
  handle_event fuel closed = say connection_lost >> connect_with_retry o websocket_url fuel
  handle_event fuel control = pure go_on
  handle_event fuel (socket_error e) =
      say (connection_error e) >> connect_with_retry o websocket_url fuel

  -- The loop over the events that come one after another; each time that the connection is lost,
  -- as far as `fuel` attempts.
  unfoldable pub run : ℕ → List Event → Client Flow
  run fuel [] s = (ok go_on, s)
  run fuel (event ∷ events) s =
      let (r, s') = handle_event fuel event s in
      elim r [
        | err e ↦ (err e, s')
        | ok flow ↦ elim flow [
          | go_on ↦ run fuel events s'
          | stop ↦ (ok stop, s')
          | waiting ↦ (ok waiting, s')
        ]
      ]
