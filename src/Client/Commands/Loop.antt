-- ===== src/Client/Commands/Loop.antt =====
-- What the loop does over any lines and frames.
use phantasma.Prelude.{
  ℕ, ◌+◌, ◌<◌, Text, Bytes, Bool, true, false, List, [], ◌∷◌, ◌++◌, All, ok, none, ◌≡◌, ◌≢◌,
  Option-cases, refl, arith, text_eq, nat_eq, List-cases, inl, inr,
}
use phantasma.Prelude.Utf8.{text}
use phantasma.Prelude.Str.{trim, strip_prefix}
use phantasma.Prelude.Str.Laws.{strip_prefix-some}
use phantasma.Shared.Codec.{Codec}
use phantasma.Shared.Plaintext.{PlaintextChatMessage}
use phantasma.Shared.Encrypted.{EncryptedChatMessage}
use phantasma.Shared.Routed.{RoutedEncryptedMessage}
use phantasma.Client.Crypto.{Primitives}
use phantasma.Client.Identity.{Identity}
use phantasma.Client.Contacts.Names.{names}
use phantasma.Client.Directory.{Outside, ClientState, Client}
use phantasma.Client.Commands.{
  Command, nothing, quit, help, contacts, other, add, send, parse_command, prefixed, Event, typed,
  binary, plaintext_frame, closed, control, socket_error, end_of_input, input_error, Flow, go_on,
  connect_with_retry, print_contacts, print_names, handle_command, handle_event, run,
}
use phantasma.Client.Commands.Reconnect.{connect_with_retry-connects}

-- A command that does not end the loop, whatever the server answers.
abbrev stays : Command → Bool
stays quit = false
stays (add username) = false
stays _ = true

-- A line that is not `/quit` when it is trimmed, and neither `/add` nor `/lookup` with a name.
pub record EndsNothing (line : Text) : Type 0 where
  pub not_quit : trim line ≢ text "/quit"
  pub not_add : (rest : Text) → trim line ≢ text "/add " ++ rest
  pub not_lookup : (rest : Text) → trim line ≢ text "/lookup " ++ rest

-- Such a line, and anything that the socket gives.
abbrev pub IsHarmless : Event → Type 0
IsHarmless (typed line nonce) = EndsNothing line
IsHarmless end_of_input = ⊥
IsHarmless (input_error e) = ⊥
IsHarmless _ = Unit {0}

parse_command-stays : (line : Text) → EndsNothing line → stays (parse_command line) ≡ true
unfolding parse_command prefixed
parse_command-stays line h = elim (Option-cases (strip_prefix (text "/add ") (trim line))) [
  | inr (rest, e) ↦ absurd (h.not_add rest (strip_prefix-some (text "/add ") (trim line) rest e))
  | inl e ↦ elim (Option-cases (strip_prefix (text "/lookup ") (trim line))) [
    | inr (rest, l) ↦
        absurd (h.not_lookup rest (strip_prefix-some (text "/lookup ") (trim line) rest l))
    | inl l ↦ ground (arith, e, l, h.not_quit)
  ]
]

-- After any number of attempts, one of the next `fuel` succeeds.
abbrev pub Connects : Outside → Text → ℕ → Type 0
Connects o url fuel = (a : ℕ) → (n : ℕ) × (n < fuel) × (o.connect_fault (a + n) url ≡ none)

print_names-shown :
    (listed : List Text) (s : ClientState)
    → ((print_names listed s).0 ≡ ok tt) × ((print_names listed s).1.book ≡ s.book)
print_names-shown [] s = (refl, refl)
print_names-shown (u ∷ listed) s = print_names-shown listed _

pub print_contacts-shown :
    (s : ClientState) → ((print_contacts s).0 ≡ ok tt) × ((print_contacts s).1.book ≡ s.book)
unfolding print_contacts
print_contacts-shown s = elim (List-cases (names s.book)) [
  | inl e ↦ ground arith
  | inr (u, rest, e) ↦ ground (arith, print_names-shown (u ∷ rest) s)
]

retries :
    (o : Outside) (url : Text) (fuel : ℕ) (s : ClientState)
    → Connects o url fuel
    → (connect_with_retry o url fuel s).0 ≡ ok go_on
retries o url fuel s c =
    let (n, lt, e) = c s.attempts in (connect_with_retry-connects o url n fuel s e lt).0

module _ (o : Outside) (http_base_url : Text) (p : Primitives)
    (plaintext : Codec PlaintextChatMessage) (encrypted_codec : Codec EncryptedChatMessage)
    (routed_codec : Codec RoutedEncryptedMessage) (name : Text) (identity : Identity)
    (websocket_url : Text) where
  handle_command-stays :
      (command : Command) (nonce : Bytes) (s : ClientState)
      → stays command ≡ true
      → (handle_command o http_base_url p plaintext encrypted_codec routed_codec name identity
          websocket_url command nonce s).0
        ≡ ok go_on
  unfolding handle_command
  handle_command-stays nothing nonce s h = refl
  handle_command-stays quit nonce s h = absurd (cc)
  handle_command-stays help nonce s h = refl
  handle_command-stays contacts nonce s h = ground (arith, print_contacts-shown s)
  handle_command-stays (add u) nonce s h = absurd (cc)
  handle_command-stays (send rest) nonce s h = ground arith
  handle_command-stays other nonce s h = refl

  handle_event-goes_on :
      (fuel : ℕ) (event : Event) (s : ClientState)
      → Connects o websocket_url fuel
      → IsHarmless event
      → (handle_event o http_base_url p plaintext encrypted_codec routed_codec name identity
          websocket_url fuel event s).0
        ≡ ok go_on
  unfolding handle_event
  handle_event-goes_on fuel (typed line nonce) s c h =
      handle_command-stays (parse_command line) nonce s (parse_command-stays line h)
  handle_event-goes_on fuel end_of_input s c h = absurd h
  handle_event-goes_on fuel (input_error e) s c h = absurd h
  handle_event-goes_on fuel (binary bytes) s c h = ground arith
  handle_event-goes_on fuel (plaintext_frame t) s c h = refl
  handle_event-goes_on fuel closed s c h = retries o websocket_url fuel _ c
  handle_event-goes_on fuel control s c h = refl
  handle_event-goes_on fuel (socket_error e) s c h = retries o websocket_url fuel _ c

  abbrev loop : ℕ → List Event → Client Flow
  loop = run o http_base_url p plaintext encrypted_codec routed_codec name identity websocket_url

  -- When the server can always be reached again within `fuel` attempts, no frame from the relay,
  -- whatever is in it, no loss of the connection, and no line but `/quit`, `/add ...` and
  -- `/lookup ...` ends the loop, whatever fails meanwhile: what comes after all of them is handled in the state that
  -- they leave.
  pub run-goes_on :
      (fuel : ℕ) (events later : List Event) (s : ClientState)
      → Connects o websocket_url fuel
      → All IsHarmless events
      → let (r, s') = loop fuel events s in
        (r ≡ ok go_on) × (loop fuel (events ++ later) s ≡ loop fuel later s')
  unfolding run
  run-goes_on fuel [] later s c h = (refl, refl)
  run-goes_on fuel (event ∷ events) later s c h =
      let first = handle_event-goes_on fuel event s c h.0 in
      let next =
        (handle_event o http_base_url p plaintext encrypted_codec routed_codec name identity
          websocket_url fuel event s).1 in
      ground (arith, run-goes_on fuel events later next c h.1)
