-- ===== src/Web/Session.antt =====
-- A whole session of the client with this relay.
use phantasma.Prelude.{ℕ, Text, List, All, some, ◌≡◌, text_eq}
use phantasma.Prelude.Dict
use phantasma.Shared.Codec.{Codec}
use phantasma.Shared.Plaintext.{PlaintextChatMessage}
use phantasma.Shared.Encrypted.{EncryptedChatMessage}
use phantasma.Shared.Routed.{RoutedEncryptedMessage}
use phantasma.Shared.Registration.{PublicKeyEntry}
use phantasma.Server.State.{AppState, Environment}
use phantasma.Client.Crypto.{Primitives}
use phantasma.Client.Identity.{Identity}
use phantasma.Client.Directory.{Outside, ClientState}
use phantasma.Client.Commands.{Event, run}
use phantasma.Client.Commands.Saved.{Leaves, run-keeps_contact}
use phantasma.Web.{Web, IsWeb, AnswersFrom}
use phantasma.Web.Honesty.{relay-IsHonest}

-- If every answer that the client gets is this relay's, in whatever state it is at each request, a
-- contact that is saved stays as it is through the whole session, whatever messages arrive, whoever
-- registers in between, and whatever is typed but an `/add` or `/lookup` of that very name.
pub run-keeps_contact_of_relay :
    (env : Environment) (web : Web) (states : ℕ → AppState) (o : Outside) (http_base_url : Text)
    (p : Primitives) (plaintext : Codec PlaintextChatMessage)
    (encrypted_codec : Codec EncryptedChatMessage) (routed_codec : Codec RoutedEncryptedMessage)
    (name : Text) (identity : Identity) (websocket_url : Text) (known : Text)
    (entry : PublicKeyEntry) (fuel : ℕ) (events : List Event) (s : ClientState)
    → IsWeb web http_base_url
    → AnswersFrom env web states o
    → All (Leaves known) events
    → Dict.get known s.book.contacts ≡ some entry
    → Dict.get known
        (run o http_base_url p plaintext encrypted_codec routed_codec name identity websocket_url
          fuel events s).1.book.contacts
      ≡ some entry
run-keeps_contact_of_relay env web states o http_base_url p plaintext encrypted_codec routed_codec
      name identity websocket_url known entry fuel events s lawful answers leaves saved =
    run-keeps_contact o http_base_url p plaintext encrypted_codec routed_codec name identity
      websocket_url (relay-IsHonest env web http_base_url states o lawful answers) known entry fuel
      events s leaves saved
