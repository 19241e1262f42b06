-- ===== src/Client/Startup.antt =====
-- client/src/main.rs: `main`, from the arguments to the loop. What is printed before the identity
-- is loaded (the usage) is not kept, and the directory of the files is looked up once for both.
pub mod Registered
use phantasma.Prelude.{
  ℕ, Text, Bytes, String, Bool, Option, none, some, List, Result, ok, err, Exec, pure, raise, ◌>>=◌,
  ◌>>◌, map_err, [], if◌then◌else◌,
}
use phantasma.Prelude.Utf8.{text}
use phantasma.Shared.Codec.{Codec}
use phantasma.Shared.Plaintext.{PlaintextChatMessage}
use phantasma.Shared.Encrypted.{EncryptedChatMessage}
use phantasma.Shared.Routed.{RoutedEncryptedMessage}
use phantasma.Client.Crypto.{Primitives}
use phantasma.Client.Keys.{Ed25519, io}
use phantasma.Client.Files.{Machine, failed}
use phantasma.Client.Identity as Identity
use phantasma.Client.Identity.{Identity, IdentityJson, Setting, Keyring}
use phantasma.Client.Contacts as Contacts
use phantasma.Client.Contacts.{ContactBook, Book}
use phantasma.Client.Arguments.{read_args}
use phantasma.Client.Endpoints.{ServerEndpoints, websocket_url}
use phantasma.Client.Directory.{
  Outside, ClientState, Client, OutputLine, lift, register_public_key, identity_failed,
  contacts_failed, bad_arguments, loaded_identity, created_identity, registered_key, own_name,
  command_help,
}
use phantasma.Client.Messages.{say}
use phantasma.Client.Commands.{Event, Flow, go_on, stop, waiting, connect_with_retry, run}

-- `env::var_os` and `env::current_dir`
pub record Process : Type 0 where
  pub var_os : Text → Option Text
  pub current_dir : Result String Text

unfoldable pub identity_root : Machine → Process → Result String Text
identity_root m process = elim (process.var_os (text "PHANTASMA_HOME")) [
  | some path ↦ ok path
  | none ↦ elim (process.var_os (text "HOME")) [
    | some home ↦ ok (m.join home (text ".phantasma"))
    | none ↦ elim process.current_dir [
      | ok dir ↦ ok (m.join dir (text ".phantasma"))
      | err e ↦ err e
    ]
  ]
]

abbrev on_keyring : {A : Type 0} → Keyring A → Client A
on_keyring m s =
    let (r, files) = m s.files in (map_err identity_failed r, record s { files = files })

abbrev on_book : {A : Type 0} → Book A → Client A
on_book m s = let (r, files) = m s.files in (map_err contacts_failed r, record s { files = files })

abbrev keep_book : ContactBook → Client Unit
keep_book book s = (ok tt, record s { book = book })

abbrev pub origin : Identity → OutputLine
origin identity =
    if identity.was_created then created_identity identity.path else loaded_identity identity.path

module _ {V : Type 0} (o : Outside) (process : Process) (ed25519 : Ed25519)
    (format : IdentityJson V) (p : Primitives) (plaintext : Codec PlaintextChatMessage)
    (encrypted_codec : Codec EncryptedChatMessage)
    (routed_codec : Codec RoutedEncryptedMessage) where
  abbrev pub setting : Setting V
  setting = record { machine = o.machine; primitives = p; ed25519 = ed25519; format = format }

  -- Once the client is connected.
  abbrev serve : Text → ServerEndpoints → Identity → ℕ → List Event → Flow → Client Flow
  serve name endpoints identity fuel events go_on = do
    say (own_name name)
    say command_help
    run o endpoints.http_base_url p plaintext encrypted_codec routed_codec name identity
        (websocket_url endpoints name) fuel events
  serve name endpoints identity fuel events stop = pure stop
  serve name endpoints identity fuel events waiting = pure waiting

  unfoldable pub start : Text → ServerEndpoints → ℕ → List Event → Client Flow
  start name endpoints fuel events = do
    root ← lift (map_err (λ e. identity_failed (io (failed e))) (identity_root o.machine process))
    identity ← on_keyring (Identity.load_or_create_in setting name root)
    book ← on_book (Contacts.load_or_create_in o.machine o.contacts_json name root)
    keep_book book
    say (origin identity)
    register_public_key o endpoints.http_base_url name identity.identity_public_key
        identity.encryption_public_key
    say (registered_key name)
    flow ← connect_with_retry o (websocket_url endpoints name) fuel
    serve name endpoints identity fuel events flow

  abbrev start_given : ℕ → List Event → Option (Text × ServerEndpoints) → Client Flow
  start_given fuel events none = pure stop
  start_given fuel events (some (name, endpoints)) = start name endpoints fuel events

  -- Nothing is in the state yet but the files. `stop` is the end without an error, after `/quit`, at
  -- the end of the input, or after `--help`.
  unfoldable pub main : List Text → ℕ → List Event → Client Flow
  main args fuel events = do
    given ← lift (map_err bad_arguments (read_args args))
    start_given fuel events given
